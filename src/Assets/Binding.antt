-- ===== src/Assets/Binding.antt =====
-- apps/platform/lib/asset-binding.ts, and `readAsset` of lib/chain/index.ts.
use owne_x.Base.{
  ℕ, Bool, false, not, ◌&&◌, Option, none, some, ◌==◌, if◌then◌else◌, Read, ok, ◌>>=◌,
}
use owne_x.Base.Text.{Text, ◌===◌, is_empty, lower}

pub data ClaimVerdict : Type 0 where
  other_deployment conflict release : ClaimVerdict

abbrev pub same_hex : Text → Text → Bool
same_hex a b = lower a === lower b

-- Stamped, with a text that is not empty, and with another address.
abbrev pub stamped_elsewhere : Option Text → Text → Bool
stamped_elsewhere none deployed = false
stamped_elsewhere (some address) deployed =
    not (is_empty address) && not (same_hex address deployed)

-- The anchor and the stamp of the claim, what the chain holds, and the deployment.
unfoldable pub classify_claim :
    (asset_hash : Text) (contract_address : Option Text) (chain_asset_hash deployed : Text)
    → ClaimVerdict
classify_claim asset_hash contract_address chain_asset_hash deployed =
    if stamped_elsewhere contract_address deployed
    then other_deployment
    else if same_hex asset_hash chain_asset_hash
    then conflict
    else release

pub record NftRecord : Type 0 where
  pub org_id : ℕ
  pub asset_hash : Text
  pub assigned_to : Text

-- The view functions of AssetNFT at one block.
pub record AssetNft : Type 0 where
  pub get_asset : ℕ → Read NftRecord
  pub owner_of : ℕ → Read Text

pub record ChainAsset : Type 0 where
  pub org_id : ℕ
  pub asset_hash : Text
  pub assigned_to : Text
  pub owner : Text

asset_of : NftRecord → Text → ChainAsset
asset_of r owner = record {
  org_id = r.org_id;
  asset_hash = r.asset_hash;
  assigned_to = r.assigned_to;
  owner = owner;
}

-- A token of no organization is none.
unfoldable pub read_asset : AssetNft → ℕ → Read (Option ChainAsset)
unfolding asset_of
read_asset nft token = do
  r ← nft.get_asset token
  if r.org_id == 0 then ok none else do owner ← nft.owner_of token; ok (some (asset_of r owner))
