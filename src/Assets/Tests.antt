-- ===== src/Assets/Tests.antt =====
-- A draft that takes its token over from a record of an earlier deployment.
use owne_x.Base.{◌≡◌, refl, true, Bool, some, none, [], ◌∷◌, ok}
use owne_x.Base.Text.{codes, ◌===◌, is_empty, lower}
use owne_x.Chain.Roles.{role_name}
use owne_x.Chain.Reads.{read_identity, read_effective_role, read_has_permission}
use owne_x.Sessions.Guards.{require_caller, require_active_identity, require_permission}
use owne_x.Access.Tests.{chain}
use owne_x.Assets.Binding.{AssetNft, ChainAsset, read_asset, classify_claim}
use owne_x.Assets.Store.{
  AssetRow, AssetTable, AssetDeployment, AssetRequest, claims_on, release_claims, verdict_on,
  release_row, bind_token, bind_row, is_taken,
}
use owne_x.Assets.Store.Changes.{Pointwise}
use owne_x.Assets.Confirm.{ConfirmBody, confirmed, readable, confirm}
use owne_x.Assets.Confirm.Changes.{Changed, confirm-Changed}
use owne_x.Assets.Confirm.Sound.{Confirmation, confirm-Confirmation}

abbrev answers : AssetRequest → Bool
answers r = true

abbrev nft : AssetNft
nft = record {
  get_asset =
      λ t. ok (record { org_id = 7; asset_hash = codes "0xAB"; assigned_to = codes "0xa2" });
  owner_of = λ t. ok (codes "0xa1");
}

abbrev deployment : AssetDeployment
deployment = record { chain_id = 1; contract_address = codes "0xcc" }

abbrev body : ConfirmBody
body = record { token_id = 5; tx_hash = codes "0x01" }

abbrev stale : AssetRow
stale = record {
  id = codes "a";
  org_id = 7;
  name = codes "old";
  asset_hash = codes "0xff";
  token_id = some 5;
  mint_tx_hash = some (codes "0x00");
  chain_id = none;
  contract_address = none;
}

abbrev fresh : AssetRow
fresh = record {
  id = codes "b";
  org_id = 7;
  name = codes "new";
  asset_hash = codes "0xab";
  token_id = none;
  mint_tx_hash = none;
  chain_id = none;
  contract_address = none;
}

abbrev table : AssetTable
table = record { rows = stale ∷ fresh ∷ []; has_deployment_columns = true }

abbrev minted : ChainAsset
minted = record {
  org_id = 7;
  asset_hash = codes "0xAB";
  assigned_to = codes "0xa2";
  owner = codes "0xa1";
}

confirm_run :
    (confirm answers chain nft deployment (some (codes "0xa1")) (codes "b") (readable body) table).0
    ≡ confirmed minted
unfolding confirm require_permission require_active_identity require_caller read_identity
    read_effective_role read_has_permission role_name is_empty lower ◌===◌ read_asset claims_on
    release_claims verdict_on classify_claim release_row bind_token bind_row is_taken
confirm_run = refl

confirm-Changed_example :
    Pointwise
      (Changed answers chain nft deployment (some (codes "0xa1")) (codes "b") body table)
      table.rows
      (confirm answers chain nft deployment
        (some (codes "0xa1"))
        (codes "b")
        (readable body)
        table).1.rows
confirm-Changed_example =
    confirm-Changed answers chain nft deployment (some (codes "0xa1")) (codes "b") body table

confirm-Confirmation_example :
    Confirmation answers chain nft deployment
      (some (codes "0xa1"))
      (codes "b")
      body
      table
      (confirm answers chain nft deployment
        (some (codes "0xa1"))
        (codes "b")
        (readable body)
        table).1
      minted
confirm-Confirmation_example =
    confirm-Confirmation answers chain nft deployment (some (codes "0xa1")) (codes "b") body table
      minted confirm_run
