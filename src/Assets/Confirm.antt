-- ===== src/Assets/Confirm.antt =====
-- apps/platform/app/api/assets/[assetId]/confirm/route.ts: `POST`. Between its requests no other
-- request changes the table.
pub mod Changes
pub mod Draft
pub mod Sound
use owne_x.Base.{
  ℕ, Bool, true, false, not, Option, none, some, List, [], ◌∷◌, ◌==◌, if◌then◌else◌, find, Outcome,
  Read, ok, thrown,
}
use owne_x.Base.Text.{Text, codes, ◌===◌}
use owne_x.Chain.Reads.{Contracts}
use owne_x.Sessions.Guards.{
  GuardError, unauthorized, forbidden, read_threw, Member, require_permission,
}
use owne_x.Assets.Binding.{AssetNft, ChainAsset, read_asset, same_hex}
use owne_x.Assets.Store.{
  AssetRow, AssetTable, AssetDeployment, AssetRequest, load_draft, read_claims, claims_on,
  BindResult, bound, unique_violation, no_draft_left, bind_failed, bind_token, ReleaseResult,
  all_released, conflicts_with, release_failed, release_claims,
}

pub record ConfirmBody : Type 0 where
  pub token_id : ℕ
  pub tx_hash : Text

pub data ConfirmRequest : Type 0 where
  unreadable malformed : ConfirmRequest
  readable : ConfirmBody → ConfirmRequest

pub data ConfirmError : Type 0 where
  no_json invalid_body not_loaded no_such_draft already_bound : ConfirmError
  refused_by : GuardError → ConfirmError
  chain_threw : Text → ConfirmError
  no_token other_organization other_anchor : ConfirmError
  claims_not_read not_released : ConfirmError
  claimed_by : Text → ConfirmError
  taken no_longer_draft not_bound : ConfirmError

pub data ConfirmResponse : Type 0 where
  confirmed : ChainAsset → ConfirmResponse
  rejected : ConfirmError → ConfirmResponse

abbrev pub row_with_id : Text → List AssetRow → Option AssetRow
row_with_id id rows = find (λ r. r.id === id) rows

module _ (answers : AssetRequest → Bool) (chain : Contracts) (nft : AssetNft) (d : AssetDeployment)
    (caller : Option Text) where
  answer_bound : ChainAsset → BindResult → ConfirmResponse
  answer_bound asset bound = confirmed asset
  answer_bound asset unique_violation = rejected taken
  answer_bound asset no_draft_left = rejected no_longer_draft
  answer_bound asset bind_failed = rejected not_bound

  after_release :
      Text → ConfirmBody → ChainAsset → ReleaseResult × AssetTable → ConfirmResponse × AssetTable
  unfolding answer_bound
  after_release id body asset (conflicts_with c, table) = (rejected (claimed_by c.name), table)
  after_release id body asset (release_failed, table) = (rejected not_released, table)
  after_release id body asset (all_released, table) =
      let (result, table) = bind_token answers d id body.token_id body.tx_hash table in
      (answer_bound asset result, table)

  -- The claims of the token, and the binding.
  claim_token : Text → ConfirmBody → ChainAsset → AssetTable → ConfirmResponse × AssetTable
  unfolding after_release
  claim_token id body asset table =
      if answers read_claims
      then after_release id body asset (
          release_claims answers d asset.asset_hash body.token_id
            (claims_on body.token_id id table.rows) table)
      else (rejected claims_not_read, table)

  -- What the chain says of the token, compared with the draft.
  compare_asset :
      Text
      → AssetRow
      → ConfirmBody
      → Read (Option ChainAsset)
      → AssetTable
      → ConfirmResponse × AssetTable
  unfolding claim_token
  compare_asset id draft body (thrown reason) table = (rejected (chain_threw reason), table)
  compare_asset id draft body (ok none) table = (rejected no_token, table)
  compare_asset id draft body (ok (some asset)) table =
      if not (asset.org_id == draft.org_id)
      then (rejected other_organization, table)
      else if not (same_hex asset.asset_hash draft.asset_hash)
      then (rejected other_anchor, table)
      else claim_token id body asset table

  check_draft : Text → ConfirmBody → AssetRow → AssetTable → ConfirmResponse × AssetTable
  unfolding compare_asset
  check_draft id body draft table = elim draft.token_id [
    | some token ↦ (rejected already_bound, table)
    | none ↦ elim (require_permission chain caller draft.org_id (codes "MINT_ASSETS")) [
      | thrown reason ↦ (rejected (refused_by reason), table)
      | ok member ↦ compare_asset id draft body (read_asset nft body.token_id) table
    ]
  ]

  unfoldable pub confirm : Text → ConfirmRequest → AssetTable → ConfirmResponse × AssetTable
  unfolding check_draft
  confirm id unreadable table = (rejected no_json, table)
  confirm id malformed table = (rejected invalid_body, table)
  confirm id (readable body) table =
      if not (answers load_draft)
      then (rejected not_loaded, table)
      else elim (row_with_id id table.rows) [
        | none ↦ (rejected no_such_draft, table)
        | some draft ↦ check_draft id body draft table
      ]
