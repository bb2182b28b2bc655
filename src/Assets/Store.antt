-- ===== src/Assets/Store.antt =====
-- The table of assets, and what the route confirm does to it. The schema is the one of
-- supabase/schema.sql, or that of before the deployment columns; `answers` says which requests
-- the database answers.
pub mod Claims
pub mod Changes
use owne_x.Base.{
  ℕ, Bool, true, false, not, ◌&&◌, Option, none, some, List, [], ◌∷◌, ◌==◌, if◌then◌else◌, any,
  filter, find, map,
}
use owne_x.Base.Text.{Text, codes, ◌===◌}
use owne_x.Assets.Binding.{ClaimVerdict, other_deployment, conflict, release, classify_claim}

pub record AssetRow : Type 0 where
  pub id : Text
  pub org_id : ℕ
  pub name : Text
  pub asset_hash : Text
  pub token_id : Option ℕ
  pub mint_tx_hash : Option Text
  pub chain_id : Option ℕ
  pub contract_address : Option Text

pub record AssetTable : Type 0 where
  pub rows : List AssetRow
  pub has_deployment_columns : Bool

pub record AssetDeployment : Type 0 where
  pub chain_id : ℕ
  pub contract_address : Text

pub data AssetRequest : Type 0 where
  load_draft read_claims bind : AssetRequest
  release_claim : Text → AssetRequest

-- `.eq("token_id", tokenId)`
abbrev pub holds_token : ℕ → AssetRow → Bool
holds_token token r = elim r.token_id [ none ↦ false | some t ↦ t == token ]

abbrev pub is_draft : AssetRow → Bool
is_draft r = elim r.token_id [ none ↦ true | some t ↦ false ]

unfoldable pub claims_on : ℕ → (keep : Text) → List AssetRow → List AssetRow
claims_on token keep rows = filter (λ r. holds_token token r && not (r.id === keep)) rows

abbrev pub released_row : AssetRow → AssetRow
released_row r = record r { token_id = none; mint_tx_hash = none }

-- `update({ token_id: null, mint_tx_hash: null })` of the id and the token.
unfoldable pub release_row : Text → ℕ → List AssetRow → List AssetRow
release_row id token rows =
    map (λ r. if r.id === id && holds_token token r then released_row r else r) rows

-- The stamp is read where the columns are there.
abbrev pub stamp_of : Bool → AssetRow → Option Text
stamp_of true r = r.contract_address
stamp_of false r = none

abbrev pub bound_row : Bool → AssetDeployment → ℕ → Text → AssetRow → AssetRow
bound_row true d token tx r = record r {
  token_id = some token;
  mint_tx_hash = some tx;
  chain_id = some d.chain_id;
  contract_address = some d.contract_address;
}
bound_row false d token tx r = record r { token_id = some token; mint_tx_hash = some tx }

-- `update(binding).eq("id", assetId).is("token_id", null)`
unfoldable pub bind_row : (AssetRow → AssetRow) → Text → List AssetRow → List AssetRow
bind_row f id rows = map (λ r. if r.id === id && is_draft r then f r else r) rows

abbrev unstamped : Option Text → Text
unstamped none = codes "unstamped"
unstamped (some a) = a

-- Another row has the key of the unique index: the token, with the stamp where there is one.
unfoldable pub is_taken : Bool → AssetDeployment → ℕ → Text → List AssetRow → Bool
is_taken true d token id rows =
    any
      (λ r.
        not (r.id === id)
        && holds_token token r
        && unstamped r.contract_address === d.contract_address)
      rows
is_taken false d token id rows = any (λ r. not (r.id === id) && holds_token token r) rows

pub data BindResult : Type 0 where
  bound : BindResult
  unique_violation no_draft_left bind_failed : BindResult

pub data ReleaseResult : Type 0 where
  all_released : ReleaseResult
  conflicts_with : AssetRow → ReleaseResult
  release_failed : ReleaseResult

module _ (answers : AssetRequest → Bool) (d : AssetDeployment) where
  -- `bindToken`: nothing is changed unless a draft is left and the token is free.
  unfoldable pub bind_token : Text → ℕ → Text → AssetTable → BindResult × AssetTable
  bind_token id token tx table =
      if not (answers bind)
      then (bind_failed, table)
      else if not (any (λ r. r.id === id && is_draft r) table.rows)
      then (no_draft_left, table)
      else if is_taken table.has_deployment_columns d token id table.rows
      then (unique_violation, table)
      else (
        bound,
        record {
          rows = bind_row (bound_row table.has_deployment_columns d token tx) id table.rows;
          has_deployment_columns = table.has_deployment_columns;
        },
      )

  unfoldable pub verdict_on : Text → Bool → AssetRow → ClaimVerdict
  verdict_on chain_hash columns r =
      classify_claim r.asset_hash (stamp_of columns r) chain_hash d.contract_address

  -- The loop of `releaseContradictedClaims`; a conflict ends it after what was released before.
  unfoldable pub release_claims :
      (chain_hash : Text) → ℕ → List AssetRow → AssetTable → ReleaseResult × AssetTable
  unfolding verdict_on
  release_claims chain_hash token [] table = (all_released, table)
  release_claims chain_hash token (c ∷ claims) table =
      elim (verdict_on chain_hash table.has_deployment_columns c) [
        | other_deployment ↦ release_claims chain_hash token claims table
        | conflict ↦ (conflicts_with c, table)
        | release ↦ elim (answers (release_claim c.id)) [
          | false ↦ (release_failed, table)
          | true ↦ release_claims chain_hash token claims (record {
            rows = release_row c.id token table.rows;
            has_deployment_columns = table.has_deployment_columns;
          })
        ]
      ]
