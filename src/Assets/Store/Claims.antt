-- ===== src/Assets/Store/Claims.antt =====
-- What the verdict on a claim says of its record.
use owne_x.Base.{
  ℕ, ◌≡◌, ◌≢◌, ◌⊎◌, refl, inl, inr, Bool, true, false, not, ◌&&◌, some, List, Memᴰ, Memᴰ-filter,
  filter-Memᴰ, arith, Bool-cases, Option-cases,
}
use owne_x.Base.Text.{Text, ◌===◌, ===_iff, is_empty, is_empty_iff, lower}
use owne_x.Assets.Binding.{conflict, release, classify_claim, stamped_elsewhere, same_hex}
use owne_x.Assets.Store.{
  [], AssetRow, AssetDeployment, AssetRequest, holds_token, claims_on, stamp_of, verdict_on,
}

-- A record other than the one with the id holds the token.
abbrev pub IsClaim : ℕ → Text → List AssetRow → AssetRow → Type 0
IsClaim token id rows c = Memᴰ c rows × (c.token_id ≡ some token) × (c.id ≢ id)

-- The record is stamped with the address of another deployment.
abbrev pub StampedElsewhere : Bool → AssetDeployment → AssetRow → Type 0
StampedElsewhere columns d c =
    (columns ≡ true)
    × ((address : Text) × (c.contract_address ≡ some address)
        × (address ≢ [])
        × (lower address ≢ lower d.contract_address))

claims_on-holds :
    (token : ℕ) (id : Text) (c : AssetRow)
    → (holds_token token c && not (c.id === id)) ≡ true
    → (c.token_id ≡ some token) × (c.id ≢ id)
claims_on-holds token id c h = ground (arith, ===_iff c.id id)

pub claims_on-IsClaim :
    (token : ℕ) (id : Text) (rows : List AssetRow) (c : AssetRow)
    → Memᴰ c (claims_on token id rows)
    → IsClaim token id rows c
unfolding claims_on
claims_on-IsClaim token id rows c m =
    let (there, holds) = Memᴰ-filter (λ r. holds_token token r && not (r.id === id)) c rows m in
    let (held, other) = claims_on-holds token id c holds in (there, held, other)

pub IsClaim-claims_on :
    (token : ℕ) (id : Text) (rows : List AssetRow) (c : AssetRow)
    → IsClaim token id rows c
    → Memᴰ c (claims_on token id rows)
unfolding claims_on
IsClaim-claims_on token id rows c (there, held, other) =
    filter-Memᴰ (λ r. holds_token token r && not (r.id === id)) c rows there
      (rw held (ground (arith, ===_iff c.id id)))

stamped_elsewhere-Stamped :
    (columns : Bool) (d : AssetDeployment) (c : AssetRow)
    → stamped_elsewhere (stamp_of columns c) d.contract_address ≡ true
    → StampedElsewhere columns d c
stamped_elsewhere-Stamped false d c h = absurd (cc h)
stamped_elsewhere-Stamped true d c h = elim (Option-cases c.contract_address) [
  | inl unstamped ↦ absurd (cc (rw unstamped at h))
  | inr (address, e) ↦
      let (stamp, other) = parts address (rw e at h) in (refl, (address, e, stamp, other))
]
  where
    parts :
        (address : Text)
        → (not (is_empty address) && not (same_hex address d.contract_address)) ≡ true
        → (address ≢ []) × (lower address ≢ lower d.contract_address)
    parts address g = (
      ground (arith, is_empty_iff address),
      ground (arith, ===_iff (lower address) (lower d.contract_address)),
    )

Stamped-stamped_elsewhere :
    (columns : Bool) (d : AssetDeployment) (c : AssetRow)
    → StampedElsewhere columns d c
    → stamped_elsewhere (stamp_of columns c) d.contract_address ≡ true
Stamped-stamped_elsewhere columns d c (there, (address, e, given, other)) =
    rw (there, stamp_of, e)
      (ground (arith, is_empty_iff address, ===_iff (lower address) (lower d.contract_address)))

module _ (answers : AssetRequest → Bool) (d : AssetDeployment) (chain_hash : Text) (columns : Bool)
    (c : AssetRow) where
  -- No conflict: the record is another deployment's, or has another anchor than the token.
  pub verdict_on-uncontested :
      verdict_on answers d chain_hash columns c ≢ conflict
      → StampedElsewhere columns d c ⊎ (lower c.asset_hash ≢ lower chain_hash)
  unfolding verdict_on classify_claim
  verdict_on-uncontested h =
      elim (Bool-cases (stamped_elsewhere (stamp_of columns c) d.contract_address)) [
        | inl elsewhere ↦ inl (stamped_elsewhere-Stamped columns d c elsewhere)
        | inr here ↦ inr (ground (arith, ===_iff (lower c.asset_hash) (lower chain_hash)))
      ]

  -- A release: the record is not another deployment's and has another anchor than the token.
  pub verdict_on-contradicted :
      verdict_on answers d chain_hash columns c ≡ release
      → (¬ StampedElsewhere columns d c) × (lower c.asset_hash ≢ lower chain_hash)
  unfolding verdict_on classify_claim
  verdict_on-contradicted h = (
    λ s. ground (arith, Stamped-stamped_elsewhere columns d c s),
    ground (arith, ===_iff (lower c.asset_hash) (lower chain_hash)),
  )
