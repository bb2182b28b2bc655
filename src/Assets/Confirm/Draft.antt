-- ===== src/Assets/Confirm/Draft.antt =====
-- The draft under the requests: releases leave it alone and the binding reaches it.
use mathlib.Core.Option.{bind}
use owne_x.Base.{
  ℕ, ◌≡◌, ◌≢◌, refl, sym, ap, ◌∙◌, inl, inr, Bool, true, false, ◌&&◌, none, some, List, [], ◌∷◌,
  Memᴰ, map, find, arith, Bool-cases, if◌then◌else◌, any,
}
use mathlib.Core.Option
use owne_x.Base.Text.{Text, ◌===◌}
use owne_x.Assets.Binding.{conflict}
use owne_x.Assets.Store.{
  AssetRow, AssetTable, AssetDeployment, AssetRequest, holds_token, is_draft, released_row,
  release_row, bound_row, bind_row, bound, bind_token, is_taken, verdict_on, all_released,
  release_claims, release_claim,
}
use owne_x.Assets.Store.Changes.{ClaimVerdict-cases}
use owne_x.Assets.Confirm.{row_with_id}

find-map {ℓ} :
    {A : Type ℓ} (p : A → Bool) (f : A → A) (xs : List A) (a : A)
    → ((x : A) → p (f x) ≡ p x)
    → find p xs ≡ some a
    → find p (map f xs) ≡ some (f a)
find-map p f [] a h e = absurd (cc e)
find-map p f (x ∷ xs) a h e = elim (Bool-cases (p x)) [
  | inl yes' ↦ rw (h x, yes') (ap (λ o. Option.map f o) (rw yes' at e))
  | inr no' ↦ rw (h x, no') (find-map p f xs a h (rw no' at e))
]

find-true {ℓ} : {A : Type ℓ} (p : A → Bool) (xs : List A) (a : A) → find p xs ≡ some a → p a ≡ true
find-true p [] a e = absurd (cc e)
find-true p (x ∷ xs) a e = elim (Bool-cases (p x)) [
  | inl hit ↦ ap p (sym (cc (rw hit at e))) ∙ hit
  | inr miss ↦ find-true p xs a (rw miss at e)
]

module _ (answers : AssetRequest → Bool) (d : AssetDeployment) (id : Text) where
  -- Releasing rows leaves a draft alone.
  release_row-draft :
      (other : Text) (token : ℕ) (rows : List AssetRow) (draft : AssetRow)
      → draft.token_id ≡ none
      → row_with_id id rows ≡ some draft
      → row_with_id id (release_row other token rows) ≡ some draft
  unfolding release_row
  release_row-draft other token rows draft free e =
      find-map (λ r. r.id === id) _ rows draft keeps e ∙ ap (λ r. some r) untouched
    where
      keeps :
          (x : AssetRow)
          → ((if x.id === other && holds_token token x then released_row x else x).id === id)
            ≡ (x.id === id)
      keeps x = elim (Bool-cases (x.id === other && holds_token token x)) [
        | inl hit ↦ rw hit refl
        | inr kept ↦ rw kept refl
      ]

      untouched :
          (if draft.id === other && holds_token token draft then released_row draft else draft)
          ≡ draft
      untouched = ground arith

  pub release_claims-draft :
      (chain_hash : Text) (token : ℕ) (claims : List AssetRow) (table : AssetTable)
      (draft : AssetRow)
      → draft.token_id ≡ none
      → row_with_id id table.rows ≡ some draft
      → row_with_id id (release_claims answers d chain_hash token claims table).1.rows ≡ some draft
  unfolding release_claims
  release_claims-draft hash token [] table draft free e = e
  release_claims-draft hash token (c ∷ claims) table draft free e =
      elim (ClaimVerdict-cases (verdict_on answers d hash table.has_deployment_columns c)) [
        | inl elsewhere ↦
            rw (elsewhere, release_claims)
              (release_claims-draft hash token claims table draft free e)
        | inr (inl conflicting) ↦ rw (conflicting, release_claims) e
        | inr (inr stale) ↦ elim (Bool-cases (answers (release_claim c.id))) [
          | inr refused ↦ rw (stale, refused, release_claims) e
          | inl answered ↦
              rw (stale, answered, release_claims)
                (release_claims-draft hash token claims _ draft free
                  (release_row-draft c.id token table.rows draft free e))
        ]
      ]

  -- Where all claims were released, none of them is one that the chain confirms.
  pub release_claims-uncontested :
      (chain_hash : Text) (token : ℕ) (claims : List AssetRow) (table : AssetTable)
      → (release_claims answers d chain_hash token claims table).0 ≡ all_released
      → (c : AssetRow) → Memᴰ c claims
      → verdict_on answers d chain_hash table.has_deployment_columns c ≢ conflict
  unfolding release_claims
  release_claims-uncontested hash token [] table h c m = elim m [ ]
  release_claims-uncontested hash token (b ∷ claims) table h c m =
      elim (ClaimVerdict-cases (verdict_on answers d hash table.has_deployment_columns b)) [
        | inl elsewhere ↦ elim m [
          | Memᴰ.head e ↦ ground (arith, elsewhere, e)
          | Memᴰ.tail n ↦
              release_claims-uncontested hash token claims table
                (rw (elsewhere, release_claims) at h) c n
        ]
        | inr (inl conflicting) ↦ absurd (cc (rw (conflicting, release_claims) at h))
        | inr (inr stale) ↦ elim (Bool-cases (answers (release_claim b.id))) [
          | inr refused ↦ absurd (cc (rw (stale, refused, release_claims) at h))
          | inl answered ↦ elim m [
            | Memᴰ.head e ↦ ground (arith, stale, e)
            | Memᴰ.tail n ↦
                release_claims-uncontested hash token claims _
                  (rw (stale, answered, release_claims) at h) c n
          ]
        ]
      ]

  pub bind_token-draft :
      (token : ℕ) (tx : Text) (table : AssetTable) (draft : AssetRow)
      → draft.token_id ≡ none
      → row_with_id id table.rows ≡ some draft
      → (bind_token answers d id token tx table).0 ≡ bound
      → row_with_id id (bind_token answers d id token tx table).1.rows
        ≡ some (bound_row table.has_deployment_columns d token tx draft)
  unfolding bind_token bind_row
  bind_token-draft token tx table draft free e h = elim (Bool-cases (answers AssetRequest.bind)) [
    | inr refused ↦ absurd (cc (rw refused at h))
    | inl answered ↦ elim (Bool-cases (any (λ r. r.id === id && is_draft r) table.rows)) [
      | inr gone ↦ absurd (cc (rw (answered, gone) at h))
      | inl there ↦
          elim (Bool-cases (is_taken table.has_deployment_columns d token id table.rows)) [
            | inl taken ↦ absurd (cc (rw (answered, there, taken) at h))
            | inr untaken ↦
                rw (answered, there, untaken)
                  (find-map (λ r. r.id === id) _ table.rows draft keeps e
                    ∙ ap (λ r. some r) binding)
          ]
    ]
  ]
    where
      bound_id : (columns : Bool) (x : AssetRow) → (bound_row columns d token tx x).id ≡ x.id
      bound_id true x = refl
      bound_id false x = refl

      keeps :
          (x : AssetRow)
          → ((if x.id === id && is_draft x
                then bound_row table.has_deployment_columns d token tx x
                else x).id
              === id)
            ≡ (x.id === id)
      keeps x = elim (Bool-cases (x.id === id && is_draft x)) [
        | inl hit ↦ rw (hit, bound_id table.has_deployment_columns x) refl
        | inr kept ↦ rw kept refl
      ]

      binding :
          (if draft.id === id && is_draft draft
            then bound_row table.has_deployment_columns d token tx draft
            else draft)
          ≡ bound_row table.has_deployment_columns d token tx draft
      binding = rw (find-true (λ r. r.id === id) table.rows draft e, free) refl
