-- ===== src/Assets/Store/Changes.antt =====
-- What the requests of the route may change of each row, whichever of them are refused.
use owne_x.Base.{
  ℕ, ◌≡◌, ◌⊎◌, refl, sym, subst, ◌∙◌, inl, inr, Bool, true, ◌&&◌, none, some, List, [], ◌∷◌, map,
  Memᴰ, any, arith, Bool-cases, if◌then◌else◌,
}
use owne_x.Base.Text.{Text, ◌===◌, ===_iff}
use owne_x.Assets.Binding.{ClaimVerdict, other_deployment, conflict, release}
use owne_x.Assets.Store.{
  AssetRow, AssetTable, AssetDeployment, AssetRequest, holds_token, is_draft, released_row,
  release_row, bound_row, bind_row, bind_token, verdict_on, release_claims, is_taken, release_claim,
}

-- Two lists of one length whose entries are related place by place.
unfoldable pub Pointwise {ℓ} : {A : Type ℓ} → (A → A → Type 0) → List A → List A → Type 0
Pointwise R [] [] = Unit
Pointwise R (x ∷ xs) (y ∷ ys) = R x y × Pointwise R xs ys
Pointwise R [] (y ∷ ys) = ⊥
Pointwise R (x ∷ xs) [] = ⊥

pub Pointwise-map {ℓ} :
    {A : Type ℓ} (R : A → A → Type 0) (f : A → A) (l : List A)
    → ((x : A) → R x (f x))
    → Pointwise R l (map f l)
unfolding Pointwise
Pointwise-map R f [] h = tt
Pointwise-map R f (x ∷ l) h = (h x, Pointwise-map R f l h)

pub Pointwise-refl {ℓ} :
    {A : Type ℓ} (R : A → A → Type 0) (l : List A) → ((x : A) → R x x) → Pointwise R l l
unfolding Pointwise
Pointwise-refl R [] h = tt
Pointwise-refl R (x ∷ l) h = (h x, Pointwise-refl R l h)

pub Pointwise-trans {ℓ} :
    {A : Type ℓ} (R S T : A → A → Type 0) (a b c : List A)
    → ((x y z : A) → R x y → S y z → T x z)
    → Pointwise R a b
    → Pointwise S b c
    → Pointwise T a c
unfolding Pointwise
Pointwise-trans R S T [] [] [] k h g = tt
Pointwise-trans R S T (x ∷ a) (y ∷ b) (z ∷ c) k h g =
    (k x y z h.0 g.0, Pointwise-trans R S T a b c k h.1 g.1)
Pointwise-trans R S T [] [] (z ∷ c) k h g = g
Pointwise-trans R S T [] (y ∷ b) c k h g = elim h [ ]
Pointwise-trans R S T (x ∷ a) [] c k h g = elim h [ ]
Pointwise-trans R S T (x ∷ a) (y ∷ b) [] k h g = elim g [ ]

pub ClaimVerdict-cases :
    (v : ClaimVerdict) → (v ≡ other_deployment) ⊎ (v ≡ conflict) ⊎ (v ≡ release)
ClaimVerdict-cases other_deployment = inl refl
ClaimVerdict-cases conflict = inr (inl refl)
ClaimVerdict-cases release = inr (inr refl)

module _ (answers : AssetRequest → Bool) (d : AssetDeployment) where
  -- A claim of the row's id is contradicted by the chain, and the row holds the token no more.
  pub record Released (chain_hash : Text) (token : ℕ) (columns : Bool) (claims : List AssetRow)
      (x y : AssetRow) : Type 0 where
    pub claim : AssetRow
    pub claimed : Memᴰ claim claims
    pub same_id : claim.id ≡ x.id
    pub contradicted : verdict_on answers d chain_hash columns claim ≡ release
    pub held : x.token_id ≡ some token
    pub changed : y ≡ released_row x

  abbrev pub MayRelease : Text → ℕ → Bool → List AssetRow → AssetRow → AssetRow → Type 0
  MayRelease chain_hash token columns claims x y =
      (y ≡ x) ⊎ Released chain_hash token columns claims x y

  holds_token-some :
      (token : ℕ) (r : AssetRow) → holds_token token r ≡ true → r.token_id ≡ some token
  holds_token-some token r h = ground arith

  MayRelease-trans :
      (chain_hash : Text) (token : ℕ) (columns : Bool) (claims : List AssetRow) (x y z : AssetRow)
      → MayRelease chain_hash token columns claims x y
      → MayRelease chain_hash token columns claims y z
      → MayRelease chain_hash token columns claims x z
  MayRelease-trans hash token columns claims x y z (inl e) (inl f) = inl (f ∙ e)
  MayRelease-trans hash token columns claims x y z (inl e) (inr q) =
      inr (subst (λ w. Released hash token columns claims w z) e q)
  MayRelease-trans hash token columns claims x y z (inr p) (inl f) =
      inr (subst (λ w. Released hash token columns claims x w) (sym f) p)
  MayRelease-trans hash token columns claims x y z (inr p) (inr q) = absurd (cc (p.changed, q.held))

  release_row-MayRelease :
      (chain_hash : Text) (token : ℕ) (columns : Bool) (claims : List AssetRow) (c x : AssetRow)
      → Memᴰ c claims
      → verdict_on answers d chain_hash columns c ≡ release
      → MayRelease chain_hash token columns claims x
          (if x.id === c.id && holds_token token x then released_row x else x)
  release_row-MayRelease hash token columns claims c x m v =
      elim (Bool-cases (x.id === c.id && holds_token token x)) [
        | inr kept ↦ inl (rw kept refl)
        | inl hit ↦ inr (record {
          claim = c;
          claimed = m;
          same_id = ground (arith, ===_iff x.id c.id);
          contradicted = v;
          held = ground arith;
          changed = rw hit refl;
        })
      ]

  pub release_claims-MayRelease :
      (chain_hash : Text) (token : ℕ) (all_claims claims : List AssetRow) (table : AssetTable)
      → ((c : AssetRow) → Memᴰ c claims → Memᴰ c all_claims)
      → Pointwise
          (MayRelease chain_hash token table.has_deployment_columns all_claims)
          table.rows
          (release_claims answers d chain_hash token claims table).1.rows
  unfolding release_claims release_row
  release_claims-MayRelease hash token all_claims [] table sub =
      Pointwise-refl _ table.rows (λ x. inl refl)
  release_claims-MayRelease hash token all_claims (c ∷ claims) table sub =
      elim (ClaimVerdict-cases (verdict_on answers d hash table.has_deployment_columns c)) [
        | inl elsewhere ↦
            rw (elsewhere, release_claims)
              (release_claims-MayRelease hash token all_claims claims table
                (λ b m. sub b (Memᴰ.tail m)))
        | inr (inl conflicting) ↦
            rw (conflicting, release_claims) (Pointwise-refl _ table.rows (λ x. inl refl))
        | inr (inr stale) ↦ elim (Bool-cases (answers (release_claim c.id))) [
          | inr refused ↦
              rw (stale, refused, release_claims) (Pointwise-refl _ table.rows (λ x. inl refl))
          | inl answered ↦
              rw (stale, answered, release_claims)
                (step stale (
                  release_claims-MayRelease hash token all_claims claims after
                    (λ b m. sub b (Memᴰ.tail m))))
        ]
      ]
    where
      after : AssetTable
      after = record {
        rows = release_row c.id token table.rows;
        has_deployment_columns = table.has_deployment_columns;
      }

      step :
          verdict_on answers d hash table.has_deployment_columns c ≡ release
          → Pointwise
              (MayRelease hash token table.has_deployment_columns all_claims)
              after.rows
              (release_claims answers d hash token claims after).1.rows
          → Pointwise
              (MayRelease hash token table.has_deployment_columns all_claims)
              table.rows
              (release_claims answers d hash token claims after).1.rows
      step stale rest =
          Pointwise-trans _ _ _ table.rows after.rows _
            (MayRelease-trans hash token table.has_deployment_columns all_claims)
            (Pointwise-map _ _ table.rows (λ x.
              release_row-MayRelease hash token table.has_deployment_columns all_claims c x
                (sub c (Memᴰ.head refl)) stale))
            rest

  -- A draft of the id is bound, and no other row.
  abbrev pub MayBind : Text → ℕ → Text → Bool → AssetRow → AssetRow → Type 0
  MayBind id token tx columns x y =
      (y ≡ x) ⊎ ((x.id ≡ id) × (x.token_id ≡ none) × (y ≡ bound_row columns d token tx x))

  bind_row-MayBind :
      (id : Text) (token : ℕ) (tx : Text) (columns : Bool) (x : AssetRow)
      → MayBind id token tx columns x
          (if x.id === id && is_draft x then bound_row columns d token tx x else x)
  bind_row-MayBind id token tx columns x = elim (Bool-cases (x.id === id && is_draft x)) [
    | inr kept ↦ inl (rw kept refl)
    | inl hit ↦ inr (ground (arith, ===_iff x.id id), ground arith, rw hit refl)
  ]

  pub bind_token-MayBind :
      (id : Text) (token : ℕ) (tx : Text) (table : AssetTable)
      → Pointwise
          (MayBind id token tx table.has_deployment_columns)
          table.rows
          (bind_token answers d id token tx table).1.rows
  unfolding bind_token bind_row
  bind_token-MayBind id token tx table = elim (Bool-cases (answers AssetRequest.bind)) [
    | inr refused ↦ rw refused (Pointwise-refl _ table.rows (λ x. inl refl))
    | inl answered ↦ elim (Bool-cases (any (λ r. r.id === id && is_draft r) table.rows)) [
      | inr gone ↦ rw (answered, gone) (Pointwise-refl _ table.rows (λ x. inl refl))
      | inl there ↦
          elim (Bool-cases (is_taken table.has_deployment_columns d token id table.rows)) [
            | inl taken ↦ rw (answered, there, taken) (Pointwise-refl _ table.rows (λ x. inl refl))
            | inr free ↦
                rw (answered, there, free)
                  (Pointwise-map _ _ table.rows
                    (bind_row-MayBind id token tx table.has_deployment_columns))
          ]
    ]
  ]

  pub release_claims-columns :
      (chain_hash : Text) (token : ℕ) (claims : List AssetRow) (table : AssetTable)
      → (release_claims answers d chain_hash token claims table).1.has_deployment_columns
        ≡ table.has_deployment_columns
  unfolding release_claims
  release_claims-columns hash token [] table = refl
  release_claims-columns hash token (c ∷ claims) table =
      elim (ClaimVerdict-cases (verdict_on answers d hash table.has_deployment_columns c)) [
        | inl elsewhere ↦
            rw (elsewhere, release_claims) (release_claims-columns hash token claims table)
        | inr (inl conflicting) ↦ rw (conflicting, release_claims) refl
        | inr (inr stale) ↦ elim (Bool-cases (answers (release_claim c.id))) [
          | inr refused ↦ rw (stale, refused, release_claims) refl
          | inl answered ↦
              rw (stale, answered, release_claims) (release_claims-columns hash token claims _)
        ]
      ]
