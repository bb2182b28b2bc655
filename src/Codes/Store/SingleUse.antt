-- ===== src/Codes/Store/SingleUse.antt =====
-- A code is redeemed at most once, in every order of calls on a lawful store.
use owne_x.Base.{
  ℕ, suc, ◌≤◌, ◌≡◌, ◌⊎◌, refl, sym, subst, ◌∙◌, inl, inr, Bool, true, false, Option, none, some,
  List, [], ◌∷◌, arith, if◌then◌else◌, Read, ok, thrown, Bool-cases,
}
use owne_x.Base.Text.{Text, ◌===◌, ===_iff}
use mathlib.Core.Option.{some-injective}
use owne_x.Codes.Store.{
  StoredGrant, ConsumeQuery, ConsumedGrant, Row, redeemable, used_row, AuthorizationCodeStore,
  IsLawful,
}

-- A call by any request, in the order in which the store serves them.
pub data Call : Type 0 where
  insertion : StoredGrant → Call
  redemption : ConsumeQuery → Call

abbrev pub is_grant : Read (Option ConsumedGrant) → Bool
is_grant (ok (some g)) = true
is_grant _ = false

abbrev pub IsUsed : Option Row → Type 0
IsUsed row = (r : Row) × (t : ℕ) × (row ≡ some r) × (r.used_at ≡ some t)

is_grant-cases :
    (a : Read (Option ConsumedGrant))
    → (is_grant a ≡ false) ⊎ ((g : ConsumedGrant) × (a ≡ ok (some g)))
is_grant-cases (ok none) = inl refl
is_grant-cases (ok (some g)) = inr (g, refl)
is_grant-cases (thrown e) = inl refl

used-not_redeemable :
    (q : ConsumeQuery) (r r' : Row) (t : ℕ)
    → r ≡ r'
    → r'.used_at ≡ some t
    → redeemable q r ≡ true
    → ⊥
unfolding redeemable
used-not_redeemable q r r' t same used h = ground arith

-- How often a run of calls hands out the grant of the code `c`.
pub redemptions : {S : Type 0} → AuthorizationCodeStore S → Text → List Call → S → ℕ
redemptions store c [] s = 0
redemptions store c (insertion g ∷ calls) s = redemptions store c calls (store.insert g s).1
redemptions store c (redemption q ∷ calls) s =
    let (answer, s') = store.consume q s in
    let later = redemptions store c calls s' in
    if q.code === c then (if is_grant answer then suc later else later) else later

module _ {S : Type 0} {store : AuthorizationCodeStore S} {IsValid : S → Type 0}
    {row : S → Text → Option Row} (L : IsLawful store IsValid row) where
  pub IsUsed-insert :
      (g : StoredGrant) (s : S) (c : Text)
      → IsValid s
      → IsUsed (row s c)
      → IsUsed (row (store.insert g s).1 c)
  IsUsed-insert g s c v (r, t, held, used) = elim (L.insert-row g s c v) [
    | inl same ↦ (r, t, same ∙ held, used)
    | inr (absent, _) ↦ absurd (ground arith)
  ]

  pub IsUsed-consume :
      (q : ConsumeQuery) (s : S) (c : Text)
      → IsValid s
      → IsUsed (row s c)
      → IsUsed (row (store.consume q s).1 c)
  IsUsed-consume q s c v (r, t, held, used) = elim (L.consume-row q s c v) [
    | inl same ↦ (r, t, same ∙ held, used)
    | inr (r', _, _, marked) ↦ (used_row q r', q.now, marked, refl)
  ]

  pub used-refused :
      (q : ConsumeQuery) (s : S)
      → IsValid s
      → IsUsed (row s q.code)
      → is_grant (store.consume q s).0 ≡ false
  used-refused q s v (r, t, held, used) = elim (is_grant-cases (store.consume q s).0) [
    | inl refused ↦ refused
    | inr (g, granted) ↦
        let (r', found, free, told, marked) = L.consume-some q s g v granted in
        absurd (used-not_redeemable q r' r t (some-injective _ _ (sym found ∙ held)) used free)
  ]

  redemptions-used :
      (c : Text) (calls : List Call) (s : S)
      → IsValid s
      → IsUsed (row s c)
      → redemptions store c calls s ≡ 0
  unfolding redemptions
  redemptions-used c [] s v u = refl
  redemptions-used c (insertion g ∷ calls) s v u =
      redemptions-used c calls (store.insert g s).1 (L.insert-IsValid g s v)
        (IsUsed-insert g s c v u)
  redemptions-used c (redemption q ∷ calls) s v u =
      let s' = (store.consume q s).1 in
      let later =
        redemptions-used c calls s' (L.consume-IsValid q s v) (IsUsed-consume q s c v u) in
      elim (Bool-cases (q.code === c)) [
        | inl same ↦
            rw (same, redemptions, used-refused q s v (rw ((===_iff q.code c).0 same) u)) later
        | inr other ↦ rw (other, redemptions) later
      ]

  pub consumed-IsUsed :
      (q : ConsumeQuery) (s : S)
      → IsValid s
      → (g : ConsumedGrant) → (store.consume q s).0 ≡ ok (some g)
      → IsUsed (row (store.consume q s).1 q.code)
  consumed-IsUsed q s v g granted =
      let (r, found, free, told, marked) = L.consume-some q s g v granted in
      (used_row q r, q.now, marked, refl)

  -- Over a lawful store in a valid state, in every sequence of insertions and redemptions, by
  -- whatever clients and at whatever times, the grant of a code is handed out at most once.
  pub redemptions-le-one :
      (c : Text) (calls : List Call) (s : S) → IsValid s → redemptions store c calls s ≤ 1
  unfolding redemptions
  redemptions-le-one c [] s v = omega arith
  redemptions-le-one c (insertion g ∷ calls) s v =
      redemptions-le-one c calls (store.insert g s).1 (L.insert-IsValid g s v)
  redemptions-le-one c (redemption q ∷ calls) s v =
      let s' = (store.consume q s).1 in
      let later = redemptions-le-one c calls s' (L.consume-IsValid q s v) in
      elim (Bool-cases (q.code === c)) [
        | inr other ↦ rw (other, redemptions) later
        | inl same ↦ elim (is_grant-cases (store.consume q s).0) [
          | inl refused ↦ rw (same, redemptions, refused) later
          | inr (g, granted) ↦
              let used =
                subst (λ k. IsUsed (row s' k)) ((===_iff q.code c).0 same)
                  (consumed-IsUsed q s v g granted) in
              rw (same, redemptions, granted)
                (omega (arith, redemptions-used c calls s' (L.consume-IsValid q s v) used))
        ]
      ]
