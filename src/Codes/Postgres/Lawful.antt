-- ===== src/Codes/Postgres/Lawful.antt =====
-- The store in Postgres is lawful, whatever replies are refused or lost.
use mathlib.Core.Option
use owne_x.Base.{
  ◌≡◌, ◌⊎◌, refl, sym, ap, subst, ◌++◌, ◌∙◌, inl, inr, true, false, Option, none, some, List, [],
  ◌∷◌, map, arith, filter, ok, Bool-cases, Option-cases, if◌then◌else◌,
}
use owne_x.Base.Text.{Text, ◌===◌, ===_iff}
use owne_x.Codes.Store.{
  StoredGrant, ConsumeQuery, ConsumedGrant, Row, redeemable, fresh_row, used_row, consumed_of,
  IsLawful,
}
use owne_x.Codes.Rows.{
  row_of, row_of-code, row_of-map, row_of-append, HasDistinctCodes, HasDistinctCodes-map,
  HasDistinctCodes-append,
}
use owne_x.Codes.Postgres.{
  Reply, delivered, refused, lost, next_reply, matches, claim, single, insert_reply, consume_reply,
  supabase_code_store,
}

-- The update's condition is the code and what makes a row redeemable.
pub matches_iff :
    (q : ConsumeQuery) (r : Row)
    → matches q r ≡ (if r.grant.code === q.code then redeemable q r else false)
unfolding matches redeemable
matches_iff q r = ground arith

claim-code : (q : ConsumeQuery) (r : Row) → (claim q r).grant.code ≡ r.grant.code
unfolding claim
claim-code q r = ground arith

claim-row :
    (q : ConsumeQuery) (rows : List Row) (c : Text)
    → row_of c (map (claim q) rows) ≡ Option.map (claim q) (row_of c rows)
claim-row q rows c = row_of-map c (claim q) (claim-code q) rows

pub filter-absent :
    (q : ConsumeQuery) (rows : List Row) → row_of q.code rows ≡ none → filter (matches q) rows ≡ []
unfolding row_of
filter-absent q [] h = refl
filter-absent q (x ∷ rows) h = ground (arith, matches_iff q x, filter-absent q rows)

abbrev pub selection : ConsumeQuery → Option Row → List Row
selection q none = []
selection q (some r) = if redeemable q r then r ∷ [] else []

-- At most the row of the code is selected.
pub filter-selection :
    (q : ConsumeQuery) (rows : List Row)
    → HasDistinctCodes rows
    → filter (matches q) rows ≡ selection q (row_of q.code rows)
unfolding row_of
filter-selection q [] h = refl
filter-selection q (x ∷ rows) (new, h) = elim (Bool-cases (x.grant.code === q.code)) [
  | inl same ↦
      let absent =
        filter-absent q rows
          (ap (λ k. row_of k rows) (sym ((===_iff x.grant.code q.code).0 same)) ∙ new) in
      ground (arith, matches_iff q x)
  | inr other ↦ ground (arith, matches_iff q x, filter-selection q rows h)
]

claim-row_other :
    (q : ConsumeQuery) (rows : List Row) (c : Text)
    → (q.code === c) ≡ false
    → row_of c (map (claim q) rows) ≡ row_of c rows
unfolding claim
claim-row_other q rows c other = elim (Option-cases (row_of c rows)) [
  | inl absent ↦ ground (arith, claim-row q rows c)
  | inr (x, held) ↦ ground (
    arith,
    claim-row q rows c,
    matches_iff q x,
    row_of-code c rows x,
    ===_iff x.grant.code q.code,
    ===_iff q.code c,
  )
]

-- The row of the code is used if it was redeemable, and else left.
claim-row_same :
    (q : ConsumeQuery) (rows : List Row) (r : Row)
    → row_of q.code rows ≡ some r
    → row_of q.code (map (claim q) rows) ≡ some (if redeemable q r then used_row q r else r)
unfolding claim
claim-row_same q rows r found = ground (
  arith,
  claim-row q rows q.code,
  matches_iff q r,
  row_of-code q.code rows r,
  ===_iff r.grant.code q.code,
)

module _ (q : ConsumeQuery) (rows : List Row) where
  claim-row_cases :
      (c : Text)
      → (row_of c (map (claim q) rows) ≡ row_of c rows)
        ⊎ ((r : Row) × (row_of c rows ≡ some r)
            × (redeemable q r ≡ true)
            × (row_of c (map (claim q) rows) ≡ some (used_row q r)))
  claim-row_cases c = elim (Bool-cases (q.code === c)) [
    | inr other ↦ inl (claim-row_other q rows c other)
    | inl same ↦ elim (Option-cases (row_of c rows)) [
      | inl absent ↦ inl (ground (arith, claim-row q rows c))
      | inr (r, held) ↦
          let code_is : q.code ≡ c = (===_iff q.code c).0 same in
          let marked = claim-row_same q rows r (ap (λ k. row_of k rows) code_is ∙ held) in
          elim (Bool-cases (redeemable q r)) [
            | inl free ↦ inr (
              r,
              held,
              free,
              ap (λ k. row_of k (map (claim q) rows)) (sym code_is) ∙ marked ∙ rw free,
            )
            | inr kept ↦ inl (
                ap (λ k. row_of k (map (claim q) rows)) (sym code_is) ∙ marked ∙ rw kept (sym held))
          ]
    ]
  ]

  consume_reply-row :
      (reply : Reply) (c : Text)
      → (row_of c (consume_reply reply q rows).1 ≡ row_of c rows)
        ⊎ ((r : Row) × (row_of c rows ≡ some r)
            × (redeemable q r ≡ true)
            × (row_of c (consume_reply reply q rows).1 ≡ some (used_row q r)))
  unfolding consume_reply
  consume_reply-row refused c = inl refl
  consume_reply-row lost c = claim-row_cases c
  consume_reply-row delivered c = claim-row_cases c

  consume_reply-some :
      (reply : Reply) (g : ConsumedGrant)
      → HasDistinctCodes rows
      → (consume_reply reply q rows).0 ≡ ok (some g)
      → (r : Row) × (row_of q.code rows ≡ some r)
        × (redeemable q r ≡ true)
        × (g ≡ consumed_of r)
        × (row_of q.code (consume_reply reply q rows).1 ≡ some (used_row q r))
  unfolding consume_reply single
  consume_reply-some refused g v h = absurd (ground arith)
  consume_reply-some lost g v h = absurd (ground arith)
  consume_reply-some delivered g v h = elim (Option-cases (row_of q.code rows)) [
    | inl absent ↦ absurd (ground (arith, filter-selection q rows v))
    | inr (r, found) ↦ elim (Bool-cases (redeemable q r)) [
      | inr kept ↦ absurd (ground (arith, filter-selection q rows v))
      | inl free ↦ (
        r,
        found,
        free,
        ground (arith, filter-selection q rows v),
        claim-row_same q rows r found ∙ rw free,
      )
    ]
  ]

  consume_reply-distinct :
      (reply : Reply) → HasDistinctCodes rows → HasDistinctCodes (consume_reply reply q rows).1
  unfolding consume_reply
  consume_reply-distinct refused v = v
  consume_reply-distinct _ v = HasDistinctCodes-map (claim q) (claim-code q) rows v

module _ (g : StoredGrant) (rows : List Row) where
  insert_reply-row :
      (reply : Reply) (c : Text)
      → (row_of c (insert_reply reply g rows).1 ≡ row_of c rows)
        ⊎ ((row_of c rows ≡ none) × (row_of c (insert_reply reply g rows).1 ≡ some (fresh_row g)))
  unfolding insert_reply
  insert_reply-row refused c = inl refl
  insert_reply-row _ c = ground (arith, row_of-append c rows (fresh_row g))

  insert_reply-rows :
      (reply : Reply)
      → ((insert_reply reply g rows).1 ≡ rows)
        ⊎ ((row_of g.code rows ≡ none) × ((insert_reply reply g rows).1 ≡ rows ++ fresh_row g ∷ []))
  unfolding insert_reply
  insert_reply-rows refused = inl refl
  insert_reply-rows _ = ground arith

  insert_reply-distinct :
      (reply : Reply) → HasDistinctCodes rows → HasDistinctCodes (insert_reply reply g rows).1
  insert_reply-distinct reply v = elim (insert_reply-rows reply) [
    | inl same ↦ subst HasDistinctCodes (sym same) v
    | inr (absent, added) ↦
        subst HasDistinctCodes (sym added) (HasDistinctCodes-append rows (fresh_row g) absent v)
  ]

-- The store in Postgres keeps the laws of the store interface where the table's codes are
-- distinct, which its operations preserve, whichever requests are refused or have their answers
-- lost.
pub supabase_code_store-IsLawful :
    IsLawful supabase_code_store (λ db. HasDistinctCodes db.rows) (λ db c. row_of c db.rows)
unfolding supabase_code_store
supabase_code_store-IsLawful = record {
  insert-IsValid = λ g db v. insert_reply-distinct g db.rows (next_reply db.replies).0 v;
  consume-IsValid = λ q db v. consume_reply-distinct q db.rows (next_reply db.replies).0 v;
  insert-row = λ g db c v. insert_reply-row g db.rows (next_reply db.replies).0 c;
  consume-row = λ q db c v. consume_reply-row q db.rows (next_reply db.replies).0 c;
  consume-some = λ q db g v h. consume_reply-some q db.rows (next_reply db.replies).0 g v h;
}
