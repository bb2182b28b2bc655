-- ===== src/Codes/Postgres/Agrees.antt =====
-- With no request refused or lost, the store in Postgres answers as the store in memory does.
use owne_x.Base.{
  ◌≡◌, refl, sym, ap, ◌∙◌, inl, inr, true, false, none, some, List, [], ◌∷◌, map, arith, Bool-cases,
  Option-cases, if◌then◌else◌,
}
use owne_x.Base.Text.{◌===◌, ===_iff}
use owne_x.Codes.Store.{ConsumeQuery, Row, redeemable}
use owne_x.Codes.Rows.{row_of, HasDistinctCodes}
use owne_x.Codes.Memory.{mark_used, memory_code_store}
use owne_x.Codes.Postgres.{claim, supabase_code_store}
use owne_x.Codes.Postgres.Lawful.{filter-selection, matches_iff}

absent-map :
    (q : ConsumeQuery) (f : Row → Row)
    → ((r : Row) → (r.grant.code === q.code) ≡ false → f r ≡ r)
    → (rows : List Row) → row_of q.code rows ≡ none
    → map f rows ≡ rows
unfolding row_of
absent-map q f other [] h = refl
absent-map q f other (x ∷ rows) h = ground (arith, other x, absent-map q f other rows)

claim_other : (q : ConsumeQuery) (r : Row) → (r.grant.code === q.code) ≡ false → claim q r ≡ r
unfolding claim
claim_other q r h = ground (arith, matches_iff q r)

mark_other : (q : ConsumeQuery) (r : Row) → (r.grant.code === q.code) ≡ false → mark_used q r ≡ r
unfolding mark_used
mark_other q r h = ground arith

claim-map_head :
    (q : ConsumeQuery) (rows : List Row) (r x : Row)
    → (x.grant.code === q.code) ≡ true
    → x ≡ r
    → map (claim q) rows ≡ rows
    → map (mark_used q) rows ≡ rows
    → map (claim q) (x ∷ rows) ≡ (if redeemable q r then map (mark_used q) (x ∷ rows) else x ∷ rows)
unfolding claim mark_used
claim-map_head q rows r x same head claimed marked = ground (arith, matches_iff q x)

-- What the map of rows becomes where the row of the code is `r`.
claim-map :
    (q : ConsumeQuery) (rows : List Row) (r : Row)
    → HasDistinctCodes rows
    → row_of q.code rows ≡ some r
    → map (claim q) rows ≡ (if redeemable q r then map (mark_used q) rows else rows)
unfolding row_of
claim-map q [] r v h = absurd (ground arith)
claim-map q (x ∷ rows) r (new, v) h = elim (Bool-cases (x.grant.code === q.code)) [
  | inl same ↦
      let absent : row_of q.code rows ≡ none =
        ap (λ k. row_of k rows) (sym ((===_iff x.grant.code q.code).0 same)) ∙ new in
      claim-map_head q rows r x same (ground arith)
        (absent-map q (claim q) (claim_other q) rows absent)
        (absent-map q (mark_used q) (mark_other q) rows absent)
  | inr other ↦ ground (arith, claim_other q x, mark_other q x, claim-map q rows r v)
]

-- On a table of distinct codes, with the database answering, redeeming in Postgres gives the same
-- answer and leaves the same rows as redeeming in the store in memory.
pub supabase-memory :
    (q : ConsumeQuery) (rows : List Row)
    → HasDistinctCodes rows
    → supabase_code_store.consume q (record { rows = rows; replies = [] }) ≡ (
      (memory_code_store.consume q rows).0,
      record { rows = (memory_code_store.consume q rows).1; replies = [] },
    )
unfolding supabase_code_store memory_code_store
supabase-memory q rows v = elim (Option-cases (row_of q.code rows)) [
  | inl absent ↦
      ground (arith, filter-selection q rows v, absent-map q (claim q) (claim_other q) rows absent)
  | inr (r, held) ↦ ground (arith, filter-selection q rows v, claim-map q rows r v held)
]
