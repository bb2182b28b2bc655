-- ===== src/Codes/Rows.antt =====
-- Tables of rows, looked up by their code.
use mathlib.Core.Option
use owne_x.Base.{
  ◌≡◌, ◌⊎◌, refl, inl, inr, Option, none, some, List, [], ◌∷◌, ◌++◌, map, arith, if◌then◌else◌,
  find, Bool-cases,
}
use owne_x.Base.Text.{Text, ◌===◌, ===_iff}
use owne_x.Codes.Store.{Row}

-- The row that holds a code: `rows.get(code)`, or the row with that primary key.
unfoldable pub row_of : Text → List Row → Option Row
row_of c rows = find (λ r. r.grant.code === c) rows

pub row_of-code : (c : Text) (rows : List Row) (r : Row) → row_of c rows ≡ some r → r.grant.code ≡ c
unfolding row_of
row_of-code c [] r h = cc
row_of-code c (x ∷ rows) r h = elim (Bool-cases (x.grant.code === c)) [
  | inl same ↦ ground (arith, ===_iff x.grant.code c)
  | inr other ↦ row_of-code c rows r (ground arith)
]

pub row_of-map :
    (c : Text) (f : Row → Row)
    → ((r : Row) → (f r).grant.code ≡ r.grant.code)
    → (rows : List Row) → row_of c (map f rows) ≡ Option.map f (row_of c rows)
unfolding row_of
row_of-map c f keeps [] = refl
row_of-map c f keeps (x ∷ rows) = ground (arith, keeps x, row_of-map c f keeps rows)

pub row_of-append :
    (c : Text) (rows : List Row) (r : Row)
    → (row_of c (rows ++ r ∷ []) ≡ row_of c rows)
      ⊎ ((row_of c rows ≡ none) × (r.grant.code ≡ c) × (row_of c (rows ++ r ∷ []) ≡ some r))
unfolding row_of
row_of-append c [] r = ground (arith, ===_iff r.grant.code c)
row_of-append c (x ∷ rows) r = ground (arith, row_of-append c rows r)

pub row_of-append_absent :
    (c : Text) (rows : List Row) (r : Row)
    → row_of c rows ≡ none
    → row_of c (rows ++ r ∷ []) ≡ (if r.grant.code === c then some r else none)
unfolding row_of
row_of-append_absent c [] r h = refl
row_of-append_absent c (x ∷ rows) r h = ground (arith, row_of-append_absent c rows r)

-- No two rows hold one code.
abbrev pub HasDistinctCodes : List Row → Type 0
HasDistinctCodes [] = Unit
HasDistinctCodes (r ∷ rows) = (row_of r.grant.code rows ≡ none) × HasDistinctCodes rows

pub HasDistinctCodes-map :
    (f : Row → Row)
    → ((r : Row) → (f r).grant.code ≡ r.grant.code)
    → (rows : List Row) → HasDistinctCodes rows
    → HasDistinctCodes (map f rows)
HasDistinctCodes-map f keeps [] h = tt
HasDistinctCodes-map f keeps (r ∷ rows) (new, h) = (
  rw (keeps r, row_of-map r.grant.code f keeps rows, new) refl,
  HasDistinctCodes-map f keeps rows h,
)

pub HasDistinctCodes-append :
    (rows : List Row) (r : Row)
    → row_of r.grant.code rows ≡ none
    → HasDistinctCodes rows
    → HasDistinctCodes (rows ++ r ∷ [])
unfolding row_of
HasDistinctCodes-append [] r absent h = (refl, tt)
HasDistinctCodes-append (x ∷ rows) r absent (new, h) = (
  ground (
    arith,
    row_of-append x.grant.code rows r,
    ===_iff x.grant.code r.grant.code,
    ===_iff r.grant.code x.grant.code,
  ),
  HasDistinctCodes-append rows r (ground arith) h,
)
