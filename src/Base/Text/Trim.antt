-- ===== src/Base/Text/Trim.antt =====
-- Dropping units at either end: `trim()` and `replace(/x+$/, "")`.
use Prim.Native.Nat.{ℕ, ◌≤◌, ◌+◌}
use mathlib.Core.Path.{◌≡◌, refl}
use mathlib.Core.Logic.{inl, inr}
use mathlib.Core.Bool.{Bool, false, ◌&&◌, ◌||◌}
use mathlib.Core.List.{[], ◌∷◌}
use native.Mathlib.Omega.{arith}
use owne_x.Base.Tests.{leb, ◌==◌, if◌then◌else◌, Bool-cases}
use owne_x.Base.Lists.{length}
use owne_x.Base.Text.Basic.{Text}

-- The white space and line ends that `trim` drops.
unfoldable pub is_space : ℕ → Bool
is_space c =
    (leb 9 c && leb c 13)
    || c == 32
    || c == 0xa0
    || c == 0x1680
    || (leb 0x2000 c && leb c 0x200a)
    || c == 0x2028
    || c == 0x2029
    || c == 0x202f
    || c == 0x205f
    || c == 0x3000
    || c == 0xfeff

unfoldable pub drop_while : (ℕ → Bool) → Text → Text
drop_while p [] = []
drop_while p (c ∷ s) = let rest = drop_while p s in if p c then rest else c ∷ s

keep_end : (ℕ → Bool) → ℕ → Text → Text
keep_end p c [] = if p c then [] else c ∷ []
keep_end p c (d ∷ s) = c ∷ d ∷ s

unfoldable pub drop_while_end : (ℕ → Bool) → Text → Text
unfolding keep_end
drop_while_end p [] = []
drop_while_end p (c ∷ s) = keep_end p c (drop_while_end p s)

-- `s.trim()`
unfoldable pub trim : Text → Text
unfolding is_space
trim s = drop_while_end is_space (drop_while is_space s)

keep_end_stable :
    (p : ℕ → Bool) (c : ℕ) (s : Text)
    → drop_while_end p s ≡ s
    → drop_while_end p (keep_end p c s) ≡ keep_end p c s
unfolding keep_end drop_while_end
keep_end_stable p c [] h = ground arith
keep_end_stable p c (d ∷ s) h = ground arith

pub drop_while_end_idem :
    (p : ℕ → Bool) (s : Text) → drop_while_end p (drop_while_end p s) ≡ drop_while_end p s
unfolding drop_while_end
drop_while_end_idem p [] = refl
drop_while_end_idem p (c ∷ s) = keep_end_stable p c (drop_while_end p s) (drop_while_end_idem p s)

drop_while-keep_end :
    (p : ℕ → Bool) (c : ℕ) (s : Text) → p c ≡ false → drop_while p (keep_end p c s) ≡ keep_end p c s
unfolding drop_while keep_end
drop_while-keep_end p c [] h = ground arith
drop_while-keep_end p c (d ∷ s) h = ground arith

-- What `drop_while` leaves has nothing to drop at its front, also after its end is cut.
drop_while-trim :
    (p : ℕ → Bool) (s : Text)
    → drop_while p (drop_while_end p (drop_while p s)) ≡ drop_while_end p (drop_while p s)
unfolding drop_while drop_while_end
drop_while-trim p [] = refl
drop_while-trim p (c ∷ s) = elim (Bool-cases (p c)) [
  | inl drops ↦ rw (drops, drop_while) (drop_while-trim p s)
  | inr keeps ↦ rw (keeps, drop_while) (drop_while-keep_end p c (drop_while_end p s) keeps)
]

pub trim_idem : (s : Text) → trim (trim s) ≡ trim s
unfolding trim
trim_idem s = rw (drop_while-trim is_space s) (drop_while_end_idem is_space (drop_while is_space s))

length-drop_while-le : (p : ℕ → Bool) (s : Text) → length (drop_while p s) ≤ length s
unfolding drop_while
length-drop_while-le p [] = omega arith
length-drop_while-le p (c ∷ s) = ground (arith, length-drop_while-le p s)

length-keep_end-le : (p : ℕ → Bool) (c : ℕ) (s : Text) → length (keep_end p c s) ≤ length s + 1
unfolding keep_end
length-keep_end-le p c [] = ground arith
length-keep_end-le p c (d ∷ s) = ground arith

length-drop_while_end-le : (p : ℕ → Bool) (s : Text) → length (drop_while_end p s) ≤ length s
unfolding drop_while_end
length-drop_while_end-le p [] = omega arith
length-drop_while_end-le p (c ∷ s) =
    omega (arith, length-drop_while_end-le p s, length-keep_end-le p c (drop_while_end p s))

pub length-trim-le : (s : Text) → length (trim s) ≤ length s
unfolding trim
length-trim-le s = omega (
  arith,
  length-drop_while-le is_space s,
  length-drop_while_end-le is_space (drop_while is_space s),
)
