-- ===== src/Base/Text/Number.antt =====
-- `Number(text)` where the text is a natural number in decimal digits, or blank. Any other spelling
-- that JavaScript reads (a sign, an exponent, a fraction, another base) counts as no number.
use Prim.Native.Nat.{ℕ, ◌+◌, ◌-◌, ◌*◌}
use mathlib.Core.Bool.{◌&&◌}
use mathlib.Core.Option.{Option, none, some}
use mathlib.Core.List.{[], ◌∷◌}
use owne_x.Base.Tests.{leb, if◌then◌else◌}
use owne_x.Base.Text.Basic.{Text}
use owne_x.Base.Text.Trim.{trim}

read_digits : ℕ → Text → Option ℕ
read_digits n [] = some n
read_digits n (c ∷ s) =
    let rest = read_digits (n * 10 + (c - b'0')) s in
    if leb b'0' c && leb c b'9' then rest else none

unfoldable pub number_of : Text → Option ℕ
unfolding read_digits
number_of s = read_digits 0 (trim s)
