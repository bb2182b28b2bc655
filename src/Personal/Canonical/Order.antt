-- ===== src/Personal/Canonical/Order.antt =====
-- The order of texts is total.
use owne_x.Base.{◌≡◌, refl, true, false, [], ◌∷◌, arith}
use owne_x.Base.Text.{Text}
use owne_x.Personal.Canonical.{text_leb}

pub text_leb_total : (a b : Text) → text_leb a b ≡ false → text_leb b a ≡ true
unfolding text_leb
text_leb_total [] b h = absurd (ground arith)
text_leb_total (x ∷ a) [] h = refl
text_leb_total (x ∷ a) (y ∷ b) h = ground (arith, text_leb_total a b)

pub text_leb_antisym : (a b : Text) → text_leb a b ≡ true → text_leb b a ≡ true → a ≡ b
unfolding text_leb
text_leb_antisym [] [] h k = refl
text_leb_antisym [] (y ∷ b) h k = absurd (ground arith)
text_leb_antisym (x ∷ a) [] h k = absurd (ground arith)
text_leb_antisym (x ∷ a) (y ∷ b) h k = ground (arith, text_leb_antisym a b)

pub text_leb_trans :
    (a b c : Text) → text_leb a b ≡ true → text_leb b c ≡ true → text_leb a c ≡ true
unfolding text_leb
text_leb_trans [] b c h k = refl
text_leb_trans (x ∷ a) [] c h k = absurd (ground arith)
text_leb_trans (x ∷ a) (y ∷ b) [] h k = absurd (ground arith)
text_leb_trans (x ∷ a) (y ∷ b) (z ∷ c) h k = ground (arith, text_leb_trans a b c)
