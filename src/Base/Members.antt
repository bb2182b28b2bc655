-- ===== src/Base/Members.antt =====
-- Membership and `filter`.
use mathlib.Core.Path.{◌≡◌, sym, ap, ◌∙◌}
use mathlib.Core.Logic.{inl, inr}
use mathlib.Core.Bool.{Bool, true}
use mathlib.Core.List.{List, [], ◌∷◌, Memᴰ}
use owne_x.Base.Tests.{Bool-cases}
use owne_x.Base.Lists.{filter}

module _ {ℓ} {A : Type ℓ} (p : A → Bool) where
  pub Memᴰ-filter : (a : A) (xs : List A) → Memᴰ a (filter p xs) → Memᴰ a xs × (p a ≡ true)
  Memᴰ-filter a [] m = elim m [ ]
  Memᴰ-filter a (x ∷ xs) m = elim (Bool-cases (p x)) [
    | inl keeps ↦ go (filter p xs) (rw keeps at m) keeps (Memᴰ-filter a xs)
    | inr drops ↦ let (rest, holds) = Memᴰ-filter a xs (rw drops at m) in (Memᴰ.tail rest, holds)
  ]
    where
      go :
          (ys : List A)
          → Memᴰ a (x ∷ ys)
          → p x ≡ true
          → (Memᴰ a ys → Memᴰ a xs × (p a ≡ true))
          → Memᴰ a (x ∷ xs) × (p a ≡ true)
      go ys (Memᴰ.head e) keeps rec = (Memᴰ.head e, ap p e ∙ keeps)
      go ys (Memᴰ.tail t) keeps rec = (Memᴰ.tail (rec t).0, (rec t).1)

  pub filter-Memᴰ : (a : A) (xs : List A) → Memᴰ a xs → p a ≡ true → Memᴰ a (filter p xs)
  filter-Memᴰ a [] m h = elim m [ ]
  filter-Memᴰ a (x ∷ xs) (Memᴰ.head e) h = rw (ap p (sym e) ∙ h) (Memᴰ.head e)
  filter-Memᴰ a (x ∷ xs) (Memᴰ.tail t) h = elim (Bool-cases (p x)) [
    | inl keeps ↦ rw keeps (Memᴰ.tail (filter-Memᴰ a xs t h))
    | inr drops ↦ rw drops (filter-Memᴰ a xs t h)
  ]
