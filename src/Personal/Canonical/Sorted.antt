-- ===== src/Personal/Canonical/Sorted.antt =====
-- The canonical text does not depend on the order of the keys.
use owne_x.Base.{subst, ◌≡◌, ◌≢◌, refl, sym, ap, ◌∙◌, List, [], ◌∷◌, arith, All}
use mathlib.Core.List.{Permᴰ}
use owne_x.Base.Text.{Text}
use owne_x.Personal.Canonical.{
  domain_hash, insert_entry, sort_entries, canonical_fields, canonical_json, JsonFields, object,
}
use owne_x.Personal.Canonical.Order.{text_leb_total, text_leb_antisym, text_leb_trans}

insert_entry_comm :
    (x y : Text × Text) (l : List (Text × Text))
    → x.0 ≢ y.0
    → insert_entry x (insert_entry y l) ≡ insert_entry y (insert_entry x l)
unfolding insert_entry
insert_entry_comm x y [] h = ground (arith, text_leb_total x.0 y.0, text_leb_antisym x.0 y.0)
insert_entry_comm x y (z ∷ l) h = ground (
  arith,
  text_leb_total x.0 y.0,
  text_leb_antisym x.0 y.0,
  text_leb_trans x.0 y.0 z.0,
  text_leb_trans y.0 x.0 z.0,
  text_leb_total x.0 z.0,
  text_leb_total y.0 z.0,
  text_leb_trans x.0 z.0 y.0,
  text_leb_trans y.0 z.0 x.0,
  insert_entry_comm x y l,
)

unfoldable pub DistinctNames : List (Text × Text) → Type 0
DistinctNames [] = Unit
DistinctNames (x ∷ l) = All (λ y. x.0 ≢ y.0) l × DistinctNames l

All-Permᴰ {ℓ κ} : {A : Type ℓ} (P : A → Type κ) {l m : List A} → Permᴰ l m → All P l → All P m
All-Permᴰ P Permᴰ.nil h = h
All-Permᴰ P (Permᴰ.cons e p) h = (subst P e h.0, All-Permᴰ P p h.1)
All-Permᴰ P (Permᴰ.swap e f) h = (subst P f h.1.0, (subst P e h.0, h.1.1))
All-Permᴰ P (Permᴰ.trans p q) h = All-Permᴰ P q (All-Permᴰ P p h)

DistinctNames-Permᴰ : {l m : List (Text × Text)} → Permᴰ l m → DistinctNames l → DistinctNames m
unfolding DistinctNames
DistinctNames-Permᴰ Permᴰ.nil h = h
DistinctNames-Permᴰ (Permᴰ.cons {l₂ = m} e p) h =
    (subst (λ a. All (λ y. a.0 ≢ y.0) m) e (All-Permᴰ (λ y. _) p h.0), DistinctNames-Permᴰ p h.1)
DistinctNames-Permᴰ (Permᴰ.swap {a = a} {b = b} {a' = a'} {b' = b'} {l = l} e f) h = (
  (differ, subst (λ c. All (λ y. c.0 ≢ y.0) l) f h.1.0),
  (subst (λ c. All (λ y. c.0 ≢ y.0) l) e h.0.1, h.1.1),
)
  where
    differ : a'.0 ≢ b'.0
    differ same = h.0.0 (ap (λ c. c.0) e ∙ sym same ∙ sym (ap (λ c. c.0) f))
DistinctNames-Permᴰ (Permᴰ.trans p q) h = DistinctNames-Permᴰ q (DistinctNames-Permᴰ p h)

sort_entries-Permᴰ :
    {l m : List (Text × Text)} → Permᴰ l m → DistinctNames l → sort_entries l ≡ sort_entries m
unfolding sort_entries DistinctNames
sort_entries-Permᴰ Permᴰ.nil h = refl
sort_entries-Permᴰ (Permᴰ.cons {a = a} {b = b} {l₂ = m} e p) h =
    ap (insert_entry a) (sort_entries-Permᴰ p h.1) ∙ ap (λ c. insert_entry c (sort_entries m)) e
sort_entries-Permᴰ (Permᴰ.swap {a = a} {b = b} {a' = a'} {l = l} e f) h =
    insert_entry_comm a b (sort_entries l) h.0.0
    ∙ ap (λ c. insert_entry c (insert_entry a (sort_entries l))) f
    ∙ ap (λ c. insert_entry a' (insert_entry c (sort_entries l))) e
sort_entries-Permᴰ (Permᴰ.trans p q) h =
    sort_entries-Permᴰ p h ∙ sort_entries-Permᴰ q (DistinctNames-Permᴰ p h)

-- Two objects whose fields that are not undefined are, as keys with the canonical texts of their
-- values, permutations of each other, with no key twice, have the same hash under every domain.
pub domain_hash-Permᴰ :
    (quoted keccak_id : Text → Text) (domain : Text) (f g : JsonFields)
    → Permᴰ (canonical_fields quoted f) (canonical_fields quoted g)
    → DistinctNames (canonical_fields quoted f)
    → domain_hash quoted keccak_id domain (object f)
      ≡ domain_hash quoted keccak_id domain (object g)
unfolding domain_hash canonical_json
domain_hash-Permᴰ quoted keccak_id domain f g p h = rw (sort_entries-Permᴰ p h) refl
