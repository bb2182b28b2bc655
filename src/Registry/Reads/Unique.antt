-- ===== src/Registry/Reads/Unique.antt =====
-- The callbacks that are stored of a submission.
use owne_x.Base.{
  ◌≡◌, ◌≢◌, refl, sym, ap, inl, inr, Bool, true, not, List, [], ◌∷◌, map, arith, filter, Memᴰ,
  Memᴰ-filter, filter-Memᴰ, Bool-cases,
}
use owne_x.Base.Text.{Text, ◌===◌, ===_iff, is_empty, is_empty_iff, trim}
use owne_x.Registry.Reads.{distinct, unique_callbacks}

-- No text stands in the list twice.
abbrev pub AllDifferent : List Text → Type 0
AllDifferent [] = Unit
AllDifferent (t ∷ ts) = (¬ Memᴰ t ts) × AllDifferent ts

-- The entries are the submitted texts trimmed, each once, without the empty ones.
pub record IsCleaned (submitted stored : List Text) : Type 0 where
  pub kept : (u : Text) → Memᴰ u submitted → trim u ≢ [] → Memᴰ (trim u) stored
  pub given : (t : Text) → Memᴰ t stored → (u : Text) × Memᴰ u submitted × (trim u ≡ t)
  pub full : (t : Text) → Memᴰ t stored → t ≢ []
  pub once : AllDifferent stored

map-Memᴰ : (f : Text → Text) (u : Text) (us : List Text) → Memᴰ u us → Memᴰ (f u) (map f us)
map-Memᴰ f u [] m = elim m [ ]
map-Memᴰ f u (v ∷ us) (Memᴰ.head e) = Memᴰ.head (ap f e)
map-Memᴰ f u (v ∷ us) (Memᴰ.tail m) = Memᴰ.tail (map-Memᴰ f u us m)

Memᴰ-map :
    (f : Text → Text) (t : Text) (us : List Text)
    → Memᴰ t (map f us)
    → (u : Text) × Memᴰ u us × (f u ≡ t)
Memᴰ-map f t [] m = elim m [ ]
Memᴰ-map f t (v ∷ us) (Memᴰ.head e) = (v, Memᴰ.head refl, sym e)
Memᴰ-map f t (v ∷ us) (Memᴰ.tail m) =
    let (u, there, e) = Memᴰ-map f t us m in (u, Memᴰ.tail there, e)

distinct-Memᴰ : (t : Text) (ts : List Text) → Memᴰ t ts → Memᴰ t (distinct ts)
unfolding distinct
distinct-Memᴰ t [] m = elim m [ ]
distinct-Memᴰ t (s ∷ ts) (Memᴰ.head e) = Memᴰ.head e
distinct-Memᴰ t (s ∷ ts) (Memᴰ.tail m) = elim (Bool-cases (t === s)) [
  | inl same ↦ Memᴰ.head ((===_iff t s).0 same)
  | inr other ↦
      Memᴰ.tail
        (filter-Memᴰ (λ r. not (r === s)) t (distinct ts) (distinct-Memᴰ t ts m) (rw other refl))
]

Memᴰ-distinct : (t : Text) (ts : List Text) → Memᴰ t (distinct ts) → Memᴰ t ts
unfolding distinct
Memᴰ-distinct t [] m = elim m [ ]
Memᴰ-distinct t (s ∷ ts) (Memᴰ.head e) = Memᴰ.head e
Memᴰ-distinct t (s ∷ ts) (Memᴰ.tail m) =
    Memᴰ.tail (Memᴰ-distinct t ts (Memᴰ-filter (λ r. not (r === s)) t (distinct ts) m).0)

filter-AllDifferent :
    (p : Text → Bool) (ts : List Text) → AllDifferent ts → AllDifferent (filter p ts)
filter-AllDifferent p [] h = tt
filter-AllDifferent p (t ∷ ts) h = elim (Bool-cases (p t)) [
  | inl keeps ↦ rw keeps ((λ m. h.0 (Memᴰ-filter p t ts m).0), filter-AllDifferent p ts h.1)
  | inr drops ↦ rw drops (filter-AllDifferent p ts h.1)
]

distinct-AllDifferent : (ts : List Text) → AllDifferent (distinct ts)
unfolding distinct
distinct-AllDifferent [] = tt
distinct-AllDifferent (t ∷ ts) = (
  λ m. absurd (away (Memᴰ-filter (λ r. not (r === t)) t (distinct ts) m).1),
  filter-AllDifferent (λ r. not (r === t)) (distinct ts) (distinct-AllDifferent ts),
)
  where
    away : not (t === t) ≡ true → ⊥
    away h = ground (arith, ===_iff t t)

pub unique_callbacks-IsCleaned : (urls : List Text) → IsCleaned urls (unique_callbacks urls)
unique_callbacks-IsCleaned urls = record {
  kept = λ u there some_text.
      filter-Memᴰ full (trim u) all
        (distinct-Memᴰ (trim u) (map trim urls) (map-Memᴰ trim u urls there))
        (not_empty (trim u) some_text);
  given =
      λ t m. Memᴰ-map trim t urls (Memᴰ-distinct t (map trim urls) (Memᴰ-filter full t all m).0);
  full = λ t m. is_full t (Memᴰ-filter full t all m).1;
  once = filter-AllDifferent full all (distinct-AllDifferent (map trim urls));
}
  where
    full : Text → Bool
    full t = not (is_empty t)

    all : List Text
    all = distinct (map trim urls)

    not_empty : (t : Text) → t ≢ [] → not (is_empty t) ≡ true
    not_empty t h = ground (arith, is_empty_iff t)

    is_full : (t : Text) → not (is_empty t) ≡ true → t ≢ []
    is_full t h = ground (arith, is_empty_iff t)
