-- ===== src/Registry/Reads/Replaced.antt =====
-- What is read after the callbacks of an application were replaced.
use owne_x.Base.{
  ℕ, ◌≡◌, ◌≢◌, ◌⊎◌, refl, sym, ◌∙◌, inl, inr, Bool, true, false, not, List, [], ◌∷◌, ◌++◌, map,
  arith, filter, ok, Bool-cases, if◌then◌else◌, thrown,
}
use owne_x.Base.Text.{Text, codes, ===_iff, ===_refl}
use owne_x.Registry.Reads.Unique.{IsCleaned, unique_callbacks-IsCleaned}
use owne_x.Registry.Reads.{
  CallbackRow, Registry, RegistryContext, is_of_app, read_callbacks, unique_callbacks, callback_row,
  replace_callbacks, is_nil,
}

abbrev callbacks_of : ℕ → Text → List CallbackRow → List Text
callbacks_of org_id slug rows =
    map (λ (row : CallbackRow). row.callback_url) (filter (is_of_app org_id slug) rows)

callbacks_of-append :
    (o : ℕ) (s : Text) (xs ys : List CallbackRow)
    → callbacks_of o s (xs ++ ys) ≡ callbacks_of o s xs ++ callbacks_of o s ys
callbacks_of-append o s [] ys = refl
callbacks_of-append o s (x ∷ xs) ys = ground (arith, callbacks_of-append o s xs ys)

callbacks_of-deleted :
    (o : ℕ) (s : Text) (xs : List CallbackRow)
    → callbacks_of o s (filter (λ row. not (is_of_app o s row)) xs) ≡ []
callbacks_of-deleted o s [] = refl
callbacks_of-deleted o s (x ∷ xs) = ground (arith, callbacks_of-deleted o s xs)

callbacks_of-inserted :
    (o : ℕ) (s : Text) (urls : List Text) → callbacks_of o s (map (callback_row o s) urls) ≡ urls
callbacks_of-inserted o s [] = refl
callbacks_of-inserted o s (u ∷ urls) = ground (arith, ===_refl s, callbacks_of-inserted o s urls)

-- A row of one application is not one of another.
other_app :
    (o o' : ℕ) (s s' : Text) (row : CallbackRow)
    → (o ≢ o') ⊎ (s ≢ s')
    → is_of_app o s row ≡ true
    → is_of_app o' s' row ≡ false
other_app o o' s s' row other h = ground (arith, ===_iff row.app_slug s, ===_iff row.app_slug s')

callbacks_of-kept :
    (o o' : ℕ) (s s' : Text)
    → (o ≢ o') ⊎ (s ≢ s')
    → (xs : List CallbackRow)
    → callbacks_of o' s' (filter (λ row. not (is_of_app o s row)) xs) ≡ callbacks_of o' s' xs
callbacks_of-kept o o' s s' other [] = refl
callbacks_of-kept o o' s s' other (x ∷ xs) = elim (Bool-cases (is_of_app o s x)) [
  | inl of_app ↦
      ground (arith, other_app o o' s s' x other of_app, callbacks_of-kept o o' s s' other xs)
  | inr of_other ↦ ground (arith, callbacks_of-kept o o' s s' other xs)
]

callbacks_of-others :
    (o o' : ℕ) (s s' : Text)
    → (o ≢ o') ⊎ (s ≢ s')
    → (urls : List Text) → callbacks_of o' s' (map (callback_row o s) urls) ≡ []
callbacks_of-others o o' s s' other [] = refl
callbacks_of-others o o' s s' other (u ∷ urls) =
    ground (arith, ===_iff s s', callbacks_of-others o o' s s' other urls)

callbacks_of-others_append :
    (o o' : ℕ) (s s' : Text)
    → (o ≢ o') ⊎ (s ≢ s')
    → (xs : List CallbackRow) (urls : List Text)
    → callbacks_of o' s' (xs ++ map (callback_row o s) urls) ≡ callbacks_of o' s' xs
callbacks_of-others_append o o' s s' other [] urls = callbacks_of-others o o' s s' other urls
callbacks_of-others_append o o' s s' other (x ∷ xs) urls =
    ground (arith, callbacks_of-others_append o o' s s' other xs urls)

-- What is read depends on the rows of the application and on whether the table is reachable.
read_callbacks-same :
    (ctx : RegistryContext) (db : Registry) (o : ℕ) (s : Text) (b : Bool) (urls : List Text)
    → db.callbacks_reachable ≡ b
    → callbacks_of o s db.application_callbacks ≡ urls
    → read_callbacks ctx db o s
      ≡ (if b then ok (ctx.sorted urls) else thrown (codes "Could not read callback URLs"))
unfolding read_callbacks
read_callbacks-same ctx db o s b urls e e' = cc

module _ (ctx : RegistryContext) (deleted inserted : Bool) (o : ℕ) (s : Text) (urls : List Text)
    (db : Registry) where
  abbrev after : Registry
  after = (replace_callbacks deleted inserted o s urls db).1

  nil-or : (us : List Text) → (us ≡ []) ⊎ (is_nil us ≡ false)
  nil-or [] = inl refl
  nil-or (u ∷ us) = inr refl

  own_callbacks :
      (replace_callbacks deleted inserted o s urls db).0 ≡ ok tt
      → callbacks_of o s after.application_callbacks ≡ unique_callbacks urls
  unfolding replace_callbacks
  own_callbacks h =
      let kept = filter (λ row. not (is_of_app o s row)) db.application_callbacks in
      let joined = callbacks_of-append o s kept (map (callback_row o s) (unique_callbacks urls)) in
      elim (nil-or (unique_callbacks urls)) [
        | inl none_given ↦ ground (arith, callbacks_of-deleted o s db.application_callbacks)
        | inr some_given ↦ ground (
          arith,
          joined,
          callbacks_of-deleted o s db.application_callbacks,
          callbacks_of-inserted o s (unique_callbacks urls),
        )
      ]

  after-reachable : after.callbacks_reachable ≡ db.callbacks_reachable
  unfolding replace_callbacks
  after-reachable = elim (nil-or (unique_callbacks urls)) [
    | inl none_given ↦ ground arith
    | inr some_given ↦ ground arith
  ]

  other_callbacks :
      (o' : ℕ) (s' : Text)
      → (o ≢ o') ⊎ (s ≢ s')
      → callbacks_of o' s' after.application_callbacks ≡ callbacks_of o' s' db.application_callbacks
  unfolding replace_callbacks
  other_callbacks o' s' other =
      let kept = filter (λ row. not (is_of_app o s row)) db.application_callbacks in
      let same = callbacks_of-kept o o' s s' other db.application_callbacks in
      let added = callbacks_of-others_append o o' s s' other kept (unique_callbacks urls) in
      ground (arith, same, added)

  -- Where replacing the callbacks of an application succeeds and the table is reachable, reading
  -- them gives a list in the order of the database whose entries are submitted texts trimmed, none
  -- empty and none twice, and which has the trimmed form of every submitted text that is not
  -- blank.
  pub read-replace_callbacks :
      (replace_callbacks deleted inserted o s urls db).0 ≡ ok tt
      → db.callbacks_reachable ≡ true
      → (stored : List Text) × (read_callbacks ctx after o s ≡ ok (ctx.sorted stored))
        × IsCleaned urls stored
  read-replace_callbacks h reachable = (
    unique_callbacks urls,
    read_callbacks-same ctx after o s true (unique_callbacks urls) (after-reachable ∙ reachable)
        (own_callbacks h),
    unique_callbacks-IsCleaned urls,
  )

  -- Replacing the callbacks of an application, whether or not its requests succeed, changes
  -- nothing of what is read for another slug or another organization.
  pub read-replace_callbacks_other :
      (o' : ℕ) (s' : Text)
      → (o ≢ o') ⊎ (s ≢ s')
      → read_callbacks ctx after o' s' ≡ read_callbacks ctx db o' s'
  read-replace_callbacks_other o' s' other =
      read_callbacks-same ctx after o' s' db.callbacks_reachable
        (callbacks_of o' s' db.application_callbacks) after-reachable (other_callbacks o' s' other)
      ∙ sym (
          read_callbacks-same ctx db o' s' db.callbacks_reachable
            (callbacks_of o' s' db.application_callbacks) refl refl)
