-- ===== src/Registry/Reads.antt =====
-- `readCallbacks`, `findApplicationByClientId`, `findApplicationBySlug`, `listApplicationsForOrg`
-- and `replaceCallbacks`. The database's state is a `Registry`; while a table is not reachable each
-- request for it fails with nothing changed, and the client throws `RegistryUnavailableError`, here
-- its message. `sorted` is the order that the database gives to a list of URLs.
pub mod Unique
pub mod Replaced
use owne_x.Base.{
  ℕ, Bool, true, false, not, ◌&&◌, Option, none, some, List, [], ◌∷◌, ◌++◌, map, ◌==◌,
  if◌then◌else◌, filter, Read, ok, thrown, ◌>>=◌,
}
use owne_x.Base.Text.{Text, codes, ◌===◌, trim, is_empty}
use owne_x.Registry.Records.{ApplicationRow, RegisteredApplication, to_record}

pub record CallbackRow : Type 0 where
  pub org_id : ℕ
  pub app_slug : Text
  pub callback_url : Text

pub record Registry : Type 0 where
  pub applications : List ApplicationRow
  pub application_callbacks : List CallbackRow
  pub applications_reachable : Bool
  pub callbacks_reachable : Bool

-- What the registry takes from elsewhere: the hash of a slug and the database's order.
pub record RegistryContext : Type 0 where
  pub app_id_from_slug : Text → Text
  pub sorted : List Text → List Text

abbrev pub is_of_app : ℕ → Text → CallbackRow → Bool
is_of_app org_id slug row = row.org_id == org_id && row.app_slug === slug

abbrev has_client_id : Text → ApplicationRow → Bool
has_client_id client_id row = elim row.client_id [ none ↦ false | some id ↦ id === client_id ]

-- `maybeSingle()`: more than one row is an error.
maybe_single : List ApplicationRow → Read (Option ApplicationRow)
maybe_single [] = ok none
maybe_single (row ∷ []) = ok (some row)
maybe_single (row ∷ row' ∷ rows) = thrown (codes "Could not read the application")

module _ (ctx : RegistryContext) (db : Registry) where
  unfoldable pub read_callbacks : ℕ → Text → Read (List Text)
  read_callbacks org_id slug =
      if db.callbacks_reachable
      then ok (
          ctx.sorted (
            map (λ row. row.callback_url)
              (filter (is_of_app org_id slug) db.application_callbacks)))
      else thrown (codes "Could not read callback URLs")

  select_applications : (ApplicationRow → Bool) → Read (List ApplicationRow)
  select_applications p =
      if db.applications_reachable
      then ok (filter p db.applications)
      else thrown (codes "Could not read the application")

  -- A row with its callbacks.
  with_callbacks : ℕ → Text → Option ApplicationRow → Read (Option RegisteredApplication)
  with_callbacks org_id slug none = ok none
  with_callbacks org_id slug (some row) = do
    callbacks ← read_callbacks org_id slug
    ok (some (to_record ctx.app_id_from_slug row callbacks))

  found_row : Option ApplicationRow → Read (Option RegisteredApplication)
  unfolding with_callbacks
  found_row none = ok none
  found_row (some row) = with_callbacks row.org_id row.app_slug (some row)

  unfoldable pub find_application_by_client_id : Text → Read (Option RegisteredApplication)
  unfolding select_applications maybe_single found_row
  find_application_by_client_id client_id = if is_empty (trim client_id) then ok none else do
    rows ← select_applications (has_client_id (trim client_id))
    data' ← maybe_single rows
    found_row data'

  unfoldable pub find_application_by_slug : ℕ → Text → Read (Option RegisteredApplication)
  unfolding select_applications maybe_single with_callbacks
  find_application_by_slug org_id slug = do
    rows ← select_applications (λ row. row.org_id == org_id && row.app_slug === slug)
    data' ← maybe_single rows
    with_callbacks org_id slug data'

-- `Array.from(new Set(values))`: the first of equal values is kept.
pub distinct : List Text → List Text
distinct [] = []
distinct (t ∷ ts) = t ∷ filter (λ s. not (s === t)) (distinct ts)

abbrev is_nil : List Text → Bool
is_nil [] = true
is_nil (t ∷ ts) = false

abbrev pub unique_callbacks : List Text → List Text
unique_callbacks callbacks = filter (λ t. not (is_empty t)) (distinct (map trim callbacks))

abbrev callback_row : ℕ → Text → Text → CallbackRow
callback_row org_id slug url = record { org_id = org_id; app_slug = slug; callback_url = url }

-- `deleted` and `inserted` say whether the database answers the two requests. Where only the second
-- fails the application is left with no callback.
unfoldable pub replace_callbacks :
    (deleted inserted : Bool) → ℕ → Text → List Text → Registry → Read (Unit {0}) × Registry
unfolding distinct
replace_callbacks deleted inserted org_id slug callbacks db =
    let kept = filter (λ row. not (is_of_app org_id slug row)) db.application_callbacks in
    if not deleted
    then (thrown (codes "Could not replace callback URLs"), db)
    else if is_nil (unique_callbacks callbacks)
    then (ok tt, record db { application_callbacks = kept })
    else if not inserted
    then (thrown (codes "Could not save callback URLs"), record db { application_callbacks = kept })
    else (
      ok tt,
      record db {
        application_callbacks = kept ++ map (callback_row org_id slug) (unique_callbacks callbacks);
      },
    )
