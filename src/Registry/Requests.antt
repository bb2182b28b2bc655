-- ===== src/Registry/Requests.antt =====
-- `resolveAuthorizationRequest`: whether an authorization request is addressable.
pub mod Resolved
use owne_x.Base.{
  ℕ, Bool, true, false, not, ◌&&◌, Option, none, some, [], ◌==◌, if◌then◌else◌, Read, ok, ◌>>=◌,
}
use owne_x.Base.Text.{Text}
use owne_x.Callback.Url.{Url, CallbackMode}
use owne_x.Callback.Allowlist.{
  CallbackRejection, application_revoked, CallbackSubject, CallbackCheck, accepted, rejected,
  check_callback,
}
use owne_x.Registry.Records.{ApplicationStatus, revoked, RegisteredApplication, status_text}
use owne_x.Registry.Reads.{RegistryContext, Registry, find_application_by_client_id}

pub data ResolveRejection : Type 0 where
  unknown_client : ResolveRejection
  org_mismatch : ResolveRejection
  secret_not_generated : ResolveRejection
  callback : CallbackRejection → ResolveRejection

pub data ResolvedRequest : Type 0 where
  resolved : RegisteredApplication → (registered_callback : Text) → ResolvedRequest
  unresolved : ResolveRejection → ResolvedRequest

-- An application as `checkCallback` takes it.
abbrev pub subject_of : RegisteredApplication → CallbackSubject
subject_of app = record { status = some (status_text app.status); callbacks = app.callbacks }

abbrev pub is_revoked_status : ApplicationStatus → Bool
is_revoked_status revoked = true
is_revoked_status _ = false

abbrev lacks_hash : Option Text → Bool
lacks_hash none = true
lacks_hash (some []) = true
lacks_hash (some _) = false

pub record RequestParams : Type 0 where
  pub client_id : Text
  pub org_id : ℕ
  pub redirect_uri : Option Text
  pub require_secret : Bool

module _ (parse_url : Text → Option Url) (mode : CallbackMode) where
  resolve_callback : RegisteredApplication → Option Text → ResolvedRequest
  resolve_callback app uri = elim (check_callback parse_url mode (some (subject_of app)) uri) [
    | rejected reason ↦ unresolved (callback reason)
    | accepted normalized registered ↦ resolved app registered
  ]

  resolve_application : RequestParams → RegisteredApplication → ResolvedRequest
  unfolding resolve_callback
  resolve_application p app =
      if not (app.org_id == p.org_id)
      then unresolved org_mismatch
      else if is_revoked_status app.status
      then unresolved (callback application_revoked)
      else if p.require_secret && lacks_hash app.client_secret_hash
      then unresolved secret_not_generated
      else resolve_callback app p.redirect_uri

  unfoldable pub resolve_authorization_request :
      RegistryContext → Registry → RequestParams → Read ResolvedRequest
  unfolding resolve_application
  resolve_authorization_request ctx db p = do
    found ← find_application_by_client_id ctx db p.client_id
    ok (elim found [ none ↦ unresolved unknown_client | some app ↦ resolve_application p app ])
