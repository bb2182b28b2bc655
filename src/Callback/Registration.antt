-- ===== src/Callback/Registration.antt =====
-- `validateRegistrableCallback` and `validateCallbackList`: which URL an admin may store.
pub mod Agrees
use owne_x.Base.{Option, none, some, List, [], ◌∷◌, ◌++◌, ◌||◌, not, ltb, if◌then◌else◌, length}
use owne_x.Base.Text.{Text, codes, trim, is_empty}
use owne_x.Callback.Url.{Url, CallbackMode}
use owne_x.Callback.Allowlist.{
  CallbackRejection, unknown_app, application_revoked, missing_uri, malformed_uri,
  unsupported_scheme, insecure_scheme, localhost_not_allowed, no_callback_registered,
  callback_not_registered, callback_has_parameters, callback_too_long, max_callback_length, is_http,
  scheme_rejection, check_transport, canonicalize_callback,
}

pub data RegistrableCheck : Type 0 where
  registrable : (normalized : Text) → RegistrableCheck
  refused : CallbackRejection → RegistrableCheck

unfoldable pub explain_rejection : CallbackRejection → Text
explain_rejection unknown_app =
    codes "No application is registered with owneX for that client_id and organization."
explain_rejection application_revoked =
    codes "This integration has been revoked by an organization administrator."
explain_rejection missing_uri = codes "The request did not include a redirect_uri."
explain_rejection malformed_uri = codes "The redirect_uri is not an absolute URL."
explain_rejection unsupported_scheme = codes "The redirect_uri must use http or https."
explain_rejection insecure_scheme = codes "Callbacks that are not on localhost must use https."
explain_rejection localhost_not_allowed =
    codes "A localhost callback is only accepted in local development."
explain_rejection no_callback_registered =
    codes
      "This application has no callback URL registered yet. An administrator must add one on the Applications screen."
explain_rejection callback_not_registered =
    codes "That redirect_uri is not one of the callback URLs registered for this application."
explain_rejection callback_has_parameters =
    codes "A registered callback URL must not contain a query string or fragment."
explain_rejection callback_too_long = codes "A callback URL must be at most 2048 characters."

module _ (parse_url : Text → Option Url) where
  -- What follows the parse of the trimmed text.
  validate_parsed : CallbackMode → Text → Url → RegistrableCheck
  validate_parsed mode trimmed raw =
      if not (is_http raw.protocol)
      then refused unsupported_scheme
      else if not (is_empty raw.search) || not (is_empty raw.hash)
      then refused callback_has_parameters
      else elim (check_transport raw mode) [
        | some reason ↦ refused reason
        | none ↦ elim (canonicalize_callback parse_url trimmed) [
          | none ↦ refused malformed_uri
          | some (_, normalized) ↦ registrable normalized
        ]
      ]

  validate_text : CallbackMode → Text → RegistrableCheck
  unfolding validate_parsed
  validate_text mode uri =
      if is_empty (trim uri)
      then refused missing_uri
      else if ltb max_callback_length (length uri)
      then refused callback_too_long
      else elim (parse_url (trim uri)) [
        | none ↦ refused (scheme_rejection (trim uri))
        | some raw ↦ validate_parsed mode (trim uri) raw
      ]

  unfoldable pub validate_registrable_callback : CallbackMode → Option Text → RegistrableCheck
  unfolding validate_text
  validate_registrable_callback mode none = refused missing_uri
  validate_registrable_callback mode (some uri) = validate_text mode uri

  unfoldable pub validate_callback_list : CallbackMode → List Text → List Text
  unfolding explain_rejection
  validate_callback_list mode [] = []
  validate_callback_list mode (raw ∷ urls) =
      let problems = validate_callback_list mode urls in
      elim (validate_registrable_callback mode (some raw)) [
        | registrable _ ↦ problems
        | refused reason ↦ (raw ++ codes ": " ++ explain_rejection reason) ∷ problems
      ]
