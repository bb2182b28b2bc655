-- ===== src/Callback/Allowlist.antt =====
-- `callbackMode`, `canonicalizeCallback`, `schemeRejection`, `checkTransport`, `checkCallback`.
pub mod Exact
use owne_x.Base.{
  ℕ, Bool, true, false, not, ◌&&◌, ◌||◌, Option, none, some, List, [], ◌∷◌, ◌++◌, leb, ltb, ◌==◌,
  if◌then◌else◌, length, filter,
}
use owne_x.Base.Text.{Text, codes, ◌===◌, lower, trim, drop_while_end, is_empty}
use owne_x.Callback.Url.{Url, host, CallbackMode, development, production, is_loopback_host}

pub data CallbackRejection : Type 0 where
  unknown_app : CallbackRejection
  application_revoked : CallbackRejection
  missing_uri : CallbackRejection
  malformed_uri : CallbackRejection
  unsupported_scheme : CallbackRejection
  insecure_scheme : CallbackRejection
  localhost_not_allowed : CallbackRejection
  no_callback_registered : CallbackRejection
  callback_not_registered : CallbackRejection
  callback_has_parameters : CallbackRejection
  callback_too_long : CallbackRejection

pub data CallbackCheck : Type 0 where
  accepted : (normalized registered : Text) → CallbackCheck
  rejected : CallbackRejection → CallbackCheck

pub record CallbackSubject : Type 0 where
  pub status : Option Text
  pub callbacks : List Text

abbrev pub max_callback_length : ℕ
max_callback_length = 2048

-- `env.NODE_ENV` is the argument.
unfoldable pub callback_mode : Option Text → CallbackMode
callback_mode none = development
callback_mode (some node_env) = if node_env === codes "production" then production else development

abbrev pub is_http : Text → Bool
is_http protocol = protocol === codes "http:" || protocol === codes "https:"

abbrev default_port : Text → Text
default_port protocol = if protocol === codes "https:" then codes "443" else codes "80"

-- The setters that drop the default port, the query and the fragment.
abbrev pub stripped : Url → Url
stripped url = record url {
  port = if url.port === default_port url.protocol then [] else url.port;
  search = [];
  hash = [];
}

-- `replace(/\/+$/, "")`
abbrev drop_slashes : Text → Text
drop_slashes path = drop_while_end (λ c. c == b'/') path

abbrev pub normalized_of : Url → Text
normalized_of url = url.protocol ++ codes "//" ++ lower (host url) ++ drop_slashes url.pathname

is_alpha : ℕ → Bool
is_alpha c = (leb b'a' c && leb c b'z') || (leb b'A' c && leb c b'Z')

is_scheme_unit : ℕ → Bool
unfolding is_alpha
is_scheme_unit c = is_alpha c || (leb b'0' c && leb c b'9') || c == b'+' || c == b'.' || c == b'-'

scheme_tail : Text → Bool
unfolding is_scheme_unit
scheme_tail [] = false
scheme_tail (c ∷ s) =
    let rest = scheme_tail s in if c == b':' then true else is_scheme_unit c && rest

-- `/^[a-z][a-z0-9+.-]*:/i`
has_scheme : Text → Bool
unfolding is_alpha scheme_tail
has_scheme [] = false
has_scheme (c ∷ s) = is_alpha c && scheme_tail s

unfoldable pub scheme_rejection : Text → CallbackRejection
unfolding has_scheme
scheme_rejection uri = if has_scheme (trim uri) then unsupported_scheme else malformed_uri

unfoldable pub check_transport : Url → CallbackMode → Option CallbackRejection
check_transport url mode =
    if is_loopback_host url.hostname
    then elim mode [ production ↦ some localhost_not_allowed | development ↦ none ]
    else if url.protocol === codes "https:"
    then none
    else some insecure_scheme

abbrev pub is_revoked : Option Text → Bool
is_revoked none = false
is_revoked (some status) = status === codes "revoked"

-- `value.trim().length > 0`
abbrev pub is_given : Text → Bool
is_given s = not (is_empty (trim s))

abbrev pub stored_callbacks : List Text → List Text
stored_callbacks callbacks = filter is_given callbacks

module _ (parse_url : Text → Option Url) where
  unfoldable pub canonicalize_callback : Text → Option (Url × Text)
  canonicalize_callback uri = elim (parse_url (trim uri)) [
    | none ↦ none
    | some url ↦
        if is_http url.protocol then some (stripped url, normalized_of (stripped url)) else none
  ]

  -- The loop over the registered callbacks.
  match_registered : Text → List Text → CallbackCheck
  match_registered normalized [] = rejected callback_not_registered
  match_registered normalized (entry ∷ entries) =
      let rest = match_registered normalized entries in
      elim (canonicalize_callback entry) [
        | none ↦ rest
        | some (_, pinned) ↦ if pinned === normalized then accepted normalized entry else rest
      ]

  -- What follows the transport check.
  check_registered : Text → List Text → CallbackCheck
  unfolding match_registered
  check_registered normalized [] = rejected no_callback_registered
  check_registered normalized (entry ∷ entries) = match_registered normalized (entry ∷ entries)

  check_uri : CallbackMode → CallbackSubject → Text → CallbackCheck
  unfolding check_registered
  check_uri mode app uri =
      if is_empty (trim uri)
      then rejected missing_uri
      else if ltb max_callback_length (length uri)
      then rejected callback_too_long
      else elim (canonicalize_callback uri) [
        | none ↦ rejected (scheme_rejection uri)
        | some (url, normalized) ↦ elim (check_transport url mode) [
          | some reason ↦ rejected reason
          | none ↦ check_registered normalized (stored_callbacks app.callbacks)
        ]
      ]

  -- The URI is `none` where the request's value is no string.
  unfoldable pub check_callback :
      CallbackMode → Option CallbackSubject → Option Text → CallbackCheck
  unfolding check_uri
  check_callback mode none uri = rejected unknown_app
  check_callback mode (some app) uri =
      if is_revoked app.status
      then rejected application_revoked
      else elim uri [ none ↦ rejected missing_uri | some text ↦ check_uri mode app text ]
