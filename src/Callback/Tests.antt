-- ===== src/Callback/Tests.antt =====
-- Callbacks, with a parser that knows one URL.
use owne_x.Base.{◌≡◌, ◌↔◌, refl, Option, none, some, [], ◌∷◌, ◌||◌, if◌then◌else◌, Memᴰ}
use owne_x.Base.Text.{Text, codes, ◌===◌, is_empty, trim, lower, drop_while, drop_while_end, split}
use owne_x.Callback.Url.{Url, production, is_loopback_host}
use owne_x.Callback.Allowlist.{
  CallbackSubject, accepted, check_callback, canonicalize_callback, check_transport,
}
use owne_x.Callback.Allowlist.Exact.{
  IsTransportAllowed, check_transport_iff, Accepted, check_callback-Accepted,
  Accepted-check_callback,
}
use owne_x.Callback.Registration.{registrable, validate_registrable_callback}
use owne_x.Callback.Registration.Agrees.{registrable-check_callback}
use owne_x.Callback.Redirect.{RedirectTarget, RedirectParams, build_callback_redirect}
use owne_x.Callback.Redirect.Closed.{RedirectsTo, check_callback-RedirectsTo}

abbrev callback_url : Text
callback_url = codes "https://partner.example/callback"

abbrev parsed : Url
parsed = record {
  protocol = codes "https:";
  hostname = codes "partner.example";
  port = [];
  pathname = codes "/callback/";
  search = [];
  hash = [];
}

abbrev parse_url : Text → Option Url
parse_url t =
    if t === codes "https://partner.example/callback/" || t === callback_url
    then some parsed
    else none

abbrev requested : Text
requested = codes " https://partner.example/callback/"

abbrev subject : CallbackSubject
subject = record { status = some (codes "active"); callbacks = codes "  " ∷ callback_url ∷ [] }

callback_trimmed : trim callback_url ≡ callback_url
unfolding trim drop_while_end drop_while
callback_trimmed = refl

check_run :
    check_callback parse_url production (some subject) (some requested)
    ≡ accepted callback_url callback_url
unfolding check_callback is_empty trim drop_while_end drop_while ◌===◌ check_transport
    is_loopback_host lower split canonicalize_callback
check_run = refl

check_transport_iff_example :
    (check_transport parsed production ≡ none) ↔ IsTransportAllowed production parsed
check_transport_iff_example = check_transport_iff parsed production

check_callback-Accepted_example :
    Accepted parse_url production subject requested callback_url callback_url
check_callback-Accepted_example =
    check_callback-Accepted parse_url production subject requested callback_url callback_url
      check_run

Accepted-check_callback_example :
    (r : Text) × (check_callback parse_url production (some subject) (some requested)
      ≡ accepted callback_url r)
Accepted-check_callback_example =
    Accepted-check_callback parse_url production subject requested callback_url callback_url (
      check_callback-Accepted parse_url production subject requested callback_url callback_url
        check_run)

validate_run :
    validate_registrable_callback parse_url production (some callback_url)
    ≡ registrable callback_url
unfolding validate_registrable_callback is_empty trim drop_while_end drop_while ◌===◌
    check_transport is_loopback_host lower split canonicalize_callback
validate_run = refl

registrable-check_callback_example :
    (r : Text) × (check_callback parse_url production (some subject) (some (trim callback_url))
      ≡ accepted callback_url r)
registrable-check_callback_example =
    registrable-check_callback parse_url production callback_url callback_url subject validate_run
      (λ e. cc) (Memᴰ.tail (Memᴰ.head callback_trimmed))

abbrev answer : RedirectParams
answer = record { code = some (codes "abc"); error = none; state = codes "s" }

check_callback-RedirectsTo_example :
    (t : RedirectTarget) × (build_callback_redirect parse_url callback_url answer ≡ some t)
    × RedirectsTo parse_url callback_url callback_url answer t
check_callback-RedirectsTo_example =
    check_callback-RedirectsTo parse_url production subject requested callback_url callback_url
      answer check_run callback_trimmed
