-- ===== src/Registry/Tests.antt =====
-- The registry, with one application.
use owne_x.Base.{List, ◌≡◌, refl, true, Option, none, some, [], ◌∷◌, ok, if◌then◌else◌}
use owne_x.Base.Text.{Text, codes, ◌===◌, is_empty, trim, lower, drop_while, drop_while_end, split}
use owne_x.Callback.Url.{Url, production, is_loopback_host}
use owne_x.Callback.Allowlist.{check_callback, canonicalize_callback, check_transport}
use owne_x.Credentials.Tests.{stored}
use owne_x.Registry.Records.{ApplicationRow, RegisteredApplication, to_record}
use owne_x.Registry.Reads.{
  Registry, RegistryContext, read_callbacks, find_application_by_client_id, replace_callbacks,
}
use owne_x.Registry.Reads.Unique.{IsCleaned}
use owne_x.Registry.Reads.Replaced.{read-replace_callbacks}
use owne_x.Registry.Requests.{RequestParams, resolved, resolve_authorization_request}
use owne_x.Registry.Requests.Resolved.{IsResolved, resolve_authorization_request-IsResolved}

abbrev pub callback_url : Text
callback_url = codes "https://partner.example/callback"

-- A parser that knows one URL.
abbrev pub parse_url : Text → Option Url
parse_url t =
    if t === callback_url
    then some (record {
      protocol = codes "https:";
      hostname = codes "partner.example";
      port = [];
      pathname = codes "/callback";
      search = [];
      hash = [];
    })
    else none

abbrev pub row : ApplicationRow
row = record {
  org_id = 7;
  app_slug = codes "payroll";
  app_id = none;
  name = some (codes "Payroll");
  url = none;
  description = none;
  logo_url = none;
  client_id = some (codes "client-1");
  client_secret_hash = some stored;
  client_secret_updated_at = none;
  allowed_roles = some (codes "admin" ∷ []);
  status = some (codes "active");
  created_at = none;
  updated_at = none;
}

abbrev pub registry : Registry
registry = record {
  applications = row ∷ [];
  application_callbacks =
      record { org_id = 7; app_slug = codes "payroll"; callback_url = callback_url } ∷ [];
  applications_reachable = true;
  callbacks_reachable = true;
}

abbrev pub context : RegistryContext
context = record { app_id_from_slug = λ slug. slug; sorted = λ urls. urls }

abbrev params : RequestParams
params = record {
  client_id = codes " client-1 ";
  org_id = 7;
  redirect_uri = some callback_url;
  require_secret = true;
}

abbrev pub application : RegisteredApplication
application = to_record (λ slug. slug) row (callback_url ∷ [])

request_run :
    resolve_authorization_request parse_url production context registry params
    ≡ ok (resolved application callback_url)
unfolding resolve_authorization_request find_application_by_client_id read_callbacks to_record
    check_callback is_empty trim drop_while_end drop_while ◌===◌ check_transport is_loopback_host
    lower split canonicalize_callback
request_run = refl

resolve_authorization_request-IsResolved_example :
    IsResolved parse_url production context registry params application callback_url
resolve_authorization_request-IsResolved_example =
    resolve_authorization_request-IsResolved parse_url production context registry params
      application callback_url request_run

abbrev submitted : List Text
submitted = codes " https://a.example/cb " ∷ codes "https://a.example/cb" ∷ codes " " ∷ []

replace_run : (replace_callbacks true true 7 (codes "payroll") submitted registry).0 ≡ ok tt
unfolding replace_callbacks is_empty trim drop_while_end drop_while
replace_run = refl

read-replace_callbacks_example :
    (stored : List Text) × (read_callbacks context
        (replace_callbacks true true 7 (codes "payroll") submitted registry).1
        7
        (codes "payroll")
      ≡ ok (context.sorted stored))
    × IsCleaned submitted stored
read-replace_callbacks_example =
    read-replace_callbacks context true true 7 (codes "payroll") submitted registry replace_run refl
