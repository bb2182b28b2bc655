-- ===== src/Sso/Tests.antt =====
-- The sign-in flow of one application, from consent to claims.
use owne_x.Base.{ℕ, ◌≤◌, ◌≡◌, ◌⊎◌, refl, Option, some, [], ◌∷◌}
use owne_x.Base.Text.{
  Text, codes, upper, lower, is_empty, trim, drop_while, drop_while_end, ◌===◌, split, number_of,
}
use owne_x.Chain.Roles.{role_name}
use owne_x.Chain.Reads.{
  read_organization, read_identity, read_effective_role, read_membership, read_can_access_app,
  read_permissions_for,
}
use owne_x.Access.Decision.{decide_access}
use owne_x.Access.Evaluate.{evaluate_access}
use owne_x.Access.Live.{evaluate_live_access}
use owne_x.Access.Claims.{PartnerClaims, build_partner_claims}
use owne_x.Access.Tests.{chain, admin_snapshot}
use owne_x.Callback.Url.{production, is_loopback_host}
use owne_x.Callback.Allowlist.{check_callback, canonicalize_callback, check_transport}
use owne_x.Callback.Redirect.{RedirectTarget, build_callback_redirect}
use owne_x.Codes.Store.{fresh_row, redeemable}
use owne_x.Codes.Rows.{row_of, HasDistinctCodes}
use owne_x.Codes.Operations.{stored_grant, issue_authorization_code, consume_authorization_code}
use owne_x.Codes.Postgres.{Postgres, supabase_code_store}
use owne_x.Codes.Postgres.Lawful.{supabase_code_store-IsLawful}
use owne_x.Codes.Tests.{code, grant}
use owne_x.Credentials.Secret.{verify_client_secret}
use owne_x.Credentials.Tests.{crypto, secret}
use owne_x.Registry.Records.{RegisteredApplication, to_record, to_roles, to_status}
use owne_x.Registry.Reads.{find_application_by_client_id, read_callbacks}
use owne_x.Registry.Requests.{resolve_authorization_request}
use owne_x.Registry.Tests.{callback_url, parse_url, registry, context}
use owne_x.Sso.Platform.{Platform}
use owne_x.Sso.Exchange.{ExchangeBody, readable, claims, exchange, authenticated}
use owne_x.Sso.Exchange.Sound.{Exchanged, Authenticated, exchange-Exchanged, exchange-state}
use owne_x.Sso.Exchange.Replay.{exchanges, exchanges-le-one}
use owne_x.Sso.Approve.{ApproveForm, ApproveFields, redirect, parse_form, redirect_to, approve}
use owne_x.Sso.Approve.Sound.{Redirected, approve-Redirected}

abbrev pub platform : Platform
platform = record {
  parse_url = parse_url;
  mode = production;
  context = context;
  registry = registry;
  crypto = crypto;
  chain = chain;
  now = 5;
}

abbrev body : ExchangeBody
body = record {
  client_id = codes "client-1";
  client_secret = secret;
  code = code;
  redirect_uri = callback_url;
}

abbrev database : Postgres
database = record { rows = fresh_row (stored_grant grant code 0) ∷ []; replies = [] }

abbrev told : PartnerClaims
told =
    build_partner_claims (codes "0xab") 7 (codes "ADMIN") admin_snapshot.permissions
      admin_snapshot.identity_active 5

exchange_run : (exchange platform supabase_code_store (readable body) database).0 ≡ claims told
unfolding exchange authenticated verify_client_secret consume_authorization_code redeemable
    build_partner_claims find_application_by_client_id read_callbacks to_record to_roles to_status
    upper lower is_empty trim drop_while_end drop_while ◌===◌ split number_of check_callback
    canonicalize_callback check_transport is_loopback_host evaluate_live_access evaluate_access
    decide_access read_organization read_identity read_effective_role read_membership
    read_can_access_app read_permissions_for role_name supabase_code_store row_of
exchange_run = refl

exchange-Exchanged_example : Exchanged platform supabase_code_store body database told
exchange-Exchanged_example =
    exchange-Exchanged platform supabase_code_store body database told exchange_run

exchange-state_example :
    ((exchange platform supabase_code_store (readable body) database).1 ≡ database)
    ⊎ ((app : RegisteredApplication) × Authenticated platform supabase_code_store body app)
exchange-state_example = exchange-state platform supabase_code_store body database

database_distinct : HasDistinctCodes database.rows
unfolding row_of
database_distinct = (refl, tt)

exchanges-le-one_example :
    exchanges supabase_code_store code ((platform, body) ∷ (platform, body) ∷ []) database ≤ 1
exchanges-le-one_example =
    exchanges-le-one supabase_code_store-IsLawful code ((platform, body) ∷ (platform, body) ∷ [])
      database database_distinct

abbrev form : ApproveForm
form = record {
  client_id = some (codes "client-1");
  org_id = some (codes "7");
  redirect_uri = some callback_url;
  state = some (codes "state-of-the-browser");
}

abbrev seven : Text → Option ℕ
seven t = some 7

abbrev target : RedirectTarget
target = record {
  url = record {
    protocol = codes "https:";
    hostname = codes "partner.example";
    port = [];
    pathname = codes "/callback";
    search = [];
    hash = [];
  };
  params = (codes "code", code) ∷ (codes "state", codes "state-of-the-browser") ∷ [];
}

abbrev empty : Postgres
empty = record { rows = []; replies = [] }

approve_run :
    (approve platform supabase_code_store code seven (some form) (some (codes "0xAb")) empty).0
    ≡ redirect target
unfolding approve parse_form redirect_to build_callback_redirect issue_authorization_code
    resolve_authorization_request find_application_by_client_id read_callbacks to_record to_roles
    to_status upper lower is_empty trim drop_while_end drop_while ◌===◌ split check_callback
    canonicalize_callback check_transport is_loopback_host evaluate_live_access evaluate_access
    decide_access read_organization read_identity read_effective_role read_membership
    read_can_access_app read_permissions_for role_name supabase_code_store row_of
approve_run = refl

approve-Redirected_example :
    (fields : ApproveFields) × (parse_form seven form ≡ some fields)
    × Redirected platform supabase_code_store code fields (some (codes "0xAb")) empty target
approve-Redirected_example =
    approve-Redirected platform supabase_code_store code seven form (some (codes "0xAb")) empty
      target approve_run
