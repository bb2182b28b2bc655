-- ===== src/Portal/Tests.antt =====
-- A sign-in at the portal, answered by the platform of the tests of Sso.
use owne_x.Base.{ℕ, ◌≡◌, refl, ok, Option, none, some, [], ◌∷◌, true}
use owne_x.Base.Text.{
  Text, codes, upper, lower, is_empty, trim, drop_while, drop_while_end, ◌===◌, split, number_of,
}
use owne_x.Chain.Roles.{role_name}
use owne_x.Chain.Reads.{
  read_organization, read_identity, read_effective_role, read_membership, read_can_access_app,
  read_permissions_for,
}
use owne_x.Access.Decision.{decide_access}
use owne_x.Access.Evaluate.{evaluate_access}
use owne_x.Access.Live.{evaluate_live_access}
use owne_x.Access.Claims.{build_partner_claims}
use owne_x.Callback.Url.{is_loopback_host}
use owne_x.Callback.Allowlist.{check_callback, canonicalize_callback, check_transport}
use owne_x.Codes.Store.{GrantInput, fresh_row, redeemable}
use owne_x.Codes.Rows.{row_of}
use owne_x.Codes.Operations.{stored_grant, consume_authorization_code}
use owne_x.Codes.Postgres.{Postgres, supabase_code_store}
use owne_x.Codes.Tests.{code}
use owne_x.Credentials.Secret.{verify_client_secret}
use owne_x.Credentials.Tests.{secret}
use owne_x.Registry.Records.{to_record, to_roles, to_status}
use owne_x.Registry.Reads.{find_application_by_client_id, read_callbacks}
use owne_x.Registry.Tests.{callback_url}
use owne_x.Sso.Exchange.{exchange, authenticated}
use owne_x.Sso.Tests.{platform}
use owne_x.Access.Tests.{admin_snapshot}
use owne_x.Partner.Tests.{base64}
use owne_x.Partner.Credentials.{
  client_auth_header, read_partner_credentials, parse_basic_credentials, is_token_unit,
}
use owne_x.Partner.Auth.{authenticate_partner}
use owne_x.Partner.Verify.{
  VerifyContext, verify_role, parse_params, is_address_text, is_slug, foreign, slug_asked,
  answer_with,
}
use owne_x.Registry.Reads.{find_application_by_slug}
use owne_x.Portal.Verify.{VerifyResult, verify_access, opened}
use owne_x.Portal.Verify.EndToEnd.{
  VerifiedBy, route_fetch, verify_reply, body_of, verify_access-VerifiedBy,
}
use owne_x.Portal.Config.{
  PortalEnv, ownex_config, get_platform_origin, get_redirect_uri, get_org_id, get_app_slug,
  parse_int,
}
use owne_x.Portal.Session.{PortalSession, dashboard, denied, has_password, login}
use owne_x.Portal.Callback.{
  CallbackQuery, unreachable, callback, is_wallet, signed_in, cleared, state_accepted,
}
use owne_x.Portal.Callback.Single.{callback-once}
use owne_x.Portal.Callback.EndToEnd.{SignedInBy, platform_fetch, reply_of, callback-SignedInBy}

abbrev pub env : PortalEnv
env = record {
  node_env = some (codes "production");
  ownex_origin = some (codes "https://ownex.example/");
  platform_origin = none;
  ownex_redirect_uri = some callback_url;
  portal_callback_url = none;
  ownex_org_id = some (codes "7");
  portal_org_id = none;
  ownex_app_slug = some (codes "payroll");
  ownex_client_id = some (codes " client-1 ");
  ownex_client_secret = some secret;
  portal_session_password = some (codes "0123456789abcdef0123456789abcdef");
}

abbrev wallet : Text
wallet = codes "0xABCDEF0123456789abcdef0123456789abcdef01"

abbrev granted : GrantInput
granted = record {
  client_id = codes "client-1";
  app_slug = codes "payroll";
  org_id = 7;
  wallet = wallet;
  redirect_uri = callback_url;
}

abbrev database : Postgres
database = record { rows = fresh_row (stored_grant granted code 0) ∷ []; replies = [] }

abbrev decimal : ℕ → Text
decimal n = codes "418"

abbrev iso : ℕ → Text
iso n = codes "2025-01-01T00:00:00.000Z"

-- The session after a login, and the query that comes back.
abbrev pending : PortalSession
pending = record {
  wallet = none;
  org_id = none;
  verified_at = none;
  state = some (codes "state-1");
  state_expires = some 300000;
}

abbrev returned : CallbackQuery
returned = record { state = codes "state-1"; code = code; error = [] }

login_run :
    (login env (codes "state-1") 0 (record {
      wallet = some wallet;
      org_id = none;
      verified_at = none;
      state = none;
      state_expires = none;
    })).1
    ≡ pending
unfolding login ownex_config is_empty trim drop_while_end drop_while get_org_id parse_int
    has_password
login_run = refl

callback_run :
    (callback decimal iso env 7
      (platform_fetch decimal iso env 7 platform supabase_code_store database)
      returned
      pending).0
    ≡ dashboard
unfolding callback platform_fetch reply_of ownex_config parse_int is_wallet has_password get_org_id
    state_accepted cleared signed_in get_platform_origin get_redirect_uri get_app_slug exchange
    authenticated verify_client_secret consume_authorization_code redeemable build_partner_claims
    find_application_by_client_id read_callbacks to_record to_roles to_status upper lower is_empty
    trim drop_while_end drop_while ◌===◌ split number_of check_callback canonicalize_callback
    check_transport is_loopback_host evaluate_live_access evaluate_access decide_access
    read_organization read_identity read_effective_role read_membership read_can_access_app
    read_permissions_for role_name supabase_code_store row_of
callback_run = refl

callback-SignedInBy_example :
    SignedInBy decimal iso env 7 platform supabase_code_store database returned pending
      (callback decimal iso env 7
        (platform_fetch decimal iso env 7 platform supabase_code_store database)
        returned
        pending).1
callback-SignedInBy_example =
    callback-SignedInBy decimal iso env 7 platform supabase_code_store database returned pending
      callback_run

has_password_run : has_password env ≡ true
unfolding has_password
has_password_run = refl

callback-once_example :
    callback decimal iso env 9
      (λ body. unreachable)
      returned
      (callback decimal iso env 7
        (platform_fetch decimal iso env 7 platform supabase_code_store database)
        returned
        pending).1
    ≡ (
      denied (codes "INVALID_STATE"),
      (callback decimal iso env 7
          (platform_fetch decimal iso env 7 platform supabase_code_store database)
          returned
          pending).1,
    )
callback-once_example =
    callback-once decimal iso env 7 9
      (platform_fetch decimal iso env 7 platform supabase_code_store database) (λ body. unreachable)
      returned returned pending has_password_run

-- The route roles/verify of that platform.
abbrev verify_context : VerifyContext
verify_context = record {
  base64 = base64;
  crypto = platform.crypto;
  context = platform.context;
  registry = platform.registry;
  chain = platform.chain;
  node_env = some (codes "production");
  now = 5;
  coerce = number_of;
}

-- The decimal numeral of the organization.
abbrev seven_text : ℕ → Text
seven_text n = codes "7"

abbrev allowed_result : VerifyResult
allowed_result = record {
  allowed = true;
  reason = none;
  role = codes "ADMIN";
  permissions =
      (build_partner_claims wallet 7 (codes "ADMIN") admin_snapshot.permissions true 5).permissions;
  identity_active = true;
  membership = some admin_snapshot.membership;
  verified_at = some (iso 5);
}

verify_access_run :
    verify_access seven_text base64 env
      (route_fetch seven_text iso base64 env verify_context)
      wallet
    ≡ ok allowed_result
unfolding verify_access route_fetch verify_reply body_of opened ownex_config parse_int get_org_id
    get_platform_origin get_redirect_uri get_app_slug client_auth_header verify_role parse_params
    is_address_text is_slug foreign slug_asked answer_with authenticate_partner
    read_partner_credentials parse_basic_credentials is_token_unit verify_client_secret
    build_partner_claims find_application_by_client_id find_application_by_slug read_callbacks
    to_record to_roles to_status upper lower is_empty trim drop_while_end drop_while ◌===◌ split
    number_of evaluate_live_access evaluate_access decide_access read_organization read_identity
    read_effective_role read_membership read_can_access_app read_permissions_for role_name
    owne_x.Base.Text.take owne_x.Base.Text.drop owne_x.Base.Text.index_of
verify_access_run = refl

verify_access-VerifiedBy_example :
    VerifiedBy seven_text iso base64 env verify_context wallet allowed_result
verify_access-VerifiedBy_example =
    verify_access-VerifiedBy seven_text iso base64 env verify_context wallet allowed_result
      verify_access_run refl
