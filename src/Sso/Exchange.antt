-- ===== src/Sso/Exchange.antt =====
-- apps/platform/app/api/authorize/exchange/route.ts: `POST`. An error is the status and the code that
-- `handler` answers with. The code store is a parameter; the route's own is `supabase_code_store`.
pub mod Sound
pub mod Replay
use owne_x.Base.{
  ℕ, Bool, true, false, not, ◌&&◌, ◌||◌, Option, none, some, ◌==◌, if◌then◌else◌, Read, ok, thrown,
}
use owne_x.Base.Text.{Text, codes, ◌===◌}
use owne_x.Access.Decision.{
  AccessDenyReason, organization_not_found, organization_suspended, identity_not_registered,
  identity_revoked, not_a_member, role_expired, app_access_not_granted, application_not_registered,
}
use owne_x.Access.Evaluate.{evaluated, chain_unavailable}
use owne_x.Access.Live.{evaluate_live_access}
use owne_x.Access.Claims.{PartnerClaims, build_partner_claims}
use owne_x.Callback.Allowlist.{accepted, rejected, check_callback}
use owne_x.Codes.Store.{ConsumeQuery, ConsumedGrant, AuthorizationCodeStore}
use owne_x.Codes.Operations.{consume_authorization_code}
use owne_x.Credentials.Secret.{verify_client_secret}
use owne_x.Registry.Records.{RegisteredApplication}
use owne_x.Registry.Reads.{find_application_by_client_id}
use owne_x.Registry.Requests.{subject_of, is_revoked_status}
use owne_x.Sso.Platform.{Platform, is_within}

pub record ExchangeBody : Type 0 where
  pub client_id : Text
  pub client_secret : Text
  pub code : Text
  pub redirect_uri : Text

-- What the request holds: no JSON, JSON without these four texts, or a body.
pub data ExchangeRequest : Type 0 where
  unreadable malformed : ExchangeRequest
  readable : ExchangeBody → ExchangeRequest

pub data ExchangeResponse : Type 0 where
  claims : PartnerClaims → ExchangeResponse
  api_error : (status : ℕ) (code : Text) → ExchangeResponse

-- The bounds of `exchangeSchema`.
abbrev pub is_valid_body : ExchangeBody → Bool
is_valid_body b =
    is_within 8 128 b.client_id
    && is_within 16 512 b.client_secret
    && is_within 32 512 b.code
    && is_within 8 2048 b.redirect_uri

abbrev pub invalid_client : ExchangeResponse
invalid_client = api_error 401 (codes "INVALID_CLIENT")

abbrev pub stored_hash : Option RegisteredApplication → Option Text
stored_hash none = none
stored_hash (some app) = app.client_secret_hash

-- The code of a denial.
abbrev pub reason_code : Option AccessDenyReason → Text
reason_code none = codes "ACCESS_DENIED"
reason_code (some organization_not_found) = codes "ORGANIZATION_NOT_FOUND"
reason_code (some organization_suspended) = codes "ORGANIZATION_SUSPENDED"
reason_code (some identity_not_registered) = codes "IDENTITY_NOT_REGISTERED"
reason_code (some identity_revoked) = codes "IDENTITY_REVOKED"
reason_code (some not_a_member) = codes "NOT_A_MEMBER"
reason_code (some role_expired) = codes "ROLE_EXPIRED"
reason_code (some app_access_not_granted) = codes "APP_ACCESS_NOT_GRANTED"
reason_code (some application_not_registered) = codes "APPLICATION_NOT_REGISTERED"

module _ (platform : Platform) where
  -- The claims of a grant, read live.
  pub claims_of : ConsumedGrant → ExchangeResponse
  claims_of grant =
      elim (evaluate_live_access platform.chain platform.now grant.org_id grant.wallet
        (some grant.app_slug)) [
          | chain_unavailable detail ↦ api_error 503 (codes "CHAIN_UNAVAILABLE")
          | evaluated decision snapshot ↦
              if not decision.allowed
              then api_error 403 (reason_code decision.reason)
              else claims (
                  build_partner_claims grant.wallet grant.org_id snapshot.role snapshot.permissions
                    snapshot.identity_active platform.now)
        ]

  -- What follows the consumption of the code.
  pub answer_of : RegisteredApplication → Read (Option ConsumedGrant) → ExchangeResponse
  unfolding claims_of
  answer_of app (thrown detail) = api_error 503 (codes "STORE_UNAVAILABLE")
  answer_of app (ok none) = api_error 400 (codes "CODE_REJECTED")
  answer_of app (ok (some grant)) =
      if not (grant.org_id == app.org_id) || not (grant.app_slug === app.slug)
      then invalid_client
      else claims_of grant

  -- The application, if it exists, is not revoked, and the secret is its own.
  unfoldable pub authenticated :
      ExchangeBody → Option RegisteredApplication → Option RegisteredApplication
  authenticated body application =
      let secret_ok =
        verify_client_secret platform.crypto (some body.client_secret) (stored_hash application) in
      elim application [
        | none ↦ none
        | some app ↦ if is_revoked_status app.status || not secret_ok then none else some app
      ]

  abbrev pub query_of : ExchangeBody → Text → ConsumeQuery
  query_of body registered = record {
    code = body.code;
    client_id = body.client_id;
    redirect_uri = registered;
    now = platform.now;
  }

  module _ {S : Type 0} (store : AuthorizationCodeStore S) where
    redeem : ExchangeBody → RegisteredApplication → Text → S → ExchangeResponse × S
    unfolding answer_of
    redeem body app registered s =
        let (grant, s') = consume_authorization_code store (query_of body registered) s in
        (answer_of app grant, s')

    exchange_as : ExchangeBody → RegisteredApplication → S → ExchangeResponse × S
    unfolding redeem
    exchange_as body app s =
        elim (check_callback platform.parse_url platform.mode (some (subject_of app))
          (some body.redirect_uri)) [
            | rejected reason ↦ (invalid_client, s)
            | accepted normalized registered ↦ redeem body app registered s
          ]

    exchange_found : ExchangeBody → Read (Option RegisteredApplication) → S → ExchangeResponse × S
    unfolding exchange_as authenticated
    exchange_found body (thrown detail) s = (api_error 503 (codes "REGISTRY_UNAVAILABLE"), s)
    exchange_found body (ok application) s = elim (authenticated body application) [
      | none ↦ (invalid_client, s)
      | some app ↦ exchange_as body app s
    ]

    unfoldable pub exchange : ExchangeRequest → S → ExchangeResponse × S
    unfolding exchange_found
    exchange unreadable s = (api_error 400 (codes "BAD_REQUEST"), s)
    exchange malformed s = (api_error 400 (codes "VALIDATION_FAILED"), s)
    exchange (readable body) s =
        if not (is_valid_body body)
        then (api_error 400 (codes "VALIDATION_FAILED"), s)
        else exchange_found body
            (find_application_by_client_id platform.context platform.registry body.client_id) s
