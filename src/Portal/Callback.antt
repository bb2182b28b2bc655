-- ===== src/Portal/Callback.antt =====
-- apps/employee-portal/app/api/callback/route.ts: the partner's side of the authorization-code
-- flow. What the platform answers is a function of the request that is sent to it. A field of a
-- JSON body that is there has the type that the code expects. The decimal numeral of a number is
-- the argument `decimal`, the ISO text of an instant `iso`.
pub mod SignIn
pub mod Single
pub mod EndToEnd
use owne_x.Base.{
  ℕ, Bool, true, false, not, ◌&&◌, ◌||◌, Option, none, some, [], ◌∷◌, ◌++◌, leb, ltb, ◌==◌,
  if◌then◌else◌, Outcome, ok, thrown, length,
}
use owne_x.Base.Text.{Text, codes, ◌===◌, is_empty, lower, upper}
use owne_x.Sso.Exchange.{ExchangeBody}
use owne_x.Portal.Config.{PortalEnv, OwnexConfig, ownex_config}
use owne_x.Portal.Session.{
  PortalSession, has_password, PortalReply, dashboard, denied, server_error,
}

-- The query; a parameter that is absent reads as the empty text.
pub record CallbackQuery : Type 0 where
  pub state : Text
  pub code : Text
  pub error : Text

pub record ReplyBody : Type 0 where
  pub code : Option Text
  pub wallet : Option Text
  pub org_id : Option ℕ
  pub identity_active : Option Bool
  pub verified_at : Option Text

-- A body that is not JSON, or null, is `none`.
pub data FetchReply : Type 0 where
  unreachable : FetchReply
  answered : (status : ℕ) → Option ReplyBody → FetchReply

-- What is compared are bytes: the state that is stored is ASCII.
abbrev states_match : Text → Text → Bool
states_match received expected = received === expected

is_hex : ℕ → Bool
is_hex c = (leb b'0' c && leb c b'9') || (leb b'a' c && leb c b'f') || (leb b'A' c && leb c b'F')

all_hex : Text → Bool
unfolding is_hex
all_hex [] = true
all_hex (c ∷ s) = is_hex c && all_hex s

-- `/^0x[0-9a-fA-F]{40}$/`
unfoldable pub is_wallet : Text → Bool
unfolding all_hex
is_wallet [] = false
is_wallet (a ∷ []) = false
is_wallet (a ∷ b ∷ s) = a == b'0' && b == b'x' && all_hex s && length s == 40

-- `state` is not empty, it is the one that was stored, and that one has not expired.
unfoldable pub state_accepted : Text → Option Text → Option ℕ → ℕ → Bool
state_accepted state none expires now = false
state_accepted state (some expected) none now = false
state_accepted state (some expected) (some expires) now =
    not (is_empty state)
    && not (is_empty expected)
    && not (expires == 0)
    && not (ltb expires now)
    && states_match state expected

-- Whatever happens next, the state is gone.
unfoldable pub cleared : PortalSession → PortalSession
cleared session = record {
  wallet = session.wallet;
  org_id = session.org_id;
  verified_at = session.verified_at;
  state = none;
  state_expires = none;
}

module _ (decimal : ℕ → Text) (iso : ℕ → Text) (env : PortalEnv) (now : ℕ) where
  status_reason : ℕ → Text
  status_reason status = codes "EXCHANGE_" ++ decimal status

  refusal_reason : ℕ → Option ReplyBody → Text
  unfolding status_reason
  refusal_reason status none = status_reason status
  refusal_reason status (some body) = elim body.code [
    | none ↦ status_reason status
    | some code ↦ if is_empty code then status_reason status else code
  ]

  -- `orgId !== undefined && orgId !== config.orgId`
  other_org : Option ℕ → ℕ → Bool
  other_org none org = false
  other_org (some n) org = not (n == org)

  is_inactive : Option Bool → Bool
  is_inactive none = false
  is_inactive (some b) = not b

  verified : Option Text → Text
  verified none = iso now
  verified (some t) = t

  unfoldable pub signed_in : OwnexConfig → Text → ReplyBody → PortalSession
  unfolding verified
  signed_in config wallet body = record {
    wallet = some (lower wallet);
    org_id = some config.org_id;
    verified_at = some (verified body.verified_at);
    state = none;
    state_expires = none;
  }

  -- The tests of the claims, by the wallet that they name.
  check_claims : OwnexConfig → Option Text → ReplyBody → PortalSession → PortalReply × PortalSession
  unfolding other_org is_inactive
  check_claims config none body session = (denied (codes "AUTHORIZATION_FAILED"), session)
  check_claims config (some wallet) body session =
      if not (is_wallet wallet)
      then (denied (codes "AUTHORIZATION_FAILED"), session)
      else if is_inactive body.identity_active
      then (denied (codes "IDENTITY_REVOKED"), session)
      else if other_org body.org_id config.org_id
      then (denied (codes "ORG_MISMATCH"), session)
      else (dashboard, signed_in config wallet body)

  read_claims : OwnexConfig → Option ReplyBody → PortalSession → PortalReply × PortalSession
  unfolding check_claims
  read_claims config none session = (server_error, session)
  read_claims config (some body) session = check_claims config body.wallet body session

  read_reply : OwnexConfig → FetchReply → PortalSession → PortalReply × PortalSession
  unfolding read_claims refusal_reason
  read_reply config unreachable session = (denied (codes "VERIFICATION_UNAVAILABLE"), session)
  read_reply config (answered status body) session =
      if leb 200 status && leb status 299
      then read_claims config body session
      else (denied (refusal_reason status body), session)

  abbrev pub exchange_body : OwnexConfig → Text → ExchangeBody
  exchange_body config code = record {
    client_id = config.client.client_id;
    client_secret = config.client.client_secret;
    code = code;
    redirect_uri = config.redirect_uri;
  }

  module _ (fetch : ExchangeBody → FetchReply) where
    exchange_code : Text → PortalSession → PortalReply × PortalSession
    unfolding read_reply
    exchange_code code session = elim (ownex_config env) [
      | thrown reason ↦ (denied (codes "PORTAL_NOT_CONFIGURED"), session)
      | ok config ↦ read_reply config (fetch (exchange_body config code)) session
    ]

    after_state : CallbackQuery → PortalSession → PortalReply × PortalSession
    unfolding exchange_code
    after_state query session =
        if not (is_empty query.error)
        then (denied (upper query.error), session)
        else if is_empty query.code
        then (denied (codes "INVALID_CODE"), session)
        else exchange_code query.code session

    unfoldable pub callback : CallbackQuery → PortalSession → PortalReply × PortalSession
    unfolding after_state
    callback query session =
        if not (has_password env)
        then (server_error, session)
        else if not (state_accepted query.state session.state session.state_expires now)
        then (denied (codes "INVALID_STATE"), cleared session)
        else after_state query (cleared session)
