-- ===== src/Portal/Session.antt =====
-- apps/employee-portal/lib/session.ts, and app/api/login/route.ts, which starts a sign-in. The
-- cookie that iron-session decrypts is the record `PortalSession`; the state is 32 random bytes in
-- base64url, an argument, as is the clock in milliseconds.
use owne_x.Base.{
  true, false, ℕ, ◌+◌, Bool, Option, none, some, ltb, if◌then◌else◌, ok, thrown, length,
}
use owne_x.Base.Text.{Text}
use owne_x.Portal.Config.{PortalEnv, OwnexConfig, ownex_config}

pub record PortalSession : Type 0 where
  pub wallet : Option Text
  pub org_id : Option ℕ
  pub verified_at : Option Text
  pub state : Option Text
  pub state_expires : Option ℕ

-- A session is opened only with a password of 32 units.
unfoldable pub has_password : PortalEnv → Bool
has_password env = elim env.portal_session_password [
  | none ↦ false
  | some password ↦ if ltb (length password) 32 then false else true
]

unfoldable pub session_wallet : PortalEnv → PortalSession → Option Text
session_wallet env session = if has_password env then session.wallet else none

pub record AuthorizeQuery : Type 0 where
  pub origin : Text
  pub client_id : Text
  pub org_id : ℕ
  pub redirect_uri : Text
  pub state : Text

pub data PortalReply : Type 0 where
  authorize : AuthorizeQuery → PortalReply
  dashboard : PortalReply
  denied : Text → PortalReply
  server_error : PortalReply

unfoldable pub login_with : OwnexConfig → (state : Text) → (now : ℕ) → PortalReply × PortalSession
login_with config state now = (
  authorize (record {
    origin = config.origin;
    client_id = config.client.client_id;
    org_id = config.org_id;
    redirect_uri = config.redirect_uri;
    state = state;
  }),
  record {
    wallet = none;
    org_id = none;
    verified_at = none;
    state = some state;
    state_expires = some (now + 300000);
  },
)

unfoldable pub login :
    PortalEnv → (state : Text) → (now : ℕ) → PortalSession → PortalReply × PortalSession
unfolding login_with
login env state now session = elim (ownex_config env) [
  | thrown reason ↦ (server_error, session)
  | ok config ↦ if has_password env then login_with config state now else (server_error, session)
]
