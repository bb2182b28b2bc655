-- ===== src/Portal/Verify.antt =====
-- apps/employee-portal/lib/ownex.ts: `verifyAccess`. What the platform answers is a function of the
-- header and of the parameters that are sent; a field of a body that is there has the type that the
-- code expects. A body that is not JSON is undefined, and null is null: to read a field of it throws.
pub mod EndToEnd
use owne_x.Base.{
  ℕ, Bool, true, false, ◌&&◌, ◌||◌, Option, none, some, List, [], ◌++◌, leb, ◌==◌, if◌then◌else◌,
  Outcome, ok, thrown, Nullish, undefined, null, value,
}
use mathlib.Core.Option
use owne_x.Base.Text.{Text, codes}
use owne_x.Access.Evaluate.{MembershipReading}
use owne_x.Partner.Credentials.{Base64, client_auth_header}
use owne_x.Partner.Verify.{VerifyParams}
use owne_x.Portal.Config.{PortalEnv, OwnexConfig, ownex_config}

pub record VerifyResult : Type 0 where
  pub allowed : Bool
  pub reason : Option Text
  pub role : Text
  pub permissions : List (Text × Bool)
  pub identity_active : Bool
  pub membership : Option MembershipReading
  pub verified_at : Option Text

pub record VerifyBody : Type 0 where
  pub allowed : Option Bool
  pub reason : Option Text
  pub role : Option Text
  pub permissions : Option (List (Text × Bool))
  pub identity_active : Option Bool
  pub membership : Option MembershipReading
  pub verified_at : Option Text

pub data VerifyReply : Type 0 where
  no_answer : VerifyReply
  answers : (status : ℕ) → Nullish VerifyBody → VerifyReply

-- `DENIED`
abbrev pub closed : Text → VerifyResult
closed reason = record {
  allowed = false;
  reason = some reason;
  role = codes "NONE";
  permissions = [];
  identity_active = false;
  membership = none;
  verified_at = none;
}

-- `o ?? d`
abbrev pub default {ℓ} : {A : Type ℓ} → A → Option A → A
default d none = d
default d (some a) = a

-- `v === true`
abbrev pub is_true : Option Bool → Bool
is_true none = false
is_true (some b) = b

unfoldable pub opened : VerifyBody → VerifyResult
opened body = record {
  allowed = true;
  reason = none;
  role = default (codes "NONE") body.role;
  permissions = default [] body.permissions;
  identity_active = is_true body.identity_active;
  membership = body.membership;
  verified_at = body.verified_at;
}

module _ (decimal : ℕ → Text) (base64 : Base64) (env : PortalEnv)
    (fetch : (authorization : Text) → VerifyParams → VerifyReply) where
  http_reason : ℕ → Text
  http_reason status =
      if status == 503 then codes "VERIFICATION_UNAVAILABLE" else codes "HTTP_" ++ decimal status

  -- The body of a reply with success.
  read_body : Nullish VerifyBody → Outcome Text VerifyResult
  unfolding opened
  read_body undefined = ok (closed (codes "VERIFICATION_UNAVAILABLE"))
  read_body null = thrown (codes "TypeError")
  read_body (value body) =
      if is_true body.allowed
      then ok (opened body)
      else ok (closed (default (codes "ACCESS_DENIED") body.reason))

  read_answer : VerifyReply → Outcome Text VerifyResult
  unfolding http_reason read_body
  read_answer no_answer = ok (closed (codes "VERIFICATION_UNAVAILABLE"))
  read_answer (answers status body) =
      if leb 200 status && leb status 299 then read_body body else ok (closed (http_reason status))

  abbrev pub params_of : OwnexConfig → Text → VerifyParams
  params_of config wallet = record {
    wallet = some wallet;
    org_id = some (decimal config.org_id);
    app = some config.app_slug;
  }

  unfoldable pub verify_access : Text → Outcome Text VerifyResult
  unfolding read_answer
  verify_access wallet = elim (ownex_config env) [
    | thrown reason ↦ ok (closed (codes "PORTAL_NOT_CONFIGURED"))
    | ok config ↦
        read_answer (fetch (client_auth_header base64 config.client) (params_of config wallet))
  ]
