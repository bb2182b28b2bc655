-- ===== src/Portal/Verify/EndToEnd.antt =====
-- The portal's revalidation where the route roles/verify of the platform answers it.
use owne_x.Base.{
  ℕ, ◌≡◌, refl, ap, inl, inr, true, false, none, some, arith, ok, Outcome-cases, Bool-cases, value,
}
use mathlib.Core.Option
use owne_x.Base.Text.{Text, codes}
use owne_x.Partner.Credentials.{Base64, PartnerHeaders, client_auth_header}
use owne_x.Partner.Verify.{
  VerifyContext, VerifyParams, VerifyAnswer, VerifyResponse, answer, unregistered, failure,
  verify_role,
}
use owne_x.Partner.Verify.Sound.{Verified, verify_role-Verified}
use owne_x.Sso.Exchange.{reason_code}
use owne_x.Portal.Config.{PortalEnv, OwnexConfig, ownex_config}
use owne_x.Portal.Verify.{
  VerifyResult, VerifyBody, VerifyReply, answers, opened, read_body, read_answer, params_of,
  verify_access,
}

abbrev no_fields : VerifyBody
no_fields = record {
  allowed = none;
  reason = none;
  role = none;
  permissions = none;
  identity_active = none;
  membership = none;
  verified_at = none;
}

-- A response of the route as the portal reads it.
unfoldable pub body_of : (ℕ → Text) → VerifyAnswer → VerifyBody
body_of iso a = record {
  allowed = some a.decision.allowed;
  reason = Option.map (λ r. reason_code (some r)) a.decision.reason;
  role = some a.claims.role;
  permissions = some a.claims.permissions;
  identity_active = some a.claims.identity_active;
  membership = some a.snapshot.membership;
  verified_at = some (iso a.claims.verified_at);
}

unfoldable pub verify_reply : (ℕ → Text) → VerifyResponse → VerifyReply
verify_reply iso (answer a) = answers 200 (value (body_of iso a))
verify_reply iso (unregistered wallet org_id reason) = answers 200 (
    value
      (record no_fields { allowed = some false; reason = some reason; role = some (codes "NONE") }))
verify_reply iso (failure status code) = answers status (value no_fields)

-- The header of HTTP Basic authentication, and no other.
abbrev pub basic_headers : Text → PartnerHeaders
basic_headers authorization = record {
  authorization = some authorization;
  client_id = none;
  client_secret = none;
}

module _ (decimal iso : ℕ → Text) (base64 : Base64) (env : PortalEnv) (ctx : VerifyContext) where
  unfoldable pub route_fetch : Text → VerifyParams → VerifyReply
  route_fetch authorization params =
      verify_reply iso (verify_role ctx (basic_headers authorization) params)

  -- What portal access rests on.
  pub record VerifiedBy (wallet : Text) (result : VerifyResult) : Type 0 where
    pub config : OwnexConfig
    pub configured : ownex_config env ≡ ok config
    pub told : VerifyAnswer
    pub verified :
        Verified ctx
          (basic_headers (client_auth_header base64 config.client))
          (params_of decimal base64 env route_fetch config wallet)
          told
    pub role_told : result.role ≡ told.claims.role
    pub permissions_told : result.permissions ≡ told.claims.permissions

  read_answer-answer :
      (response : VerifyResponse) (result : VerifyResult)
      → read_answer decimal base64 env route_fetch (verify_reply iso response) ≡ ok result
      → result.allowed ≡ true
      → (a : VerifyAnswer) × (response ≡ answer a)
        × (a.decision.allowed ≡ true)
        × (result.role ≡ a.claims.role)
        × (result.permissions ≡ a.claims.permissions)
  unfolding read_answer read_body verify_reply body_of opened
  read_answer-answer (answer a) result h allowed = elim (Bool-cases a.decision.allowed) [
    | inl allow ↦
        (a, refl, allow, ap (λ r. r.role) (told allow), ap (λ r. r.permissions) (told allow))
    | inr deny ↦ absurd (ground arith)
  ]
    where
      told : a.decision.allowed ≡ true → result ≡ opened (body_of iso a)
      told allow = cc (allow, h)
  read_answer-answer (unregistered w o reason) result h allowed = absurd (ground arith)
  read_answer-answer (failure status code) result h allowed = absurd (ground arith)

  -- Where the platform's route roles/verify answers the portal's verifyAccess and the result
  -- allows access, the portal is configured, the route answered for the wallet, the organization
  -- and the application that the portal sent, an authenticated partner having asked about itself
  -- only, the application is registered and not revoked, the contracts allow live access, and the
  -- role and the permissions of the result are those of the claims.
  pub verify_access-VerifiedBy :
      (wallet : Text) (result : VerifyResult)
      → verify_access decimal base64 env route_fetch wallet ≡ ok result
      → result.allowed ≡ true
      → VerifiedBy wallet result
  unfolding verify_access route_fetch
  verify_access-VerifiedBy wallet result h allowed = elim (Outcome-cases (ownex_config env)) [
    | inr (reason, e) ↦ absurd (ground arith)
    | inl (config, e) ↦
        let headers = basic_headers (client_auth_header base64 config.client) in
        let params = params_of decimal base64 env route_fetch config wallet in
        let (a, is_answer, allow, role, permissions) =
          read_answer-answer (verify_role ctx headers params) result (rw (e, verify_access) at h)
            allowed in
        record {
          config = config;
          configured = e;
          told = a;
          verified = verify_role-Verified ctx headers params a is_answer allow;
          role_told = role;
          permissions_told = permissions;
        }
  ]
