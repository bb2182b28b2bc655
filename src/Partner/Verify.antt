-- ===== src/Partner/Verify.antt =====
-- apps/platform/app/api/roles/verify/route.ts: `GET`, the live revalidation of a wallet. An error is
-- the status and the code that `handler` answers with. zod's `coerce.number().int()` is the
-- argument `coerce`; a lookup throws only where the registry is not reachable.
pub mod Sound
use owne_x.Base.{
  ℕ, Bool, true, false, not, ◌&&◌, ◌||◌, Option, none, some, [], ◌∷◌, leb, ◌==◌, if◌then◌else◌,
  length, Read, ok, thrown,
}
use mathlib.Core.Option
use owne_x.Base.Text.{Text, codes, ◌===◌, is_empty, lower}
use owne_x.Chain.Reads.{Contracts}
use owne_x.Credentials.Secret.{Crypto}
use owne_x.Registry.Records.{RegisteredApplication}
use owne_x.Registry.Reads.{RegistryContext, Registry, find_application_by_slug}
use owne_x.Registry.Requests.{is_revoked_status}
use owne_x.Access.Decision.{AccessDecision, explain_denial}
use owne_x.Access.Evaluate.{EvaluatedSnapshot, evaluated, chain_unavailable}
use owne_x.Access.Live.{evaluate_live_access}
use owne_x.Access.Claims.{PartnerClaims, build_partner_claims}
use owne_x.Partner.Credentials.{Base64, PartnerHeaders}
use owne_x.Partner.Auth.{
  PartnerAuth, with_credentials, development_public, refused, authenticate_partner,
}

-- What the route reads, when the request is served.
pub record VerifyContext : Type 0 where
  pub base64 : Base64
  pub crypto : Crypto
  pub context : RegistryContext
  pub registry : Registry
  pub chain : Contracts
  pub node_env : Option Text
  pub now : ℕ
  pub coerce : Text → Option ℕ

-- The parameters of the URL.
pub record VerifyParams : Type 0 where
  pub wallet : Option Text
  pub org_id : Option Text
  pub app : Option Text

pub record VerifyQuery : Type 0 where
  pub wallet : Text
  pub org_id : ℕ
  pub app : Option Text

pub record VerifyAnswer : Type 0 where
  pub claims : PartnerClaims
  pub decision : AccessDecision
  pub detail : Option Text
  pub snapshot : EvaluatedSnapshot
  pub by_credentials : Bool

pub data VerifyResponse : Type 0 where
  answer : VerifyAnswer → VerifyResponse
  -- `allowed` is false, and the role is NONE.
  unregistered : (wallet : Text) (org_id : ℕ) (reason : Text) → VerifyResponse
  failure : (status : ℕ) (code : Text) → VerifyResponse

is_hex_unit : ℕ → Bool
is_hex_unit c =
    (leb b'0' c && leb c b'9') || (leb b'a' c && leb c b'f') || (leb b'A' c && leb c b'F')

all_hex_units : Text → Bool
unfolding is_hex_unit
all_hex_units [] = true
all_hex_units (c ∷ s) = is_hex_unit c && all_hex_units s

-- `/^0x[a-fA-F0-9]{40}$/`
unfoldable pub is_address_text : Text → Bool
unfolding all_hex_units
is_address_text [] = false
is_address_text (a ∷ []) = false
is_address_text (a ∷ b ∷ s) = a == b'0' && b == b'x' && all_hex_units s && length s == 40

is_slug_end : ℕ → Bool
is_slug_end c = (leb b'a' c && leb c b'z') || (leb b'0' c && leb c b'9')

-- `[a-z0-9-]*[a-z0-9]`
slug_tail : Text → Bool
unfolding is_slug_end
slug_tail [] = false
slug_tail (c ∷ []) = is_slug_end c
slug_tail (c ∷ d ∷ s) = (is_slug_end c || c == b'-') && slug_tail (d ∷ s)

-- `/^[a-z0-9][a-z0-9-]*[a-z0-9]$/`, of 3 to 40 units.
unfoldable pub is_slug : Text → Bool
unfolding slug_tail
is_slug [] = false
is_slug (c ∷ s) = is_slug_end c && slug_tail s && leb 2 (length s) && leb (length s) 39

valid_app : Option Text → Bool
unfolding is_slug
valid_app none = true
valid_app (some slug) = is_slug slug

read_org : (Text → Option ℕ) → Option Text → Option ℕ
read_org coerce none = none
read_org coerce (some raw) = elim (coerce raw) [
  | none ↦ none
  | some n ↦ if n == 0 then none else some n
]

-- `querySchema.safeParse`
unfoldable pub parse_params : (Text → Option ℕ) → VerifyParams → Option VerifyQuery
unfolding valid_app read_org
parse_params coerce p = elim p.wallet [
  | none ↦ none
  | some wallet ↦
      if not (is_address_text wallet && valid_app p.app)
      then none
      else Option.map (λ org. record { wallet = wallet; org_id = org; app = p.app })
          (read_org coerce p.org_id)
]

-- An authenticated partner asks about its own organization and its own application only.
unfoldable pub foreign : PartnerAuth → VerifyQuery → Option VerifyResponse
foreign (refused status code) q = some (failure status code)
foreign development_public q = none
foreign (with_credentials caller) q =
    if not (caller.org_id == q.org_id)
    then some (failure 403 (codes "ORG_MISMATCH"))
    else elim q.app [
      | none ↦ none
      | some app ↦ if app === caller.slug then none else some (failure 403 (codes "APP_MISMATCH"))
    ]

-- `app ?? (auth.mode === "credentials" ? auth.application.slug : null)`
unfoldable pub slug_asked : PartnerAuth → VerifyQuery → Option Text
slug_asked (with_credentials caller) q = elim q.app [
  | none ↦ some caller.slug
  | some app ↦ some app
]
slug_asked development_public q = q.app
slug_asked (refused status code) q = q.app

abbrev by_credentials : PartnerAuth → Bool
by_credentials (with_credentials caller) = true
by_credentials development_public = false
by_credentials (refused status code) = false

module _ (ctx : VerifyContext) where
  unfoldable pub answer_with :
      PartnerAuth → VerifyQuery → AccessDecision → EvaluatedSnapshot → VerifyAnswer
  answer_with auth q decision snapshot = record {
    claims =
        build_partner_claims q.wallet q.org_id snapshot.role snapshot.permissions
          snapshot.identity_active ctx.now;
    decision = decision;
    detail = Option.map explain_denial decision.reason;
    snapshot = snapshot;
    by_credentials = by_credentials auth;
  }

  -- The answer of the contracts.
  live_answer : PartnerAuth → VerifyQuery → Option Text → VerifyResponse
  live_answer auth q slug = elim (evaluate_live_access ctx.chain ctx.now q.org_id q.wallet slug) [
    | chain_unavailable detail ↦ failure 503 (codes "CHAIN_UNAVAILABLE")
    | evaluated decision snapshot ↦ answer (answer_with auth q decision snapshot)
  ]

  -- The application has to exist and not be revoked.
  registered_answer :
      PartnerAuth → VerifyQuery → Text → Read (Option RegisteredApplication) → VerifyResponse
  unfolding live_answer
  registered_answer auth q slug (thrown detail) = failure 503 (codes "REGISTRY_UNAVAILABLE")
  registered_answer auth q slug (ok none) =
      unregistered (lower q.wallet) q.org_id (codes "APPLICATION_NOT_REGISTERED")
  registered_answer auth q slug (ok (some app)) =
      if is_revoked_status app.status
      then unregistered (lower q.wallet) q.org_id (codes "APPLICATION_REVOKED")
      else live_answer auth q (some slug)

  -- A slug that is empty is not looked up.
  asked_answer : PartnerAuth → VerifyQuery → Option Text → VerifyResponse
  unfolding registered_answer
  asked_answer auth q none = live_answer auth q none
  asked_answer auth q (some slug) =
      if is_empty slug
      then live_answer auth q (some slug)
      else registered_answer auth q slug
          (find_application_by_slug ctx.context ctx.registry q.org_id slug)

  query_answer : PartnerAuth → VerifyQuery → VerifyResponse
  unfolding asked_answer
  query_answer auth q = elim (foreign auth q) [
    | some response ↦ response
    | none ↦ asked_answer auth q (slug_asked auth q)
  ]

  unfoldable pub verify_role : PartnerHeaders → VerifyParams → VerifyResponse
  unfolding query_answer
  verify_role headers params = elim (parse_params ctx.coerce params) [
    | none ↦ failure 400 (codes "BAD_REQUEST")
    | some q ↦
        query_answer
          (authenticate_partner ctx.base64 ctx.crypto ctx.context ctx.registry headers ctx.node_env)
          q
  ]
