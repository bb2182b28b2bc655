-- ===== src/Access/Decision.antt =====
-- apps/platform/lib/access-decision.ts: `decideAccess` and `explainDenial`.
pub mod Blocks
use owne_x.Base.{Bool, true, false, not, ◌||◌, Option, none, some, if◌then◌else◌, Nullish}
use owne_x.Base.{undefined, null, value}
use owne_x.Base.Text.{Text, codes, ◌===◌, is_empty}

pub data AccessDenyReason : Type 0 where
  organization_not_found : AccessDenyReason
  organization_suspended : AccessDenyReason
  identity_not_registered : AccessDenyReason
  identity_revoked : AccessDenyReason
  not_a_member : AccessDenyReason
  role_expired : AccessDenyReason
  app_access_not_granted : AccessDenyReason
  application_not_registered : AccessDenyReason

-- `{ active }`
pub record OrganizationReading : Type 0 where
  pub active : Bool

-- `{ registered, active }`
pub record IdentityReading : Type 0 where
  pub registered : Bool
  pub active : Bool

pub record AccessSnapshot : Type 0 where
  pub organization : Option OrganizationReading
  pub identity : IdentityReading
  pub membership_expired : Bool
  pub role : Text
  pub app_access : Nullish Bool
  pub app_registered : Nullish Bool

pub record AccessDecision : Type 0 where
  pub allowed : Bool
  pub reason : Option AccessDenyReason

abbrev pub deny : AccessDenyReason → AccessDecision
deny reason = record { allowed = false; reason = some reason }

abbrev pub allow : AccessDecision
allow = record { allowed = true; reason = none }

-- `x === false` where `x` may be left out.
abbrev is_false : Nullish Bool → Bool
is_false (value false) = true
is_false _ = false

-- The last test: an application was named in the request.
app_decision : Nullish Bool → Nullish Bool → AccessDecision
app_decision undefined registered = allow
app_decision null registered =
    if is_false registered then deny application_not_registered else allow
app_decision (value allowed) registered =
    if is_false registered
    then deny application_not_registered
    else if not allowed
    then deny app_access_not_granted
    else allow

-- The tests once an organization was found.
member_decision : OrganizationReading → AccessSnapshot → AccessDecision
unfolding app_decision
member_decision org s =
    if not s.identity.registered
    then deny identity_not_registered
    else if not s.identity.active
    then deny identity_revoked
    else if not org.active
    then deny organization_suspended
    else if s.membership_expired
    then deny role_expired
    else if is_empty s.role || s.role === codes "NONE"
    then deny not_a_member
    else app_decision s.app_access s.app_registered

unfoldable pub decide_access : AccessSnapshot → AccessDecision
unfolding member_decision
decide_access s = elim s.organization [
  | none ↦ deny organization_not_found
  | some org ↦ member_decision org s
]

unfoldable pub explain_denial : AccessDenyReason → Text
explain_denial organization_not_found = codes "That organization does not exist on-chain."
explain_denial organization_suspended = codes "This organization is currently suspended."
explain_denial identity_not_registered = codes "This wallet has no registered owneX identity."
explain_denial identity_revoked = codes "This identity has been revoked."
explain_denial not_a_member = codes "This wallet is not a member of the organization."
explain_denial role_expired = codes "The membership behind this role has expired."
explain_denial app_access_not_granted =
    codes "This role has not been granted access to the application on-chain."
explain_denial application_not_registered =
    codes "The application is not registered on-chain for this organization."
