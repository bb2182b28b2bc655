-- ===== src/Access/Evaluate.antt =====
-- apps/platform/lib/access-decision.ts: `evaluateAccess`. A reader's promise is the outcome it
-- settles with. Where several reads fail, the error kept is that of the first in the list, and
-- `Promise.all` keeps the first to arrive: the text is only logged.
pub mod FailClosed
use owne_x.Base.{
  ℕ, Bool, true, false, Option, none, some, List, if◌then◌else◌, Nullish, undefined, value, Read,
  ok, thrown, ◌>>=◌,
}
use owne_x.Base.Text.{Text, codes, ◌===◌}
use owne_x.Access.Decision.{
  OrganizationReading, IdentityReading, AccessSnapshot, AccessDecision, decide_access,
}

-- A value of `Record<string, boolean>` as it may arrive: a Boolean, or a value of another type.
pub data FlagValue : Type 0 where
  flag : Bool → FlagValue
  other : Text → FlagValue

abbrev pub Permissions : Type 0
Permissions = List (Text × FlagValue)

pub record MembershipReading : Type 0 where
  pub joined_at : Option ℕ
  pub expires_at : Option ℕ
  pub expired : Bool

pub record AppReading : Type 0 where
  pub slug : Text
  pub app_id : Text
  pub registered : Bool
  pub allowed : Bool

pub record AccessReaders : Type 0 where
  pub organization : Read (Option OrganizationReading)
  pub identity : Read IdentityReading
  pub role : Read Text
  pub membership : Read MembershipReading
  pub permissions : Text → Read (Option Permissions)
  pub app : Read (Option AppReading)

pub record EvaluatedSnapshot : Type 0 where
  pub role : Text
  pub identity_registered : Bool
  pub identity_active : Bool
  pub organization_active : Bool
  pub membership : MembershipReading
  pub permissions : Option Permissions
  pub app : Option AppReading

pub data EvaluatedAccess : Type 0 where
  evaluated : AccessDecision → EvaluatedSnapshot → EvaluatedAccess
  chain_unavailable : Text → EvaluatedAccess

abbrev pub app_field : (AppReading → Bool) → Option AppReading → Nullish Bool
app_field f none = undefined
app_field f (some app) = value (f app)

abbrev pub is_active : Option OrganizationReading → Bool
is_active none = false
is_active (some org) = org.active

-- What `decideAccess` is given of the five reads.
abbrev pub snapshot_of :
    Option OrganizationReading
    → IdentityReading
    → Text
    → MembershipReading
    → Option AppReading
    → AccessSnapshot
snapshot_of organization identity role membership app = record {
  organization = organization;
  identity = identity;
  membership_expired = membership.expired;
  role = role;
  app_access = app_field (λ a. a.allowed) app;
  app_registered = app_field (λ a. a.registered) app;
}

-- The decision and the snapshot that `evaluateAccess` returns once everything is read.
settled :
    Option OrganizationReading
    → IdentityReading
    → Text
    → MembershipReading
    → Option AppReading
    → Option Permissions
    → AccessDecision × EvaluatedSnapshot
settled organization identity role membership app permissions = (
  decide_access (snapshot_of organization identity role membership app),
  record {
    role = role;
    identity_registered = identity.registered;
    identity_active = identity.active;
    organization_active = is_active organization;
    membership = membership;
    permissions = permissions;
    app = app;
  },
)

-- The permissions are read only for a wallet that holds a role.
read_permissions : AccessReaders → Text → Read (Option Permissions)
read_permissions readers role = if role === codes "NONE" then ok none else readers.permissions role

-- The body of the `try`.
read_and_decide : AccessReaders → Read (AccessDecision × EvaluatedSnapshot)
unfolding settled read_permissions
read_and_decide readers = do
  organization ← readers.organization
  identity ← readers.identity
  role ← readers.role
  membership ← readers.membership
  app ← readers.app
  permissions ← read_permissions readers role
  ok (settled organization identity role membership app permissions)

unfoldable pub evaluate_access : AccessReaders → EvaluatedAccess
unfolding read_and_decide
evaluate_access readers = elim (read_and_decide readers) [
  | ok (decision, snapshot) ↦ evaluated decision snapshot
  | thrown detail ↦ chain_unavailable detail
]
