-- ===== src/Access/Live.antt =====
-- apps/platform/lib/live-access.ts: `evaluateLiveAccess`, the readers wired to the contracts.
pub mod Sound
use owne_x.Base.{
  ℕ, Bool, true, false, Option, none, some, List, [], ◌∷◌, map, if◌then◌else◌, Read, ok, thrown,
  ◌>>=◌,
}
use owne_x.Base.Text.{Text, is_empty}
use owne_x.Chain.Roles.{role_text}
use owne_x.Chain.Reads.{
  Contracts, read_identity, read_effective_role, read_membership, read_permissions_for,
  read_organization, read_can_access_app, app_id_from_slug,
}
use owne_x.Access.Decision.{OrganizationReading, IdentityReading}
use owne_x.Access.Evaluate.{
  flag, Permissions, MembershipReading, AppReading, AccessReaders, EvaluatedAccess, evaluate_access,
}

-- `null` and the empty slug name no application.
abbrev pub named_app : Option Text → Option Text
named_app none = none
named_app (some slug) = if is_empty slug then none else some slug

module _ (chain : Contracts) (now org_id : ℕ) (wallet : Text) where
  organization_reader : Read (Option OrganizationReading)
  organization_reader = do
    found ← read_organization chain org_id
    ok (elim found [ none ↦ none | some org ↦ some (record { active = org.active }) ])

  identity_reader : Read IdentityReading
  identity_reader = do
    found ← read_identity chain wallet
    ok (record { registered = found.registered; active = found.active })

  role_reader : Read Text
  role_reader = do role ← read_effective_role chain org_id wallet; ok (role_text role)

  membership_reader : Read MembershipReading
  membership_reader = do
    m ← read_membership chain now org_id wallet
    ok (record { joined_at = m.joined_at; expires_at = m.expires_at; expired = m.expired })

  permissions_reader : Text → Read (Option Permissions)
  permissions_reader role = do
    flags ← read_permissions_for chain org_id wallet
    ok (some (map (λ p. (p.0, flag p.1)) flags))

  app_reader : Option Text → Read (Option AppReading)
  app_reader none = ok none
  app_reader (some slug) = do
    registered ← chain.application_registered org_id (app_id_from_slug chain slug)
    allowed ← read_can_access_app chain org_id wallet (app_id_from_slug chain slug)
    ok (
        some (record {
          slug = slug;
          app_id = app_id_from_slug chain slug;
          registered = registered;
          allowed = allowed;
        }))

  live_readers : Option Text → AccessReaders
  live_readers app_slug = record {
    organization = organization_reader;
    identity = identity_reader;
    role = role_reader;
    membership = membership_reader;
    permissions = permissions_reader;
    app = app_reader (named_app app_slug);
  }

  unfoldable pub evaluate_live_access : Option Text → EvaluatedAccess
  unfolding live_readers organization_reader identity_reader role_reader membership_reader
      permissions_reader app_reader
  evaluate_live_access app_slug = evaluate_access (live_readers app_slug)
