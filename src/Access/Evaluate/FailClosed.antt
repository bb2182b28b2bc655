-- ===== src/Access/Evaluate/FailClosed.antt =====
-- `evaluateAccess` fails closed.
use owne_x.Base.{
  ◌≡◌, refl, ◌⊎◌, ◌≢◌, true, false, Option, none, some, arith, Read, ok, [], >>=-ok, ap, sym, ◌∙◌,
  inl, inr, Option-cases,
}
use owne_x.Base.Text.{Text, codes, ===_iff, is_empty_iff}
use owne_x.Access.Decision.{
  OrganizationReading, IdentityReading, AccessDecision, decide_access, AccessDenyReason,
  organization_not_found, organization_suspended, identity_not_registered, identity_revoked,
  not_a_member, role_expired, app_access_not_granted, application_not_registered, allow,
}
use owne_x.Access.Decision.Blocks.{Blocks, decide_access-allow_iff}
use owne_x.Access.Evaluate.{
  EvaluatedAccess, chain_unavailable, Permissions, MembershipReading, AppReading, AccessReaders,
  EvaluatedSnapshot, evaluated, snapshot_of, evaluate_access, read_and_decide, read_permissions,
  settled,
}

-- What was read when a decision was made, and that nothing else was.
pub record Readings (readers : AccessReaders) (d : AccessDecision) (s : EvaluatedSnapshot)
    : Type 0 where
  pub organization : Option OrganizationReading
  pub identity : IdentityReading
  pub organization_read : readers.organization ≡ ok organization
  pub identity_read : readers.identity ≡ ok identity
  pub role_read : readers.role ≡ ok s.role
  pub membership_read : readers.membership ≡ ok s.membership
  pub app_read : readers.app ≡ ok s.app
  pub permissions_read : s.role ≢ codes "NONE" → readers.permissions s.role ≡ ok s.permissions
  pub decided : d ≡ decide_access (snapshot_of organization identity s.role s.membership s.app)

pub EvaluatedAccess-cases :
    (a : EvaluatedAccess)
    → ((d : AccessDecision) × (s : EvaluatedSnapshot) × (a ≡ evaluated d s))
      ⊎ ((t : Text) × (a ≡ chain_unavailable t))
EvaluatedAccess-cases (evaluated d s) = inl (d, s, refl)
EvaluatedAccess-cases (chain_unavailable t) = inr (t, refl)

evaluated-ok :
    (readers : AccessReaders) (d : AccessDecision) (s : EvaluatedSnapshot)
    → evaluate_access readers ≡ evaluated d s
    → read_and_decide readers ≡ ok (d, s)
unfolding evaluate_access
evaluated-ok readers d s h = ground arith

module _ (readers : AccessReaders) (o : Option OrganizationReading) (i : IdentityReading) (r : Text)
    (m : MembershipReading) (a : Option AppReading) (p : Option Permissions) {d : AccessDecision}
    {s : EvaluatedSnapshot} where
  settled-Readings :
      readers.organization ≡ ok o
      → readers.identity ≡ ok i
      → readers.role ≡ ok r
      → readers.membership ≡ ok m
      → readers.app ≡ ok a
      → read_permissions readers r ≡ ok p
      → ◌≡◌ {A = Read (AccessDecision × EvaluatedSnapshot)} (ok (settled o i r m a p)) (ok (d, s))
      → Readings readers d s
  unfolding settled read_permissions
  settled-Readings ho hi hr hm ha hp h = record {
    organization = o;
    identity = i;
    organization_read = ho;
    identity_read = hi;
    role_read = ground arith;
    membership_read = ground arith;
    app_read = ground arith;
    permissions_read = ground (arith, ===_iff r (codes "NONE"));
    decided = ground arith;
  }

-- Where a decision of either kind is made, every read succeeded, the permissions being read where
-- the role is not NONE, and the decision is that of `decideAccess` on what was read.
pub evaluate_access-Readings :
    (readers : AccessReaders) (d : AccessDecision) (s : EvaluatedSnapshot)
    → evaluate_access readers ≡ evaluated d s
    → Readings readers d s
unfolding read_and_decide
evaluate_access-Readings readers d s h =
    let (org, org_read, h1) = >>=-ok readers.organization _ (evaluated-ok readers d s h) in
    let (id, id_read, h2) = >>=-ok readers.identity _ h1 in
    let (role, role_read, h3) = >>=-ok readers.role _ h2 in
    let (member, member_read, h4) = >>=-ok readers.membership _ h3 in
    let (app, app_read, h5) = >>=-ok readers.app _ h4 in
    let (perms, perms_read, h6) = >>=-ok (read_permissions readers role) _ h5 in
    settled-Readings readers org id role member app perms org_read id_read role_read member_read
      app_read perms_read h6

-- What a live permission rests on: every value read, and the condition that it met.
pub record Permitted (readers : AccessReaders) (s : EvaluatedSnapshot) : Type 0 where
  pub organization : readers.organization ≡ ok (some (record { active = true }))
  pub identity : readers.identity ≡ ok (record { registered = true; active = true })
  pub role : readers.role ≡ ok s.role
  pub role_held : (s.role ≢ []) × (s.role ≢ codes "NONE")
  pub membership : readers.membership ≡ ok s.membership
  pub current : s.membership.expired ≡ false
  pub permissions : readers.permissions s.role ≡ ok s.permissions
  pub app : readers.app ≡ ok s.app
  pub app_open :
      (s.app ≡ none)
      ⊎ ((a : AppReading) × (s.app ≡ some a) × (a.registered ≡ true) × (a.allowed ≡ true))

module _ {readers : AccessReaders} {d : AccessDecision} {s : EvaluatedSnapshot}
    (v : Readings readers d s) (h : d.allowed ≡ true) where
  not_blocked :
      (r : AccessDenyReason)
      → ¬ Blocks (snapshot_of v.organization v.identity s.role s.membership s.app) r
  not_blocked =
      (decide_access-allow_iff _).0 (ap (λ (x : AccessDecision). x.allowed) (sym v.decided) ∙ h)

  Readings-organization : v.organization ≡ some (record { active = true })
  Readings-organization =
      ground (arith, not_blocked organization_not_found, not_blocked organization_suspended)

  Readings-identity : v.identity ≡ record { registered = true; active = true }
  Readings-identity =
      ground (arith, not_blocked identity_not_registered, not_blocked identity_revoked)

  Readings-role : (s.role ≢ []) × (s.role ≢ codes "NONE")
  Readings-role = (λ e. not_blocked not_a_member (inl e), λ e. not_blocked not_a_member (inr e))

  Readings-app :
      (s.app ≡ none)
      ⊎ ((a : AppReading) × (s.app ≡ some a) × (a.registered ≡ true) × (a.allowed ≡ true))
  Readings-app = elim (Option-cases s.app) [
    | inl e ↦ inl e
    | inr (a, e) ↦ inr (
      a,
      e,
      ground (arith, not_blocked application_not_registered),
      ground (arith, not_blocked app_access_not_granted),
    )
  ]

-- Where access is evaluated as allowed, every read, that of the permissions included, succeeded,
-- and what was read meets every condition of access.
pub evaluate_access-Permitted :
    (readers : AccessReaders) (d : AccessDecision) (s : EvaluatedSnapshot)
    → evaluate_access readers ≡ evaluated d s
    → d.allowed ≡ true
    → Permitted readers s
evaluate_access-Permitted readers d s h a =
    let v = evaluate_access-Readings readers d s h in
    record {
      organization = v.organization_read ∙ ap (λ o. ok o) (Readings-organization v a);
      identity = v.identity_read ∙ ap (λ o. ok o) (Readings-identity v a);
      role = v.role_read;
      role_held = Readings-role v a;
      membership = v.membership_read;
      current = ground (arith, not_blocked v a role_expired);
      permissions = v.permissions_read (Readings-role v a).1;
      app = v.app_read;
      app_open = Readings-app v a;
    }

-- The snapshot that is returned where access is permitted.
abbrev permitted_snapshot : EvaluatedSnapshot → EvaluatedSnapshot
permitted_snapshot s = record s {
  identity_registered = true;
  identity_active = true;
  organization_active = true;
}

module _ (readers : AccessReaders) (s : EvaluatedSnapshot) (v : Permitted readers s) where
  Permitted-decided :
      decide_access (
        snapshot_of
          (some (record { active = true }))
          (record { registered = true; active = true })
          s.role
          s.membership
          s.app)
      ≡ allow
  unfolding decide_access
  Permitted-decided = ground (arith, ===_iff s.role (codes "NONE"), is_empty_iff s.role)

  Permitted-permissions : read_permissions readers s.role ≡ ok s.permissions
  unfolding read_permissions
  Permitted-permissions = ground (arith, ===_iff s.role (codes "NONE"))

  -- Where every read succeeds and what is read meets every condition of access, access is allowed
  -- and the snapshot holds what was read.
  pub Permitted-evaluate_access : evaluate_access readers ≡ evaluated allow (permitted_snapshot s)
  unfolding evaluate_access
  Permitted-evaluate_access =
      rw (v.organization, v.identity, v.role, v.membership, v.app, evaluate_access)
        (ground (arith, Permitted-decided, Permitted-permissions))

-- The snapshot of an allowed access says that the identity is active.
pub evaluate_access-identity_active :
    (readers : AccessReaders) (d : AccessDecision) (s : EvaluatedSnapshot)
    → evaluate_access readers ≡ evaluated d s
    → d.allowed ≡ true
    → s.identity_active ≡ true
evaluate_access-identity_active readers d s h a =
    let again = Permitted-evaluate_access readers s (evaluate_access-Permitted readers d s h a) in
    same (sym h ∙ again)
  where
    same : evaluated d s ≡ evaluated allow (permitted_snapshot s) → s.identity_active ≡ true
    same e = ground arith
