-- ===== src/Access/Live/Sound.antt =====
-- What the contracts said when live access was allowed.
use owne_x.Base.{
  ℕ, ◌<◌, ◌*◌, ◌≡◌, ◌≢◌, ◌⊎◌, true, false, Bool, List, map, Option, none, some, arith, ok, >>=-ok,
  ap, sym, ◌∙◌,
}
use owne_x.Base.Text.{Text, ===_iff}
use owne_x.Chain.Roles.{no_role, role_text, role_name}
use owne_x.Chain.Reads.{
  Contracts, OrganizationRecord, IdentityRecord, MembershipRecord, zero_address, read_identity,
  read_effective_role, read_membership, read_organization, read_can_access_app,
  read_permissions_for, app_id_from_slug,
}
use owne_x.Chain.Reads.Permissions.{Granted, read_permissions_for-Granted}
use owne_x.Access.Decision.{AccessDecision}
use owne_x.Access.Evaluate.{
  EvaluatedSnapshot, Permissions, flag, MembershipReading, AppReading, evaluated,
}
use owne_x.Access.Evaluate.FailClosed.{evaluate_access-Permitted, evaluate_access-identity_active}
use owne_x.Access.Live.{
  organization_reader, identity_reader, role_reader, membership_reader, permissions_reader,
  app_reader, live_readers, evaluate_live_access, named_app,
}

module _ (chain : Contracts) (now org_id : ℕ) (wallet : Text) where
  pub record OnChain (app_slug : Option Text) (s : EvaluatedSnapshot) : Type 0 where
    pub organization : OrganizationRecord
    pub organization_found : chain.get_organization org_id ≡ ok organization
    pub organization_active :
        (organization.active ≡ true) × (organization.root_admin ≢ zero_address)
    pub identity : IdentityRecord
    pub identity_found : chain.get_identity wallet ≡ ok identity
    pub identity_active : (identity.exists ≡ true) × (identity.active ≡ true)
    pub hash : Text
    pub role_found : chain.effective_role org_id wallet ≡ ok hash
    pub role_held : role_name chain.keccak_id hash ≢ no_role
    pub role_told : s.role ≡ role_text (role_name chain.keccak_id hash)
    pub membership : MembershipRecord
    pub membership_found : chain.get_membership org_id wallet ≡ ok membership
    pub current : (membership.expires_at ≡ 0) ⊎ (now < membership.expires_at * 1000)
    pub app_open :
        (slug : Text)
        → named_app app_slug ≡ some slug
        → (chain.application_registered org_id (app_id_from_slug chain slug) ≡ ok true)
          × (chain.can_access_app org_id wallet (app_id_from_slug chain slug) ≡ ok true)
    pub flags : List (Text × Bool)
    pub permissions_told : s.permissions ≡ some (map (λ p. (p.0, flag p.1)) flags)
    pub granted : Granted chain org_id wallet flags
    pub identity_told : s.identity_active ≡ true

  organization_reader-ok :
      organization_reader chain now org_id wallet ≡ ok (some (record { active = true }))
      → (o : OrganizationRecord) × (chain.get_organization org_id ≡ ok o)
        × (o.active ≡ true)
        × (o.root_admin ≢ zero_address)
  unfolding organization_reader read_organization
  organization_reader-ok h =
      let (found, e, e') = >>=-ok (read_organization chain org_id) _ h in
      let (o, got, same) = >>=-ok (chain.get_organization org_id) _ e in
      (o, got, ground arith, ground (arith, ===_iff o.root_admin zero_address))

  identity_reader-ok :
      identity_reader chain now org_id wallet ≡ ok (record { registered = true; active = true })
      → (i : IdentityRecord) × (chain.get_identity wallet ≡ ok i)
        × (i.exists ≡ true)
        × (i.active ≡ true)
  unfolding identity_reader read_identity
  identity_reader-ok h =
      let (found, e, e') = >>=-ok (read_identity chain wallet) _ h in
      let (i, got, same) = >>=-ok (chain.get_identity wallet) _ e in
      (i, got, ground arith, ground arith)

  role_reader-ok :
      (role : Text)
      → role_reader chain now org_id wallet ≡ ok role
      → (hash : Text) × (chain.effective_role org_id wallet ≡ ok hash)
        × (role ≡ role_text (role_name chain.keccak_id hash))
  unfolding role_reader read_effective_role
  role_reader-ok role h =
      let (found, e, e') = >>=-ok (read_effective_role chain org_id wallet) _ h in
      let (hash, got, same) = >>=-ok (chain.effective_role org_id wallet) _ e in (hash, got, cc)

  membership_reader-ok :
      (m : MembershipReading)
      → membership_reader chain now org_id wallet ≡ ok m
      → m.expired ≡ false
      → (r : MembershipRecord) × (chain.get_membership org_id wallet ≡ ok r)
        × ((r.expires_at ≡ 0) ⊎ (now < r.expires_at * 1000))
  unfolding membership_reader read_membership
  membership_reader-ok m h fresh =
      let (found, e, e') = >>=-ok (read_membership chain now org_id wallet) _ h in
      let (r, got, same) = >>=-ok (chain.get_membership org_id wallet) _ e in (r, got, ground arith)

  app_reader-ok :
      (slug : Text) (a : Option AppReading)
      → app_reader chain now org_id wallet (some slug) ≡ ok a
      → (a ≡ none) ⊎ ((x : AppReading) × (a ≡ some x) × (x.registered ≡ true) × (x.allowed ≡ true))
      → (chain.application_registered org_id (app_id_from_slug chain slug) ≡ ok true)
        × (chain.can_access_app org_id wallet (app_id_from_slug chain slug) ≡ ok true)
  unfolding app_reader read_can_access_app
  app_reader-ok slug a h open_ =
      let (registered, e, h') =
        >>=-ok (chain.application_registered org_id (app_id_from_slug chain slug)) _ h in
      let (allowed, e', same) =
        >>=-ok (chain.can_access_app org_id wallet (app_id_from_slug chain slug)) _ h' in
      (ground arith, ground arith)

  permissions_reader-ok :
      (role : Text) (found : Option Permissions)
      → permissions_reader chain now org_id wallet role ≡ ok found
      → (flags : List (Text × Bool)) × (found ≡ some (map (λ p. (p.0, flag p.1)) flags))
        × Granted chain org_id wallet flags
  unfolding permissions_reader
  permissions_reader-ok role found h =
      let (flags, e, e') = >>=-ok (read_permissions_for chain org_id wallet) _ h in
      (flags, sym (cc e'), read_permissions_for-Granted chain org_id wallet flags e)

  -- Where live access is allowed, the contracts answered, with no read failing: an active
  -- organization that exists, a registered and active identity, a role that is held, a membership
  -- that has not expired and, where an application is named, that it is registered and open to the
  -- wallet; the snapshot tells the effective role, for each permission the answer of the contracts
  -- to it, and that the identity is active.
  pub evaluate_live_access-OnChain :
      (app_slug : Option Text) (d : AccessDecision) (s : EvaluatedSnapshot)
      → evaluate_live_access chain now org_id wallet app_slug ≡ evaluated d s
      → d.allowed ≡ true
      → OnChain app_slug s
  unfolding evaluate_live_access
  evaluate_live_access-OnChain app_slug d s h a =
      let p = evaluate_access-Permitted (live_readers chain now org_id wallet app_slug) d s h a in
      let (o, o_found, o_active, o_named) = organization_reader-ok p.organization in
      let (i, i_found, i_exists, i_active) = identity_reader-ok p.identity in
      let (hash, r_found, r_told) = role_reader-ok s.role p.role in
      let (m, m_found, m_current) = membership_reader-ok s.membership p.membership p.current in
      let (flags, told, granted) = permissions_reader-ok s.role s.permissions p.permissions in
      record {
        flags = flags;
        permissions_told = told;
        granted = granted;
        identity_told =
            evaluate_access-identity_active (live_readers chain now org_id wallet app_slug) d s h a;
        organization = o;
        organization_found = o_found;
        organization_active = (o_active, o_named);
        identity = i;
        identity_found = i_found;
        identity_active = (i_exists, i_active);
        hash = hash;
        role_found = r_found;
        role_held = λ e. p.role_held.1 (r_told ∙ ap role_text e);
        role_told = r_told;
        membership = m;
        membership_found = m_found;
        current = m_current;
        app_open = λ slug named.
            app_reader-ok slug s.app (ap (app_reader chain now org_id wallet) (sym named) ∙ p.app)
              p.app_open;
      }
