-- ===== src/Access/Decision/Blocks.antt =====
-- When each reason of denial applies, stated without the order of the tests, and how
-- `decideAccess` follows from it.
use owne_x.Base.{
  ℕ, ◌<◌, ◌≡◌, ◌≢◌, ◌↔◌, ◌⊎◌, ◌||◌, true, false, none, some, [], ap, arith, undefined, value,
}
use owne_x.Base.Text.{Text, codes, ◌===◌, ===_iff, is_empty, is_empty_iff}
use owne_x.Access.Decision.{
  AccessDenyReason, organization_not_found, organization_suspended, identity_not_registered,
  identity_revoked, not_a_member, role_expired, app_access_not_granted, application_not_registered,
  AccessSnapshot, allow, deny, decide_access,
}

-- The condition under which a reason applies.
abbrev pub Blocks : AccessSnapshot → AccessDenyReason → Type 0
Blocks s organization_not_found = s.organization ≡ none
Blocks s organization_suspended = s.organization ≡ some (record { active = false })
Blocks s identity_not_registered = s.identity.registered ≡ false
Blocks s identity_revoked = s.identity.active ≡ false
Blocks s not_a_member = (s.role ≡ []) ⊎ (s.role ≡ codes "NONE")
Blocks s role_expired = s.membership_expired ≡ true
Blocks s app_access_not_granted = s.app_access ≡ value false
Blocks s application_not_registered = (s.app_access ≢ undefined) × (s.app_registered ≡ value false)

-- The order in which reasons are preferred.
abbrev pub rank : AccessDenyReason → ℕ
rank organization_not_found = 0
rank identity_not_registered = 1
rank identity_revoked = 2
rank organization_suspended = 3
rank role_expired = 4
rank not_a_member = 5
rank application_not_registered = 6
rank app_access_not_granted = 7

-- The reason applies and no preferred one does.
abbrev pub IsFirst : AccessSnapshot → AccessDenyReason → Type 0
IsFirst s r = Blocks s r × ((q : AccessDenyReason) → rank q < rank r → ¬ Blocks s q)

-- What `decide_access` asks of the role, in the terms of `Blocks`.
not_member_iff :
    (role : Text)
    → ((is_empty role || role === codes "NONE") ≡ true) ↔ ((role ≡ []) ⊎ (role ≡ codes "NONE"))
not_member_iff role = ground (arith, is_empty_iff role, ===_iff role (codes "NONE"))

module _ (s : AccessSnapshot) where
  deny-Blocks : (r : AccessDenyReason) → decide_access s ≡ deny r → Blocks s r
  unfolding decide_access
  deny-Blocks organization_not_found h = ground (arith, not_member_iff s.role)
  deny-Blocks _ h = ground (arith, not_member_iff s.role)

  deny_precedence :
      (q r : AccessDenyReason) → decide_access s ≡ deny r → rank q < rank r → Blocks s q → ⊥
  unfolding decide_access
  deny_precedence organization_not_found r h lt b = ground (arith)
  deny_precedence identity_not_registered r h lt b = ground (arith)
  deny_precedence identity_revoked r h lt b = ground (arith)
  deny_precedence organization_suspended r h lt b = ground (arith)
  deny_precedence role_expired r h lt b = ground (arith)
  deny_precedence not_a_member r h lt b = ground (arith, not_member_iff s.role)
  deny_precedence _ r h lt b = ground (arith)

  allow-not_Blocks : (r : AccessDenyReason) → (decide_access s).allowed ≡ true → Blocks s r → ⊥
  unfolding decide_access
  allow-not_Blocks not_a_member h b = ground (arith, not_member_iff s.role)
  allow-not_Blocks _ h b = ground (arith)

  not_Blocks-allow : ((r : AccessDenyReason) → ¬ Blocks s r) → decide_access s ≡ allow
  unfolding decide_access
  not_Blocks-allow e = ground (
    arith,
    not_member_iff s.role,
    e organization_not_found,
    e identity_not_registered,
    e identity_revoked,
    e organization_suspended,
    e role_expired,
    e not_a_member,
    e application_not_registered,
    e app_access_not_granted,
  )

  first-deny :
      (r : AccessDenyReason)
      → Blocks s r
      → ((q : AccessDenyReason) → rank q < rank r → ¬ Blocks s q)
      → decide_access s ≡ deny r
  unfolding decide_access
  first-deny organization_not_found b e = ground (arith)
  first-deny _ b e = ground (
    arith,
    not_member_iff s.role,
    e organization_not_found,
    e identity_not_registered,
    e identity_revoked,
    e organization_suspended,
    e role_expired,
    e not_a_member,
    e application_not_registered,
  )

-- Access is denied for a reason exactly when the condition of that reason holds and no reason
-- before it in the order of `rank` applies.
pub decide_access-deny_iff :
    (s : AccessSnapshot) (r : AccessDenyReason) → (decide_access s ≡ deny r) ↔ IsFirst s r
decide_access-deny_iff s r =
    (λ h. (deny-Blocks s r h, λ q lt b. deny_precedence s q r h lt b), λ (b, e). first-deny s r b e)

-- Access is allowed exactly when the condition of no reason of denial holds; where a registration
-- or an access is not told at all, no condition on it holds.
pub decide_access-allow_iff :
    (s : AccessSnapshot)
    → ((decide_access s).allowed ≡ true) ↔ ((r : AccessDenyReason) → ¬ Blocks s r)
decide_access-allow_iff s =
    (λ h r b. allow-not_Blocks s r h b, λ e. ap (λ d. d.allowed) (not_Blocks-allow s e))
