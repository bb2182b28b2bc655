-- ===== src/Access/Tests.antt =====
-- Access, run on a concrete organization.
use owne_x.Base.{◌↔◌, List, ◌≡◌, refl, true, false, none, some, [], ◌∷◌, value, ok}
use owne_x.Base.Text.{Text, codes, ◌===◌, is_empty, lower}
use owne_x.Chain.Roles.{role_name}
use owne_x.Chain.Reads.{
  Contracts, read_organization, read_identity, read_effective_role, read_membership,
  read_can_access_app, read_permissions_for,
}
use owne_x.Access.Decision.{
  AccessSnapshot, AccessDenyReason, role_expired, allow, deny, decide_access,
}
use owne_x.Access.Decision.Blocks.{Blocks, IsFirst, decide_access-deny_iff, decide_access-allow_iff}
use owne_x.Access.Evaluate.{
  FlagValue, flag, AccessReaders, EvaluatedSnapshot, evaluated, evaluate_access,
}
use owne_x.Access.Evaluate.FailClosed.{Permitted, evaluate_access-Permitted}
use owne_x.Access.Live.{evaluate_live_access}
use owne_x.Access.Live.Sound.{OnChain, evaluate_live_access-OnChain}

abbrev expired_member : AccessSnapshot
expired_member = record {
  organization = some (record { active = true });
  identity = record { registered = true; active = true };
  membership_expired = true;
  role = codes "USER";
  app_access = value false;
  app_registered = value true;
}

abbrev current_member : AccessSnapshot
current_member = record expired_member { membership_expired = false; app_access = value true }

decide_access-deny_iff_example :
    (decide_access expired_member ≡ deny role_expired) ↔ IsFirst expired_member role_expired
decide_access-deny_iff_example = decide_access-deny_iff expired_member role_expired

abbrev pub grants : List (Text × FlagValue)
grants =
    (codes "MANAGE_MEMBERS", flag true)
    ∷ (codes "ASSIGN_ROLES", flag true)
    ∷ (codes "MINT_ASSETS", flag true)
    ∷ (codes "TRANSFER_ASSETS", flag true)
    ∷ (codes "VIEW_AUDIT", flag true)
    ∷ (codes "MANAGE_APPS", flag true)
    ∷ []

abbrev pub admin_snapshot : EvaluatedSnapshot
admin_snapshot = record {
  role = codes "ADMIN";
  identity_registered = true;
  identity_active = true;
  organization_active = true;
  membership = record { joined_at = some 1; expires_at = none; expired = false };
  permissions = some grants;
  app = some (record {
    slug = codes "payroll";
    app_id = codes "payroll";
    registered = true;
    allowed = true;
  });
}

abbrev readers : AccessReaders
readers = record {
  organization = ok (some (record { active = true }));
  identity = ok (record { registered = true; active = true });
  role = ok (codes "ADMIN");
  membership = ok (record { joined_at = some 1; expires_at = none; expired = false });
  permissions = λ role. ok (some grants);
  app = ok admin_snapshot.app;
}

readers_run : evaluate_access readers ≡ evaluated allow admin_snapshot
unfolding evaluate_access ◌===◌ decide_access is_empty
readers_run = refl

evaluate_access-Permitted_example : Permitted readers admin_snapshot
evaluate_access-Permitted_example =
    evaluate_access-Permitted readers allow admin_snapshot readers_run refl

decide_access-allow_iff_example :
    ((decide_access current_member).allowed ≡ true)
    ↔ ((r : AccessDenyReason) → ¬ Blocks current_member r)
decide_access-allow_iff_example = decide_access-allow_iff current_member

-- One organization, 7, with one wallet that is an administrator of it.
abbrev pub chain : Contracts
chain = record {
  keccak_id = lower;
  get_organization = λ id.
      ok (record { root_admin = codes "0xA1"; metadata_hash = []; active = true; created_at = 1 });
  get_identity =
      λ w. ok (record { exists = true; active = true; identity_hash = []; registered_at = 1 });
  effective_role = λ id w. ok (codes "ownex_role_admin");
  get_membership =
      λ id w. ok (record { role = codes "ownex_role_admin"; joined_at = 1; expires_at = 0 });
  has_permission = λ id w p. ok true;
  application_registered = λ id app. ok true;
  can_access_app = λ id w app. ok true;
}

live_run :
    evaluate_live_access chain 5 7 (codes "0xA1") (some (codes "payroll"))
    ≡ evaluated allow admin_snapshot
unfolding evaluate_live_access evaluate_access read_organization read_identity read_effective_role
    read_membership is_empty read_can_access_app ◌===◌ role_name lower read_permissions_for
    decide_access
live_run = refl

evaluate_live_access-OnChain_example :
    OnChain chain 5 7 (codes "0xA1") (some (codes "payroll")) admin_snapshot
evaluate_live_access-OnChain_example =
    evaluate_live_access-OnChain chain 5 7 (codes "0xA1") (some (codes "payroll")) allow
      admin_snapshot live_run refl
