-- ===== src/Access/Claims.antt =====
-- apps/platform/lib/access-decision.ts: `buildPartnerClaims` and `normalizePermissions`, what a
-- partner is told. The keys of the permissions are distinct, as those of `Object.entries` are.
pub mod Flags
use owne_x.Base.{ℕ, Bool, Option, none, some, List, [], ◌∷◌}
use owne_x.Base.Text.{Text, lower}
use owne_x.Access.Evaluate.{flag, other, Permissions}

pub record PartnerClaims : Type 0 where
  pub wallet : Text
  pub org_id : ℕ
  pub role : Text
  pub permissions : List (Text × Bool)
  pub identity_active : Bool
  pub verified_at : ℕ

keep_flags : Permissions → List (Text × Bool)
keep_flags [] = []
keep_flags ((key, flag b) ∷ entries) = (key, b) ∷ keep_flags entries
keep_flags ((key, other v) ∷ entries) = keep_flags entries

unfoldable pub normalize_permissions : Option Permissions → List (Text × Bool)
unfolding keep_flags
normalize_permissions none = []
normalize_permissions (some entries) = keep_flags entries

-- The fields of the input are arguments, in their order.
unfoldable pub build_partner_claims :
    Text → ℕ → Text → Option Permissions → Bool → (verified_at : ℕ) → PartnerClaims
build_partner_claims wallet org_id role permissions identity_active verified_at = record {
  wallet = lower wallet;
  org_id = org_id;
  role = role;
  permissions = normalize_permissions permissions;
  identity_active = identity_active;
  verified_at = verified_at;
}
