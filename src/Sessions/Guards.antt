-- ===== src/Sessions/Guards.antt =====
-- apps/platform/lib/authz.ts: the guards of the routes. What a guard throws is the error that the
-- route answers with, or what a read of the contracts threw.
pub mod Sound
use owne_x.Base.{
  ℕ, Bool, true, false, not, Option, none, some, List, [], ◌∷◌, ◌++◌, find, if◌then◌else◌, Outcome,
  Read, ok, thrown, ◌>>=◌,
}
use owne_x.Base.Text.{Text, codes, ◌===◌, is_empty, lower}
use owne_x.Chain.Roles.{
  RoleName, no_role, PermissionKey, manage_members, assign_roles, mint_assets, transfer_assets,
  view_audit, manage_apps, permission_text, permission_list, permission_hash, role_text,
}
use owne_x.Chain.Reads.{
  Contracts, IdentityState, read_identity, read_effective_role, read_has_permission,
}

pub data GuardError : Type 0 where
  unauthorized : GuardError
  forbidden : Text → GuardError
  read_threw : Text → GuardError

pub record Member : Type 0 where
  pub wallet : Text
  pub role : RoleName

-- A read that throws is thrown on.
abbrev pub reading {ℓ} : {A : Type ℓ} → Outcome Text A → Outcome GuardError A
reading (ok a) = ok a
reading (thrown reason) = thrown (read_threw reason)

abbrev pub permission_label : PermissionKey → Text
permission_label manage_members = codes "Manage members"
permission_label assign_roles = codes "Assign roles"
permission_label mint_assets = codes "Mint assets"
permission_label transfer_assets = codes "Transfer assets"
permission_label view_audit = codes "View audit"
permission_label manage_apps = codes "Manage applications"

-- `if (!test) throw forbidden(reason)`
abbrev pub demand : Bool → Text → Outcome GuardError Bool
demand true reason = ok true
demand false reason = thrown (forbidden reason)

-- An empty wallet is no caller.
unfoldable pub require_caller : Option Text → Outcome GuardError Text
require_caller none = thrown unauthorized
require_caller (some wallet) = if is_empty wallet then thrown unauthorized else ok wallet

is_member : RoleName → Bool
is_member no_role = false
is_member role = true

known : Option PermissionKey → Outcome GuardError PermissionKey
known none = thrown (forbidden (codes "Unknown permission"))
known (some p) = ok p

-- The entry of `PERMISSION_LIST` with the key.
entry_of : Text → Outcome GuardError PermissionKey
unfolding known
entry_of key = known (find (λ p. permission_text p === key) permission_list)

-- The first argument after the contracts is the wallet of the session.
module _ (chain : Contracts) (caller : Option Text) where
  unfoldable pub require_active_identity : Outcome GuardError Text
  require_active_identity = do
    wallet ← require_caller caller
    identity ← reading (read_identity chain wallet)
    registered ← demand identity.registered (codes "This wallet has no registered identity")
    active ← demand identity.active (codes "This identity has been revoked")
    ok wallet

  unfoldable pub require_member : ℕ → Outcome GuardError Member
  unfolding is_member
  require_member org_id = do
    wallet ← require_active_identity
    role ← reading (read_effective_role chain org_id wallet)
    held ← demand (is_member role) (codes "You are not a member of this organization")
    ok (record { wallet = wallet; role = role })

  unfoldable pub require_permission : ℕ → Text → Outcome GuardError Member
  unfolding entry_of
  require_permission org_id permission = do
    wallet ← require_active_identity
    entry ← entry_of permission
    allowed ←
        reading (read_has_permission chain org_id wallet (permission_hash chain.keccak_id entry))
    granted ← demand allowed (codes "Your role cannot " ++ lower (permission_label entry))
    role ← reading (read_effective_role chain org_id wallet)
    ok (record { wallet = wallet; role = role })
