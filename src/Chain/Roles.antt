-- ===== src/Chain/Roles.antt =====
-- Roles and permissions, and the hashes by which the contracts know them.
use owne_x.Base.{Option, none, some, List, [], ◌∷◌, find}
use owne_x.Base.Text.{Text, codes, ◌===◌, lower}

pub data RoleName : Type 0 where
  admin manager auditor user no_role : RoleName

pub data PermissionKey : Type 0 where
  manage_members assign_roles mint_assets transfer_assets view_audit manage_apps : PermissionKey

-- The string that the source writes for a role.
abbrev pub role_text : RoleName → Text
role_text admin = codes "ADMIN"
role_text manager = codes "MANAGER"
role_text auditor = codes "AUDITOR"
role_text user = codes "USER"
role_text no_role = codes "NONE"

abbrev pub permission_text : PermissionKey → Text
permission_text manage_members = codes "MANAGE_MEMBERS"
permission_text assign_roles = codes "ASSIGN_ROLES"
permission_text mint_assets = codes "MINT_ASSETS"
permission_text transfer_assets = codes "TRANSFER_ASSETS"
permission_text view_audit = codes "VIEW_AUDIT"
permission_text manage_apps = codes "MANAGE_APPS"

-- `PERMISSION_LIST`, by its keys in order.
abbrev pub permission_list : List PermissionKey
permission_list =
    manage_members ∷ assign_roles ∷ mint_assets ∷ transfer_assets ∷ view_audit ∷ manage_apps ∷ []

abbrev pub zero_hash : Text
zero_hash = codes "0x0000000000000000000000000000000000000000000000000000000000000000"

module _ (keccak_id : Text → Text) where
  -- `keccakId` of the permission's constant.
  abbrev pub permission_hash : PermissionKey → Text
  permission_hash manage_members = keccak_id (codes "PERM_MANAGE_MEMBERS")
  permission_hash assign_roles = keccak_id (codes "PERM_ASSIGN_ROLES")
  permission_hash mint_assets = keccak_id (codes "PERM_MINT_ASSETS")
  permission_hash transfer_assets = keccak_id (codes "PERM_TRANSFER_ASSETS")
  permission_hash view_audit = keccak_id (codes "PERM_VIEW_AUDIT")
  permission_hash manage_apps = keccak_id (codes "PERM_MANAGE_APPS")

  unfoldable pub role_hash : RoleName → Text
  role_hash admin = keccak_id (codes "OWNEX_ROLE_ADMIN")
  role_hash manager = keccak_id (codes "OWNEX_ROLE_MANAGER")
  role_hash auditor = keccak_id (codes "OWNEX_ROLE_AUDITOR")
  role_hash user = keccak_id (codes "OWNEX_ROLE_USER")
  role_hash no_role = zero_hash

  -- `ROLE_NAMES[key]`; where two keys agree the one written last wins.
  role_at : Text → Option RoleName
  unfolding role_hash
  role_at key =
      find (λ role. role_hash role === key) (no_role ∷ user ∷ auditor ∷ manager ∷ admin ∷ [])

  unfoldable pub role_name : Text → RoleName
  unfolding role_at
  role_name hash = elim (role_at (lower hash)) [
    | some role ↦ role
    | none ↦ elim (role_at hash) [ some role ↦ role | none ↦ no_role ]
  ]
