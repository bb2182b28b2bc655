-- ===== src/Chain/Reads.antt =====
-- The reads: `readIdentity`, `readEffectiveRole`, `readHasPermission`, `readMembership`,
-- `readPermissionsFor`, `readOrganization`, `readCanAccessApp`. Times are whole numbers: seconds on
-- chain, milliseconds for `Date.now()`.
pub mod Permissions
use owne_x.Base.{
  ℕ, ◌*◌, Bool, not, ◌&&◌, Option, none, some, List, [], ◌∷◌, leb, ◌==◌, if◌then◌else◌, Outcome,
  Read, ok, ◌>>=◌,
}
use owne_x.Base.Text.{Text, codes, ◌===◌}
use owne_x.Chain.Roles.{RoleName, permission_hash, permission_list, permission_text, role_name}

pub record OrganizationRecord : Type 0 where
  pub root_admin : Text
  pub metadata_hash : Text
  pub active : Bool
  pub created_at : ℕ

pub record IdentityRecord : Type 0 where
  pub exists : Bool
  pub active : Bool
  pub identity_hash : Text
  pub registered_at : ℕ

pub record MembershipRecord : Type 0 where
  pub role : Text
  pub joined_at : ℕ
  pub expires_at : ℕ

-- The view functions of the contracts at one block.
pub record Contracts : Type 0 where
  pub keccak_id : Text → Text
  pub get_organization : ℕ → Read OrganizationRecord
  pub get_identity : Text → Read IdentityRecord
  pub effective_role : ℕ → Text → Read Text
  pub get_membership : ℕ → Text → Read MembershipRecord
  pub has_permission : ℕ → Text → Text → Read Bool
  pub application_registered : ℕ → Text → Read Bool
  pub can_access_app : ℕ → Text → Text → Read Bool

pub record IdentityState : Type 0 where
  pub wallet : Text
  pub registered : Bool
  pub active : Bool
  pub identity_hash : Option Text
  pub registered_at : Option ℕ

pub record MembershipState : Type 0 where
  pub role : RoleName
  pub joined_at : Option ℕ
  pub expires_at : Option ℕ
  pub expired : Bool

pub record OrganizationState : Type 0 where
  pub org_id : ℕ
  pub root_admin : Text
  pub metadata_hash : Text
  pub active : Bool
  pub created_at : ℕ

abbrev pub zero_address : Text
zero_address = codes "0x0000000000000000000000000000000000000000"

-- `n || null` and `n === 0 ? null : n`
abbrev or_null : ℕ → Option ℕ
or_null n = if n == 0 then none else some n

-- `Promise.all` over a list of keys.
all_keys {ℓ κ} : {K : Type ℓ} {A : Type κ} → (K → Outcome Text A) → List K → Outcome Text (List A)
all_keys f [] = ok []
all_keys f (k ∷ ks) = do a ← f k; rest ← all_keys f ks; ok (a ∷ rest)

module _ (chain : Contracts) where
  unfoldable pub read_identity : Text → Read IdentityState
  read_identity wallet = do
    found ← chain.get_identity wallet
    ok (record {
      wallet = wallet;
      registered = found.exists;
      active = found.exists && found.active;
      identity_hash = if found.exists then some found.identity_hash else none;
      registered_at = if found.exists then some found.registered_at else none;
    })

  unfoldable pub read_effective_role : ℕ → Text → Read RoleName
  read_effective_role org_id wallet = do
    hash ← chain.effective_role org_id wallet
    ok (role_name chain.keccak_id hash)

  unfoldable pub read_has_permission : ℕ → Text → Text → Read Bool
  read_has_permission org_id wallet hash = chain.has_permission org_id wallet hash

  -- `now` is `Date.now()`.
  unfoldable pub read_membership : ℕ → ℕ → Text → Read MembershipState
  read_membership now org_id wallet = do
    m ← chain.get_membership org_id wallet
    ok (record {
      role = role_name chain.keccak_id m.role;
      joined_at = or_null m.joined_at;
      expires_at = or_null m.expires_at;
      expired = not (m.expires_at == 0) && leb (m.expires_at * 1000) now;
    })

  unfoldable pub read_permissions_for : ℕ → Text → Read (List (Text × Bool))
  unfolding all_keys read_has_permission
  read_permissions_for org_id wallet =
      all_keys
        (λ key. do
          allowed ← read_has_permission org_id wallet (permission_hash chain.keccak_id key)
          ok (permission_text key, allowed))
        permission_list

  unfoldable pub read_organization : ℕ → Read (Option OrganizationState)
  read_organization org_id = do
    org ← chain.get_organization org_id
    ok (
        if org.root_admin === zero_address
        then none
        else some (record {
          org_id = org_id;
          root_admin = org.root_admin;
          metadata_hash = org.metadata_hash;
          active = org.active;
          created_at = org.created_at;
        }))

  unfoldable pub read_can_access_app : ℕ → Text → Text → Read Bool
  read_can_access_app org_id wallet app_id = chain.can_access_app org_id wallet app_id

  -- `appIdFromSlug`
  abbrev pub app_id_from_slug : Text → Text
  app_id_from_slug slug = chain.keccak_id slug
