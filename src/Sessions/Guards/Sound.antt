-- ===== src/Sessions/Guards/Sound.antt =====
-- What a guard that lets a caller pass has read.
use owne_x.Base.{
  Bool-cases, inl, inr, find, sym, subst, List, ◌∷◌, subst, ℕ, ◌≡◌, ◌≢◌, refl, ap, ◌∙◌, Bool, true,
  false, Option, none, some, [], arith, Outcome, ok, thrown, >>=-ok,
}
use owne_x.Base.Text.{Text, ◌===◌, ===_iff}
use owne_x.Chain.Roles.{
  RoleName, no_role, PermissionKey, permission_text, permission_list, permission_hash, role_name,
}
use owne_x.Chain.Reads.{
  Contracts, IdentityRecord, IdentityState, read_identity, read_effective_role, read_has_permission,
}
use owne_x.Sessions.Store.{SessionData, session_wallet}
use owne_x.Sessions.Store.Age.{IsSignedIn, session_wallet-IsSignedIn}
use owne_x.Sessions.Guards.{
  known, Member, reading, demand, require_caller, entry_of, is_member, require_active_identity,
  require_member, require_permission,
}

reading-ok {ℓ} : {A : Type ℓ} (m : Outcome Text A) (a : A) → reading m ≡ ok a → m ≡ ok a
reading-ok (ok b) a h = ground arith
reading-ok (thrown reason) a h = absurd (ground arith)

find-holds {ℓ} : {A : Type ℓ} (p : A → Bool) (xs : List A) (a : A) → find p xs ≡ some a → p a ≡ true
find-holds p [] a h = absurd (cc h)
find-holds p (x ∷ xs) a h = elim (Bool-cases (p x)) [
  | inl holds ↦ ap p (sym (cc (rw holds at h))) ∙ holds
  | inr fails ↦ find-holds p xs a (rw fails at h)
]

known-ok : (o : Option PermissionKey) (key : PermissionKey) → known o ≡ ok key → o ≡ some key
unfolding known
known-ok none key h = absurd (cc h)
known-ok (some p) key h = cc h

entry_of-text :
    (permission : Text) (key : PermissionKey)
    → entry_of permission ≡ ok key
    → permission_text key ≡ permission
unfolding entry_of
entry_of-text permission key h =
    let named : PermissionKey → Bool = (λ p. permission_text p === permission) in
    (===_iff (permission_text key) permission).0
      (find-holds named permission_list key (known-ok (find named permission_list) key h))

demand-ok : (b : Bool) (reason : Text) (u : Bool) → demand b reason ≡ ok u → b ≡ true
demand-ok true reason u h = refl
demand-ok false reason u h = absurd (ground arith)

require_caller-ok :
    (caller : Option Text) (wallet : Text)
    → require_caller caller ≡ ok wallet
    → caller ≡ some wallet
unfolding require_caller
require_caller-ok none wallet h = absurd (ground arith)
require_caller-ok (some w) wallet h = ground arith

module _ (chain : Contracts) where
  -- The caller has a session, and an identity that is registered and active on chain.
  pub record IsActive (opened : Outcome Text SessionData) (now : ℕ) (wallet : Text) : Type 0 where
    pub signed_in : IsSignedIn opened now wallet
    pub identity : IdentityRecord
    pub identity_found : chain.get_identity wallet ≡ ok identity
    pub identity_active : (identity.exists ≡ true) × (identity.active ≡ true)

  identity_found-active :
      (wallet : Text) (i : IdentityState)
      → read_identity chain wallet ≡ ok i
      → i.active ≡ true
      → (r : IdentityRecord) × (chain.get_identity wallet ≡ ok r)
        × (r.exists ≡ true)
        × (r.active ≡ true)
  unfolding read_identity
  identity_found-active wallet i h active =
      let (r, found, same) = >>=-ok (chain.get_identity wallet) _ h in
      (r, found, ground arith, ground arith)

  assemble :
      (opened : Outcome Text SessionData) (now : ℕ) (wallet : Text) (i : IdentityState)
      → session_wallet opened now ≡ some wallet
      → read_identity chain wallet ≡ ok i
      → i.active ≡ true
      → IsActive opened now wallet
  assemble opened now wallet i called read active =
      let (r, found, exists, is_active) = identity_found-active wallet i read active in
      record {
        signed_in = session_wallet-IsSignedIn opened now wallet called;
        identity = r;
        identity_found = found;
        identity_active = (exists, is_active);
      }

  require_active_identity-IsActive :
      (opened : Outcome Text SessionData) (now : ℕ) (wallet : Text)
      → require_active_identity chain (session_wallet opened now) ≡ ok wallet
      → IsActive opened now wallet
  unfolding require_active_identity
  require_active_identity-IsActive opened now wallet h =
      let (w, called, h1) = >>=-ok (require_caller (session_wallet opened now)) _ h in
      let (i, read, h2) = >>=-ok (reading (read_identity chain w)) _ h1 in
      let (u, registered, h3) = >>=-ok (demand i.registered _) _ h2 in
      let (v, active, h4) = >>=-ok (demand i.active _) _ h3 in
      subst (IsActive opened now) (cc h4) (
        assemble opened now w i (require_caller-ok (session_wallet opened now) w called)
          (reading-ok (read_identity chain w) i read) (demand-ok i.active _ v active))

  -- The role that is told is the effective role on chain.
  pub record Holds (org_id : ℕ) (m : Member) : Type 0 where
    pub hash : Text
    pub role_found : chain.effective_role org_id m.wallet ≡ ok hash
    pub role_told : m.role ≡ role_name chain.keccak_id hash

  holds :
      (org_id : ℕ) (wallet : Text) (role : RoleName)
      → read_effective_role chain org_id wallet ≡ ok role
      → Holds org_id (record { wallet = wallet; role = role })
  unfolding read_effective_role
  holds org_id wallet role h =
      let (hash, found, same) = >>=-ok (chain.effective_role org_id wallet) _ h in
      record { hash = hash; role_found = found; role_told = cc same }

  member :
      (opened : Outcome Text SessionData) (now org_id : ℕ) (w : Text) (role : RoleName) (m : Member)
      → record { wallet = w; role = role } ≡ m
      → IsActive opened now w
      → Holds org_id (record { wallet = w; role = role })
      → role ≢ no_role
      → IsActive opened now m.wallet × Holds org_id m × (m.role ≢ no_role)
  member opened now org_id w role m e active held some_role =
      subst (λ m. IsActive opened now m.wallet × Holds org_id m × (m.role ≢ no_role)) e
        (active, held, some_role)

  permitted :
      (opened : Outcome Text SessionData) (now org_id : ℕ) (w : Text) (role : RoleName)
      (permission : Text) (key : PermissionKey) (m : Member)
      → record { wallet = w; role = role } ≡ m
      → IsActive opened now w
      → Holds org_id (record { wallet = w; role = role })
      → permission_text key ≡ permission
      → chain.has_permission org_id w (permission_hash chain.keccak_id key) ≡ ok true
      → IsActive opened now m.wallet
        × Holds org_id m
        × ((key : PermissionKey) × (permission_text key ≡ permission)
            × (chain.has_permission org_id m.wallet (permission_hash chain.keccak_id key)
                ≡ ok true))
  permitted opened now org_id w role permission key m e active held named granted =
      subst
        (λ m.
          IsActive opened now m.wallet
          × Holds org_id m
          × ((key : PermissionKey) × (permission_text key ≡ permission)
              × (chain.has_permission org_id m.wallet (permission_hash chain.keccak_id key)
                  ≡ ok true)))
        e (active, held, (key, named, granted))

  is_member-some : (role : RoleName) → is_member role ≡ true → role ≢ no_role
  unfolding is_member
  is_member-some role h e = ground (arith, h, e)

  -- Where the guard of a member lets a caller pass, the caller is active, and the contracts give it
  -- the role that is told, which is not that of no member.
  pub require_member-IsMember :
      (opened : Outcome Text SessionData) (now org_id : ℕ) (m : Member)
      → require_member chain (session_wallet opened now) org_id ≡ ok m
      → IsActive opened now m.wallet × Holds org_id m × (m.role ≢ no_role)
  unfolding require_member
  require_member-IsMember opened now org_id m h =
      let (w, active, h1) =
        >>=-ok (require_active_identity chain (session_wallet opened now)) _ h in
      let (role, read, h2) = >>=-ok (reading (read_effective_role chain org_id w)) _ h1 in
      let (u, held, h3) = >>=-ok (demand (is_member role) _) _ h2 in
      member opened now org_id w role m (cc h3)
        (require_active_identity-IsActive opened now w active)
        (holds org_id w role (reading-ok (read_effective_role chain org_id w) role read))
        (is_member-some role (demand-ok (is_member role) _ u held))

  -- Where the guard of a permission lets a caller pass, the wallet is that of an opened session no
  -- older than a day, the contracts hold an identity of it that exists and is active, they grant
  -- the permission of that key to it in the organization, and the role that is told is its
  -- effective role.
  pub require_permission-IsPermitted :
      (opened : Outcome Text SessionData) (now org_id : ℕ) (permission : Text) (m : Member)
      → require_permission chain (session_wallet opened now) org_id permission ≡ ok m
      → IsActive opened now m.wallet
        × Holds org_id m
        × ((key : PermissionKey) × (permission_text key ≡ permission)
            × (chain.has_permission org_id m.wallet (permission_hash chain.keccak_id key)
                ≡ ok true))
  unfolding require_permission read_has_permission
  require_permission-IsPermitted opened now org_id permission m h =
      let (w, active, h1) =
        >>=-ok (require_active_identity chain (session_wallet opened now)) _ h in
      let (key, entry, h2) = >>=-ok (entry_of permission) _ h1 in
      let (allowed, asked, h3) =
        >>=-ok (reading (chain.has_permission org_id w (permission_hash chain.keccak_id key))) _
          h2 in
      let (u, granted, h4) = >>=-ok (demand allowed _) _ h3 in
      let (role, read, h5) = >>=-ok (reading (read_effective_role chain org_id w)) _ h4 in
      permitted opened now org_id w role permission key m (cc h5)
        (require_active_identity-IsActive opened now w active)
        (holds org_id w role (reading-ok (read_effective_role chain org_id w) role read))
        (entry_of-text permission key entry)
        (reading-ok (chain.has_permission org_id w (permission_hash chain.keccak_id key)) allowed
            asked
          ∙ ap (λ b. ok b) (demand-ok allowed _ u granted))
