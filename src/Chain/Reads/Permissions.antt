-- ===== src/Chain/Reads/Permissions.antt =====
-- What the read of the permissions gives where it succeeds.
use owne_x.Base.{
  ℕ, ◌≡◌, refl, sym, subst, ◌>>=◌, ap, ◌∙◌, Bool, false, List, [], ◌∷◌, map, Memᴰ, Outcome, Read,
  ok, thrown, >>=-ok,
}
use owne_x.Base.Text.{Text}
use owne_x.Chain.Roles.{
  PermissionKey, permission_text, permission_list, permission_hash, manage_members, assign_roles,
  mint_assets, transfer_assets, view_audit, manage_apps,
}
use owne_x.Chain.Reads.{Contracts, all_keys, read_permissions_for, read_has_permission}

-- The results are those of the keys, in their order.
all_keys-ok {ℓ κ} :
    {K : Type ℓ} {A : Type κ} (f : K → Outcome Text A) (g : K → A) (ks : List K) (rs : List A)
    → ((k : K) (a : A) → f k ≡ ok a → a ≡ g k)
    → all_keys f ks ≡ ok rs
    → (rs ≡ map g ks) × ((k : K) → Memᴰ k ks → f k ≡ ok (g k))
unfolding all_keys
all_keys-ok f g [] rs h e = (cc e, λ k m. elim m [ ])
all_keys-ok {K} {A} f g (k ∷ ks) rs h e =
    let (a, e1, h1) = >>=-ok (f k) _ e in
    let (rest, e2, h2) = >>=-ok (all_keys f ks) _ h1 in
    let (same, each) = all_keys-ok f g ks rest h e2 in
    (sym (cc h2) ∙ ap (λ t. a ∷ t) same ∙ ap (λ b. b ∷ map g ks) (h k a e1), each_of a e1 each)
  where
    each_of :
        (a : A)
        → f k ≡ ok a
        → ((j : K) → Memᴰ j ks → f j ≡ ok (g j))
        → (j : K) → Memᴰ j (k ∷ ks)
        → f j ≡ ok (g j)
    each_of a e1 each j (Memᴰ.head e) =
        subst (λ i. f i ≡ ok (g i)) (sym e) (e1 ∙ ap (λ b. ok b) (h k a e1))
    each_of a e1 each j (Memᴰ.tail m) = each j m

every_key : (key : PermissionKey) → Memᴰ key permission_list
every_key manage_members = Memᴰ.head refl
every_key assign_roles = Memᴰ.tail (Memᴰ.head refl)
every_key mint_assets = Memᴰ.tail (Memᴰ.tail (Memᴰ.head refl))
every_key transfer_assets = Memᴰ.tail (Memᴰ.tail (Memᴰ.tail (Memᴰ.head refl)))
every_key view_audit = Memᴰ.tail (Memᴰ.tail (Memᴰ.tail (Memᴰ.tail (Memᴰ.head refl))))
every_key manage_apps = Memᴰ.tail (Memᴰ.tail (Memᴰ.tail (Memᴰ.tail (Memᴰ.tail (Memᴰ.head refl)))))

abbrev answer_of : Read Bool → Bool
answer_of (ok b) = b
answer_of (thrown reason) = false

-- What the contracts answer of each permission, and that the read tells it of all of them.
pub record Granted (chain : Contracts) (org_id : ℕ) (wallet : Text) (flags : List (Text × Bool))
    : Type 0 where
  pub granted : PermissionKey → Bool
  pub found :
      (key : PermissionKey)
      → chain.has_permission org_id wallet (permission_hash chain.keccak_id key) ≡ ok (granted key)
  pub told : flags ≡ map (λ key. (permission_text key, granted key)) permission_list

module _ (chain : Contracts) (org_id : ℕ) (wallet : Text) where
  abbrev granted_of : PermissionKey → Bool
  granted_of key =
      answer_of (chain.has_permission org_id wallet (permission_hash chain.keccak_id key))

  abbrev flag_of : PermissionKey → Read (Text × Bool)
  flag_of key = do
    allowed ← read_has_permission chain org_id wallet (permission_hash chain.keccak_id key)
    ok (permission_text key, allowed)

  flag_of-ok :
      (key : PermissionKey) (p : Text × Bool)
      → flag_of key ≡ ok p
      → (chain.has_permission org_id wallet (permission_hash chain.keccak_id key)
          ≡ ok (granted_of key))
        × (p ≡ (permission_text key, granted_of key))
  unfolding read_has_permission
  flag_of-ok key p h =
      let (allowed, e, e') =
        >>=-ok (chain.has_permission org_id wallet (permission_hash chain.keccak_id key)) _ h in
      let same : granted_of key ≡ allowed = ap answer_of e in
      (e ∙ ap (λ b. ok b) (sym same), told same e')
    where
      told :
          {allowed : Bool}
          → granted_of key ≡ allowed
          → ◌≡◌ {A = Outcome Text (Text × Bool)} (ok (permission_text key, allowed)) (ok p)
          → p ≡ (permission_text key, granted_of key)
      told {allowed} same e = sym (cc e) ∙ ap (λ b. (permission_text key, b)) (sym same)

  pub read_permissions_for-Granted :
      (flags : List (Text × Bool))
      → read_permissions_for chain org_id wallet ≡ ok flags
      → Granted chain org_id wallet flags
  unfolding read_permissions_for
  read_permissions_for-Granted flags h =
      let (told, each) =
        all_keys-ok flag_of (λ key. (permission_text key, granted_of key)) permission_list flags
          (λ key p e. (flag_of-ok key p e).1) h in
      record {
        granted = granted_of;
        found = λ key. (flag_of-ok key _ (each key (every_key key))).0;
        told = told;
      }
