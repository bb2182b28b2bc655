-- ===== src/Codes/Store.antt =====
-- The interface `AuthorizationCodeStore`, its data, and the laws that an implementation meets.
pub mod SingleUse
use owne_x.Base.{
  ℕ, ◌+◌, ◌≡◌, ◌⊎◌, Bool, true, false, not, ◌&&◌, Option, none, some, List, leb, if◌then◌else◌,
  Outcome, Read, ok, find,
}
use owne_x.Base.Text.{Text, ◌===◌, lower}

pub record GrantInput : Type 0 where
  pub client_id : Text
  pub app_slug : Text
  pub org_id : ℕ
  pub wallet : Text
  pub redirect_uri : Text

pub record StoredGrant : Type 0 where
  pub input : GrantInput
  pub code : Text
  pub expires_at : ℕ

pub record ConsumeQuery : Type 0 where
  pub code : Text
  pub client_id : Text
  pub redirect_uri : Text
  pub now : ℕ

pub record ConsumedGrant : Type 0 where
  pub app_slug : Text
  pub org_id : ℕ
  pub wallet : Text
  pub redirect_uri : Text

-- A stored grant with its `usedAt`.
pub record Row : Type 0 where
  pub grant : StoredGrant
  pub used_at : Option ℕ

-- The state is passed on also where the call throws.
pub record AuthorizationCodeStore (S : Type 0) : Type 0 where
  pub insert : StoredGrant → S → Read (Unit {0}) × S
  pub consume : ConsumeQuery → S → Read (Option ConsumedGrant) × S

abbrev pub is_unused : Option ℕ → Bool
is_unused none = true
is_unused (some t) = false

-- Unused, of this client and redirect URI, and not expired: the code's own match aside.
unfoldable pub redeemable : ConsumeQuery → Row → Bool
redeemable q row =
    is_unused row.used_at
    && row.grant.input.client_id === q.client_id
    && row.grant.input.redirect_uri === q.redirect_uri
    && not (leb row.grant.expires_at q.now)

abbrev pub fresh_row : StoredGrant → Row
fresh_row grant = record {
  grant = record grant { input = record (grant.input) { wallet = lower grant.input.wallet } };
  used_at = none;
}

abbrev pub used_row : ConsumeQuery → Row → Row
used_row q row = record row { used_at = some q.now }

abbrev pub consumed_of : Row → ConsumedGrant
consumed_of row = record {
  app_slug = row.grant.input.app_slug;
  org_id = row.grant.input.org_id;
  wallet = row.grant.input.wallet;
  redirect_uri = row.grant.input.redirect_uri;
}

-- What a store promises: through `row`, the row that it holds for a code, its operations change at
-- most the row of their own code, from absent to fresh and from redeemable to used, and a code that
-- is handed out was redeemable and is used from then on.
pub record IsLawful {S : Type 0} (store : AuthorizationCodeStore S) (IsValid : S → Type 0)
    (row : S → Text → Option Row) : Type 0 where
  pub insert-IsValid : (g : StoredGrant) (s : S) → IsValid s → IsValid (store.insert g s).1
  pub consume-IsValid : (q : ConsumeQuery) (s : S) → IsValid s → IsValid (store.consume q s).1
  pub insert-row :
      (g : StoredGrant) (s : S) (c : Text)
      → IsValid s
      → (row (store.insert g s).1 c ≡ row s c)
        ⊎ ((row s c ≡ none) × (row (store.insert g s).1 c ≡ some (fresh_row g)))
  pub consume-row :
      (q : ConsumeQuery) (s : S) (c : Text)
      → IsValid s
      → (row (store.consume q s).1 c ≡ row s c)
        ⊎ ((r : Row) × (row s c ≡ some r)
            × (redeemable q r ≡ true)
            × (row (store.consume q s).1 c ≡ some (used_row q r)))
  pub consume-some :
      (q : ConsumeQuery) (s : S) (g : ConsumedGrant)
      → IsValid s
      → (store.consume q s).0 ≡ ok (some g)
      → (r : Row) × (row s q.code ≡ some r)
        × (redeemable q r ≡ true)
        × (g ≡ consumed_of r)
        × (row (store.consume q s).1 q.code ≡ some (used_row q r))
