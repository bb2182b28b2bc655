-- ===== src/Sso/Exchange/Sound.antt =====
-- What holds when claims are handed out.
use owne_x.Base.{
  ◌≡◌, ◌≢◌, ◌⊎◌, refl, ap, ◌∙◌, inl, inr, true, Option, none, some, arith, Read, ok, thrown, Bool,
  map, Option-cases, Bool-cases,
}
use owne_x.Base.Text.{Text, ===_iff, lower}
use owne_x.Access.Evaluate.{EvaluatedSnapshot}
use owne_x.Access.Evaluate.FailClosed.{EvaluatedAccess-cases}
use owne_x.Access.Live.{evaluate_live_access}
use owne_x.Access.Live.Sound.{OnChain, evaluate_live_access-OnChain}
use owne_x.Access.Claims.{PartnerClaims, build_partner_claims, normalize_permissions}
use owne_x.Access.Claims.Flags.{normalize_permissions-flags}
use owne_x.Chain.Roles.{
  PermissionKey, permission_hash, permission_list, permission_text, role_text, role_name,
}
use owne_x.Callback.Allowlist.{check_callback}
use owne_x.Callback.Allowlist.Exact.{CallbackCheck-cases, Accepted, check_callback-Accepted}
use owne_x.Codes.Store.{ConsumedGrant, AuthorizationCodeStore}
use owne_x.Codes.Operations.{consume_authorization_code}
use owne_x.Credentials.Secret.{verify_client_secret}
use owne_x.Registry.Records.{RegisteredApplication, revoked}
use owne_x.Registry.Reads.{find_application_by_client_id}
use owne_x.Registry.Requests.{subject_of}
use owne_x.Sso.Platform.{Platform}
use owne_x.Sso.Exchange.{
  ExchangeBody, readable, claims, is_valid_body, authenticated, query_of, claims_of, answer_of,
  exchange_as, exchange_found, exchange,
}

module _ (platform : Platform) where
  -- The claims are those of a live permission: the answer of the contracts to each permission, by
  -- its key, and an identity that is active.
  pub record Live (grant : ConsumedGrant) (c : PartnerClaims) : Type 0 where
    pub snapshot : EvaluatedSnapshot
    pub on_chain :
        OnChain platform.chain platform.now grant.org_id grant.wallet (some grant.app_slug) snapshot
    pub told :
        c
        ≡ build_partner_claims grant.wallet grant.org_id snapshot.role snapshot.permissions
            snapshot.identity_active platform.now
    pub wallet_told : c.wallet ≡ lower grant.wallet
    pub org_told : c.org_id ≡ grant.org_id
    pub role_told : c.role ≡ role_text (role_name platform.chain.keccak_id on_chain.hash)
    pub granted : PermissionKey → Bool
    pub granted_found :
        (key : PermissionKey)
        → platform.chain.has_permission grant.org_id grant.wallet
            (permission_hash platform.chain.keccak_id key)
          ≡ ok (granted key)
    pub permissions_told :
        c.permissions ≡ map (λ key. (permission_text key, granted key)) permission_list
    pub identity_told : c.identity_active ≡ true
    pub time_told : c.verified_at ≡ platform.now

  told-Live :
      (grant : ConsumedGrant) (c : PartnerClaims) (s : EvaluatedSnapshot)
      → OnChain platform.chain platform.now grant.org_id grant.wallet (some grant.app_slug) s
      → c
        ≡ build_partner_claims grant.wallet grant.org_id s.role s.permissions s.identity_active
            platform.now
      → Live grant c
  unfolding build_partner_claims
  told-Live grant c s v told = record {
    snapshot = s;
    on_chain = v;
    told = told;
    wallet_told = ap (λ (x : PartnerClaims). x.wallet) told;
    org_told = ap (λ (x : PartnerClaims). x.org_id) told;
    role_told = ap (λ (x : PartnerClaims). x.role) told ∙ v.role_told;
    granted = v.granted.granted;
    granted_found = v.granted.found;
    permissions_told =
        ap (λ (x : PartnerClaims). x.permissions) told
        ∙ ap normalize_permissions v.permissions_told
        ∙ normalize_permissions-flags v.flags
        ∙ v.granted.told;
    identity_told = ap (λ (x : PartnerClaims). x.identity_active) told ∙ v.identity_told;
    time_told = ap (λ (x : PartnerClaims). x.verified_at) told;
  }

  claims_of-Live :
      (grant : ConsumedGrant) (c : PartnerClaims)
      → claims_of platform grant ≡ claims c
      → Live grant c
  unfolding claims_of
  claims_of-Live grant c h =
      elim (EvaluatedAccess-cases (
        evaluate_live_access platform.chain platform.now grant.org_id grant.wallet
          (some grant.app_slug))) [
            | inl (d, s, e) ↦
                told-Live grant c s
                  (evaluate_live_access-OnChain platform.chain platform.now grant.org_id
                    grant.wallet (some grant.app_slug) d s e (ground arith))
                  (ground arith)
            | inr (t, e) ↦ absurd (ground arith)
          ]

  pub answer_of-claims :
      (app : RegisteredApplication) (read : Read (Option ConsumedGrant)) (c : PartnerClaims)
      → answer_of platform app read ≡ claims c
      → (grant : ConsumedGrant) × (read ≡ ok (some grant))
        × (grant.org_id ≡ app.org_id)
        × (grant.app_slug ≡ app.slug)
        × (claims_of platform grant ≡ claims c)
  unfolding answer_of
  answer_of-claims app (thrown detail) c h = absurd (ground arith)
  answer_of-claims app (ok none) c h = absurd (ground arith)
  answer_of-claims app (ok (some grant)) c h = (
    grant,
    refl,
    ground (arith, ===_iff grant.app_slug app.slug),
    ground (arith, ===_iff grant.app_slug app.slug),
    ground arith,
  )

  authenticated-some :
      (body : ExchangeBody) (found : Option RegisteredApplication) (app : RegisteredApplication)
      → authenticated platform body found ≡ some app
      → (found ≡ some app)
        × (app.status ≢ revoked)
        × (verify_client_secret platform.crypto (some body.client_secret) app.client_secret_hash
            ≡ true)
  unfolding authenticated
  authenticated-some body none app h = absurd (ground arith)
  authenticated-some body (some app') app h = (ground arith, ground arith, ground arith)

module _ (platform : Platform) {S : Type 0} (store : AuthorizationCodeStore S) where
  -- The client that presented the code is registered, not revoked, and holds the secret.
  pub record Authenticated (body : ExchangeBody) (app : RegisteredApplication) : Type 0 where
    pub found :
        find_application_by_client_id platform.context platform.registry body.client_id
        ≡ ok (some app)
    pub not_revoked : app.status ≢ revoked
    pub verified :
        verify_client_secret platform.crypto (some body.client_secret) app.client_secret_hash ≡ true

  -- What an exchange that hands out claims rests on.
  pub record Exchanged (body : ExchangeBody) (s : S) (c : PartnerClaims) : Type 0 where
    pub app : RegisteredApplication
    pub client : Authenticated body app
    pub normalized : Text
    pub registered : Text
    pub callback :
        Accepted platform.parse_url platform.mode
          (subject_of app)
          body.redirect_uri
          normalized
          registered
    pub grant : ConsumedGrant
    pub consumed :
        (consume_authorization_code store (query_of platform body registered) s).0 ≡ ok (some grant)
    pub same_app : (grant.org_id ≡ app.org_id) × (grant.app_slug ≡ app.slug)
    pub live : Live platform grant c

  exchange_as-claims :
      (body : ExchangeBody) (app : RegisteredApplication) (s : S) (c : PartnerClaims)
      → Authenticated body app
      → (exchange_as platform store body app s).0 ≡ claims c
      → Exchanged body s c
  unfolding exchange_as
  exchange_as-claims body app s c client h =
      elim (CallbackCheck-cases (
        check_callback platform.parse_url platform.mode (some (subject_of app))
          (some body.redirect_uri))) [
            | inr (reason, e) ↦ absurd (ground arith)
            | inl (n, r, e) ↦
                let (grant, consumed, org, slug, told) =
                  answer_of-claims platform app
                    (consume_authorization_code store (query_of platform body r) s).0 c
                    (ground arith) in
                record {
                  app = app;
                  client = client;
                  normalized = n;
                  registered = r;
                  callback =
                      check_callback-Accepted platform.parse_url platform.mode (subject_of app)
                        body.redirect_uri n r e;
                  grant = grant;
                  consumed = consumed;
                  same_app = (org, slug);
                  live = claims_of-Live platform grant c told;
                }
          ]

  exchange_found-claims :
      (body : ExchangeBody) (found : Read (Option RegisteredApplication)) (s : S)
      (c : PartnerClaims)
      → find_application_by_client_id platform.context platform.registry body.client_id ≡ found
      → (exchange_found platform store body found s).0 ≡ claims c
      → Exchanged body s c
  unfolding exchange_found
  exchange_found-claims body (thrown detail) s c e h = absurd (ground arith)
  exchange_found-claims body (ok found) s c e h =
      elim (Option-cases (authenticated platform body found)) [
        | inl refused ↦ absurd (ground arith)
        | inr (app, authentic) ↦
            let (is_app, live, verified) = authenticated-some platform body found app authentic in
            exchange_as-claims body app s c
              (record {
                found = e ∙ ap (λ f. ok f) is_app;
                not_revoked = live;
                verified = verified;
              })
              (ground arith)
      ]

  -- Where the exchange route answers a body with claims, the client id was found, its application
  -- is not revoked, the secret verified against the stored hash, the redirect URI was accepted as
  -- a registered callback, the store redeemed the code for this client and this callback to a
  -- grant of this application, and live access was allowed by the contracts for the grant's
  -- wallet; the claims tell that wallet in lower case, the organization, the effective role, for
  -- each permission the answer of the contracts to it, that the identity is active, and the time.
  pub exchange-Exchanged :
      (body : ExchangeBody) (s : S) (c : PartnerClaims)
      → (exchange platform store (readable body) s).0 ≡ claims c
      → Exchanged body s c
  unfolding exchange
  exchange-Exchanged body s c h =
      exchange_found-claims body
        (find_application_by_client_id platform.context platform.registry body.client_id) s c refl
        (ground arith)

  exchange_found-state :
      (body : ExchangeBody) (found : Read (Option RegisteredApplication)) (s : S)
      → ((exchange_found platform store body found s).1 ≡ s)
        ⊎ ((app : RegisteredApplication) × (found ≡ ok (some app))
            × (app.status ≢ revoked)
            × (verify_client_secret platform.crypto (some body.client_secret) app.client_secret_hash
                ≡ true))
  unfolding exchange_found
  exchange_found-state body (thrown detail) s = inl refl
  exchange_found-state body (ok found) s = elim (Option-cases (authenticated platform body found)) [
    | inl refused ↦ inl (ground arith)
    | inr (app, authentic) ↦
        let (is_app, live, verified) = authenticated-some platform body found app authentic in
        inr (app, ap (λ f. ok f) is_app, live, verified)
  ]

  -- An exchange leaves the code store as it was unless its client id is found, the application is
  -- not revoked and the secret verifies.
  pub exchange-state :
      (body : ExchangeBody) (s : S)
      → ((exchange platform store (readable body) s).1 ≡ s)
        ⊎ ((app : RegisteredApplication) × Authenticated body app)
  unfolding exchange
  exchange-state body s = elim (Bool-cases (is_valid_body body)) [
    | inr invalid ↦ inl (ground arith)
    | inl valid ↦
        elim (exchange_found-state body
          (find_application_by_client_id platform.context platform.registry body.client_id) s) [
            | inl same ↦ inl (ground arith)
            | inr (app, found, live, verified) ↦
                inr (app, record { found = found; not_revoked = live; verified = verified })
          ]
  ]
