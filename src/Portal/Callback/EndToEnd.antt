-- ===== src/Portal/Callback/EndToEnd.antt =====
-- The partner's callback where the exchange route of the platform answers it.
use owne_x.Base.{ok, ℕ, ◌≡◌, refl, ap, sym, ◌∙◌, inl, inr, Option, none, some}
use owne_x.Base.Text.{Text, lower, lower_idem}
use owne_x.Access.Claims.{PartnerClaims, build_partner_claims}
use owne_x.Codes.Store.{ConsumedGrant, AuthorizationCodeStore}
use owne_x.Sso.Platform.{Platform}
use owne_x.Sso.Exchange.{ExchangeBody, ExchangeResponse, claims, api_error, readable, exchange}
use owne_x.Sso.Exchange.Sound.{Live, Exchanged, exchange-Exchanged}
use owne_x.Portal.Config.{PortalEnv, OwnexConfig, ownex_config}
use owne_x.Portal.Session.{PortalSession, dashboard}
use owne_x.Portal.Callback.{
  CallbackQuery, ReplyBody, FetchReply, answered, callback, exchange_body, signed_in,
}
use owne_x.Portal.Callback.SignIn.{SignedIn, StateHeld, callback-SignedIn}

-- A response of the route as the partner reads it: the claims and the status 200, or the code of an
-- error and its status.
unfoldable pub reply_of : (ℕ → Text) → ExchangeResponse → FetchReply
reply_of iso (claims c) = answered 200 (
    some (record {
      code = none;
      wallet = some c.wallet;
      org_id = some c.org_id;
      identity_active = some c.identity_active;
      verified_at = some (iso c.verified_at);
    }))
reply_of iso (api_error status code) = answered status (
    some (record {
      code = some code;
      wallet = none;
      org_id = none;
      identity_active = none;
      verified_at = none;
    }))

module _ (decimal iso : ℕ → Text) (env : PortalEnv) (now : ℕ) (platform : Platform) {S : Type 0}
    (store : AuthorizationCodeStore S) (s : S) where
  unfoldable pub platform_fetch : ExchangeBody → FetchReply
  platform_fetch body = reply_of iso (exchange platform store (readable body) s).0

  reply_of-wallet :
      (response : ExchangeResponse) (status : ℕ) (body : ReplyBody) (wallet : Text)
      → reply_of iso response ≡ answered status (some body)
      → body.wallet ≡ some wallet
      → (c : PartnerClaims) × (response ≡ claims c)
        × (c.wallet ≡ wallet)
        × (body.org_id ≡ some c.org_id)
  unfolding reply_of
  reply_of-wallet (claims c) status body wallet e f = (c, refl, cc (e, f), cc e)
  reply_of-wallet (api_error n code) status body wallet e f = absurd (cc (e, f))

  -- What a finished sign-in rests on, on both sides.
  pub record SignedInBy (query : CallbackQuery) (session after : PortalSession) : Type 0 where
    pub state : StateHeld query.state session now
    pub config : OwnexConfig
    pub configured : ownex_config env ≡ ok config
    pub told : PartnerClaims
    pub exchanged :
        Exchanged platform store (exchange_body decimal iso env now config query.code) s told
    pub same_org : exchanged.grant.org_id ≡ config.org_id
    pub wallet_kept : after.wallet ≡ some (lower exchanged.grant.wallet)
    pub org_kept : after.org_id ≡ some config.org_id

  told_of :
      (grant : ConsumedGrant) (c : PartnerClaims)
      → Live platform grant c
      → (c.wallet ≡ lower grant.wallet) × (c.org_id ≡ grant.org_id)
  unfolding build_partner_claims
  told_of grant c live = (ap (λ d. d.wallet) live.told, ap (λ d. d.org_id) live.told)

  kept_of :
      (config : OwnexConfig) (wallet : Text) (body : ReplyBody) (after : PortalSession)
      → after ≡ signed_in decimal iso env now config wallet body
      → (after.wallet ≡ some (lower wallet)) × (after.org_id ≡ some config.org_id)
  unfolding signed_in
  kept_of config wallet body after e = (ap (λ a. a.wallet) e, ap (λ a. a.org_id) e)

  same_wallet :
      (kept : Option Text) (wallet told granted : Text)
      → kept ≡ some (lower wallet)
      → told ≡ wallet
      → told ≡ lower granted
      → kept ≡ some (lower granted)
  same_wallet kept wallet told granted e f g =
      e ∙ ap (λ w. some (lower w)) (sym f ∙ g) ∙ ap (λ w. some w) (lower_idem granted)

  claims-SignedInBy :
      (query : CallbackQuery) (session after : PortalSession)
      → SignedIn decimal iso env now platform_fetch query session after
      → SignedInBy query session after
  unfolding platform_fetch
  claims-SignedInBy query session after h =
      let body = exchange_body decimal iso env now h.config query.code in
      let (c, is_claims, wallet, org) =
        reply_of-wallet (exchange platform store (readable body) s).0 h.read.status h.read.body
          h.read.wallet h.read.replied h.read.told in
      let exchanged = exchange-Exchanged platform store body s c is_claims in
      let (wallet_told, org_told) = told_of exchanged.grant c exchanged.live in
      let (wallet_kept, org_kept) = kept_of h.config h.read.wallet h.read.body after h.read.kept in
      record {
        state = h.state;
        config = h.config;
        configured = h.configured;
        told = c;
        exchanged = exchanged;
        same_org = sym org_told ∙ h.read.same_org c.org_id org;
        wallet_kept =
            same_wallet after.wallet h.read.wallet c.wallet exchanged.grant.wallet wallet_kept
              wallet wallet_told;
        org_kept = org_kept;
      }

  -- Where the platform's exchange route answers the portal's callback and the callback leads to
  -- the dashboard, the state of the query is the one that the session held, not yet expired, the
  -- portal is configured, the exchange handed out claims for the portal's client, secret and
  -- callback with everything that rests on, the grant is of the portal's organization, and the
  -- session now holds the wallet of the grant in lower case and that organization.
  pub callback-SignedInBy :
      (query : CallbackQuery) (session : PortalSession)
      → (callback decimal iso env now platform_fetch query session).0 ≡ dashboard
      → SignedInBy query session (callback decimal iso env now platform_fetch query session).1
  callback-SignedInBy query session h =
      elim (callback-SignedIn decimal iso env now platform_fetch query session) [
        | inl (refused, kept) ↦ absurd (refused h)
        | inr signed ↦ claims-SignedInBy query session _ signed
      ]
