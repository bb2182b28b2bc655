-- ===== src/Portal/Callback/SignIn.antt =====
-- What a finished sign-in rests on, on the partner's side and, where the platform's exchange route
-- answers, on the platform's.
use owne_x.Base.{
  ◌&&◌, ◌∙◌, ℕ, ◌≡◌, ◌≢◌, ◌≤◌, ◌⊎◌, refl, inl, inr, Bool, true, false, Option, none, some, [], leb,
  ok, arith, Bool-cases, Outcome-cases,
}
use owne_x.Base.Text.{Text, is_empty, ===_iff, is_empty_iff}
use owne_x.Sso.Exchange.{ExchangeBody}
use owne_x.Portal.Config.{PortalEnv, OwnexConfig, ownex_config}
use owne_x.Portal.Session.{PortalSession, PortalReply, dashboard, has_password}
use owne_x.Portal.Callback.{
  check_claims, CallbackQuery, ReplyBody, FetchReply, answered, unreachable, is_wallet,
  state_accepted, cleared, callback, signed_in, exchange_body, read_claims, read_reply,
  exchange_code, after_state, other_org, is_inactive,
}

-- The state of the query is the one that was stored, and has not expired.
pub record StateHeld (state : Text) (session : PortalSession) (now : ℕ) : Type 0 where
  pub not_empty : state ≢ []
  pub stored : session.state ≡ some state
  pub expires : ℕ
  pub expires_stored : session.state_expires ≡ some expires
  pub in_time : now ≤ expires

state_accepted-StateHeld :
    (state : Text) (session : PortalSession) (now : ℕ) (expected : Option Text) (expires : Option ℕ)
    → session.state ≡ expected
    → session.state_expires ≡ expires
    → state_accepted state expected expires now ≡ true
    → StateHeld state session now
unfolding state_accepted
state_accepted-StateHeld state session now none expires e f h = absurd (ground arith)
state_accepted-StateHeld state session now (some expected) none e f h = absurd (ground arith)
state_accepted-StateHeld state session now (some expected) (some t) e f h = record {
  not_empty = ground (arith, is_empty_iff state);
  stored = ground (arith, ===_iff state expected);
  expires = t;
  expires_stored = f;
  in_time = ground arith;
}

module _ (decimal : ℕ → Text) (iso : ℕ → Text) (env : PortalEnv) (now : ℕ) where
  -- What the platform answered, and the session that is made of it.
  pub record ClaimsRead (config : OwnexConfig) (reply : FetchReply) (after : PortalSession)
      : Type 0 where
    pub status : ℕ
    pub body : ReplyBody
    pub success : (200 ≤ status) × (status ≤ 299)
    pub replied : reply ≡ answered status (some body)
    pub wallet : Text
    pub told : body.wallet ≡ some wallet
    pub well_formed : is_wallet wallet ≡ true
    pub not_inactive : body.identity_active ≢ some false
    pub same_org : (n : ℕ) → body.org_id ≡ some n → n ≡ config.org_id
    pub kept : after ≡ signed_in decimal iso env now config wallet body

  -- No sign-in, and the wallet of the session is what it was.
  abbrev pub NotSignedIn : PortalSession → PortalReply × PortalSession → Type 0
  NotSignedIn session result = (result.0 ≢ dashboard) × (result.1.wallet ≡ session.wallet)

  active_claim : (o : Option Bool) → is_inactive decimal iso env now o ≡ false → o ≢ some false
  unfolding is_inactive
  active_claim none h e = cc e
  active_claim (some b) h e = ground arith

  org_claim :
      (o : Option ℕ) (org n : ℕ)
      → other_org decimal iso env now o org ≡ false
      → o ≡ some n
      → n ≡ org
  unfolding other_org
  org_claim none org n h e = absurd (ground arith)
  org_claim (some m) org n h e = ground arith

  check_claims-ClaimsRead :
      (config : OwnexConfig) (status : ℕ) (w : Option Text) (body : ReplyBody)
      (session : PortalSession)
      → (200 ≤ status) × (status ≤ 299)
      → body.wallet ≡ w
      → NotSignedIn session (check_claims decimal iso env now config w body session)
        ⊎ ClaimsRead config
            (answered status (some body))
            (check_claims decimal iso env now config w body session).1
  unfolding check_claims
  check_claims-ClaimsRead config status none body session success told = inl (ground arith, refl)
  check_claims-ClaimsRead config status (some wallet) body session success told =
      elim (Bool-cases (is_wallet wallet)) [
        | inr malformed ↦ inl (ground arith, ground arith)
        | inl well ↦ elim (Bool-cases (is_inactive decimal iso env now body.identity_active)) [
          | inl inactive ↦ inl (ground arith, ground arith)
          | inr active ↦
              elim (Bool-cases (other_org decimal iso env now body.org_id config.org_id)) [
                | inl other ↦ inl (ground arith, ground arith)
                | inr same ↦ inr (record {
                  status = status;
                  body = body;
                  success = success;
                  replied = refl;
                  wallet = wallet;
                  told = told;
                  well_formed = well;
                  not_inactive = active_claim body.identity_active active;
                  same_org = λ n. org_claim body.org_id config.org_id n same;
                  kept = rw (well, active, same) refl;
                })
              ]
        ]
      ]

  read_reply-ClaimsRead :
      (config : OwnexConfig) (reply : FetchReply) (session : PortalSession)
      → NotSignedIn session (read_reply decimal iso env now config reply session)
        ⊎ ClaimsRead config reply (read_reply decimal iso env now config reply session).1
  unfolding read_reply read_claims
  read_reply-ClaimsRead config unreachable session = inl (ground arith, refl)
  read_reply-ClaimsRead config (answered status found) session =
      elim (Bool-cases (leb 200 status && leb status 299)) [
        | inr failed ↦ inl (ground arith, ground arith)
        | inl success ↦ rw success (by_body found (ground arith))
      ]
    where
      by_body :
          (found : Option ReplyBody)
          → (200 ≤ status) × (status ≤ 299)
          → NotSignedIn session (read_claims decimal iso env now config found session)
            ⊎ ClaimsRead config
                (answered status found)
                (read_claims decimal iso env now config found session).1
      by_body none success = inl (ground arith, refl)
      by_body (some body) success =
          check_claims-ClaimsRead config status body.wallet body session success refl

  -- What a finished sign-in rests on, on the partner's side.
  pub record SignedIn (fetch : ExchangeBody → FetchReply) (query : CallbackQuery)
      (session after : PortalSession) : Type 0 where
    pub state : StateHeld query.state session now
    pub no_error : query.error ≡ []
    pub code_given : query.code ≢ []
    pub config : OwnexConfig
    pub configured : ownex_config env ≡ ok config
    pub read : ClaimsRead config (fetch (exchange_body decimal iso env now config query.code)) after

  -- The test of the reply, with what was established before it.
  read_reply-SignedIn :
      (fetch : ExchangeBody → FetchReply) (query : CallbackQuery) (session opened : PortalSession)
      (config : OwnexConfig)
      → StateHeld query.state session now
      → opened.wallet ≡ session.wallet
      → query.error ≡ []
      → query.code ≢ []
      → ownex_config env ≡ ok config
      → let reply = fetch (exchange_body decimal iso env now config query.code) in
        let result = read_reply decimal iso env now config reply opened in
        NotSignedIn session result ⊎ SignedIn fetch query session result.1
  read_reply-SignedIn fetch query session opened config held same no_error code e =
      elim (read_reply-ClaimsRead config
        (fetch (exchange_body decimal iso env now config query.code)) opened) [
          | inl (not_dashboard, kept) ↦ inl (not_dashboard, kept ∙ same)
          | inr read ↦ inr (record {
            state = held;
            no_error = no_error;
            code_given = code;
            config = config;
            configured = e;
            read = read;
          })
        ]

  after_state-SignedIn :
      (fetch : ExchangeBody → FetchReply) (query : CallbackQuery) (session opened : PortalSession)
      → StateHeld query.state session now
      → opened.wallet ≡ session.wallet
      → NotSignedIn session (after_state decimal iso env now fetch query opened)
        ⊎ SignedIn fetch query session (after_state decimal iso env now fetch query opened).1
  unfolding after_state exchange_code
  after_state-SignedIn fetch query session opened held same =
      elim (Bool-cases (is_empty query.error)) [
        | inr error ↦ inl (ground arith, ground arith)
        | inl no_error ↦ elim (Bool-cases (is_empty query.code)) [
          | inl no_code ↦ inl (ground arith, ground arith)
          | inr code ↦ elim (Outcome-cases (ownex_config env)) [
            | inr (reason, e) ↦ inl (ground arith, ground arith)
            | inl (config, e) ↦
                rw (no_error, code, e, exchange_code)
                  (read_reply-SignedIn fetch query session opened config held same
                    ((is_empty_iff query.error).0 no_error) (code_there code) e)
          ]
        ]
      ]
    where
      code_there : is_empty query.code ≡ false → query.code ≢ []
      code_there code = ground (arith, is_empty_iff query.code)

  -- The callback does not lead to the dashboard and keeps the wallet of the session, or it signs in
  -- under every condition of `SignedIn`.
  pub callback-SignedIn :
      (fetch : ExchangeBody → FetchReply) (query : CallbackQuery) (session : PortalSession)
      → NotSignedIn session (callback decimal iso env now fetch query session)
        ⊎ SignedIn fetch query session (callback decimal iso env now fetch query session).1
  unfolding callback cleared
  callback-SignedIn fetch query session = elim (Bool-cases (has_password env)) [
    | inr no_password ↦ inl (ground arith, ground arith)
    | inl password ↦
        elim (Bool-cases (state_accepted query.state session.state session.state_expires now)) [
          | inr refused ↦ inl (ground arith, ground arith)
          | inl accepted ↦
              rw (password, accepted)
                (after_state-SignedIn fetch query session (cleared session)
                  (state_accepted-StateHeld query.state session now session.state
                    session.state_expires refl refl accepted)
                  refl)
        ]
  ]
