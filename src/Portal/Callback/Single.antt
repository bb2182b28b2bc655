-- ===== src/Portal/Callback/Single.antt =====
-- A state is of use once.
use owne_x.Base.{
  ℕ, ◌≡◌, refl, ap, inl, inr, true, false, Option, none, some, arith, Bool-cases, Outcome-cases,
}
use owne_x.Base.Text.{Text, codes}
use owne_x.Sso.Exchange.{ExchangeBody}
use owne_x.Portal.Config.{PortalEnv, OwnexConfig, ownex_config}
use owne_x.Portal.Session.{PortalSession, denied, has_password}
use owne_x.Portal.Callback.{
  CallbackQuery, ReplyBody, FetchReply, answered, unreachable, state_accepted, cleared, callback,
  signed_in, check_claims, read_claims, read_reply, exchange_code, after_state,
}

pub record NoState (session : PortalSession) : Type 0 where
  pub state_gone : session.state ≡ none
  pub expiry_gone : session.state_expires ≡ none

cleared-NoState : (session : PortalSession) → NoState (cleared session)
unfolding cleared
cleared-NoState session = record { state_gone = refl; expiry_gone = refl }

NoState-cleared : (session : PortalSession) → NoState session → cleared session ≡ session
unfolding cleared
NoState-cleared session h = cc (h.state_gone, h.expiry_gone)

module _ (decimal : ℕ → Text) (iso : ℕ → Text) (env : PortalEnv) (now : ℕ) where
  check_claims-NoState :
      (config : OwnexConfig) (w : Option Text) (body : ReplyBody) (session : PortalSession)
      → NoState session
      → NoState (check_claims decimal iso env now config w body session).1
  unfolding check_claims signed_in
  check_claims-NoState config none body session h = h
  check_claims-NoState config (some w) body session h = record {
    state_gone = ground (arith, h.state_gone);
    expiry_gone = ground (arith, h.expiry_gone);
  }

  read_reply-NoState :
      (config : OwnexConfig) (reply : FetchReply) (session : PortalSession)
      → NoState session
      → NoState (read_reply decimal iso env now config reply session).1
  unfolding read_reply read_claims
  read_reply-NoState config unreachable session h = h
  read_reply-NoState config (answered status none) session h = record {
    state_gone = ground (arith, h.state_gone);
    expiry_gone = ground (arith, h.expiry_gone);
  }
  read_reply-NoState config (answered status (some body)) session h =
      let kept = check_claims-NoState config body.wallet body session h in
      record {
        state_gone = ground (arith, h.state_gone, kept.state_gone);
        expiry_gone = ground (arith, h.expiry_gone, kept.expiry_gone);
      }

  exchange_code-NoState :
      (fetch : ExchangeBody → FetchReply) (code : Text) (session : PortalSession)
      → NoState session
      → NoState (exchange_code decimal iso env now fetch code session).1
  unfolding exchange_code
  exchange_code-NoState fetch code session h = elim (Outcome-cases (ownex_config env)) [
    | inr (reason, e) ↦ rw (e, exchange_code) h
    | inl (config, e) ↦ rw (e, exchange_code) (read_reply-NoState config (fetch _) session h)
  ]

  after_state-NoState :
      (fetch : ExchangeBody → FetchReply) (query : CallbackQuery) (session : PortalSession)
      → NoState session
      → NoState (after_state decimal iso env now fetch query session).1
  unfolding after_state
  after_state-NoState fetch query session h =
      let kept = exchange_code-NoState fetch query.code session h in
      record {
        state_gone = ground (arith, h.state_gone, kept.state_gone);
        expiry_gone = ground (arith, h.expiry_gone, kept.expiry_gone);
      }

  callback-NoState :
      (fetch : ExchangeBody → FetchReply) (query : CallbackQuery) (session : PortalSession)
      → has_password env ≡ true
      → NoState (callback decimal iso env now fetch query session).1
  unfolding callback
  callback-NoState fetch query session password =
      elim (Bool-cases (state_accepted query.state session.state session.state_expires now)) [
        | inr refused ↦ rw (password, refused) (cleared-NoState session)
        | inl accepted ↦
            rw (password, accepted)
              (after_state-NoState fetch query (cleared session) (cleared-NoState session))
      ]

state_accepted-none :
    (state : Text) (expected : Option Text) (expires : Option ℕ) (now : ℕ)
    → expected ≡ none
    → state_accepted state expected expires now ≡ false
unfolding state_accepted
state_accepted-none state none expires now e = refl
state_accepted-none state (some t) expires now e = cc e

-- Without a state there is no sign-in.
refused_without :
    (decimal : ℕ → Text) (iso : ℕ → Text) (env : PortalEnv) (now : ℕ)
    (fetch : ExchangeBody → FetchReply) (query : CallbackQuery) (session : PortalSession)
    → has_password env ≡ true
    → NoState session
    → callback decimal iso env now fetch query session ≡ (denied (codes "INVALID_STATE"), session)
unfolding callback
refused_without decimal iso env now fetch query session password h =
    rw
      (
        password,
        state_accepted-none query.state session.state session.state_expires now h.state_gone,
      )
      (ap (λ s. (denied (codes "INVALID_STATE"), s)) (NoState-cleared session h))

-- Where the portal has a session password, whatever the first callback did, any later callback
-- that finds the session it left, without a login in between, is denied for its state and changes
-- nothing.
pub callback-once :
    (decimal iso : ℕ → Text) (env : PortalEnv) (now later : ℕ)
    (fetch fetch' : ExchangeBody → FetchReply) (query query' : CallbackQuery)
    (session : PortalSession)
    → has_password env ≡ true
    → let after = (callback decimal iso env now fetch query session).1 in
      callback decimal iso env later fetch' query' after ≡ (denied (codes "INVALID_STATE"), after)
callback-once decimal iso env now later fetch fetch' query query' session password =
    refused_without decimal iso env later fetch' query' _ password
      (callback-NoState decimal iso env now fetch query session password)
