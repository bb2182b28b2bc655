-- ===== src/Partner/Verify/Sound.antt =====
-- What an answer that allows access rests on.
use owne_x.Base.{
  ◌&&◌, not, not, subst, [], ℕ, ◌≡◌, ◌≢◌, refl, inl, inr, ap, sym, ◌∙◌, true, Option, none, some,
  arith, Read, ok, thrown, Option-cases, Bool-cases, if◌then◌else◌,
}
use owne_x.Base.Text.{Text, ===_iff, is_empty, is_empty_iff}
use owne_x.Registry.Records.{RegisteredApplication, revoked}
use owne_x.Registry.Reads.{find_application_by_slug}
use owne_x.Registry.Requests.{is_revoked_status}
use owne_x.Access.Evaluate.{evaluated, EvaluatedSnapshot}
use owne_x.Access.Evaluate.FailClosed.{EvaluatedAccess-cases}
use owne_x.Access.Live.{evaluate_live_access}
use owne_x.Access.Live.Sound.{OnChain, evaluate_live_access-OnChain}
use owne_x.Access.Claims.{build_partner_claims}
use owne_x.Partner.Credentials.{PartnerHeaders}
use owne_x.Partner.Auth.{
  PartnerAuth, with_credentials, development_public, refused, authenticate_partner,
}
use owne_x.Partner.Verify.{
  valid_app, is_address_text, read_org, AccessDecision, answer_with, VerifyContext, VerifyParams,
  VerifyQuery, VerifyAnswer, answer, parse_params, foreign, slug_asked, live_answer,
  registered_answer, asked_answer, query_answer, verify_role,
}

some_injective : {s t : Text} → some s ≡ some t → s ≡ t
some_injective e = cc e

read_org-some :
    (coerce : Text → Option ℕ) (raw : Option Text) (n : ℕ)
    → read_org coerce raw ≡ some n
    → (t : Text) × (raw ≡ some t) × (coerce t ≡ some n)
unfolding read_org
read_org-some coerce none n h = absurd (cc h)
read_org-some coerce (some t) n h = elim (Option-cases (coerce t)) [
  | inl bad ↦ absurd (ground arith)
  | inr (m, e) ↦ (t, refl, ground arith)
]

-- What a query says is what the URL held.
parse_params-some :
    (coerce : Text → Option ℕ) (p : VerifyParams) (q : VerifyQuery)
    → parse_params coerce p ≡ some q
    → (p.wallet ≡ some q.wallet)
      × (q.app ≡ p.app)
      × ((raw : Text) × (p.org_id ≡ some raw) × (coerce raw ≡ some q.org_id))
unfolding parse_params
parse_params-some coerce p q h = elim (Option-cases p.wallet) [
  | inl absent ↦ absurd (ground arith)
  | inr (w, e) ↦ elim (Option-cases (read_org coerce p.org_id)) [
    | inl bad ↦ absurd (ground arith)
    | inr (n, f) ↦
        let same = parsed_as w n q (ground arith) in
        let (raw, is_raw, is_n) = read_org-some coerce p.org_id n f in
        (
          e ∙ ap (λ r. some r.wallet) same,
          sym (ap (λ r. r.app) same),
          (raw, is_raw, is_n ∙ ap (λ r. some r.org_id) same),
        )
  ]
]
  where
    parsed_as :
        (w : Text) (n : ℕ) (q : VerifyQuery)
        → (if not (is_address_text w && valid_app p.app)
            then none
            else some (record { wallet = w; org_id = n; app = p.app }))
          ≡ some q
        → record { wallet = w; org_id = n; app = p.app } ≡ q
    parsed_as w n q h = ground arith

module _ (ctx : VerifyContext) where
  -- The application that was asked about is registered and not revoked.
  pub record Registered (org_id : ℕ) (slug : Text) : Type 0 where
    pub app : RegisteredApplication
    pub found : find_application_by_slug ctx.context ctx.registry org_id slug ≡ ok (some app)
    pub not_revoked : app.status ≢ revoked

  -- Live access was allowed by the contracts, and the claims say what they said.
  pub record AllowedLive (q : VerifyQuery) (slug : Option Text) (a : VerifyAnswer) : Type 0 where
    pub on_chain : OnChain ctx.chain ctx.now q.org_id q.wallet slug a.snapshot
    pub told :
        a.claims
        ≡ build_partner_claims q.wallet q.org_id a.snapshot.role a.snapshot.permissions
            a.snapshot.identity_active ctx.now
    pub registered : (s : Text) → slug ≡ some s → s ≢ [] → Registered q.org_id s

  -- Live access that was allowed, of an answer.
  abbrev Told : VerifyQuery → Option Text → VerifyAnswer → Type 0
  Told q slug a =
      OnChain ctx.chain ctx.now q.org_id q.wallet slug a.snapshot
      × (a.claims
          ≡ build_partner_claims q.wallet q.org_id a.snapshot.role a.snapshot.permissions
              a.snapshot.identity_active ctx.now)

  live_answer-OnChain :
      (auth : PartnerAuth) (q : VerifyQuery) (slug : Option Text) (a : VerifyAnswer)
      → live_answer ctx auth q slug ≡ answer a
      → a.decision.allowed ≡ true
      → Told q slug a
  unfolding live_answer answer_with
  live_answer-OnChain auth q slug a h =
      elim (EvaluatedAccess-cases (evaluate_live_access ctx.chain ctx.now q.org_id q.wallet slug)) [
        | inr (t, e) ↦ absurd (ground arith)
        | inl (d, s, e) ↦
            subst (λ a. a.decision.allowed ≡ true → Told q slug a) (made d s e)
              (λ allowed. (
                evaluate_live_access-OnChain ctx.chain ctx.now q.org_id q.wallet slug d s e allowed,
                refl,
              ))
      ]
    where
      made :
          (d : AccessDecision) (s : EvaluatedSnapshot)
          → evaluate_live_access ctx.chain ctx.now q.org_id q.wallet slug ≡ evaluated d s
          → answer_with ctx auth q d s ≡ a
      made d s e = cc (e, h)

  registered_answer-AllowedLive :
      (auth : PartnerAuth) (q : VerifyQuery) (slug : Text)
      (found : Read (Option RegisteredApplication)) (a : VerifyAnswer)
      → find_application_by_slug ctx.context ctx.registry q.org_id slug ≡ found
      → registered_answer ctx auth q slug found ≡ answer a
      → a.decision.allowed ≡ true
      → AllowedLive q (some slug) a
  unfolding registered_answer
  registered_answer-AllowedLive auth q slug (thrown detail) a e h allowed = absurd (ground arith)
  registered_answer-AllowedLive auth q slug (ok none) a e h allowed = absurd (ground arith)
  registered_answer-AllowedLive auth q slug (ok (some app)) a e h allowed =
      elim (Bool-cases (is_revoked_status app.status)) [
        | inl gone ↦ absurd (ground arith)
        | inr live ↦
            let (on_chain, told) =
              live_answer-OnChain auth q (some slug) a (ground arith) allowed in
            record {
              on_chain = on_chain;
              told = told;
              registered = λ s same there.
                  subst (Registered q.org_id) (some_injective same)
                    (record { app = app; found = e; not_revoked = ground arith });
            }
      ]

  asked_answer-AllowedLive :
      (auth : PartnerAuth) (q : VerifyQuery) (slug : Option Text) (a : VerifyAnswer)
      → asked_answer ctx auth q slug ≡ answer a
      → a.decision.allowed ≡ true
      → AllowedLive q slug a
  unfolding asked_answer
  asked_answer-AllowedLive auth q none a h allowed =
      let (on_chain, told) = live_answer-OnChain auth q none a h allowed in
      record { on_chain = on_chain; told = told; registered = λ s same there. absurd (cc same) }
  asked_answer-AllowedLive auth q (some slug) a h allowed = elim (Bool-cases (is_empty slug)) [
    | inl blank ↦
        let (on_chain, told) = live_answer-OnChain auth q (some slug) a (ground arith) allowed in
        record {
          on_chain = on_chain;
          told = told;
          registered = λ s same there.
              absurd (there (sym (some_injective same) ∙ (is_empty_iff slug).0 blank));
        }
    | inr named ↦
        registered_answer-AllowedLive auth q slug
          (find_application_by_slug ctx.context ctx.registry q.org_id slug) a refl (ground arith)
          allowed
  ]

  -- A partner that is authenticated asks about itself.
  pub OwnOnly : PartnerAuth → VerifyQuery → Type 0
  OwnOnly (with_credentials caller) q =
      (q.org_id ≡ caller.org_id) × (slug_asked (with_credentials caller) q ≡ some caller.slug)
  OwnOnly development_public q = Unit
  OwnOnly (refused status code) q = ⊥

  foreign-OwnOnly : (auth : PartnerAuth) (q : VerifyQuery) → foreign auth q ≡ none → OwnOnly auth q
  unfolding foreign OwnOnly slug_asked
  foreign-OwnOnly (with_credentials caller) q h = elim (Option-cases q.app) [
    | inl unnamed ↦ (ground arith, rw unnamed refl)
    | inr (app, e) ↦
        (ground arith, rw e (ap (λ s. some s) (ground (arith, ===_iff app caller.slug))))
  ]
  foreign-OwnOnly development_public q h = tt
  foreign-OwnOnly (refused status code) q h = cc h

  -- Who asked, as the route takes it.
  abbrev pub caller_of : PartnerHeaders → PartnerAuth
  caller_of headers =
      authenticate_partner ctx.base64 ctx.crypto ctx.context ctx.registry headers ctx.node_env

  -- What an answer that allows access rests on.
  pub record Verified (headers : PartnerHeaders) (params : VerifyParams) (a : VerifyAnswer)
      : Type 0 where
    pub query : VerifyQuery
    pub wallet_asked : params.wallet ≡ some query.wallet
    pub app_asked : query.app ≡ params.app
    pub org_asked : (raw : Text) × (params.org_id ≡ some raw) × (ctx.coerce raw ≡ some query.org_id)
    pub own : OwnOnly (caller_of headers) query
    pub live : AllowedLive query (slug_asked (caller_of headers) query) a

  foreign-answer :
      (auth : PartnerAuth) (q : VerifyQuery) (a : VerifyAnswer) → foreign auth q ≢ some (answer a)
  unfolding foreign
  foreign-answer (with_credentials caller) q a h = elim (Option-cases q.app) [
    | inl unnamed ↦ ground arith
    | inr (app, e) ↦ ground arith
  ]
  foreign-answer development_public q a h = cc h
  foreign-answer (refused status code) q a h = cc h

  query_answer-AllowedLive :
      (auth : PartnerAuth) (q : VerifyQuery) (a : VerifyAnswer)
      → query_answer ctx auth q ≡ answer a
      → a.decision.allowed ≡ true
      → OwnOnly auth q × AllowedLive q (slug_asked auth q) a
  unfolding query_answer
  query_answer-AllowedLive auth q a h allowed = elim (Option-cases (foreign auth q)) [
    | inr (response, e) ↦ absurd (foreign-answer auth q a (e ∙ ap (λ r. some r) (ground arith)))
    | inl own ↦ (
      foreign-OwnOnly auth q own,
      asked_answer-AllowedLive auth q (slug_asked auth q) a (ground arith) allowed,
    )
  ]

  -- Where the route answers that access is allowed, every condition of `Verified` holds of the
  -- answer.
  pub verify_role-Verified :
      (headers : PartnerHeaders) (params : VerifyParams) (a : VerifyAnswer)
      → verify_role ctx headers params ≡ answer a
      → a.decision.allowed ≡ true
      → Verified headers params a
  unfolding verify_role
  verify_role-Verified headers params a h allowed =
      elim (Option-cases (parse_params ctx.coerce params)) [
        | inl bad ↦ absurd (ground arith)
        | inr (q, e) ↦
            let (own, live) =
              query_answer-AllowedLive (caller_of headers) q a (ground arith) allowed in
            let (wallet_asked, app_asked, org_asked) = parse_params-some ctx.coerce params q e in
            record {
              query = q;
              wallet_asked = wallet_asked;
              app_asked = app_asked;
              org_asked = org_asked;
              own = own;
              live = live;
            }
      ]
