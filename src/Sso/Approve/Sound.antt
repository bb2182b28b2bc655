-- ===== src/Sso/Approve/Sound.antt =====
-- What holds when a consent is answered with a redirect.
use owne_x.Base.{
  ℕ, ◌≡◌, ◌≢◌, ◌⊎◌, refl, inl, inr, false, Option, none, some, arith, Read, ok, thrown,
  Outcome-cases, Option-cases, Bool-cases,
}
use owne_x.Base.Text.{Text, codes}
use owne_x.Access.Evaluate.{EvaluatedSnapshot}
use owne_x.Access.Evaluate.FailClosed.{EvaluatedAccess-cases}
use owne_x.Access.Live.{evaluate_live_access}
use owne_x.Access.Live.Sound.{OnChain, evaluate_live_access-OnChain}
use owne_x.Callback.Redirect.{RedirectTarget, RedirectParams, build_callback_redirect}
use owne_x.Codes.Store.{AuthorizationCodeStore}
use owne_x.Codes.Operations.{IssuedCode, issue_authorization_code}
use owne_x.Registry.Records.{RegisteredApplication}
use owne_x.Registry.Requests.{
  ResolvedRequest, RequestParams, resolved, unresolved, resolve_authorization_request,
}
use owne_x.Registry.Requests.Resolved.{IsResolved, resolve_authorization_request-IsResolved}
use owne_x.Sso.Platform.{Platform}
use owne_x.Sso.Approve.{
  ApproveForm, ApproveFields, redirect, parse_form, answer_params, redirect_to, refuse_with,
  grant_of, issue, consent, approve_resolved, approve_fields, approve,
}

-- The request that a consent's fields make.
abbrev pub request_of : ApproveFields → RequestParams
request_of fields = record {
  client_id = fields.client_id;
  org_id = fields.org_id;
  redirect_uri = some fields.redirect_uri;
  require_secret = false;
}

module _ (platform : Platform) where
  redirect_to-redirect :
      (registered : Text) (p : RedirectParams) (t : RedirectTarget)
      → redirect_to platform registered p ≡ redirect t
      → build_callback_redirect platform.parse_url registered p ≡ some t
  unfolding redirect_to
  redirect_to-redirect registered p t h =
      elim (Option-cases (build_callback_redirect platform.parse_url registered p)) [
        | inl fails ↦ absurd (ground arith)
        | inr (t', e) ↦ ground arith
      ]

  module _ {S : Type 0} (store : AuthorizationCodeStore S) (code : Text) where
    -- The code of a redirect was issued for the wallet of the session, to the application and the
    -- callback, with live access.
    pub record Issued (fields : ApproveFields) (app : RegisteredApplication) (registered : Text)
        (session : Option Text) (s : S) (told : Text) : Type 0 where
      pub wallet : Text
      pub signed_in : session ≡ some wallet
      pub snapshot : EvaluatedSnapshot
      pub on_chain :
          OnChain platform.chain platform.now fields.org_id wallet (some app.slug) snapshot
      pub issued : IssuedCode
      pub stored :
          (issue_authorization_code store
            (grant_of platform fields app registered wallet)
            code
            platform.now
            s).0
          ≡ ok issued
      pub same : told ≡ issued.code

    -- Every redirect goes to the registered callback of the resolved application.
    pub record Redirected (fields : ApproveFields) (session : Option Text) (s : S)
        (t : RedirectTarget) : Type 0 where
      pub app : RegisteredApplication
      pub registered : Text
      pub request :
          IsResolved platform.parse_url platform.mode platform.context platform.registry
            (request_of fields)
            app
            registered
      pub answer : Option Text
      pub error : Option Text
      pub target :
          build_callback_redirect platform.parse_url registered
            (answer_params platform answer error fields.state)
          ≡ some t
      pub told :
          ((answer ≡ none) × (error ≢ none))
          ⊎ ((c : Text) × (answer ≡ some c) × Issued fields app registered session s c)

    abbrev Answered :
        ApproveFields → RegisteredApplication → Text → Option Text → S → RedirectTarget → Type 0
    Answered fields app registered session s t =
        (answer : Option Text) × (error : Option Text) × (build_callback_redirect platform.parse_url
            registered (answer_params platform answer error fields.state)
          ≡ some t)
        × (((answer ≡ none) × (error ≢ none))
            ⊎ ((c : Text) × (answer ≡ some c) × Issued fields app registered session s c))

    refused-Answered :
        (fields : ApproveFields) (app : RegisteredApplication) (registered : Text)
        (session : Option Text) (s : S) (t : RedirectTarget) (error : Text)
        → refuse_with platform registered fields.state error ≡ redirect t
        → Answered fields app registered session s t
    refused-Answered fields app registered session s t error h =
        (none, some error, redirect_to-redirect registered _ t h, inl (refl, λ e. cc))

    issue-Answered :
        (fields : ApproveFields) (app : RegisteredApplication) (registered wallet : Text) (s : S)
        (t : RedirectTarget) (snapshot : EvaluatedSnapshot)
        → OnChain platform.chain platform.now fields.org_id wallet (some app.slug) snapshot
        → (issue platform store code fields app registered wallet s).0 ≡ redirect t
        → Answered fields app registered (some wallet) s t
    unfolding issue
    issue-Answered fields app registered wallet s t snapshot live h =
        elim (Outcome-cases
          (issue_authorization_code store (grant_of platform fields app registered wallet) code
            platform.now s).0) [
              | inr (detail, e) ↦
                  refused-Answered fields app registered (some wallet) s t
                    (codes "temporarily_unavailable") (ground arith)
              | inl (i, e) ↦ (
                some i.code,
                none,
                redirect_to-redirect registered _ t (ground arith),
                inr (
                  i.code,
                  refl,
                  record {
                    wallet = wallet;
                    signed_in = refl;
                    snapshot = snapshot;
                    on_chain = live;
                    issued = i;
                    stored = e;
                    same = refl;
                  },
                ),
              )
            ]

    consent-Answered :
        (fields : ApproveFields) (app : RegisteredApplication) (registered wallet : Text) (s : S)
        (t : RedirectTarget)
        → (consent platform store code fields app registered wallet s).0 ≡ redirect t
        → Answered fields app registered (some wallet) s t
    unfolding consent
    consent-Answered fields app registered wallet s t h =
        elim (EvaluatedAccess-cases
          (evaluate_live_access platform.chain platform.now fields.org_id wallet (some app.slug))) [
            | inr (detail, e) ↦
                refused-Answered fields app registered (some wallet) s t
                  (codes "temporarily_unavailable") (ground arith)
            | inl (d, snapshot, e) ↦ elim (Bool-cases d.allowed) [
              | inr denied ↦
                  refused-Answered fields app registered (some wallet) s t (codes "access_denied")
                    (ground arith)
              | inl allowed ↦
                  issue-Answered fields app registered wallet s t snapshot
                    (evaluate_live_access-OnChain platform.chain platform.now fields.org_id wallet
                      (some app.slug) d snapshot e allowed)
                    (ground arith)
            ]
          ]

    approve_resolved-Answered :
        (fields : ApproveFields) (session : Option Text) (request : Read ResolvedRequest) (s : S)
        (t : RedirectTarget)
        → (approve_resolved platform store code fields session request s).0 ≡ redirect t
        → (app : RegisteredApplication) × (registered : Text) × (request
            ≡ ok (resolved app registered))
          × Answered fields app registered session s t
    unfolding approve_resolved
    approve_resolved-Answered fields session (thrown detail) s t h = absurd (ground arith)
    approve_resolved-Answered fields session (ok (unresolved reason)) s t h = absurd (ground arith)
    approve_resolved-Answered fields none (ok (resolved app registered)) s t h = (
      app,
      registered,
      refl,
      refused-Answered fields app registered none s t (codes "access_denied") h,
    )
    approve_resolved-Answered fields (some wallet) (ok (resolved app registered)) s t h =
        (app, registered, refl, consent-Answered fields app registered wallet s t h)

    approve_fields-Redirected :
        (fields : ApproveFields) (session : Option Text) (s : S) (t : RedirectTarget)
        → (approve_fields platform store code (some fields) session s).0 ≡ redirect t
        → Redirected fields session s t
    unfolding approve_fields
    approve_fields-Redirected fields session s t h =
        let (app, registered, e, (answer, error, target, told)) =
          approve_resolved-Answered fields session
            (resolve_authorization_request platform.parse_url platform.mode platform.context
              platform.registry (request_of fields))
            s t h in
        record {
          app = app;
          registered = registered;
          request =
              resolve_authorization_request-IsResolved platform.parse_url platform.mode
                platform.context platform.registry (request_of fields) app registered e;
          answer = answer;
          error = error;
          target = target;
          told = told;
        }

    no_fields-plain :
        (session : Option Text) (s : S) (t : RedirectTarget)
        → (approve_fields platform store code none session s).0 ≡ redirect t
        → ⊥
    unfolding approve_fields
    no_fields-plain session s t h = ground arith

    -- The approve route answers with a redirect only for a form that parses and whose request is
    -- resolved; the redirect is to the registered callback, and tells either an error and no code,
    -- or a code that the store took at that moment for the session's wallet, this application and
    -- this callback, with live access allowed by the contracts.
    pub approve-Redirected :
        (coerce : Text → Option ℕ) (form : ApproveForm) (session : Option Text) (s : S)
        (t : RedirectTarget)
        → (approve platform store code coerce (some form) session s).0 ≡ redirect t
        → (fields : ApproveFields) × (parse_form coerce form ≡ some fields)
          × Redirected fields session s t
    unfolding approve
    approve-Redirected coerce form session s t h = elim (Option-cases (parse_form coerce form)) [
      | inl malformed ↦ absurd (no_fields-plain session s t (rw malformed at h))
      | inr (fields, parsed) ↦
          (fields, parsed, approve_fields-Redirected fields session s t (rw parsed at h))
    ]
