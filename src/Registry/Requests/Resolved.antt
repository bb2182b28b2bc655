-- ===== src/Registry/Requests/Resolved.antt =====
-- What is known of a request that was resolved.
use owne_x.Base.{
  ◌≡◌, ◌≢◌, ap, subst, ◌∙◌, inl, inr, true, Option, none, some, [], arith, ok, >>=-ok, Option-cases,
}
use owne_x.Base.Text.{Text}
use owne_x.Callback.Url.{Url, CallbackMode}
use owne_x.Callback.Allowlist.{accepted, check_callback}
use owne_x.Callback.Allowlist.Exact.{CallbackCheck-cases, Accepted, check_callback-Accepted}
use owne_x.Registry.Records.{RegisteredApplication, revoked}
use owne_x.Registry.Reads.{RegistryContext, Registry, find_application_by_client_id}
use owne_x.Registry.Requests.{
  resolved, subject_of, RequestParams, resolve_callback, resolve_application,
  resolve_authorization_request,
}

module _ (parse_url : Text → Option Url) (mode : CallbackMode) where
  -- The application was found by its client id, belongs to the organization, is not revoked, and
  -- `registered` is one of its callbacks, accepted for the request's URI.
  pub record IsResolved (ctx : RegistryContext) (db : Registry) (p : RequestParams)
      (app : RegisteredApplication) (registered : Text) : Type 0 where
    pub found : find_application_by_client_id ctx db p.client_id ≡ ok (some app)
    pub same_org : app.org_id ≡ p.org_id
    pub not_revoked : app.status ≢ revoked
    pub secret :
        p.require_secret ≡ true
        → (app.client_secret_hash ≢ none) × (app.client_secret_hash ≢ some [])
    pub uri : Text
    pub uri_given : p.redirect_uri ≡ some uri
    pub normalized : Text
    pub checked :
        check_callback parse_url mode (some (subject_of app)) (some uri)
        ≡ accepted normalized registered
    pub callback : Accepted parse_url mode (subject_of app) uri normalized registered

  no_text-rejected :
      (app : RegisteredApplication) (n r : Text)
      → check_callback parse_url mode (some (subject_of app)) none ≡ accepted n r
      → ⊥
  unfolding check_callback
  no_text-rejected app n r h = ground arith

  resolve_callback-resolved :
      (app app' : RegisteredApplication) (uri : Option Text) (r : Text)
      → resolve_callback parse_url mode app uri ≡ resolved app' r
      → (app ≡ app')
        × ((n : Text) × (check_callback parse_url mode (some (subject_of app)) uri ≡ accepted n r))
  unfolding resolve_callback
  resolve_callback-resolved app app' uri r h =
      elim (CallbackCheck-cases (check_callback parse_url mode (some (subject_of app)) uri)) [
        | inl (n, r', e) ↦ (ground arith, (n, ground arith))
        | inr (reason, e) ↦ absurd (ground arith)
      ]

  resolve_application-resolved :
      (p : RequestParams) (app app' : RegisteredApplication) (r : Text)
      → resolve_application parse_url mode p app ≡ resolved app' r
      → (app.org_id ≡ p.org_id)
        × (app.status ≢ revoked)
        × (p.require_secret ≡ true
            → (app.client_secret_hash ≢ none) × (app.client_secret_hash ≢ some []))
        × (resolve_callback parse_url mode app p.redirect_uri ≡ resolved app' r)
  unfolding resolve_application
  resolve_application-resolved p app app' r h = (
    ground arith,
    λ e. ground arith,
    λ e. ((λ e'. ground arith), λ e'. ground arith),
    ground arith,
  )

  -- Where a request is resolved, the application was found by the client id, belongs to the
  -- organization that was named, is not revoked, has a stored secret if one is required, and the
  -- callback is one of its registered callbacks, accepted for the URI that was requested.
  pub resolve_authorization_request-IsResolved :
      (ctx : RegistryContext) (db : Registry) (p : RequestParams) (app : RegisteredApplication)
      (r : Text)
      → resolve_authorization_request parse_url mode ctx db p ≡ ok (resolved app r)
      → IsResolved ctx db p app r
  unfolding resolve_authorization_request
  resolve_authorization_request-IsResolved ctx db p app r h =
      let (found, e, e') = >>=-ok (find_application_by_client_id ctx db p.client_id) _ h in
      elim (Option-cases found) [
        | inl absent ↦ absurd (ground arith)
        | inr (app', is_app) ↦
            let (org, live, secret, called) =
              resolve_application-resolved p app' app r (ground arith) in
            let (same, (n, checked)) = resolve_callback-resolved app' app p.redirect_uri r called in
            elim (Option-cases p.redirect_uri) [
              | inl no_uri ↦ absurd (ground (arith, no_text-rejected app' n r))
              | inr (uri, given) ↦
                  subst (λ a. IsResolved ctx db p a r) same
                    (let checked' = rw given at checked in
                      record {
                        found = e ∙ ap (λ o. ok o) is_app;
                        same_org = org;
                        not_revoked = live;
                        secret = secret;
                        uri = uri;
                        uri_given = given;
                        normalized = n;
                        checked = checked';
                        callback =
                            check_callback-Accepted parse_url mode (subject_of app') uri n r
                              checked';
                      })
            ]
      ]
