-- ===== src/Callback/Redirect/Closed.antt =====
-- No open redirect: the target of a redirect is the registered callback.
use owne_x.Base.{
  ◌≡◌, refl, sym, ap, ◌∙◌, inl, inr, Option, none, some, List, [], ◌∷◌, ◌++◌, arith, Option-cases,
}
use owne_x.Base.Text.{Text, codes, ◌===◌, trim, is_empty}
use owne_x.Callback.Url.{Url, CallbackMode}
use owne_x.Callback.Allowlist.{
  CallbackSubject, accepted, canonicalize_callback, check_callback, stripped, normalized_of,
}
use owne_x.Callback.Allowlist.Exact.{check_callback-Accepted}
use owne_x.Callback.Redirect.{
  RedirectTarget, RedirectParams, redirect_params, build_callback_redirect,
}

abbrev given_pair : Text → Option Text → List (Text × Text)
given_pair name none = []
given_pair name (some []) = []
given_pair name (some (c ∷ v)) = (name, c ∷ v) ∷ []

-- The query: the code if there is one, the error if there is one, and the state, in this order.
redirect_params_lem :
    (p : RedirectParams)
    → redirect_params p
      ≡ given_pair (codes "code") p.code
        ++ given_pair (codes "error") p.error
        ++ (codes "state", p.state) ∷ []
unfolding redirect_params ◌===◌ is_empty
redirect_params_lem p = go p.code p.error p.state
  where
    go :
        (code error : Option Text) (state : Text)
        → redirect_params (record { code = code; error = error; state = state })
          ≡ given_pair (codes "code") code
            ++ given_pair (codes "error") error
            ++ (codes "state", state) ∷ []
    go none none s = refl
    go none (some []) s = refl
    go none (some (d ∷ e)) s = refl
    go (some []) none s = refl
    go (some []) (some []) s = refl
    go (some []) (some (d ∷ e)) s = refl
    go (some (c ∷ v)) none s = refl
    go (some (c ∷ v)) (some []) s = refl
    go (some (c ∷ v)) (some (d ∷ e)) s = refl

module _ (parse_url : Text → Option Url) where
  -- The redirect goes to the registered callback, and carries only what the protocol defines.
  pub record RedirectsTo (registered normalized : Text) (p : RedirectParams) (t : RedirectTarget)
      : Type 0 where
    pub url : Url
    pub parsed : parse_url registered ≡ some url
    pub target : t.url ≡ record url { search = []; hash = [] }
    pub form : normalized_of (stripped t.url) ≡ normalized
    pub params :
        t.params
        ≡ given_pair (codes "code") p.code
          ++ given_pair (codes "error") p.error
          ++ (codes "state", p.state) ∷ []

  canonicalize-some :
      (uri n : Text) (url : Url)
      → canonicalize_callback parse_url uri ≡ some (url, n)
      → (raw : Url) × (parse_url (trim uri) ≡ some raw)
        × (url ≡ stripped raw)
        × (n ≡ normalized_of (stripped raw))
  unfolding canonicalize_callback
  canonicalize-some uri n url h = elim (Option-cases (parse_url (trim uri))) [
    | inl fails ↦ absurd (ground arith)
    | inr (raw, parsed) ↦ (raw, parsed, ground arith, ground arith)
  ]

  -- Where a request is accepted for a registered callback that was stored trimmed, the redirect to
  -- that callback is built, its target is the parsed callback without query and fragment, with the
  -- canonical form that was accepted, and its query holds the code if there is one, the error if
  -- there is one, and the state, and nothing else.
  pub check_callback-RedirectsTo :
      (mode : CallbackMode) (app : CallbackSubject) (uri n r : Text) (p : RedirectParams)
      → check_callback parse_url mode (some app) (some uri) ≡ accepted n r
      → trim r ≡ r
      → (t : RedirectTarget) × (build_callback_redirect parse_url r p ≡ some t)
        × RedirectsTo r n p t
  unfolding build_callback_redirect
  check_callback-RedirectsTo mode app uri n r p h trimmed =
      let a = check_callback-Accepted parse_url mode app uri n r h in
      let (raw, parsed, same, form) = canonicalize-some r n a.pins.0 a.pins.1 in
      let parsed_r = ap parse_url (sym trimmed) ∙ parsed in
      (
        record { url = record raw { search = []; hash = [] }; params = redirect_params p },
        rw (parsed_r, build_callback_redirect),
        record {
          url = raw;
          parsed = parsed_r;
          target = refl;
          form = sym form;
          params = redirect_params_lem p;
        },
      )
