-- ===== src/Callback/Allowlist/Exact.antt =====
-- A callback is accepted exactly when it is registered and its transport is allowed.
use owne_x.Base.{
  ◌≤◌, ◌≡◌, ◌≢◌, ◌↔◌, ◌⊎◌, refl, ap, ◌∙◌, inl, inr, true, false, not, Option, none, some, List, [],
  ◌∷◌, arith, length, Memᴰ, Memᴰ-filter, filter-Memᴰ, Bool-cases, Option-cases,
}
use owne_x.Base.Text.{Text, codes, ◌===◌, ===_iff, ===_refl, trim, is_empty, is_empty_iff}
use owne_x.Callback.Url.{Url, CallbackMode, development, production, is_loopback_host}
use owne_x.Callback.Allowlist.{
  CallbackRejection, CallbackCheck, rejected, accepted, CallbackSubject, max_callback_length,
  is_revoked, canonicalize_callback, match_registered, stored_callbacks, is_given, check_registered,
  check_uri, check_callback, check_transport,
}

-- The transport that a callback must have.
abbrev pub IsTransportAllowed : CallbackMode → Url → Type 0
IsTransportAllowed mode url =
    ((is_loopback_host url.hostname ≡ true) × (mode ≡ development))
    ⊎ ((is_loopback_host url.hostname ≡ false) × (url.protocol ≡ codes "https:"))

pub check_transport_iff :
    (url : Url) (mode : CallbackMode)
    → (check_transport url mode ≡ none) ↔ IsTransportAllowed mode url
unfolding check_transport
check_transport_iff url development = ground (arith, ===_iff url.protocol (codes "https:"))
check_transport_iff url production = ground (arith, ===_iff url.protocol (codes "https:"))

pub CallbackCheck-cases :
    (c : CallbackCheck)
    → ((n : Text) × (r : Text) × (c ≡ accepted n r))
      ⊎ ((reason : CallbackRejection) × (c ≡ rejected reason))
CallbackCheck-cases (accepted n r) = inl (n, r, refl)
CallbackCheck-cases (rejected reason) = inr (reason, refl)

is_revoked-false :
    (status : Option Text) → is_revoked status ≡ false → status ≢ some (codes "revoked")
is_revoked-false none h = cc
is_revoked-false (some status) h = ground (arith, ===_iff status (codes "revoked"))

false-is_revoked :
    (status : Option Text) → status ≢ some (codes "revoked") → is_revoked status ≡ false
false-is_revoked none h = refl
false-is_revoked (some status) h = ground (arith, ===_iff status (codes "revoked"))

is_empty-false : (s : Text) → s ≢ [] → not (is_empty s) ≡ true
is_empty-false s h = ground (arith, is_empty_iff s)

module _ (parse_url : Text → Option Url) where
  -- `entry` is registered and has the canonical form `normalized`.
  abbrev Pins : Text → Text → Type 0
  Pins normalized entry =
      (url : Url) × (canonicalize_callback parse_url entry ≡ some (url, normalized))

  match_registered-accepted :
      (n m r : Text) (entries : List Text)
      → match_registered parse_url n entries ≡ accepted m r
      → (m ≡ n) × Memᴰ r entries × Pins n r
  unfolding match_registered
  match_registered-accepted n m r [] h = cc
  match_registered-accepted n m r (e ∷ es) h =
      elim (Option-cases (canonicalize_callback parse_url e)) [
        | inl no_form ↦
            let (same, found, pins) = match_registered-accepted n m r es (ground arith) in
            (same, Memᴰ.tail found, pins)
        | inr ((url, pinned), form) ↦ elim (Bool-cases (pinned === n)) [
          | inl same ↦ (
            ground arith,
            Memᴰ.head (ground arith),
            (
              url,
              let r_is_e : r ≡ e = ground arith in
                  rw r_is_e (form ∙ ap (λ t. some (url, t)) ((===_iff pinned n).0 same)),
            ),
          )
          | inr other ↦
              let (same, found, pins) = match_registered-accepted n m r es (ground arith) in
              (same, Memᴰ.tail found, pins)
        ]
      ]

  match_registered_complete :
      (n e : Text) (entries : List Text)
      → Memᴰ e entries
      → Pins n e
      → (r : Text) × (match_registered parse_url n entries ≡ accepted n r)
  unfolding match_registered
  match_registered_complete n e [] m pins = elim m [ ]
  match_registered_complete n e (x ∷ xs) (Memᴰ.head same) (url, form) =
      (x, ground (arith, ===_refl n))
  match_registered_complete n e (x ∷ xs) (Memᴰ.tail m) pins =
      let (r, later) = match_registered_complete n e xs m pins in
      elim (Option-cases (canonicalize_callback parse_url x)) [
        | inl no_form ↦ (r, ground arith)
        | inr ((url, pinned), form) ↦ elim (Bool-cases (pinned === n)) [
          | inl same ↦ (x, ground arith)
          | inr other ↦ (r, ground arith)
        ]
      ]

  -- What an accepted request satisfies: the application is not revoked, the URI is a given text of
  -- at most 2048 units with a canonical form and an allowed transport, and `registered` is one of
  -- the application's callbacks, with that same canonical form.
  pub record Accepted (mode : CallbackMode) (app : CallbackSubject)
      (uri normalized registered : Text) : Type 0 where
    pub not_revoked : app.status ≢ some (codes "revoked")
    pub given : trim uri ≢ []
    pub short : length uri ≤ max_callback_length
    pub url : Url
    pub form : canonicalize_callback parse_url uri ≡ some (url, normalized)
    pub transport : IsTransportAllowed mode url
    pub listed : Memᴰ registered app.callbacks
    pub listed_given : trim registered ≢ []
    pub pins : Pins normalized registered

  check_registered-accepted :
      (n m r : Text) (callbacks : List Text)
      → check_registered parse_url n callbacks ≡ accepted m r
      → match_registered parse_url n callbacks ≡ accepted m r
  unfolding check_registered
  check_registered-accepted n m r [] h = cc
  check_registered-accepted n m r (c ∷ cs) h = h

  check_uri-accepted :
      (mode : CallbackMode) (app : CallbackSubject) (uri n r : Text)
      → app.status ≢ some (codes "revoked")
      → check_uri parse_url mode app uri ≡ accepted n r
      → Accepted mode app uri n r
  unfolding check_uri
  check_uri-accepted mode app uri n r live h =
      elim (Option-cases (canonicalize_callback parse_url uri)) [
        | inl no_form ↦ absurd (ground arith)
        | inr ((url, m), form) ↦
            let checked : check_registered parse_url m (stored_callbacks app.callbacks)
                ≡ accepted n r =
              ground arith in
            let (same, found, (pin_url, pins)) =
              match_registered-accepted m n r (stored_callbacks app.callbacks)
                (check_registered-accepted m n r (stored_callbacks app.callbacks) checked) in
            let (stored, named) = Memᴰ-filter is_given r app.callbacks found in
            record {
              not_revoked = live;
              given = ground (arith, is_empty_iff (trim uri));
              short = ground arith;
              url = url;
              form = rw same form;
              transport = (check_transport_iff url mode).0 (ground arith);
              listed = stored;
              listed_given = ground (arith, is_empty_iff (trim r));
              pins = (pin_url, rw same pins);
            }
      ]

  check_registered_complete :
      (n e : Text) (callbacks : List Text)
      → Memᴰ e callbacks
      → Pins n e
      → (r : Text) × (check_registered parse_url n callbacks ≡ accepted n r)
  unfolding check_registered
  check_registered_complete n e [] m pins = elim m [ ]
  check_registered_complete n e (c ∷ cs) m pins = match_registered_complete n e (c ∷ cs) m pins

  -- Where a requested URI is accepted, the application is not revoked, the URI is not blank, has
  -- at most 2048 units and an allowed transport, and the callback that is returned is one of the
  -- application's, not blank, with the same canonical form as the URI.
  pub check_callback-Accepted :
      (mode : CallbackMode) (app : CallbackSubject) (uri n r : Text)
      → check_callback parse_url mode (some app) (some uri) ≡ accepted n r
      → Accepted mode app uri n r
  unfolding check_callback
  check_callback-Accepted mode app uri n r h = elim (Bool-cases (is_revoked app.status)) [
    | inl revoked ↦ absurd (ground arith)
    | inr live ↦
        check_uri-accepted mode app uri n r (is_revoked-false app.status live) (ground arith)
  ]

  -- Where an application, a URI and one of its callbacks meet the conditions of acceptance, of
  -- which that on the status is only that it is not revoked, the request is accepted with the
  -- canonical form of the URI.
  pub Accepted-check_callback :
      (mode : CallbackMode) (app : CallbackSubject) (uri n e : Text)
      → Accepted mode app uri n e
      → (r : Text) × (check_callback parse_url mode (some app) (some uri) ≡ accepted n r)
  unfolding check_callback check_uri
  Accepted-check_callback mode app uri n e a =
      let (r, matched) =
        check_registered_complete n e (stored_callbacks app.callbacks)
          (filter-Memᴰ is_given e app.callbacks a.listed (is_empty-false (trim e) a.listed_given))
          a.pins in
      (
        r,
        ground (
          arith,
          false-is_revoked app.status a.not_revoked,
          is_empty-false (trim uri) a.given,
          a.form,
          (check_transport_iff a.url mode).1 a.transport,
          matched,
        ),
      )
