-- ===== src/Callback/Registration/Agrees.antt =====
-- What may be registered is what will later be accepted.
use owne_x.Base.{
  ◌≤◌, ◌≡◌, ◌≢◌, ◌↔◌, ◌⊎◌, refl, sym, ◌∙◌, Option, none, some, List, [], ◌∷◌, Memᴰ, All, arith,
  length, Option-cases, inl, inr, true,
}
use owne_x.Base.Text.{Text, codes, trim, trim_idem, length-trim-le, is_empty_iff}
use owne_x.Callback.Url.{Url, CallbackMode}
use owne_x.Callback.Allowlist.{
  CallbackRejection, CallbackSubject, accepted, canonicalize_callback, check_callback,
  check_transport, stripped, normalized_of, is_http, max_callback_length,
}
use owne_x.Callback.Allowlist.Exact.{Accepted-check_callback, check_transport_iff}
use owne_x.Callback.Registration.{
  RegistrableCheck, registrable, refused, validate_parsed, validate_text,
  validate_registrable_callback, validate_callback_list,
}

check_transport-stripped :
    (url : Url) (mode : CallbackMode)
    → check_transport (stripped url) mode ≡ check_transport url mode
unfolding check_transport
check_transport-stripped url mode = refl

RegistrableCheck-cases :
    (c : RegistrableCheck)
    → ((n : Text) × (c ≡ registrable n)) ⊎ ((reason : CallbackRejection) × (c ≡ refused reason))
RegistrableCheck-cases (registrable n) = inl (n, refl)
RegistrableCheck-cases (refused reason) = inr (reason, refl)

abbrev pub IsRegistrable : (Text → Option Url) → CallbackMode → Text → Type 0
IsRegistrable parse_url mode uri =
    (n : Text) × (validate_registrable_callback parse_url mode (some uri) ≡ registrable n)

module _ (parse_url : Text → Option Url) where
  canonicalize-trim :
      (uri : Text)
      → canonicalize_callback parse_url (trim uri) ≡ canonicalize_callback parse_url uri
  unfolding canonicalize_callback
  canonicalize-trim uri = rw (trim_idem uri, canonicalize_callback)

  -- What a registrable text satisfies.
  record Registrable (mode : CallbackMode) (uri normalized : Text) : Type 0 where
    given : trim uri ≢ []
    short : length uri ≤ max_callback_length
    raw : Url
    parsed : parse_url (trim uri) ≡ some raw
    form : canonicalize_callback parse_url uri ≡ some (stripped raw, normalized)
    transport : check_transport raw mode ≡ none

  canonicalize-parsed :
      (uri : Text) (raw : Url)
      → parse_url (trim uri) ≡ some raw
      → is_http raw.protocol ≡ true
      → canonicalize_callback parse_url uri ≡ some (stripped raw, normalized_of (stripped raw))
  unfolding canonicalize_callback
  canonicalize-parsed uri raw parsed http = ground arith

  validate_parsed-registrable :
      (mode : CallbackMode) (uri n : Text) (raw : Url)
      → parse_url (trim uri) ≡ some raw
      → validate_parsed parse_url mode (trim uri) raw ≡ registrable n
      → (canonicalize_callback parse_url uri ≡ some (stripped raw, n))
        × (check_transport raw mode ≡ none)
  unfolding validate_parsed
  validate_parsed-registrable mode uri n raw parsed h =
      let form = canonicalize-parsed uri raw parsed (ground arith) in
      let trimmed = canonicalize-trim uri in (ground arith, ground arith)

  registrable-Registrable :
      (mode : CallbackMode) (uri n : Text)
      → validate_registrable_callback parse_url mode (some uri) ≡ registrable n
      → Registrable mode uri n
  unfolding validate_registrable_callback validate_text
  registrable-Registrable mode uri n h = elim (Option-cases (parse_url (trim uri))) [
    | inl fails ↦ absurd (ground arith)
    | inr (raw, parsed) ↦
        let (form, transport) = validate_parsed-registrable mode uri n raw parsed (ground arith) in
        record {
          given = ground (arith, is_empty_iff (trim uri));
          short = ground arith;
          raw = raw;
          parsed = parsed;
          form = form;
          transport = transport;
        }
  ]

  -- A URL that an admin may register, stored trimmed for an application that is not revoked, a
  -- draft included, is accepted in the same mode when a request presents it, in the form that was
  -- shown at registration.
  pub registrable-check_callback :
      (mode : CallbackMode) (uri n : Text) (app : CallbackSubject)
      → validate_registrable_callback parse_url mode (some uri) ≡ registrable n
      → app.status ≢ some (codes "revoked")
      → Memᴰ (trim uri) app.callbacks
      → (r : Text) × (check_callback parse_url mode (some app) (some (trim uri)) ≡ accepted n r)
  registrable-check_callback mode uri n app h live stored =
      let v = registrable-Registrable mode uri n h in
      let form = canonicalize-trim uri ∙ v.form in
      Accepted-check_callback parse_url mode app (trim uri) n (trim uri) (record {
        not_revoked = live;
        given = λ e. v.given (sym (trim_idem uri) ∙ e);
        short = omega (arith, v.short, length-trim-le uri);
        url = stripped v.raw;
        form = form;
        transport =
            (check_transport_iff (stripped v.raw) mode).0
              (check_transport-stripped v.raw mode ∙ v.transport);
        listed = stored;
        listed_given = λ e. v.given (sym (trim_idem uri) ∙ e);
        pins = (stripped v.raw, form);
      })

  -- The validation of a list of callbacks reports no problem exactly when every one of them may be
  -- registered.
  pub validate_callback_list_iff :
      (mode : CallbackMode) (urls : List Text)
      → (validate_callback_list parse_url mode urls ≡ []) ↔ All (IsRegistrable parse_url mode) urls
  unfolding validate_callback_list
  validate_callback_list_iff mode [] = (λ h. tt, λ h. refl)
  validate_callback_list_iff mode (uri ∷ urls) =
      let rest = validate_callback_list_iff mode urls in
      elim (RegistrableCheck-cases (validate_registrable_callback parse_url mode (some uri))) [
        | inl (n, e) ↦
            (λ h. ((n, e), rest.0 (ground arith)), λ a. rw (e, validate_callback_list) (rest.1 a.1))
        | inr (reason, e) ↦ (λ h. absurd (ground arith), λ a. absurd (ground (arith, a.0.1)))
      ]
