-- ===== src/Sso/Exchange/Replay.antt =====
-- A code is exchanged at most once, whatever requests the route serves.
use owne_x.Base.{
  ℕ, suc, ◌≤◌, ◌≡◌, ◌⊎◌, refl, sym, ap, subst, ◌∙◌, inl, inr, Bool, true, false, Option, some, List,
  [], ◌∷◌, arith, Read, ok, thrown, Option-cases, Bool-cases, if◌then◌else◌, ltb, length,
}
use owne_x.Base.Text.{Text, ◌===◌, ===_iff}
use owne_x.Access.Claims.{PartnerClaims}
use owne_x.Callback.Allowlist.{check_callback}
use owne_x.Callback.Allowlist.Exact.{CallbackCheck-cases}
use owne_x.Codes.Store.{ConsumeQuery, ConsumedGrant, Row, AuthorizationCodeStore, IsLawful}
use owne_x.Codes.Store.SingleUse.{IsUsed, IsUsed-consume, used-refused, consumed-IsUsed}
use owne_x.Codes.Operations.{consume_authorization_code}
use owne_x.Registry.Records.{RegisteredApplication}
use owne_x.Registry.Reads.{find_application_by_client_id}
use owne_x.Registry.Requests.{subject_of}
use owne_x.Sso.Platform.{Platform}
use owne_x.Sso.Exchange.{
  ExchangeBody, readable, ExchangeResponse, claims, api_error, is_valid_body, authenticated,
  query_of, redeem, exchange_as, exchange_found, exchange,
}
use owne_x.Sso.Exchange.Sound.{answer_of-claims}

abbrev is_claims : ExchangeResponse → Bool
is_claims (claims c) = true
is_claims (api_error status code) = false

is_claims-cases :
    (r : ExchangeResponse) → (is_claims r ≡ false) ⊎ ((c : PartnerClaims) × (r ≡ claims c))
is_claims-cases (claims c) = inr (c, refl)
is_claims-cases (api_error status code) = inl refl

-- How many of the requests get claims for the code, each served with its own view of the registry,
-- the chain and the clock.
pub exchanges :
    {S : Type 0} → AuthorizationCodeStore S → Text → List (Platform × ExchangeBody) → S → ℕ
exchanges store c [] s = 0
exchanges store c ((platform, body) ∷ requests) s =
    let (answer, s') = exchange platform store (readable body) s in
    let later = exchanges store c requests s' in
    if body.code === c then (if is_claims answer then suc later else later) else later

module _ (platform : Platform) {S : Type 0} (store : AuthorizationCodeStore S) where
  -- The request is refused with the store unchanged, or it redeems the code.
  abbrev Stepped : ExchangeBody → S → ExchangeResponse × S → Type 0
  Stepped body s result =
      ((is_claims result.0 ≡ false) × (result.1 ≡ s))
      ⊎ ((app : RegisteredApplication) × (r : Text) × (result ≡ redeem platform store body app r s))

  exchange_as-Stepped :
      (body : ExchangeBody) (app : RegisteredApplication) (s : S)
      → Stepped body s (exchange_as platform store body app s)
  unfolding exchange_as
  exchange_as-Stepped body app s =
      elim (CallbackCheck-cases (
        check_callback platform.parse_url platform.mode (some (subject_of app))
          (some body.redirect_uri))) [
            | inr (reason, e) ↦ inl (ground arith, ground arith)
            | inl (n, r, e) ↦ inr (app, r, ground arith)
          ]

  exchange_found-Stepped :
      (body : ExchangeBody) (found : Read (Option RegisteredApplication)) (s : S)
      → Stepped body s (exchange_found platform store body found s)
  unfolding exchange_found
  exchange_found-Stepped body (thrown detail) s = inl (refl, refl)
  exchange_found-Stepped body (ok found) s =
      elim (Option-cases (authenticated platform body found)) [
        | inl refused ↦ inl (ground arith, ground arith)
        | inr (app, authentic) ↦
            subst (Stepped body s) (ground arith) (exchange_as-Stepped body app s)
      ]

  exchange-Stepped :
      (body : ExchangeBody) (s : S) → Stepped body s (exchange platform store (readable body) s)
  unfolding exchange
  exchange-Stepped body s = elim (Bool-cases (is_valid_body body)) [
    | inr invalid ↦ inl (ground arith, ground arith)
    | inl valid ↦ subst (Stepped body s) (ground arith) (
        exchange_found-Stepped body
          (find_application_by_client_id platform.context platform.registry body.client_id) s)
  ]

module _ (platform : Platform) {S : Type 0} {store : AuthorizationCodeStore S}
    {IsValid : S → Type 0} {row : S → Text → Option Row} (L : IsLawful store IsValid row) where
  consumption-IsValid :
      (q : ConsumeQuery) (s : S) → IsValid s → IsValid (consume_authorization_code store q s).1
  unfolding consume_authorization_code
  consumption-IsValid q s v = elim (Bool-cases (ltb (length q.code) 32)) [
    | inl short ↦ rw (short, consume_authorization_code) v
    | inr long ↦ rw (long, consume_authorization_code) (L.consume-IsValid q s v)
  ]

  consumption-IsUsed :
      (q : ConsumeQuery) (s : S) (c : Text)
      → IsValid s
      → IsUsed (row s c)
      → IsUsed (row (consume_authorization_code store q s).1 c)
  unfolding consume_authorization_code
  consumption-IsUsed q s c v u = elim (Bool-cases (ltb (length q.code) 32)) [
    | inl short ↦ rw (short, consume_authorization_code) u
    | inr long ↦ rw (long, consume_authorization_code) (IsUsed-consume L q s c v u)
  ]

  consumption-marks :
      (q : ConsumeQuery) (s : S) (g : ConsumedGrant)
      → IsValid s
      → (consume_authorization_code store q s).0 ≡ ok (some g)
      → IsUsed (row (consume_authorization_code store q s).1 q.code) × (IsUsed (row s q.code) → ⊥)
  unfolding consume_authorization_code
  consumption-marks q s g v h = elim (Bool-cases (ltb (length q.code) 32)) [
    | inl short ↦ absurd (ground arith)
    | inr long ↦
        let granted : (store.consume q s).0 ≡ ok (some g) = ground arith in
        (
          rw (long, consume_authorization_code) (consumed-IsUsed L q s v g granted),
          λ u. ground (arith, used-refused L q s v u),
        )
  ]

  exchange-IsValid :
      (body : ExchangeBody) (s : S)
      → IsValid s
      → IsValid (exchange platform store (readable body) s).1
  unfolding redeem
  exchange-IsValid body s v = elim (exchange-Stepped platform store body s) [
    | inl (refused, same) ↦ subst IsValid (sym same) v
    | inr (app, r, same) ↦
        subst IsValid (ap (λ x. x.1) (sym same))
          (consumption-IsValid (query_of platform body r) s v)
  ]

  exchange-IsUsed :
      (body : ExchangeBody) (s : S) (c : Text)
      → IsValid s
      → IsUsed (row s c)
      → IsUsed (row (exchange platform store (readable body) s).1 c)
  unfolding redeem
  exchange-IsUsed body s c v u = elim (exchange-Stepped platform store body s) [
    | inl (refused, same) ↦ subst (λ t. IsUsed (row t c)) (sym same) u
    | inr (app, r, same) ↦
        subst (λ t. IsUsed (row t c)) (ap (λ x. x.1) (sym same))
          (consumption-IsUsed (query_of platform body r) s c v u)
  ]

  -- Claims mark their code as used, and it was not used before.
  exchange-marks :
      (body : ExchangeBody) (s : S) (c : PartnerClaims)
      → IsValid s
      → (exchange platform store (readable body) s).0 ≡ claims c
      → IsUsed (row (exchange platform store (readable body) s).1 body.code)
        × (IsUsed (row s body.code) → ⊥)
  unfolding redeem
  exchange-marks body s c v h = elim (exchange-Stepped platform store body s) [
    | inl (refused, same) ↦ absurd (ground arith)
    | inr (app, r, same) ↦
        let answered = ap (λ x. x.0) (sym same) ∙ h in
        let (grant, consumed, org, slug, told) =
          answer_of-claims platform app
            (consume_authorization_code store (query_of platform body r) s).0 c answered in
        let (marked, fresh) = consumption-marks (query_of platform body r) s grant v consumed in
        (subst (λ t. IsUsed (row t body.code)) (ap (λ x. x.1) (sym same)) marked, fresh)
  ]

module _ {S : Type 0} {store : AuthorizationCodeStore S} {IsValid : S → Type 0}
    {row : S → Text → Option Row} (L : IsLawful store IsValid row) where
  exchanges-used :
      (c : Text) (requests : List (Platform × ExchangeBody)) (s : S)
      → IsValid s
      → IsUsed (row s c)
      → exchanges store c requests s ≡ 0
  unfolding exchanges
  exchanges-used c [] s v u = refl
  exchanges-used c ((platform, body) ∷ requests) s v u =
      let s' = (exchange platform store (readable body) s).1 in
      let later =
        exchanges-used c requests s' (exchange-IsValid platform L body s v)
          (exchange-IsUsed platform L body s c v u) in
      elim (Bool-cases (body.code === c)) [
        | inr another ↦ rw (another, exchanges) later
        | inl same ↦ elim (is_claims-cases (exchange platform store (readable body) s).0) [
          | inl refused ↦ rw (same, exchanges, refused) later
          | inr (told, granted) ↦ absurd (
              (exchange-marks platform L body s told v granted).1
                (rw ((===_iff body.code c).0 same) u))
        ]
      ]

  -- Over a lawful store in a valid state, in any sequence of exchange requests, whichever clients
  -- send them and however the registry, the chain and the clock change between them, at most one
  -- that presents a given code is answered with claims.
  pub exchanges-le-one :
      (c : Text) (requests : List (Platform × ExchangeBody)) (s : S)
      → IsValid s
      → exchanges store c requests s ≤ 1
  unfolding exchanges
  exchanges-le-one c [] s v = omega arith
  exchanges-le-one c ((platform, body) ∷ requests) s v =
      let s' = (exchange platform store (readable body) s).1 in
      let later = exchanges-le-one c requests s' (exchange-IsValid platform L body s v) in
      elim (Bool-cases (body.code === c)) [
        | inr another ↦ rw (another, exchanges) later
        | inl same ↦ elim (is_claims-cases (exchange platform store (readable body) s).0) [
          | inl refused ↦ rw (same, exchanges, refused) later
          | inr (told, granted) ↦
              let used =
                subst (λ k. IsUsed (row s' k)) ((===_iff body.code c).0 same)
                  (exchange-marks platform L body s told v granted).0 in
              rw (same, exchanges, granted)
                (omega
                  (arith, exchanges-used c requests s' (exchange-IsValid platform L body s v) used))
        ]
      ]
