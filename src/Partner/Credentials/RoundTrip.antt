-- ===== src/Partner/Credentials/RoundTrip.antt =====
-- The portal's header is read back as the credentials that it was written from.
use owne_x.Base.{
  ℕ, suc, ◌+◌, ◌<◌, ◌≡◌, ◌≢◌, refl, ap, ◌∙◌, true, false, some, [], ◌∷◌, ◌++◌, arith, All, length,
}
use owne_x.Base.Text.{
  Text, codes, ◌===◌, is_empty, is_empty_iff, lower, trim, drop_while, drop_while_end, is_space,
  take, drop, index_of, Lacks,
}
use owne_x.Partner.Credentials.{
  Base64, PartnerCredentials, is_token_unit, all_token, basic_token, credentials_of,
  parse_basic_credentials, client_auth_header,
}

-- What Node documents of base64: of ASCII, it decodes what it encoded, which is not empty for a text
-- that is not, and which it writes with the units of the alphabet.
pub record IsBase64 (base64 : Base64) : Type 0 where
  pub decode-encode : (t : Text) → All (λ c. c < 128) t → base64.decode (base64.encode t) ≡ t
  pub alphabet : (t : Text) → All (λ c. is_token_unit c ≡ true) (base64.encode t)
  pub not_empty : (t : Text) → t ≢ [] → base64.encode t ≢ []

token_not_space : (c : ℕ) → is_token_unit c ≡ true → is_space c ≡ false
unfolding is_token_unit is_space
token_not_space c h = ground arith

all_token-true : (s : Text) → All (λ c. is_token_unit c ≡ true) s → all_token s ≡ true
unfolding all_token
all_token-true [] h = refl
all_token-true (c ∷ s) h = ground (arith, all_token-true s h.1)

-- A text of such units ends in no blank.
drop_while_end-token :
    (s : Text) → All (λ c. is_token_unit c ≡ true) s → drop_while_end is_space s ≡ s
unfolding drop_while_end
drop_while_end-token [] h = refl
drop_while_end-token (c ∷ []) h = ground (arith, token_not_space c h.0)
drop_while_end-token (c ∷ d ∷ s) h = ground (arith, drop_while_end-token (d ∷ s) h.1)

index_of-append :
    (sep : ℕ) (s t : Text) → Lacks sep s → index_of sep (s ++ sep ∷ t) ≡ some (length s)
unfolding index_of
index_of-append sep [] t h = ground arith
index_of-append sep (c ∷ s) t h = ground (arith, index_of-append sep s t h.1)

take-append : (s t : Text) → take (length s) (s ++ t) ≡ s
unfolding take
take-append [] t = refl
take-append (c ∷ s) t = ap (λ r. c ∷ r) (take-append s t)

drop-suc-append : (s : Text) (c : ℕ) (t : Text) → drop (suc (length s)) (s ++ c ∷ t) ≡ t
unfolding drop
drop-suc-append [] c t = refl
drop-suc-append (d ∷ s) c t = drop-suc-append s c t

length-one : (s : Text) → length s + 1 ≡ suc (length s)
length-one s = omega arith

drop-append : (s : Text) (c : ℕ) (t : Text) → drop (length s + 1) (s ++ c ∷ t) ≡ t
drop-append s c t = ap (λ n. drop n (s ++ c ∷ t)) (length-one s) ∙ drop-suc-append s c t

trim-header :
    (d : ℕ) (token : Text)
    → All (λ c. is_token_unit c ≡ true) (d ∷ token)
    → trim (codes "Basic " ++ d ∷ token) ≡ codes "Basic " ++ d ∷ token
unfolding trim drop_while drop_while_end is_space
trim-header d token h = rw (drop_while_end-token (d ∷ token) h) refl

blank : is_space 32 ≡ true
unfolding is_space
blank = refl

basic_token-header :
    (d : ℕ) (token : Text)
    → All (λ c. is_token_unit c ≡ true) (d ∷ token)
    → basic_token (codes "Basic " ++ d ∷ token) ≡ some (d ∷ token)
unfolding basic_token take drop drop_while lower ◌===◌ is_empty
basic_token-header d token h =
    ground (arith, token_not_space d h.0, all_token-true (d ∷ token) h, blank)

credentials_of-joined :
    (id secret : Text)
    → id ≢ []
    → secret ≢ []
    → Lacks b':' id
    → credentials_of (id ++ b':' ∷ secret)
      ≡ some (record { client_id = id; client_secret = secret })
unfolding credentials_of
credentials_of-joined id secret named proved whole = ground (
  arith,
  index_of-append b':' id secret whole,
  take-append id (b':' ∷ secret),
  drop-append id b':' secret,
  is_empty_iff id,
  is_empty_iff secret,
)

joined_not_empty : (s : Text) (c : ℕ) (t : Text) → s ++ c ∷ t ≢ []
joined_not_empty [] c t h = cc
joined_not_empty (d ∷ s) c t h = cc

module _ (base64 : Base64) (codec : IsBase64 base64) where
  parse-encoded :
      (e t : Text)
      → e ≢ []
      → All (λ c. is_token_unit c ≡ true) e
      → base64.decode e ≡ t
      → parse_basic_credentials base64 (some (codes "Basic " ++ e)) ≡ credentials_of t
  unfolding parse_basic_credentials is_empty
  parse-encoded [] t full all decoded = absurd (full refl)
  parse-encoded (d ∷ e) t full all decoded =
      rw (trim-header d e all, basic_token-header d e all, decoded, parse_basic_credentials) refl

  -- Where base64 decodes what it encodes of ASCII, in its alphabet and never to an empty text, the
  -- header that the portal writes for an id and a secret that are ASCII and not empty, the id
  -- without a colon, is parsed as that id and that secret.
  pub parse-client_auth_header :
      (c : PartnerCredentials)
      → c.client_id ≢ []
      → c.client_secret ≢ []
      → Lacks b':' c.client_id
      → All (λ u. u < 128) (c.client_id ++ b':' ∷ c.client_secret)
      → parse_basic_credentials base64 (some (client_auth_header base64 c)) ≡ some c
  unfolding client_auth_header
  parse-client_auth_header c named proved whole ascii =
      let t = c.client_id ++ b':' ∷ c.client_secret in
      parse-encoded (base64.encode t) t
        (codec.not_empty t (joined_not_empty c.client_id b':' c.client_secret)) (codec.alphabet t)
        (codec.decode-encode t ascii)
      ∙ credentials_of-joined c.client_id c.client_secret named proved whole
