-- ===== src/Partner/Tests.antt =====
-- A partner's call, with two letters for a unit in place of base64.
use owne_x.Base.{
  ℕ, ◌+◌, ◌-◌, ◌*◌, ◌/◌, ◌%◌, ◌<◌, ◌≡◌, ◌≢◌, ◌↔◌, refl, true, none, some, [], ◌∷◌, arith, All,
}
use owne_x.Base.Text.{
  Text, codes, is_empty, trim, drop_while_end, drop_while, ◌===◌, split, number_of,
}
use owne_x.Credentials.Secret.{verify_client_secret}
use owne_x.Registry.Records.{to_record}
use owne_x.Registry.Reads.{find_application_by_client_id, read_callbacks}
use owne_x.Credentials.Tests.{crypto, secret}
use owne_x.Registry.Tests.{registry, context, application}
use owne_x.Partner.Credentials.{
  Base64, PartnerCredentials, PartnerHeaders, is_token_unit, parse_basic_credentials,
  client_auth_header, read_partner_credentials,
}
use owne_x.Partner.Credentials.RoundTrip.{IsBase64, parse-client_auth_header}
use owne_x.Partner.Auth.{with_credentials, development_public, authenticate_partner}
use owne_x.Partner.Auth.Sound.{
  IsPartner, authenticate_partner-IsPartner, authenticate_partner-public_iff,
}

abbrev encode : Text → Text
encode [] = []
encode (c ∷ s) = (65 + (c / 16) % 16) ∷ (65 + c % 16) ∷ encode s

abbrev decode : Text → Text
decode (a ∷ b ∷ s) = ((a - 65) * 16 + (b - 65)) ∷ decode s
decode _ = []

abbrev pub base64 : Base64
base64 = record { encode = encode; decode = decode }

letter_token : (n : ℕ) → n < 16 → is_token_unit (65 + n) ≡ true
unfolding is_token_unit
letter_token n h = ground arith

encode_token : (t : Text) → All (λ c. is_token_unit c ≡ true) (encode t)
encode_token [] = tt
encode_token (c ∷ s) = (
  letter_token ((c / 16) % 16) (omega arith),
  (letter_token (c % 16) (omega arith), encode_token s),
)

unit_back : (c : ℕ) → c < 128 → (65 + (c / 16) % 16 - 65) * 16 + (65 + c % 16 - 65) ≡ c
unit_back c h = omega arith

decode-encode : (t : Text) → All (λ c. c < 128) t → decode (encode t) ≡ t
decode-encode [] h = refl
decode-encode (c ∷ s) h = cc (unit_back c h.0, decode-encode s h.1)

encode_not_empty : (t : Text) → t ≢ [] → encode t ≢ []
encode_not_empty [] h = h
encode_not_empty (c ∷ s) h = cc

base64-IsBase64 : IsBase64 base64
base64-IsBase64 = record {
  decode-encode = decode-encode;
  alphabet = encode_token;
  not_empty = encode_not_empty;
}

abbrev credentials : PartnerCredentials
credentials = record { client_id = codes "ox"; client_secret = codes "s3" }

parse-client_auth_header_example :
    parse_basic_credentials base64 (some (client_auth_header base64 credentials)) ≡ some credentials
parse-client_auth_header_example =
    parse-client_auth_header base64 base64-IsBase64 credentials (λ e. cc) (λ e. cc)
      (omega arith, (omega arith, tt))
      (omega arith, (omega arith, (omega arith, (omega arith, (omega arith, tt)))))

abbrev headers : PartnerHeaders
headers = record {
  authorization = none;
  client_id = some (codes "client-1");
  client_secret = some secret;
}

headers_run :
    authenticate_partner base64 crypto context registry headers (some (codes "production"))
    ≡ with_credentials application
unfolding authenticate_partner read_partner_credentials parse_basic_credentials is_empty
    find_application_by_client_id trim drop_while_end drop_while ◌===◌ read_callbacks to_record
    verify_client_secret split number_of
headers_run = refl

authenticate_partner-IsPartner_example :
    IsPartner base64 crypto context registry headers application
authenticate_partner-IsPartner_example =
    authenticate_partner-IsPartner base64 crypto context registry headers
      (some (codes "production")) application headers_run

authenticate_partner-public_iff_example :
    (authenticate_partner base64 crypto context registry headers none ≡ development_public)
    ↔ ((read_partner_credentials base64 headers ≡ none) × (none ≢ some (codes "production")))
authenticate_partner-public_iff_example =
    authenticate_partner-public_iff base64 crypto context registry headers none
