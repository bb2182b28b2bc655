-- ===== src/Partner/Credentials.antt =====
-- apps/platform/lib/partner-credentials.ts, and apps/employee-portal/lib/config.ts:
-- `clientAuthHeader`, the partner's own side of it. Node's base64 of the UTF-8 of a text, and back,
-- are the record `Base64`.
pub mod RoundTrip
use owne_x.Base.{
  ℕ, ◌+◌, Bool, true, false, not, ◌&&◌, ◌||◌, Option, none, some, [], ◌∷◌, ◌++◌, leb, ltb, ◌==◌,
  if◌then◌else◌, length,
}
use owne_x.Base.Text.{
  Text, codes, ◌===◌, is_empty, lower, trim, drop_while, is_space, take, drop, index_of,
}

pub record Base64 : Type 0 where
  pub encode : Text → Text
  pub decode : Text → Text

pub record PartnerCredentials : Type 0 where
  pub client_id : Text
  pub client_secret : Text

-- The headers that are read; `none` is an absent one.
pub record PartnerHeaders : Type 0 where
  pub authorization : Option Text
  pub client_id : Option Text
  pub client_secret : Option Text

-- `[A-Za-z0-9+/=_-]`
unfoldable pub is_token_unit : ℕ → Bool
is_token_unit c =
    (leb b'A' c && leb c b'Z')
    || (leb b'a' c && leb c b'z')
    || (leb b'0' c && leb c b'9')
    || c == b'+'
    || c == b'/'
    || c == b'='
    || c == b'_'
    || c == b'-'

all_token : Text → Bool
unfolding is_token_unit
all_token [] = true
all_token (c ∷ s) = is_token_unit c && all_token s

-- The group of `/^Basic\s+([A-Za-z0-9+/=_-]+)\s*$/i` in a text that is trimmed.
basic_token : Text → Option Text
unfolding all_token
basic_token s =
    let rest = drop 5 s in
    let token = drop_while is_space rest in
    if lower (take 5 s) === codes "basic"
      && ltb (length token) (length rest)
      && not (is_empty token)
      && all_token token
    then some token
    else none

-- The decoded text, cut at its first colon.
credentials_of : Text → Option PartnerCredentials
credentials_of decoded = elim (index_of b':' decoded) [
  | none ↦ none
  | some separator ↦
      if separator == 0
      then none
      else if is_empty (take separator decoded) || is_empty (drop (separator + 1) decoded)
      then none
      else some (record {
        client_id = take separator decoded;
        client_secret = drop (separator + 1) decoded;
      })
]

-- Present and not empty.
abbrev pub both_given : Option Text → Option Text → Option PartnerCredentials
both_given (some client_id) (some client_secret) =
    if not (is_empty client_id) && not (is_empty client_secret)
    then some (record { client_id = client_id; client_secret = client_secret })
    else none
both_given _ _ = none

module _ (base64 : Base64) where
  unfoldable pub parse_basic_credentials : Option Text → Option PartnerCredentials
  unfolding basic_token credentials_of
  parse_basic_credentials none = none
  parse_basic_credentials (some header) =
      if is_empty header then none else elim (basic_token (trim header)) [
        | none ↦ none
        | some token ↦ credentials_of (base64.decode token)
      ]

  unfoldable pub read_partner_credentials : PartnerHeaders → Option PartnerCredentials
  read_partner_credentials headers = elim (parse_basic_credentials headers.authorization) [
    | some basic ↦ some basic
    | none ↦ both_given headers.client_id headers.client_secret
  ]

  -- `clientAuthHeader` of the portal.
  unfoldable pub client_auth_header : PartnerCredentials → Text
  client_auth_header c = codes "Basic " ++ base64.encode (c.client_id ++ b':' ∷ c.client_secret)

-- `env.NODE_ENV` is the argument.
unfoldable pub requires_client_auth : Option Text → Bool
requires_client_auth none = false
requires_client_auth (some node_env) = node_env === codes "production"
