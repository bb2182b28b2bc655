-- ===== src/Siwe/Message.antt =====
-- apps/platform/lib/siwe.ts: `buildSiweMessage` and `parseSiweMessage`. The decimal form of a chain
-- id and its reading by `Number` are the record `Numerals`; `none` is that it is no natural number.
use owne_x.Base.{
  ℕ, ◌-◌, Bool, not, ◌&&◌, ◌||◌, Option, none, some, List, [], ◌∷◌, ◌++◌, ltb, ◌==◌, if◌then◌else◌,
  length, find, any,
}
use owne_x.Base.Text.{Text, codes, ◌===◌, is_empty, trim, split, join, starts_with, take, drop}

pub record Numerals : Type 0 where
  pub text_of : ℕ → Text
  pub number : Text → Option ℕ

-- `version` is always "1". The chain id is `none` where what was parsed is no natural number.
pub record SiweFields : Type 0 where
  pub domain : Text
  pub address : Text
  pub statement : Text
  pub uri : Text
  pub chain_id : Option ℕ
  pub nonce : Text
  pub issued_at : Text
  pub expiration_time : Text

-- The fields that a message is built of: the chain id is the server's own.
pub record MessageFields : Type 0 where
  pub domain : Text
  pub address : Text
  pub statement : Text
  pub uri : Text
  pub chain_id : ℕ
  pub nonce : Text
  pub issued_at : Text
  pub expiration_time : Text

abbrev greeting : Text
greeting = codes " wants you to sign in with your Ethereum account:"

-- The units that `.` does not match.
abbrev is_line_end : ℕ → Bool
is_line_end c = c == 10 || c == 13 || c == 0x2028 || c == 0x2029

-- The group of `/^(.+) wants you to sign in with your Ethereum account:$/`.
domain_of : Text → Option Text
domain_of line =
    let n = length line - length greeting in
    let domain = take n line in
    if ltb (length greeting) (length line)
      && drop n line === greeting
      && not (any is_line_end domain)
    then some domain
    else none

-- `field(prefix)`
field : List Text → Text → Option Text
field lines prefix = elim (find (λ line. starts_with line prefix) lines) [
  | none ↦ none
  | some line ↦ if is_empty line then none else some (trim (drop (length prefix) line))
]

-- A value that is neither null nor empty.
abbrev given : Option Text → Option Text
given none = none
given (some s) = if is_empty s then none else some s

module _ (numerals : Numerals) where
  unfoldable pub build_siwe_message : MessageFields → Text
  build_siwe_message f = join 10 (
      (f.domain ++ greeting)
      ∷ f.address
      ∷ []
      ∷ f.statement
      ∷ []
      ∷ (codes "URI: " ++ f.uri)
      ∷ codes "Version: 1"
      ∷ (codes "Chain ID: " ++ numerals.text_of f.chain_id)
      ∷ (codes "Nonce: " ++ f.nonce)
      ∷ (codes "Issued At: " ++ f.issued_at)
      ∷ (codes "Expiration Time: " ++ f.expiration_time)
      ∷ [])

  siwe_fields :
      Text
      → Text
      → Text
      → Option Text
      → Option Text
      → Option Text
      → Option Text
      → Option Text
      → Option Text
      → Option SiweFields
  siwe_fields domain address statement (some uri) (some version) (some chain_id) (some nonce)
        (some issued_at) (some expiration_time) =
      if version === codes "1"
      then some (record {
        domain = domain;
        address = trim address;
        statement = statement;
        uri = uri;
        chain_id = numerals.number chain_id;
        nonce = nonce;
        issued_at = issued_at;
        expiration_time = expiration_time;
      })
      else none
  siwe_fields _ _ _ _ _ _ _ _ _ = none

  -- Over the lines, of which there are at least eleven.
  parse_lines : List Text → Option SiweFields
  unfolding domain_of field siwe_fields
  parse_lines (first ∷ address ∷ blank ∷ statement ∷ rest) =
      let lines = first ∷ address ∷ blank ∷ statement ∷ rest in
      if ltb (length lines) 11 then none else elim (domain_of first) [
        | none ↦ none
        | some domain ↦
            siwe_fields domain address statement (given (field lines (codes "URI: ")))
              (given (field lines (codes "Version: "))) (given (field lines (codes "Chain ID: ")))
              (given (field lines (codes "Nonce: "))) (given (field lines (codes "Issued At: ")))
              (given (field lines (codes "Expiration Time: ")))
      ]
  parse_lines _ = none

  unfoldable pub parse_siwe_message : Text → Option SiweFields
  unfolding parse_lines
  parse_siwe_message message = parse_lines (split 10 message)
