-- ===== src/Siwe/Verify.antt =====
-- apps/platform/lib/siwe.ts: `verifyChallenge`. Other requests may run between its read of the nonces
-- and its conditional update, so that it takes the table at both moments. `ethers` is the record
-- `Ethers`, where `none` is that the call throws; `time_of` is `Date.parse`, `none` where it is NaN.
pub mod Consumed
pub mod Stored
use owne_x.Base.{
  ℕ, Bool, true, false, not, ◌&&◌, Option, none, some, List, [], ◌∷◌, map, leb, ◌==◌, if◌then◌else◌,
  ◌++◌, ◌>>=◌, Outcome, filter, any, ok, thrown,
}
use owne_x.Base.Text.{Text, codes, ◌===◌, lower}
use owne_x.Siwe.Message.{
  Numerals, SiweFields, MessageFields, build_siwe_message, parse_siwe_message,
}

pub record Ethers : Type 0 where
  pub get_address : Text → Option Text
  pub verify_message : Text → Text → Option Text

pub record NonceRow : Type 0 where
  pub nonce : Text
  pub wallet_address : Text
  pub domain : Text
  pub expires_at : ℕ
  pub used_at : Option ℕ

pub record SiweEnv : Type 0 where
  pub app_domain : Text
  pub app_origin : Text
  pub chain_id : ℕ
  pub numerals : Numerals
  pub ethers : Ethers
  pub time_of : Text → Option ℕ

pub data Refusal : Type 0 where
  refused : (reason : Text) → Refusal
  -- `getAddress` throws on the recovered address, and nothing catches it.
  uncaught : Refusal

pub data VerifyResult : Type 0 where
  verified : (address : Text) → VerifyResult
  failed : Refusal → VerifyResult

abbrev pub statement : Text
statement =
    codes "Sign in to OwneX. This request is free and will not create a blockchain transaction."

abbrev used_already : Refusal
used_already = refused (codes "This sign-in request was already used")

abbrev expired : Refusal
expired = refused (codes "Sign-in request expired. Please try again.")

-- `time <= now`, which is false of NaN.
abbrev is_past : Option ℕ → ℕ → Bool
is_past none now = false
is_past (some t) now = leb t now

abbrev is_fresh : Option ℕ → Bool
is_fresh none = true
is_fresh (some t) = false

-- The rows that the conditional update selects, and a row after it.
pub is_claimed : Text → NonceRow → Bool
is_claimed nonce row = row.nonce === nonce && is_fresh row.used_at

pub claim_nonce : ℕ → Text → NonceRow → NonceRow
unfolding is_claimed
claim_nonce now nonce row = if is_claimed nonce row then record row { used_at = some now } else row

-- Its answer; `reachable` is false where the request fails with nothing changed.
unfoldable pub consume_nonce :
    (reachable : Bool) → ℕ → Text → Text → List NonceRow → VerifyResult × List NonceRow
unfolding is_claimed claim_nonce
consume_nonce reachable now nonce address rows =
    if not reachable
    then (failed (refused (codes "Could not complete sign-in")), rows)
    else if any (is_claimed nonce) rows
    then (verified address, map (claim_nonce now nonce) rows)
    else (failed used_already, rows)

-- `maybeSingle()` over the rows of the nonce: more than one is an error.
abbrev unreadable : Outcome Refusal (Option NonceRow)
unreadable = thrown (refused (codes "Could not validate sign-in request"))

pub read_row : (reachable : Bool) → Text → List NonceRow → Outcome Refusal (Option NonceRow)
read_row reachable nonce rows = elim (filter (λ row. row.nonce === nonce) rows) [
  | [] ↦ if reachable then ok none else unreadable
  | row ∷ [] ↦ if reachable then ok (some row) else unreadable
  | row ∷ row' ∷ rest ↦ unreadable
]

abbrev is_number : Option ℕ → ℕ → Bool
is_number none n = false
is_number (some m) n = m == n

refuse_unless : Bool → Refusal → Outcome Refusal (Unit {0})
refuse_unless holds result = if holds then ok tt else thrown result

or_refuse {ℓ} : {A : Type ℓ} → Option A → Refusal → Outcome Refusal A
or_refuse none result = thrown result
or_refuse (some a) result = ok a

module _ (env : SiweEnv) (now : ℕ) where
  abbrev pub expected_fields : SiweFields → Text → NonceRow → MessageFields
  expected_fields parsed address row = record {
    domain = row.domain;
    address = address;
    statement = statement;
    uri = env.app_origin;
    chain_id = env.chain_id;
    nonce = parsed.nonce;
    issued_at = parsed.issued_at;
    expiration_time = parsed.expiration_time;
  }

  -- The recovered wallet is the claimed one.
  check_signature : Text → Text → Text → Outcome Refusal (Unit {0})
  unfolding refuse_unless or_refuse
  check_signature message signature address = do
    recovered ←
        or_refuse (env.ethers.verify_message message signature)
          (refused (codes "Signature could not be verified"))
    signer ← or_refuse (env.ethers.get_address recovered) uncaught
    refuse_unless (signer === address)
        (refused (codes "Signature does not match the claimed wallet"))

  -- The checks of the stored nonce.
  pub check_row : NonceRow → Text → Outcome Refusal (Unit {0})
  unfolding refuse_unless
  check_row row address = do
    _ ← refuse_unless (is_fresh row.used_at) used_already
    _ ← refuse_unless (not (leb row.expires_at now)) expired
    refuse_unless (row.wallet_address === lower address)
        (refused (codes "Sign-in request was issued for a different wallet"))

  -- The checks of the parsed fields, and the address in its checksum form.
  check_parsed : SiweFields → Outcome Refusal Text
  unfolding refuse_unless or_refuse
  check_parsed parsed = do
    _ ←
        refuse_unless (parsed.domain === env.app_domain)
          (refused (codes "Sign-in message was issued for a different domain"))
    _ ←
        refuse_unless (is_number parsed.chain_id env.chain_id)
          (refused (codes "Wrong network. Expected chain " ++ env.numerals.text_of env.chain_id))
    _ ← refuse_unless (not (is_past (env.time_of parsed.expiration_time) now)) expired
    or_refuse (env.ethers.get_address parsed.address)
        (refused (codes "Invalid address in sign-in message"))

  -- All that comes before the update: the nonce to claim and the address.
  check_challenge : Text → Text → (reachable : Bool) → List NonceRow → Outcome Refusal (Text × Text)
  unfolding check_signature check_row check_parsed read_row refuse_unless or_refuse
  check_challenge message signature reachable rows = do
    parsed ←
        or_refuse (parse_siwe_message env.numerals message)
          (refused (codes "Malformed sign-in message"))
    address ← check_parsed parsed
    found ← read_row reachable parsed.nonce rows
    row ← or_refuse found (refused (codes "Unknown or already-used sign-in request"))
    _ ← check_row row address
    _ ←
        refuse_unless
          (build_siwe_message env.numerals (expected_fields parsed address row) === message)
          (refused (codes "Sign-in message does not match the issued challenge"))
    _ ← check_signature message signature address
    ok (parsed.nonce, address)

  -- `before` and `rows` are the table at the read and at the update, `read` and `written` whether the
  -- database answers each.
  unfoldable pub verify_challenge :
      Text
      → Text
      → (read written : Bool) → (before rows : List NonceRow) → VerifyResult × List NonceRow
  unfolding check_challenge
  verify_challenge message signature read written before rows =
      elim (check_challenge message signature read before) [
        | thrown refusal ↦ (failed refusal, rows)
        | ok (nonce, address) ↦ consume_nonce written now nonce address rows
      ]
