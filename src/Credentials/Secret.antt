-- ===== src/Credentials/Secret.antt =====
-- apps/platform/lib/client-credentials.ts: `hashClientSecret` and `verifyClientSecret`. Node's
-- `crypto` and `Buffer` are the parameter `Crypto`; the salt that is drawn is an argument.
pub mod RoundTrip
use owne_x.Base.{
  ℕ, ◌*◌, Bool, true, false, not, ◌&&◌, ◌||◌, Option, none, some, List, [], ◌∷◌, ltb, ◌==◌,
  if◌then◌else◌, length,
}
use owne_x.Base.Text.{Text, codes, ◌===◌, is_empty, split, join, number_of}

abbrev pub Bytes : Type 0
Bytes = List ℕ

pub record Crypto : Type 0 where
  -- `scryptSync(secret, salt, keylen, { N, r, p, maxmem })`; `none` is that it throws.
  pub scrypt : Text → Bytes → ℕ → ℕ → ℕ → ℕ → Option Bytes
  pub to_base64url : Bytes → Text
  pub from_base64url : Text → Bytes

abbrev pub scrypt_n : ℕ
scrypt_n = 16384

abbrev pub scrypt_r : ℕ
scrypt_r = 8

abbrev pub scrypt_p : ℕ
scrypt_p = 1

abbrev pub scrypt_keylen : ℕ
scrypt_keylen = 32

module _ (crypto : Crypto) where
  abbrev digest_fields : Bytes → Bytes → List Text
  digest_fields salt digest =
      codes "scrypt"
      ∷ codes "16384"
      ∷ codes "8"
      ∷ codes "1"
      ∷ crypto.to_base64url salt
      ∷ crypto.to_base64url digest
      ∷ []

  -- `none` is that it throws: for a secret below 16 units, or as `scryptSync` does.
  unfoldable pub hash_client_secret : Text → Bytes → Option Text
  hash_client_secret secret salt =
      if ltb (length secret) 16
      then none
      else elim (crypto.scrypt secret salt scrypt_keylen scrypt_n scrypt_r scrypt_p) [
        | none ↦ none
        | some digest ↦ some (join b'$' (digest_fields salt digest))
      ]

  -- What follows the reading of the stored fields.
  verify_digest : Text → ℕ → ℕ → ℕ → Bytes → Bytes → Bool
  verify_digest secret n r p salt expected =
      if ltb n 1024 || ltb r 1 || ltb p 1
      then false
      else if is_empty salt || is_empty expected
      then false
      else elim (crypto.scrypt secret salt (length expected) n r p) [
        | none ↦ false
        | some derived ↦ length derived == length expected && derived === expected
      ]

  verify_fields : Text → List Text → Bool
  unfolding verify_digest
  verify_fields secret (scheme ∷ n ∷ r ∷ p ∷ salt ∷ digest ∷ []) =
      if not (scheme === codes "scrypt") then false else elim (number_of n) [
        | none ↦ false
        | some n' ↦ elim (number_of r) [
          | none ↦ false
          | some r' ↦ elim (number_of p) [
            | none ↦ false
            | some p' ↦
                verify_digest secret n' r' p' (crypto.from_base64url salt)
                  (crypto.from_base64url digest)
          ]
        ]
      ]
  verify_fields secret _ = false

  -- `none` stands for a secret that is no string, and for a stored hash that is null.
  unfoldable pub verify_client_secret : Option Text → Option Text → Bool
  unfolding verify_fields
  verify_client_secret none stored = false
  verify_client_secret (some secret) none = false
  verify_client_secret (some secret) (some stored) =
      if is_empty secret || is_empty stored then false else verify_fields secret (split b'$' stored)
