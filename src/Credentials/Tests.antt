-- ===== src/Credentials/Tests.antt =====
-- Secrets, hashed and verified with a concrete function in place of scrypt.
use Prim.Native.Nat.{◌-◌}
use owne_x.Base.{ℕ, zero, suc, ◌+◌, ◌≡◌, ◌↔◌, refl, true, some, [], ◌∷◌, map, arith, ◌++◌}
use owne_x.Base.Text.{Text, codes, Lacks, join}
use owne_x.Credentials.Secret.{
  Bytes, Crypto, scrypt_n, scrypt_r, scrypt_p, scrypt_keylen, hash_client_secret,
  verify_client_secret,
}
use owne_x.Credentials.Secret.RoundTrip.{IsBase64url, verify-hash_iff}

-- The first units of the secret, and noughts up to the length that is asked for.
abbrev pub padded : ℕ → Text → Bytes
padded zero s = []
padded (suc n) [] = 0 ∷ padded n []
padded (suc n) (c ∷ s) = c ∷ padded n s

-- A code that writes the byte `b` as the unit `b + 64`.
abbrev pub crypto : Crypto
crypto = record {
  scrypt = λ secret salt keylen n r p. some (padded keylen secret);
  to_base64url = λ bytes. map (λ b. b + 64) bytes;
  from_base64url = λ text. map (λ c. c - 64) text;
}

decode-encode : (b : Bytes) → map (λ c. c - 64) (map (λ b. b + 64) b) ≡ b
decode-encode [] = refl
decode-encode (b ∷ bs) = ground (arith, decode-encode bs)

no_dollar : (b : Bytes) → Lacks b'$' (map (λ b. b + 64) b)
no_dollar [] = tt
no_dollar (b ∷ bs) = (omega arith, no_dollar bs)

crypto-IsBase64url : IsBase64url crypto
crypto-IsBase64url = record { decode-encode = decode-encode; no_dollar = no_dollar }

abbrev pub secret : Text
secret = codes "correct horse battery staple"

abbrev pub salt : Bytes
salt = 1 ∷ 2 ∷ 3 ∷ []

abbrev pub digest : Bytes
digest = secret ++ 0 ∷ 0 ∷ 0 ∷ 0 ∷ []

abbrev pub stored : Text
stored = codes "scrypt$16384$8$1$ABC$" ++ map (λ b. b + 64) digest

hashed : hash_client_secret crypto secret salt ≡ some stored
unfolding hash_client_secret join
hashed = refl

verify-hash_iff_example :
    (verify_client_secret crypto (some secret) (some stored) ≡ true)
    ↔ (crypto.scrypt secret salt scrypt_keylen scrypt_n scrypt_r scrypt_p ≡ some digest)
verify-hash_iff_example =
    verify-hash_iff crypto crypto-IsBase64url secret secret stored salt digest (λ e. cc) (λ e. cc)
      refl refl hashed
