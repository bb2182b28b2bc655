-- ===== src/Credentials/Secret/RoundTrip.antt =====
-- A secret is accepted against a stored hash exactly when scrypt derives the stored digest from it.
use owne_x.Base.{
  ℕ, ◌<◌, subst, inl, inr, ◌≡◌, ◌≢◌, ◌↔◌, refl, ◌∙◌, true, false, some, [], arith, length,
  Option-cases,
}
use owne_x.Base.Text.{
  Text, codes, ◌===◌, ===_iff, is_empty, is_empty_iff, split, join, split-join, Lacks, number_of,
  trim, drop_while, drop_while_end,
}
use owne_x.Credentials.Secret.{
  Bytes, Crypto, scrypt_n, scrypt_r, scrypt_p, scrypt_keylen, digest_fields, hash_client_secret,
  verify_digest, verify_fields, verify_client_secret,
}

-- What Node documents of base64url: it decodes what it encoded, and writes no `$`.
pub record IsBase64url (crypto : Crypto) : Type 0 where
  pub decode-encode : (b : Bytes) → crypto.from_base64url (crypto.to_base64url b) ≡ b
  pub no_dollar : (b : Bytes) → Lacks b'$' (crypto.to_base64url b)

module _ (crypto : Crypto) (codec : IsBase64url crypto) where
  fields-split :
      (salt digest : Bytes)
      → split b'$' (join b'$' (digest_fields crypto salt digest)) ≡ digest_fields crypto salt digest
  fields-split salt digest = split-join b'$' (codes "scrypt") _ (
    omega arith,
    (
      omega arith,
      (omega arith, (omega arith, (codec.no_dollar salt, (codec.no_dollar digest, tt)))),
    ),
  )

  verify-fields_coded :
      (secret : Text) (salt digest : Bytes)
      → verify_fields crypto secret (digest_fields crypto salt digest)
        ≡ verify_digest crypto secret scrypt_n scrypt_r scrypt_p
            (crypto.from_base64url (crypto.to_base64url salt))
            (crypto.from_base64url (crypto.to_base64url digest))
  unfolding verify_fields number_of ◌===◌ trim is_empty drop_while_end drop_while
  verify-fields_coded secret salt digest = refl

  verify-fields :
      (secret : Text) (salt digest : Bytes)
      → verify_fields crypto secret (digest_fields crypto salt digest)
        ≡ verify_digest crypto secret scrypt_n scrypt_r scrypt_p salt digest
  verify-fields secret salt digest =
      verify-fields_coded secret salt digest
      ∙ rw (codec.decode-encode salt, codec.decode-encode digest)

  verify-digest :
      (secret : Text) (salt digest : Bytes) (k : ℕ)
      → salt ≢ []
      → length digest ≡ k
      → 0 < k
      → (verify_digest crypto secret scrypt_n scrypt_r scrypt_p salt digest ≡ true)
        ↔ (crypto.scrypt secret salt k scrypt_n scrypt_r scrypt_p ≡ some digest)
  unfolding verify_digest
  verify-digest secret salt digest k salted long pos =
      elim (Option-cases (crypto.scrypt secret salt k scrypt_n scrypt_r scrypt_p)) [
        | inl fails ↦ ground (arith, is_empty_iff salt, is_empty_iff digest)
        | inr (derived, e) ↦
            ground (arith, is_empty_iff salt, is_empty_iff digest, ===_iff derived digest)
      ]

  verify-stored :
      (presented : Text) (salt digest : Bytes)
      → presented ≢ []
      → verify_client_secret crypto
          (some presented)
          (some (join b'$' (digest_fields crypto salt digest)))
        ≡ verify_digest crypto presented scrypt_n scrypt_r scrypt_p salt digest
  unfolding verify_client_secret
  verify-stored presented salt digest given =
      let full : is_empty (join b'$' (digest_fields crypto salt digest)) ≡ false =
        unfold join is_empty in refl in
      rw (full, fields-split salt digest)
        (ground (arith, is_empty_iff presented, verify-fields presented salt digest))

  -- Where a secret was hashed with a salt that is not empty and scrypt gave 32 bytes, and
  -- base64url decodes what it encodes and writes no dollar, a presented text that is not empty
  -- verifies against the stored hash exactly when scrypt derives the same bytes from it with that
  -- salt.
  pub verify-hash_iff :
      (secret presented stored : Text) (salt digest : Bytes)
      → salt ≢ []
      → presented ≢ []
      → crypto.scrypt secret salt scrypt_keylen scrypt_n scrypt_r scrypt_p ≡ some digest
      → length digest ≡ scrypt_keylen
      → hash_client_secret crypto secret salt ≡ some stored
      → (verify_client_secret crypto (some presented) (some stored) ≡ true)
        ↔ (crypto.scrypt presented salt scrypt_keylen scrypt_n scrypt_r scrypt_p ≡ some digest)
  unfolding hash_client_secret
  verify-hash_iff secret presented stored salt digest salted given derived long hashed =
      let stored_is : join b'$' (digest_fields crypto salt digest) ≡ stored = ground arith in
      subst
        (λ t.
          (verify_client_secret crypto (some presented) (some t) ≡ true)
          ↔ (crypto.scrypt presented salt scrypt_keylen scrypt_n scrypt_r scrypt_p ≡ some digest))
        stored_is
        (rw (verify-stored presented salt digest given)
          (verify-digest presented salt digest scrypt_keylen salted long (omega arith)))
