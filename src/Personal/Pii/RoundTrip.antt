-- ===== src/Personal/Pii/RoundTrip.antt =====
-- What was encrypted is decrypted to itself.
use owne_x.Base.{◌≡◌, ◌≢◌, refl, some, [], arith, value, false, Bool-cases, inl, inr}
use mathlib.Core.Option
use owne_x.Base.Text.{Text, codes, is_empty, is_empty_iff, split, join, split-join, Lacks, ◌===◌}
use owne_x.Credentials.Secret.{Bytes}
use owne_x.Personal.Pii.{Cipher, sealed_parts, encrypt_pii, decrypt_parts, decrypt_pii}

-- What Node documents: what was sealed opens with its tag, and base64 decodes what it encoded, in an
-- alphabet without the full stop.
pub record IsCipher (cipher : Cipher) : Type 0 where
  pub open-seal :
      (iv plain : Bytes)
      → cipher.open_sealed iv (cipher.seal iv plain).1 (cipher.seal iv plain).0 ≡ some plain
  pub decode-encode : (b : Bytes) → cipher.from_base64 (cipher.to_base64 b) ≡ b
  pub no_stop : (b : Bytes) → Lacks b'.' (cipher.to_base64 b)

module _ (cipher : Cipher) (laws : IsCipher cipher) where
  parts-split :
      (iv : Bytes) (p : Bytes × Bytes)
      → split b'.' (join b'.' (sealed_parts cipher iv p)) ≡ sealed_parts cipher iv p
  unfolding sealed_parts
  parts-split iv (sealed, tag) = split-join b'.' (codes "v1") _ (
    (omega arith, (omega arith, tt)),
    (laws.no_stop iv, (laws.no_stop tag, (laws.no_stop sealed, tt))),
  )

  parts_not_empty :
      (iv : Bytes) (p : Bytes × Bytes) → is_empty (join b'.' (sealed_parts cipher iv p)) ≡ false
  unfolding sealed_parts join is_empty
  parts_not_empty iv (sealed, tag) = refl

  decrypt_parts-sealed :
      (iv : Bytes) (p : Bytes × Bytes)
      → decrypt_parts cipher (sealed_parts cipher iv p)
        ≡ Option.map cipher.from_utf8 (cipher.open_sealed iv p.1 p.0)
  unfolding decrypt_parts sealed_parts ◌===◌
  decrypt_parts-sealed iv (sealed, tag) =
      rw (laws.decode-encode iv, laws.decode-encode tag, laws.decode-encode sealed) refl

  -- Where the cipher opens what it sealed and base64 decodes what it encodes in an alphabet
  -- without the full stop, decrypting what was encrypted of a text that is not empty and survives
  -- UTF-8 gives that text.
  pub decrypt-encrypt_pii :
      (iv : Bytes) (plain : Text)
      → plain ≢ []
      → cipher.from_utf8 (cipher.to_utf8 plain) ≡ plain
      → decrypt_pii cipher (encrypt_pii cipher iv (value plain)) ≡ some plain
  unfolding decrypt_pii encrypt_pii
  decrypt-encrypt_pii iv plain there text = elim (Bool-cases (is_empty plain)) [
    | inl blank ↦ absurd (there ((is_empty_iff plain).0 blank))
    | inr given ↦
        let p = cipher.seal iv (cipher.to_utf8 plain) in
        rw
          (
            given,
            parts_not_empty iv p,
            parts-split iv p,
            decrypt_parts-sealed iv p,
            laws.open-seal iv (cipher.to_utf8 plain),
            text,
          )
          refl
  ]
