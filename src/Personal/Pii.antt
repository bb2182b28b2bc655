-- ===== src/Personal/Pii.antt =====
-- apps/platform/lib/crypto.ts: `encryptPII` and `decryptPII`, over AES-256-GCM under the key of the
-- environment, base64 and UTF-8 of Node (the record `Cipher`), and the masks. The random vector is
-- an argument.
pub mod RoundTrip
use owne_x.Base.{
  ℕ, zero, suc, ◌-◌, Bool, true, false, not, ◌&&◌, Option, none, some, List, [], ◌∷◌, ◌++◌, ltb,
  leb, ◌==◌, if◌then◌else◌, length, Nullish, undefined, null, value,
}
use mathlib.Core.Option
use owne_x.Base.Text.{Text, codes, ◌===◌, is_empty, split, join, take, drop}
use owne_x.Credentials.Secret.{Bytes}

-- A decryption that throws, or whose tag does not fit, is none.
pub record Cipher : Type 0 where
  pub seal : (iv : Bytes) → (plain : Bytes) → (Bytes × Bytes)
  pub open_sealed : (iv tag sealed : Bytes) → Option Bytes
  pub to_base64 : Bytes → Text
  pub from_base64 : Text → Bytes
  pub to_utf8 : Text → Bytes
  pub from_utf8 : Bytes → Text

module _ (cipher : Cipher) where
  -- The vector, the tag and the ciphertext behind the version.
  unfoldable pub sealed_parts : (iv : Bytes) → (Bytes × Bytes) → List Text
  sealed_parts iv (sealed, tag) =
      codes "v1" ∷ cipher.to_base64 iv ∷ cipher.to_base64 tag ∷ cipher.to_base64 sealed ∷ []

  unfoldable pub encrypt_pii : (iv : Bytes) → Nullish Text → Option Text
  unfolding sealed_parts
  encrypt_pii iv undefined = none
  encrypt_pii iv null = none
  encrypt_pii iv (value plain) =
      if is_empty plain
      then none
      else some (join b'.' (sealed_parts iv (cipher.seal iv (cipher.to_utf8 plain))))

  -- Four parts, the first of which is the version.
  unfoldable pub decrypt_parts : List Text → Option Text
  decrypt_parts (version ∷ iv ∷ tag ∷ sealed ∷ []) =
      if version === codes "v1"
      then Option.map cipher.from_utf8 (
          cipher.open_sealed (cipher.from_base64 iv) (cipher.from_base64 tag)
            (cipher.from_base64 sealed))
      else none
  decrypt_parts _ = none

  unfoldable pub decrypt_pii : Option Text → Option Text
  unfolding decrypt_parts
  decrypt_pii none = none
  decrypt_pii (some payload) = if is_empty payload then none else decrypt_parts (split b'.' payload)

abbrev pub bullet : ℕ
bullet = 0x2022

abbrev pub repeat : ℕ → ℕ → Text
repeat c zero = []
repeat c (suc n) = c ∷ repeat c n

at_least_three : ℕ → ℕ
at_least_three n = if ltb n 3 then 3 else n

masked_local : Text → Text
unfolding at_least_three
masked_local local = take 2 local ++ repeat bullet (at_least_three (length local - 2))

mask_parts : List Text → Text
unfolding masked_local
mask_parts [] = repeat bullet 3
mask_parts (local ∷ []) = repeat bullet 3
mask_parts (local ∷ domain ∷ more) =
    if is_empty domain then repeat bullet 3 else masked_local local ++ (b'@' ∷ domain)

unfoldable pub mask_email : Option Text → Option Text
unfolding mask_parts
mask_email none = none
mask_email (some email) = if is_empty email then none else some (mask_parts (split b'@' email))

-- `value.slice(-visible)`, which is the whole where none is to be visible.
visible_end : ℕ → Text → Text
visible_end visible s = if visible == 0 then s else drop (length s - visible) s

unfoldable pub mask_tail : Option Text → (visible : ℕ) → Option Text
unfolding visible_end
mask_tail none visible = none
mask_tail (some s) visible =
    if is_empty s
    then none
    else if leb (length s) visible
    then some (repeat bullet (length s))
    else some (repeat bullet (length s - visible) ++ visible_end visible s)
