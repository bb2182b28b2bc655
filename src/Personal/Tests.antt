-- ===== src/Personal/Tests.antt =====
-- A record with its keys in two orders, and a cipher that writes its plain text.
use owne_x.Base.{ℕ, ◌≡◌, ◌≢◌, refl, some, [], ◌∷◌, ◌++◌, Option, value, arith, List, map, ◌+◌, ◌-◌}
use mathlib.Core.List.{Permᴰ}
use owne_x.Base.Text.{Text, codes, Lacks}
use owne_x.Credentials.Secret.{Bytes}
use owne_x.Personal.Canonical.{
  Json, JsonFields, object, string, numeral, defined, undefined_field, no_field, canonical_json,
  canonical_fields, domain_hash,
}
use owne_x.Personal.Canonical.Sorted.{DistinctNames, domain_hash-Permᴰ}
use owne_x.Personal.Pii.{Cipher, encrypt_pii, decrypt_pii}
use owne_x.Personal.Pii.RoundTrip.{IsCipher, decrypt-encrypt_pii}

abbrev quoted : Text → Text
quoted s = b'"' ∷ (s ++ (b'"' ∷ []))

abbrev keccak_id : Text → Text
keccak_id s = s

abbrev named_first : JsonFields
named_first =
    defined (codes "name") (string (codes "A"))
      (undefined_field (codes "website") (defined (codes "id") (numeral (codes "7")) no_field))

abbrev id_first : JsonFields
id_first =
    defined (codes "id") (numeral (codes "7"))
      (defined (codes "name") (string (codes "A")) no_field)

canonical_run : canonical_json quoted (object named_first) ≡ codes "{\"id\":7,\"name\":\"A\"}"
unfolding canonical_json owne_x.Base.Text.join owne_x.Personal.Canonical.sort_entries
    owne_x.Personal.Canonical.insert_entry owne_x.Personal.Canonical.text_leb
canonical_run = refl

reordered : Permᴰ (canonical_fields quoted named_first) (canonical_fields quoted id_first)
unfolding canonical_json
reordered = Permᴰ.swap refl refl

names_distinct : DistinctNames (canonical_fields quoted named_first)
unfolding canonical_json DistinctNames
names_distinct = (((λ e. cc e), tt), (tt, tt))

domain_hash-Permᴰ_example :
    domain_hash quoted keccak_id (codes "d") (object named_first)
    ≡ domain_hash quoted keccak_id (codes "d") (object id_first)
domain_hash-Permᴰ_example =
    domain_hash-Permᴰ quoted keccak_id (codes "d") named_first id_first reordered names_distinct

-- Bytes are written as units above the full stop.
abbrev cipher : Cipher
cipher = record {
  seal = λ iv plain. (plain, iv);
  open_sealed = λ iv tag sealed. some sealed;
  to_base64 = λ b. map (λ c. c + 64) b;
  from_base64 = λ t. map (λ c. c - 64) t;
  to_utf8 = λ t. t;
  from_utf8 = λ b. b;
}

decode-encode : (b : Bytes) → map (λ c. c - 64) (map (λ c. c + 64) b) ≡ b
decode-encode [] = refl
decode-encode (c ∷ b) = cc (minus_plus c, decode-encode b)
  where
    minus_plus : (c : ℕ) → c + 64 - 64 ≡ c
    minus_plus c = omega arith

no_stop : (b : Bytes) → Lacks b'.' (map (λ c. c + 64) b)
no_stop [] = tt
no_stop (c ∷ b) = (omega arith, no_stop b)

cipher-IsCipher : IsCipher cipher
cipher-IsCipher = record {
  open-seal = λ iv plain. refl;
  decode-encode = decode-encode;
  no_stop = no_stop;
}

email_there : codes "a@b.example" ≢ []
email_there e = cc e

decrypt-encrypt_pii_example :
    decrypt_pii cipher (encrypt_pii cipher (1 ∷ 2 ∷ []) (value (codes "a@b.example")))
    ≡ some (codes "a@b.example")
decrypt-encrypt_pii_example =
    decrypt-encrypt_pii cipher cipher-IsCipher (1 ∷ 2 ∷ []) (codes "a@b.example") email_there refl
