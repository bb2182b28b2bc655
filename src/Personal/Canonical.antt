-- ===== src/Personal/Canonical.antt =====
-- apps/platform/lib/hash.ts: `canonicalJson`, and the anchors of the four kinds of record. What
-- `JSON.stringify` makes of a string is the argument `quoted`; a number is given by its text. The
-- keys of an object are distinct, and a key may be there with the value undefined.
pub mod Order
pub mod Sorted
use owne_x.Base.{
  ℕ, Bool, true, false, Option, none, some, List, [], ◌∷◌, ◌++◌, map, ltb, if◌then◌else◌,
}
use mathlib.Core.Option
use owne_x.Base.Text.{Text, codes, join, trim, lower}

mutual
  pub data Json : Type 0 where
    null : Json
    boolean : Bool → Json
    numeral : Text → Json
    string : Text → Json
    array : JsonItems → Json
    object : JsonFields → Json

  pub data JsonItems : Type 0 where
    none_left : JsonItems
    item : Json → JsonItems → JsonItems

  pub data JsonFields : Type 0 where
    no_field : JsonFields
    defined : Text → Json → JsonFields → JsonFields
    undefined_field : Text → JsonFields → JsonFields

-- The order of `sort()`: by UTF-16 units.
unfoldable pub text_leb : Text → Text → Bool
text_leb [] t = true
text_leb (x ∷ s) [] = false
text_leb (x ∷ s) (y ∷ t) =
    let rest = text_leb s t in if ltb x y then true else if ltb y x then false else rest

unfoldable pub insert_entry : Text × Text → List (Text × Text) → List (Text × Text)
insert_entry x [] = x ∷ []
insert_entry x (y ∷ ys) =
    let rest = insert_entry x ys in if text_leb x.0 y.0 then x ∷ y ∷ ys else y ∷ rest

-- `keys.sort()`, with what each key's value is printed as.
unfoldable pub sort_entries : List (Text × Text) → List (Text × Text)
sort_entries [] = []
sort_entries (x ∷ xs) = insert_entry x (sort_entries xs)

module _ (quoted : Text → Text) where
  entry_text : Text × Text → Text
  entry_text (key, value) = quoted key ++ (b':' ∷ value)

  unfoldable mutual
    unfolding entry_text

    pub canonical_json : Json → Text
    canonical_json null = codes "null"
    canonical_json (boolean true) = codes "true"
    canonical_json (boolean false) = codes "false"
    canonical_json (numeral t) = t
    canonical_json (string s) = quoted s
    canonical_json (array xs) = codes "[" ++ join b',' (canonical_items xs) ++ codes "]"
    canonical_json (object fs) =
        codes "{" ++ join b',' (map entry_text (sort_entries (canonical_fields fs))) ++ codes "}"

    pub canonical_items : JsonItems → List Text
    canonical_items none_left = []
    canonical_items (item x xs) = canonical_json x ∷ canonical_items xs

    pub canonical_fields : JsonFields → List (Text × Text)
    canonical_fields no_field = []
    canonical_fields (defined key x fs) = (key, canonical_json x) ∷ canonical_fields fs
    canonical_fields (undefined_field key fs) = canonical_fields fs

-- `record.field?.trim() ?? null`
abbrev pub trimmed : Option Text → Json
trimmed none = null
trimmed (some s) = string (trim s)

abbrev pub trimmed_lower : Option Text → Json
trimmed_lower none = null
trimmed_lower (some s) = string (lower (trim s))

pub record AssetRecord : Type 0 where
  pub org_id : Text
  pub name : Text
  pub asset_type : Text
  pub serial_number : Option Text
  pub invoice_reference : Option Text
  pub department : Option Text

pub record PersonRecord : Type 0 where
  pub display_name : Text
  pub email : Option Text
  pub phone : Option Text
  pub job_title : Option Text
  pub department : Option Text

pub record CompanyRecord : Type 0 where
  pub name : Text
  pub industry : Option Text
  pub website : Option Text

pub record AppRecord : Type 0 where
  pub slug : Text
  pub name : Text
  pub url : Text

module _ (quoted keccak_id : Text → Text) where
  unfoldable pub domain_hash : Text → Json → Text
  domain_hash domain payload = keccak_id (domain ++ (b':' ∷ canonical_json quoted payload))

  unfoldable pub hash_asset_record : AssetRecord → Text
  hash_asset_record r = domain_hash (codes "ownex:asset:v1") (
      object (
        defined (codes "orgId") (numeral r.org_id) (
          defined (codes "name") (string (trim r.name)) (
            defined (codes "assetType") (string (trim r.asset_type)) (
              defined (codes "serialNumber") (trimmed r.serial_number) (
                defined (codes "invoiceReference") (trimmed r.invoice_reference)
                  (defined (codes "department") (trimmed r.department) no_field)))))))

  unfoldable pub hash_identity_record : PersonRecord → Text
  hash_identity_record r = domain_hash (codes "ownex:identity:v1") (
      object (
        defined (codes "displayName") (string (trim r.display_name)) (
          defined (codes "email") (trimmed_lower r.email) (
            defined (codes "phone") (trimmed r.phone) (
              defined (codes "jobTitle") (trimmed r.job_title)
                (defined (codes "department") (trimmed r.department) no_field))))))

  unfoldable pub hash_organization_record : CompanyRecord → Text
  hash_organization_record r = domain_hash (codes "ownex:organization:v1") (
      object (
        defined (codes "name") (string (trim r.name)) (
          defined (codes "industry") (trimmed r.industry)
            (defined (codes "website") (trimmed r.website) no_field))))

  unfoldable pub hash_application_record : AppRecord → Text
  hash_application_record r = domain_hash (codes "ownex:application:v1") (
      object (
        defined (codes "slug") (string (trim r.slug)) (
          defined (codes "name") (string (trim r.name))
            (defined (codes "url") (string (trim r.url)) no_field))))
