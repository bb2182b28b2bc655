-- ===== src/Registry/Records.antt =====
-- A row of the table `applications` and the record that is made of it: `toStatus`, `toRoles`,
-- `toRecord`. A column that is null is `none`; the column of roles is `none` where it is no array.
use owne_x.Base.{ℕ, Option, none, some, List, [], ◌∷◌, if◌then◌else◌, any, filter}
use owne_x.Base.Text.{Text, codes, ◌===◌, is_empty, upper}
use owne_x.Chain.Roles.{RoleName, admin, manager, auditor, user, role_text}

pub data ApplicationStatus : Type 0 where
  draft active revoked : ApplicationStatus

abbrev pub status_text : ApplicationStatus → Text
status_text draft = codes "draft"
status_text active = codes "active"
status_text revoked = codes "revoked"

pub record ApplicationRow : Type 0 where
  pub org_id : ℕ
  pub app_slug : Text
  pub app_id : Option Text
  pub name : Option Text
  pub url : Option Text
  pub description : Option Text
  pub logo_url : Option Text
  pub client_id : Option Text
  pub client_secret_hash : Option Text
  pub client_secret_updated_at : Option Text
  pub allowed_roles : Option (List Text)
  pub status : Option Text
  pub created_at : Option Text
  pub updated_at : Option Text

pub record RegisteredApplication : Type 0 where
  pub org_id : ℕ
  pub slug : Text
  pub app_id : Text
  pub stored_app_id : Option Text
  pub name : Text
  pub url : Text
  pub description : Option Text
  pub logo_url : Option Text
  pub client_id : Option Text
  pub client_secret_hash : Option Text
  pub client_secret_updated_at : Option Text
  pub allowed_roles : List RoleName
  pub status : ApplicationStatus
  pub callbacks : List Text
  pub created_at : Option Text
  pub updated_at : Option Text

abbrev pub assignable_roles : List RoleName
assignable_roles = admin ∷ manager ∷ auditor ∷ user ∷ []

unfoldable pub to_status : Option Text → ApplicationStatus
to_status none = draft
to_status (some t) =
    if t === codes "active" then active else if t === codes "revoked" then revoked else draft

-- The assignable roles that the column names, in their own order.
unfoldable pub to_roles : Option (List Text) → List RoleName
to_roles none = []
to_roles (some names) =
    filter (λ role. any (λ name. upper name === role_text role) names) assignable_roles

-- `value ? String(value) : null`
abbrev or_null : Option Text → Option Text
or_null none = none
or_null (some t) = if is_empty t then none else some t

abbrev or_text : Option Text → Text → Text
or_text none t = t
or_text (some s) t = s

-- `app_id_from_slug` is `keccak256` of the slug.
unfoldable pub to_record :
    (app_id_from_slug : Text → Text) → ApplicationRow → List Text → RegisteredApplication
unfolding to_roles to_status
to_record app_id_from_slug row callbacks = record {
  org_id = row.org_id;
  slug = row.app_slug;
  app_id = app_id_from_slug row.app_slug;
  stored_app_id = row.app_id;
  name = or_text row.name row.app_slug;
  url = or_text row.url [];
  description = row.description;
  logo_url = row.logo_url;
  client_id = row.client_id;
  client_secret_hash = row.client_secret_hash;
  client_secret_updated_at = row.client_secret_updated_at;
  allowed_roles = to_roles row.allowed_roles;
  status = to_status row.status;
  callbacks = callbacks;
  created_at = or_null row.created_at;
  updated_at = or_null row.updated_at;
}
