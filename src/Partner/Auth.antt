-- ===== src/Partner/Auth.antt =====
-- apps/platform/lib/partner-auth.ts: `authenticatePartner`. A lookup throws only where the registry
-- is not reachable.
pub mod Sound
use owne_x.Base.{ℕ, Bool, not, ◌||◌, Option, none, some, if◌then◌else◌, Read, ok, thrown}
use owne_x.Base.Text.{Text, codes}
use owne_x.Credentials.Secret.{Crypto, verify_client_secret}
use owne_x.Registry.Records.{RegisteredApplication}
use owne_x.Registry.Reads.{RegistryContext, Registry, find_application_by_client_id}
use owne_x.Registry.Requests.{is_revoked_status}
use owne_x.Partner.Credentials.{
  Base64, PartnerCredentials, PartnerHeaders, read_partner_credentials, requires_client_auth,
}

pub data PartnerAuth : Type 0 where
  with_credentials : RegisteredApplication → PartnerAuth
  development_public : PartnerAuth
  refused : (status : ℕ) (code : Text) → PartnerAuth

-- `application?.clientSecretHash ?? null`
abbrev pub hash_of : Option RegisteredApplication → Option Text
hash_of none = none
hash_of (some app) = app.client_secret_hash

abbrev pub invalid : PartnerAuth
invalid = refused 401 (codes "INVALID_CLIENT")

module _ (base64 : Base64) (crypto : Crypto) (ctx : RegistryContext) (db : Registry) where
  -- What follows the lookup.
  authenticate_found : PartnerCredentials → Read (Option RegisteredApplication) → PartnerAuth
  authenticate_found c (thrown detail) = refused 503 (codes "REGISTRY_UNAVAILABLE")
  authenticate_found c (ok application) =
      let secret_ok = verify_client_secret crypto (some c.client_secret) (hash_of application) in
      elim application [
        | none ↦ invalid
        | some app ↦
            if is_revoked_status app.status || not secret_ok then invalid else with_credentials app
      ]

  -- `env.NODE_ENV` is the second argument.
  unfoldable pub authenticate_partner : PartnerHeaders → Option Text → PartnerAuth
  unfolding authenticate_found
  authenticate_partner headers node_env = elim (read_partner_credentials base64 headers) [
    | none ↦
        if requires_client_auth node_env
        then refused 401 (codes "CLIENT_AUTH_REQUIRED")
        else development_public
    | some c ↦ authenticate_found c (find_application_by_client_id ctx db c.client_id)
  ]
