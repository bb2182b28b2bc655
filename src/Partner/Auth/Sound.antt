-- ===== src/Partner/Auth/Sound.antt =====
-- Who passes for a partner.
use owne_x.Base.{
  ◌≡◌, ◌≢◌, ◌↔◌, inl, inr, true, Option, none, some, arith, Read, ok, thrown, Option-cases,
}
use owne_x.Base.Text.{Text, codes, ===_iff}
use owne_x.Credentials.Secret.{Crypto, verify_client_secret}
use owne_x.Registry.Records.{RegisteredApplication, revoked}
use owne_x.Registry.Reads.{RegistryContext, Registry, find_application_by_client_id}
use owne_x.Partner.Credentials.{
  Base64, PartnerCredentials, PartnerHeaders, read_partner_credentials, requires_client_auth,
}
use owne_x.Partner.Auth.{
  with_credentials, development_public, authenticate_found, authenticate_partner,
}

module _ (base64 : Base64) (crypto : Crypto) (ctx : RegistryContext) (db : Registry) where
  -- The headers hold the id and the secret of an application that is not revoked.
  pub record IsPartner (headers : PartnerHeaders) (app : RegisteredApplication) : Type 0 where
    pub credentials : PartnerCredentials
    pub read : read_partner_credentials base64 headers ≡ some credentials
    pub found : find_application_by_client_id ctx db credentials.client_id ≡ ok (some app)
    pub not_revoked : app.status ≢ revoked
    pub verified :
        verify_client_secret crypto (some credentials.client_secret) app.client_secret_hash ≡ true

  authenticate_found-credentials :
      (c : PartnerCredentials) (found : Read (Option RegisteredApplication))
      (app : RegisteredApplication)
      → authenticate_found base64 crypto ctx db c found ≡ with_credentials app
      → (found ≡ ok (some app))
        × (app.status ≢ revoked)
        × (verify_client_secret crypto (some c.client_secret) app.client_secret_hash ≡ true)
  unfolding authenticate_found
  authenticate_found-credentials c (thrown detail) app h = absurd (ground arith)
  authenticate_found-credentials c (ok none) app h = absurd (ground arith)
  authenticate_found-credentials c (ok (some app')) app h =
      (ground arith, ground arith, ground arith)

  authenticate_found-public :
      (c : PartnerCredentials) (found : Read (Option RegisteredApplication))
      → authenticate_found base64 crypto ctx db c found ≢ development_public
  unfolding authenticate_found
  authenticate_found-public c (thrown detail) h = ground arith
  authenticate_found-public c (ok none) h = ground arith
  authenticate_found-public c (ok (some app')) h = ground arith

  -- Where a caller is authenticated as an application, its headers hold credentials whose id finds
  -- that application, which is not revoked, and whose secret verifies against the stored hash.
  pub authenticate_partner-IsPartner :
      (headers : PartnerHeaders) (node_env : Option Text) (app : RegisteredApplication)
      → authenticate_partner base64 crypto ctx db headers node_env ≡ with_credentials app
      → IsPartner headers app
  unfolding authenticate_partner
  authenticate_partner-IsPartner headers node_env app h =
      elim (Option-cases (read_partner_credentials base64 headers)) [
        | inl nothing ↦ absurd (ground arith)
        | inr (c, e) ↦
            let (found, live, verified) =
              authenticate_found-credentials c (find_application_by_client_id ctx db c.client_id)
                app (ground arith) in
            record {
              credentials = c;
              read = e;
              found = found;
              not_revoked = live;
              verified = verified;
            }
      ]

  requires_client_auth_iff :
      (node_env : Option Text)
      → (requires_client_auth node_env ≡ true) ↔ (node_env ≡ some (codes "production"))
  unfolding requires_client_auth
  requires_client_auth_iff none = ground arith
  requires_client_auth_iff (some t) = ground (arith, ===_iff t (codes "production"))

  -- A caller is let in without being authenticated exactly when it presents no credentials and
  -- NODE_ENV is not production.
  pub authenticate_partner-public_iff :
      (headers : PartnerHeaders) (node_env : Option Text)
      → (authenticate_partner base64 crypto ctx db headers node_env ≡ development_public) ↔ (
          (read_partner_credentials base64 headers ≡ none) × (node_env ≢ some (codes "production")))
  unfolding authenticate_partner
  authenticate_partner-public_iff headers node_env =
      elim (Option-cases (read_partner_credentials base64 headers)) [
        | inl nothing ↦ ground (arith, requires_client_auth_iff node_env)
        | inr (c, e) ↦
            ground (
              arith,
              authenticate_found-public c (find_application_by_client_id ctx db c.client_id),
            )
      ]
