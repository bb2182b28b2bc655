-- ===== src/Portal/Config.antt =====
-- apps/employee-portal/lib/config.ts: the configuration, out of the variables of the environment.
-- `parse_int` reads the decimal digits at the front, as `Number.parseInt(raw, 10)` does of a number
-- that is not negative; a minus sign gives none, as the code refuses what is not positive.
use owne_x.Base.{
  false, ℕ, ◌+◌, ◌-◌, ◌*◌, Bool, Option, none, some, [], ◌∷◌, leb, ◌==◌, if◌then◌else◌, Outcome, ok,
  thrown, ◌>>=◌, ◌&&◌,
}
use owne_x.Base.Text.{Text, codes, ◌===◌, is_empty, trim, drop_while, drop_while_end, is_space}
use owne_x.Partner.Credentials.{PartnerCredentials}

-- The variables that are read; `none` is one that is not set.
pub record PortalEnv : Type 0 where
  pub node_env : Option Text
  pub ownex_origin : Option Text
  pub platform_origin : Option Text
  pub ownex_redirect_uri : Option Text
  pub portal_callback_url : Option Text
  pub ownex_org_id : Option Text
  pub portal_org_id : Option Text
  pub ownex_app_slug : Option Text
  pub ownex_client_id : Option Text
  pub ownex_client_secret : Option Text
  pub portal_session_password : Option Text

pub record OwnexConfig : Type 0 where
  pub origin : Text
  pub client : PartnerCredentials
  pub org_id : ℕ
  pub redirect_uri : Text
  pub app_slug : Text

-- `a ?? b`
abbrev pub or_else : Option Text → Option Text → Option Text
or_else none b = b
or_else (some a) b = some a

-- A text that is there and not empty.
abbrev pub truthy : Option Text → Option Text
truthy none = none
truthy (some s) = if is_empty s then none else some s

unfoldable pub in_production : PortalEnv → Bool
in_production env = elim env.node_env [ none ↦ false | some e ↦ e === codes "production" ]

unfoldable pub get_platform_origin : PortalEnv → Text
unfolding in_production
get_platform_origin env = elim (truthy (or_else env.ownex_origin env.platform_origin)) [
  | some configured ↦ drop_while_end (λ c. c == b'/') configured
  | none ↦
      if in_production env
      then codes "https://ownex-platform.vercel.app"
      else codes "http://localhost:3000"
]

unfoldable pub get_redirect_uri : PortalEnv → Text
unfolding in_production
get_redirect_uri env = elim (truthy (or_else env.ownex_redirect_uri env.portal_callback_url)) [
  | some configured ↦ trim configured
  | none ↦
      if in_production env
      then codes "https://ownex-employee-portal.vercel.app/callback"
      else codes "http://localhost:3001/callback"
]

is_digit : ℕ → Bool
is_digit c = leb b'0' c && leb c b'9'

-- The number that the digits at the front make after `n`.
digits_after : ℕ → Text → ℕ
unfolding is_digit
digits_after n [] = n
digits_after n (c ∷ s) =
    let rest = digits_after (n * 10 + (c - b'0')) s in if is_digit c then rest else n

digits_at : Text → Option ℕ
unfolding is_digit digits_after
digits_at [] = none
digits_at (c ∷ s) = if is_digit c then some (digits_after 0 (c ∷ s)) else none

after_sign : Text → Option ℕ
unfolding digits_at
after_sign [] = none
after_sign (c ∷ s) = if c == b'+' then digits_at s else digits_at (c ∷ s)

unfoldable pub parse_int : Text → Option ℕ
unfolding after_sign
parse_int raw = after_sign (drop_while is_space raw)

positive : Option ℕ → Outcome Text ℕ
positive none = thrown (codes "OWNEX_ORG_ID must be a positive integer")
positive (some n) =
    if n == 0 then thrown (codes "OWNEX_ORG_ID must be a positive integer") else ok n

unfoldable pub get_org_id : PortalEnv → Outcome Text ℕ
unfolding positive
get_org_id env = elim (or_else env.ownex_org_id env.portal_org_id) [
  | none ↦ positive (parse_int (codes "1"))
  | some raw ↦ positive (parse_int raw)
]

unfoldable pub get_app_slug : PortalEnv → Text
get_app_slug env = elim env.ownex_app_slug [ none ↦ codes "employee-portal" | some slug ↦ slug ]

-- `process.env.X?.trim()`, where it is not empty.
unfoldable pub required : Text → Option Text → Outcome Text Text
required name none = thrown name
required name (some raw) = if is_empty (trim raw) then thrown name else ok (trim raw)

-- What is thrown is a `ConfigError`: there is no default for the id and the secret.
unfoldable pub ownex_config : PortalEnv → Outcome Text OwnexConfig
unfolding required
ownex_config env = do
  client_id ← required (codes "OWNEX_CLIENT_ID is not set") env.ownex_client_id
  client_secret ← required (codes "OWNEX_CLIENT_SECRET is not set") env.ownex_client_secret
  org_id ← get_org_id env
  ok (record {
    origin = get_platform_origin env;
    client = record { client_id = client_id; client_secret = client_secret };
    org_id = org_id;
    redirect_uri = get_redirect_uri env;
    app_slug = get_app_slug env;
  })
