-- ===== src/Sso/Platform.antt =====
-- What both routes read: the registry, the chain, and code that is not the program's own.
use owne_x.Base.{ℕ, ◌&&◌, Bool, Option, leb, length}
use owne_x.Base.Text.{Text}
use owne_x.Callback.Url.{Url, CallbackMode}
use owne_x.Chain.Reads.{Contracts}
use owne_x.Credentials.Secret.{Crypto}
use owne_x.Registry.Reads.{RegistryContext, Registry}

pub record Platform : Type 0 where
  pub parse_url : Text → Option Url
  pub mode : CallbackMode
  pub context : RegistryContext
  pub registry : Registry
  pub crypto : Crypto
  pub chain : Contracts
  -- `Date.now()`, when the request is served.
  pub now : ℕ

-- `z.string().min(low).max(high)`
abbrev pub is_within : ℕ → ℕ → Text → Bool
is_within low high s = leb low (length s) && leb (length s) high
