-- ===== src/Sessions/Store.antt =====
-- apps/platform/lib/session.ts: the session's data, sealed in a cookie by iron-session. `now` is
-- `Date.now()`, in milliseconds; where the issue lies in the future the age counts as 0, which is no
-- more than the limit either.
pub mod Age
use owne_x.Base.{
  ◌*◌, ℕ, ◌-◌, ◌/◌, Bool, true, false, ◌||◌, Option, none, some, ltb, ◌==◌, if◌then◌else◌, Outcome,
  ok, thrown, length,
}
use owne_x.Base.Text.{Text, codes, is_empty}

pub record SessionData : Type 0 where
  pub wallet : Option Text
  pub chain_id : Option ℕ
  pub issued_at : Option ℕ

abbrev pub session_ttl_seconds : ℕ
session_ttl_seconds = 60 * 60 * 24

abbrev pub default_password : Text
default_password = codes "ownex-platform-secure-session-password-default-32chars"

is_short : Option Text → Bool
is_short none = true
is_short (some p) = ltb (length p) 32

or_default : Option Text → Text
or_default none = default_password
or_default (some p) = if is_empty p then default_password else p

-- The password of `options()`: the variable, that of the parsed environment, or the default.
unfoldable pub seal_password : Option Text → Outcome Text (Option Text) → Text
unfolding is_short or_default
seal_password variable server_env =
    if is_short variable
    then elim server_env [ ok p ↦ or_default p | thrown reason ↦ default_password ]
    else or_default variable

abbrev pub no_session : SessionData
no_session = record { wallet = none; chain_id = none; issued_at = none }

unfoldable pub create_session : Text → ℕ → (now : ℕ) → SessionData
create_session wallet chain_id now = record {
  wallet = some wallet;
  chain_id = some chain_id;
  issued_at = some (now / 1000);
}

-- A session that is missing, of no wallet, or older than the limit is none.
live_wallet : Option Text → Option ℕ → (now : ℕ) → Option Text
live_wallet none issued_at now = none
live_wallet (some wallet) none now = none
live_wallet (some wallet) (some issued_at) now =
    if is_empty wallet || issued_at == 0
    then none
    else if ltb session_ttl_seconds (now / 1000 - issued_at)
    then none
    else some wallet

-- The first argument is the opened cookie, or what opening it threw.
unfoldable pub session_wallet : Outcome Text SessionData → (now : ℕ) → Option Text
unfolding live_wallet
session_wallet (thrown reason) now = none
session_wallet (ok session) now = live_wallet session.wallet session.issued_at now
