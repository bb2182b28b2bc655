-- ===== src/Sessions/Store/Age.antt =====
-- How long a session lasts.
use owne_x.Base.{
  ℕ, ◌+◌, ◌/◌, ◌≤◌, ◌≡◌, ◌≢◌, ◌↔◌, refl, Option, none, some, [], ok, thrown, Outcome, arith,
}
use owne_x.Base.Text.{Text, is_empty_iff}
use owne_x.Sessions.Store.{SessionData, create_session, live_wallet, session_wallet}

-- A session that is created for a wallet that is not empty, from the first second of the epoch on,
-- gives that wallet at a later time exactly when no more than 86400 whole seconds lie between the
-- seconds of the two times.
pub session_wallet-create_session_iff :
    (wallet : Text) (chain_id now later : ℕ)
    → wallet ≢ []
    → 1000 ≤ now
    → (session_wallet (ok (create_session wallet chain_id now)) later ≡ some wallet)
      ↔ (later / 1000 ≤ now / 1000 + 86400)
unfolding session_wallet create_session live_wallet
session_wallet-create_session_iff wallet chain_id now later there positive =
    ground (arith, is_empty_iff wallet)

-- A wallet that is signed in is that of a session that is not older than the limit.
pub record IsSignedIn (opened : Outcome Text SessionData) (now : ℕ) (wallet : Text) : Type 0 where
  pub session : SessionData
  pub is_opened : opened ≡ ok session
  pub of_wallet : session.wallet ≡ some wallet
  pub not_empty : wallet ≢ []
  pub issued_at : ℕ
  pub was_issued : session.issued_at ≡ some issued_at
  pub in_time : now / 1000 ≤ issued_at + 86400

live_wallet-IsSignedIn :
    (session : SessionData) (w : Option Text) (t : Option ℕ) (now : ℕ) (wallet : Text)
    → session.wallet ≡ w
    → session.issued_at ≡ t
    → live_wallet w t now ≡ some wallet
    → IsSignedIn (ok session) now wallet
unfolding live_wallet
live_wallet-IsSignedIn session none t now wallet e f h = absurd (ground arith)
live_wallet-IsSignedIn session (some w) none now wallet e f h = absurd (ground arith)
live_wallet-IsSignedIn session (some w) (some t) now wallet e f h = record {
  session = session;
  is_opened = refl;
  of_wallet = ground arith;
  not_empty = ground (arith, is_empty_iff w);
  issued_at = t;
  was_issued = f;
  in_time = ground arith;
}

pub session_wallet-IsSignedIn :
    (opened : Outcome Text SessionData) (now : ℕ) (wallet : Text)
    → session_wallet opened now ≡ some wallet
    → IsSignedIn opened now wallet
unfolding session_wallet
session_wallet-IsSignedIn (thrown reason) now wallet h = absurd (ground arith)
session_wallet-IsSignedIn (ok session) now wallet h =
    live_wallet-IsSignedIn session session.wallet session.issued_at now wallet refl refl h
