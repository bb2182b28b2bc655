-- ===== src/Codes/Operations.antt =====
-- apps/platform/lib/authorize.ts: `issueAuthorizationCode` and `consumeAuthorizationCode`. The 32
-- random bytes, in base64url, are the argument `code`.
pub mod RoundTrip
use owne_x.Base.{ℕ, ◌+◌, Option, none, ltb, if◌then◌else◌, length, Read, ok, thrown, ◌>>=◌}
use owne_x.Base.Text.{Text}
use owne_x.Codes.Store.{
  GrantInput, StoredGrant, ConsumeQuery, ConsumedGrant, AuthorizationCodeStore,
}

abbrev pub authorization_code_ttl_ms : ℕ
authorization_code_ttl_ms = 120000

pub record IssuedCode : Type 0 where
  pub code : Text
  pub expires_at : ℕ

abbrev pub stored_grant : GrantInput → Text → ℕ → StoredGrant
stored_grant grant code now = record {
  input = grant;
  code = code;
  expires_at = now + authorization_code_ttl_ms;
}

module _ {S : Type 0} (store : AuthorizationCodeStore S) where
  unfoldable pub issue_authorization_code : GrantInput → Text → ℕ → S → Read IssuedCode × S
  issue_authorization_code grant code now s =
      let (answer, s') = store.insert (stored_grant grant code now) s in
      (
        (do _ ← answer; ok (record { code = code; expires_at = now + authorization_code_ttl_ms })),
        s',
      )

  -- A text too short to be a code is refused without a call of the store.
  unfoldable pub consume_authorization_code : ConsumeQuery → S → Read (Option ConsumedGrant) × S
  consume_authorization_code q s =
      if ltb (length q.code) 32 then (ok none, s) else store.consume q s
