-- ===== src/Siwe/Issue.antt =====
-- apps/platform/lib/siwe.ts: `issueChallenge`. The random nonce is an argument, `iso` is
-- toISOString, and `answered` is false where the insertion fails. The table's key is the nonce; the
-- column of the time of issue, which nothing reads, is left out.
use owne_x.Base.{
  ℕ, ◌+◌, Bool, not, ◌||◌, none, some, List, ◌∷◌, any, if◌then◌else◌, Outcome, ok, thrown,
}
use owne_x.Base.Text.{Text, ◌===◌, lower}
use owne_x.Siwe.Message.{MessageFields, build_siwe_message}
use owne_x.Siwe.Verify.{NonceRow, SiweEnv, statement}

pub record IssuedChallenge : Type 0 where
  pub nonce : Text
  pub message : Text
  pub expires_at : Text

pub data IssueError : Type 0 where
  invalid_wallet not_persisted : IssueError

module _ (env : SiweEnv) (iso : ℕ → Text) where
  abbrev pub issued_fields : (address nonce : Text) → ℕ → MessageFields
  issued_fields address nonce now = record {
    domain = env.app_domain;
    address = address;
    statement = statement;
    uri = env.app_origin;
    chain_id = env.chain_id;
    nonce = nonce;
    issued_at = iso now;
    expiration_time = iso (now + 300000);
  }

  abbrev pub challenge_row : (address nonce : Text) → ℕ → NonceRow
  challenge_row address nonce now = record {
    nonce = nonce;
    wallet_address = lower address;
    domain = env.app_domain;
    expires_at = now + 300000;
    used_at = none;
  }

  abbrev pub issued_challenge : (address nonce : Text) → ℕ → IssuedChallenge
  issued_challenge address nonce now = record {
    nonce = nonce;
    message = build_siwe_message env.numerals (issued_fields address nonce now);
    expires_at = iso (now + 300000);
  }

  unfoldable pub issue_challenge :
      (answered : Bool) (nonce : Text)
      → ℕ
      → (wallet : Text) → List NonceRow
      → Outcome IssueError IssuedChallenge × List NonceRow
  issue_challenge answered nonce now wallet rows = elim (env.ethers.get_address wallet) [
    | none ↦ (thrown invalid_wallet, rows)
    | some address ↦
        if not answered || any (λ row. row.nonce === nonce) rows
        then (thrown not_persisted, rows)
        else (ok (issued_challenge address nonce now), challenge_row address nonce now ∷ rows)
  ]
