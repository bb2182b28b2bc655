-- ===== src/Siwe/Tests.antt =====
-- One sign-in, and the same message again.
use owne_x.Base.{ℕ, ok, ◌≡◌, ◌≢◌, refl, true, none, some, [], ◌∷◌}
use owne_x.Base.Text.{
  Text, codes, ◌===◌, is_empty, lower, trim, drop_while, drop_while_end, split, join, starts_with,
  take, drop,
}
use owne_x.Siwe.Message.{SiweFields, build_siwe_message, parse_siwe_message}
use owne_x.Siwe.Verify.{
  SiweEnv, NonceRow, verified, verify_challenge, consume_nonce, expected_fields,
}
use owne_x.Siwe.Verify.Stored.{Stored, issue_challenge-Stored}
use owne_x.Siwe.Issue.{issue_challenge, issued_challenge}
use owne_x.Siwe.Verify.Consumed.{Completed, verify_challenge-Completed, verify_challenge-once}

abbrev env : SiweEnv
env = record {
  app_domain = codes "ownex.example";
  app_origin = codes "https://ownex.example";
  chain_id = 1;
  numerals = record { text_of = λ n. codes "1"; number = λ t. some 1 };
  ethers = record { get_address = λ t. some t; verify_message = λ m s. some s };
  time_of = λ t. some 900;
}

abbrev fields : SiweFields
fields = record {
  domain = codes "ownex.example";
  address = codes "0xA1";
  statement =
      codes "Sign in to OwneX. This request is free and will not create a blockchain transaction.";
  uri = codes "https://ownex.example";
  chain_id = some 1;
  nonce = codes "abc";
  issued_at = codes "now";
  expiration_time = codes "soon";
}

abbrev row : NonceRow
row = record {
  nonce = codes "abc";
  wallet_address = codes "0xa1";
  domain = codes "ownex.example";
  expires_at = 900;
  used_at = none;
}

abbrev message : Text
message = build_siwe_message env.numerals (expected_fields env 5 fields (codes "0xA1") row)

parsed_run : parse_siwe_message env.numerals message ≡ some fields
unfolding parse_siwe_message build_siwe_message join split ◌===◌ is_empty trim drop_while
    drop_while_end starts_with take drop
parsed_run = refl

verified_run :
    (verify_challenge env 5 message (codes "0xA1") true true (row ∷ []) (row ∷ [])).0
    ≡ verified (codes "0xA1")
unfolding verify_challenge consume_nonce parse_siwe_message build_siwe_message join split ◌===◌
    is_empty trim drop_while drop_while_end starts_with take drop lower
verified_run = refl

verify_challenge-Completed_example :
    Completed env 5 message (codes "0xA1") true true (row ∷ []) (row ∷ []) (codes "0xA1")
verify_challenge-Completed_example =
    verify_challenge-Completed env 5 message (codes "0xA1") true true (row ∷ []) (row ∷ [])
      (codes "0xA1") verified_run

verify_challenge-once_example :
    (verify_challenge env 6 message
      (codes "0xA1")
      true
      true
      (row ∷ [])
      (verify_challenge env 5 message (codes "0xA1") true true (row ∷ []) (row ∷ [])).1).0
    ≢ verified (codes "0xA1")
verify_challenge-once_example =
    verify_challenge-once env 5 6 message message (codes "0xA1") (codes "0xA1") true true true true
      (row ∷ []) (row ∷ []) (row ∷ []) (codes "0xA1") fields fields parsed_run parsed_run refl
      verified_run (codes "0xA1")

abbrev iso : ℕ → Text
iso n = codes "now"

issue_run :
    (issue_challenge env iso true (codes "def") 5 (codes "0xA1") (row ∷ [])).0
    ≡ ok (issued_challenge env iso (codes "0xA1") (codes "def") 5)
unfolding issue_challenge ◌===◌
issue_run = refl

issue_challenge-Stored_example :
    Stored env iso 5
      (codes "0xA1")
      (issued_challenge env iso (codes "0xA1") (codes "def") 5)
      (issue_challenge env iso true (codes "def") 5 (codes "0xA1") (row ∷ [])).1
issue_challenge-Stored_example =
    issue_challenge-Stored env iso true (codes "def") 5 (codes "0xA1") (row ∷ [])
      (issued_challenge env iso (codes "0xA1") (codes "def") 5) issue_run
