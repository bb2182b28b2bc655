-- ===== src/Siwe/Verify/Stored.antt =====
-- What the issue of a challenge leaves for its verification.
use owne_x.Base.{
  subst, inr, inl, ℕ, ◌+◌, ◌<◌, ◌≡◌, ◌↔◌, refl, Bool, true, false, not, ◌||◌, some, List, [], ◌∷◌,
  any, filter, arith, Bool-cases, Option-cases, Outcome, ok,
}
use owne_x.Base.Text.{Text, ◌===◌, ===_iff, ===_refl, lower}
use owne_x.Siwe.Message.{SiweFields, build_siwe_message}
use owne_x.Siwe.Verify.{NonceRow, SiweEnv, read_row, check_row, refuse_unless, expected_fields}
use owne_x.Siwe.Issue.{
  IssuedChallenge, issued_challenge, challenge_row, IssueError, issue_challenge,
}

filter-none :
    (nonce : Text) (rows : List NonceRow)
    → any (λ row. row.nonce === nonce) rows ≡ false
    → filter (λ row. row.nonce === nonce) rows ≡ []
filter-none nonce [] h = refl
filter-none nonce (row ∷ rows) h = ground (arith, filter-none nonce rows)

filter-first :
    (row : NonceRow) (rows : List NonceRow)
    → any (λ r. r.nonce === row.nonce) rows ≡ false
    → filter (λ r. r.nonce === row.nonce) (row ∷ rows) ≡ row ∷ []
filter-first row rows h = ground (arith, ===_refl row.nonce, filter-none row.nonce rows h)

module _ (env : SiweEnv) (iso : ℕ → Text) where
  -- The stored row, and what the verification makes of it.
  pub record Stored (now : ℕ) (wallet : Text) (challenge : IssuedChallenge) (after : List NonceRow)
      : Type 0 where
    pub address : Text
    pub row : NonceRow
    pub checksummed : env.ethers.get_address wallet ≡ some address
    pub row_read : read_row true challenge.nonce after ≡ ok (some row)
    pub accepted :
        (t : ℕ) (a : Text)
        → (check_row env t row a ≡ ok tt) ↔ ((t < now + 300000) × (lower address ≡ lower a))
    pub derived :
        (t : ℕ) (parsed : SiweFields)
        → parsed.nonce ≡ challenge.nonce
        → parsed.issued_at ≡ iso now
        → parsed.expiration_time ≡ challenge.expires_at
        → build_siwe_message env.numerals (expected_fields env t parsed address row)
          ≡ challenge.message

  challenge_row-read :
      (address nonce : Text) (now : ℕ) (rows : List NonceRow)
      → any (λ row. row.nonce === nonce) rows ≡ false
      → read_row true nonce (challenge_row env iso address nonce now ∷ rows)
        ≡ ok (some (challenge_row env iso address nonce now))
  unfolding read_row
  challenge_row-read address nonce now rows fresh =
      rw (filter-first (challenge_row env iso address nonce now) rows fresh, read_row) refl

  challenge_row-accepted :
      (address nonce : Text) (now t : ℕ) (a : Text)
      → (check_row env t (challenge_row env iso address nonce now) a ≡ ok tt)
        ↔ ((t < now + 300000) × (lower address ≡ lower a))
  unfolding check_row refuse_unless
  challenge_row-accepted address nonce now t a = ground (arith, ===_iff (lower address) (lower a))

  issued-Stored :
      (address nonce : Text) (now : ℕ) (wallet : Text) (rows : List NonceRow)
      → env.ethers.get_address wallet ≡ some address
      → any (λ row. row.nonce === nonce) rows ≡ false
      → Stored now wallet
          (issued_challenge env iso address nonce now)
          (challenge_row env iso address nonce now ∷ rows)
  issued-Stored address nonce now wallet rows e fresh = record {
    address = address;
    row = challenge_row env iso address nonce now;
    checksummed = e;
    row_read = challenge_row-read address nonce now rows fresh;
    accepted = challenge_row-accepted address nonce now;
    derived = λ t parsed n i x. rw (n, i, x) refl;
  }

  -- Where a challenge is issued for a wallet, the row that a verification then reads for its nonce
  -- passes the checks of the row exactly before five minutes after the issue and for an address
  -- that agrees with the checksummed wallet up to case, and the message that the verification
  -- derives of that row and of the nonce and the two times of the challenge is the message that
  -- was issued.
  pub issue_challenge-Stored :
      (answered : Bool) (nonce : Text) (now : ℕ) (wallet : Text) (rows : List NonceRow)
      (challenge : IssuedChallenge)
      → (issue_challenge env iso answered nonce now wallet rows).0 ≡ ok challenge
      → Stored now wallet challenge (issue_challenge env iso answered nonce now wallet rows).1
  unfolding issue_challenge
  issue_challenge-Stored answered nonce now wallet rows challenge h =
      elim (Option-cases (env.ethers.get_address wallet)) [
        | inl bad ↦ absurd (cc (rw (bad, issue_challenge) at h))
        | inr (address, e) ↦
            elim (Bool-cases (not answered || any (λ row. row.nonce === nonce) rows)) [
              | inl refused ↦ absurd (cc (rw (e, refused, issue_challenge) at h))
              | inr stored ↦
                  rw (e, stored, issue_challenge)
                    (subst
                      (λ c. Stored now wallet c (challenge_row env iso address nonce now ∷ rows))
                      (is_challenge (rw (e, stored, issue_challenge) at h))
                      (issued-Stored address nonce now wallet rows e (ground arith)))
            ]
      ]
    where
      is_challenge :
          {c : IssuedChallenge}
          → ◌≡◌ {A = Outcome IssueError IssuedChallenge} (ok c) (ok challenge)
          → c ≡ challenge
      is_challenge g = cc g
