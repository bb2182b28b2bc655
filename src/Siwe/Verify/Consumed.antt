-- ===== src/Siwe/Verify/Consumed.antt =====
-- What a completed sign-in rests on, and that its nonce cannot complete another.
use owne_x.Base.{
  ℕ, ◌<◌, ◌≡◌, ◌≢◌, refl, sym, ap, ◌∙◌, inl, inr, Bool, true, false, not, Option, none, some, List,
  [], ◌∷◌, map, arith, any, leb, Outcome, Outcome-cases, ok, >>=-ok,
}
use owne_x.Base.Text.{Text, ◌===◌, ===_iff, lower}
use owne_x.Siwe.Message.{SiweFields, build_siwe_message, parse_siwe_message}
use owne_x.Siwe.Verify.{
  NonceRow, SiweEnv, Refusal, verified, is_fresh, is_number, is_past, is_claimed, claim_nonce,
  consume_nonce, read_row, refuse_unless, or_refuse, expected_fields, check_signature, check_row,
  check_parsed, check_challenge, verify_challenge,
}

refuse_unless-ok : (b : Bool) (r : Refusal) (u : Unit {0}) → refuse_unless b r ≡ ok u → b ≡ true
unfolding refuse_unless
refuse_unless-ok b r u h = ground arith

or_refuse-ok : (o : Option Text) (r : Refusal) (a : Text) → or_refuse o r ≡ ok a → o ≡ some a
unfolding or_refuse
or_refuse-ok none r a h = cc
or_refuse-ok (some b) r a h = cc

or_refuse-ok_fields :
    (o : Option SiweFields) (r : Refusal) (a : SiweFields) → or_refuse o r ≡ ok a → o ≡ some a
unfolding or_refuse
or_refuse-ok_fields none r a h = cc
or_refuse-ok_fields (some b) r a h = cc

or_refuse-ok_row :
    (o : Option NonceRow) (r : Refusal) (a : NonceRow) → or_refuse o r ≡ ok a → o ≡ some a
unfolding or_refuse
or_refuse-ok_row none r a h = cc
or_refuse-ok_row (some b) r a h = cc

module _ (env : SiweEnv) (now : ℕ) where
  -- The message and its signature prove the address, and the stored nonce allows it.
  pub record IsSigned (message signature : Text) (read : Bool) (before : List NonceRow)
      (nonce address : Text) : Type 0 where
    pub parsed : SiweFields
    pub message_parsed : parse_siwe_message env.numerals message ≡ some parsed
    pub nonce_of : nonce ≡ parsed.nonce
    pub domain : parsed.domain ≡ env.app_domain
    pub network : parsed.chain_id ≡ some env.chain_id
    pub wallet : env.ethers.get_address parsed.address ≡ some address
    pub row : NonceRow
    pub row_read : read_row read parsed.nonce before ≡ ok (some row)
    pub unused : row.used_at ≡ none
    pub current : now < row.expires_at
    pub issued_to : row.wallet_address ≡ lower address
    pub as_issued :
        message ≡ build_siwe_message env.numerals (expected_fields env now parsed address row)
    pub recovered : Text
    pub signed : env.ethers.verify_message message signature ≡ some recovered
    pub signer : env.ethers.get_address recovered ≡ some address

  is_number-true : (o : Option ℕ) (n : ℕ) → is_number o n ≡ true → o ≡ some n
  is_number-true none n h = cc
  is_number-true (some m) n h = ground arith

  check_row-ok :
      (row : NonceRow) (address : Text) (u : Unit {0})
      → check_row env now row address ≡ ok u
      → (row.used_at ≡ none) × (now < row.expires_at) × (row.wallet_address ≡ lower address)
  unfolding check_row
  check_row-ok row address u h =
      let (_, e1, h1) = >>=-ok (refuse_unless (is_fresh row.used_at) _) _ h in
      let (_, e2, h2) = >>=-ok (refuse_unless (not (leb row.expires_at now)) _) _ h1 in
      let fresh = refuse_unless-ok (is_fresh row.used_at) _ _ e1 in
      let later = refuse_unless-ok (not (leb row.expires_at now)) _ _ e2 in
      let wallet = refuse_unless-ok (row.wallet_address === lower address) _ u h2 in
      (ground arith, ground arith, (===_iff row.wallet_address (lower address)).0 wallet)

  check_parsed-ok :
      (parsed : SiweFields) (address : Text)
      → check_parsed env now parsed ≡ ok address
      → (parsed.domain ≡ env.app_domain)
        × (parsed.chain_id ≡ some env.chain_id)
        × (env.ethers.get_address parsed.address ≡ some address)
  unfolding check_parsed
  check_parsed-ok parsed address h =
      let (_, e1, h1) = >>=-ok (refuse_unless (parsed.domain === env.app_domain) _) _ h in
      let (_, e2, h2) = >>=-ok (refuse_unless (is_number parsed.chain_id env.chain_id) _) _ h1 in
      let (_, e3, h3) =
        >>=-ok (refuse_unless (not (is_past (env.time_of parsed.expiration_time) now)) _) _ h2 in
      (
        (===_iff parsed.domain env.app_domain).0
            (refuse_unless-ok (parsed.domain === env.app_domain) _ _ e1),
        is_number-true parsed.chain_id env.chain_id
            (refuse_unless-ok (is_number parsed.chain_id env.chain_id) _ _ e2),
        or_refuse-ok (env.ethers.get_address parsed.address) _ address h3,
      )

  check_signature-ok :
      (message signature address : Text) (u : Unit {0})
      → check_signature env now message signature address ≡ ok u
      → (recovered : Text) × (env.ethers.verify_message message signature ≡ some recovered)
        × (env.ethers.get_address recovered ≡ some address)
  unfolding check_signature
  check_signature-ok message signature address u h =
      let (recovered, e1, h1) =
        >>=-ok (or_refuse (env.ethers.verify_message message signature) _) _ h in
      let (signer, e2, h2) = >>=-ok (or_refuse (env.ethers.get_address recovered) _) _ h1 in
      let same = (===_iff signer address).0 (refuse_unless-ok (signer === address) _ u h2) in
      let found = or_refuse-ok (env.ethers.get_address recovered) _ signer e2 in
      (
        recovered,
        or_refuse-ok (env.ethers.verify_message message signature) _ recovered e1,
        rw (same) at found,
      )

  row-IsSigned :
      (message signature : Text) (read : Bool) (before : List NonceRow) (nonce address : Text)
      (parsed : SiweFields) (a : Text) (found : Option NonceRow) (row : NonceRow) (u v : Unit {0})
      → parse_siwe_message env.numerals message ≡ some parsed
      → check_parsed env now parsed ≡ ok a
      → read_row read parsed.nonce before ≡ ok found
      → found ≡ some row
      → check_row env now row a ≡ ok u
      → (build_siwe_message env.numerals (expected_fields env now parsed a row) === message) ≡ true
      → check_signature env now message signature a ≡ ok v
      → ◌≡◌ {A = Outcome Refusal (Text × Text)} (ok (parsed.nonce, a)) (ok (nonce, address))
      → IsSigned message signature read before nonce address
  row-IsSigned message signature read before nonce address parsed a found row u v e1 e2 e3 e4 e5 e6
        e7 h =
      let is_a : a ≡ address = ground arith in
      let is_nonce : nonce ≡ parsed.nonce = ground arith in
      let (domain, network, wallet) = check_parsed-ok parsed address (e2 ∙ ap (λ t. ok t) is_a) in
      let (unused, current, issued_to) = check_row-ok row a u e5 in
      let (recovered, signed, signer) = check_signature-ok message signature a v e7 in
      let built =
        (===_iff (build_siwe_message env.numerals (expected_fields env now parsed a row)) message).0
          e6 in
      record {
        parsed = parsed;
        message_parsed = e1;
        nonce_of = is_nonce;
        domain = domain;
        network = network;
        wallet = wallet;
        row = row;
        row_read = e3 ∙ ap (λ f. ok f) e4;
        unused = unused;
        current = current;
        issued_to = issued_to ∙ ap lower is_a;
        as_issued =
            sym built
            ∙ ap (λ t. build_siwe_message env.numerals (expected_fields env now parsed t row)) is_a;
        recovered = recovered;
        signed = signed;
        signer = signer ∙ ap (λ t. some t) is_a;
      }

  check_challenge-ok :
      (message signature : Text) (read : Bool) (before : List NonceRow) (nonce address : Text)
      → ◌≡◌ {A = Outcome Refusal (Text × Text)}
          (check_challenge env now message signature read before)
          (ok (nonce, address))
      → IsSigned message signature read before nonce address
  unfolding check_challenge
  check_challenge-ok message signature read before nonce address h =
      let (parsed, e1, h1) = >>=-ok (or_refuse (parse_siwe_message env.numerals message) _) _ h in
      let (a, e2, h2) = >>=-ok (check_parsed env now parsed) _ h1 in
      let (found, e3, h3) = >>=-ok (read_row read parsed.nonce before) _ h2 in
      let (row, e4, h4) = >>=-ok (or_refuse found _) _ h3 in
      let (_, e5, h5) = >>=-ok (check_row env now row a) _ h4 in
      let (_, e6, h6) =
        >>=-ok
          (refuse_unless
            (build_siwe_message env.numerals (expected_fields env now parsed a row) === message) _)
          _ h5 in
      let (_, e7, h7) = >>=-ok (check_signature env now message signature a) _ h6 in
      row-IsSigned message signature read before nonce address parsed a found row _ _
        (or_refuse-ok_fields (parse_siwe_message env.numerals message) _ parsed e1) e2 e3
        (or_refuse-ok_row found _ row e4) e5
        (refuse_unless-ok
          (build_siwe_message env.numerals (expected_fields env now parsed a row) === message) _ _
          e6)
        e7 h7

  -- The claimed rows are used after the update.
  consume_nonce-verified :
      (written : Bool) (nonce address wallet : Text) (rows : List NonceRow)
      → (consume_nonce written now nonce address rows).0 ≡ verified wallet
      → (address ≡ wallet)
        × (any (is_claimed nonce) rows ≡ true)
        × ((consume_nonce written now nonce address rows).1 ≡ map (claim_nonce now nonce) rows)
  unfolding consume_nonce
  consume_nonce-verified written nonce address wallet rows h =
      (ground arith, ground arith, ground arith)

claimed-none :
    (now : ℕ) (nonce : Text) (rows : List NonceRow)
    → any (is_claimed nonce) (map (claim_nonce now nonce) rows) ≡ false
unfolding claim_nonce is_claimed
claimed-none now nonce [] = refl
claimed-none now nonce (row ∷ rows) = ground (arith, claimed-none now nonce rows)

-- A sign-in that is completed: the message is signed, and its nonce was still unused at the update.
pub record Completed (env : SiweEnv) (now : ℕ) (message signature : Text) (read written : Bool)
    (before rows : List NonceRow) (wallet : Text) : Type 0 where
  pub nonce : Text
  pub signed : IsSigned env now message signature read before nonce wallet
  pub claimed : any (is_claimed nonce) rows ≡ true
  pub left :
      (verify_challenge env now message signature read written before rows).1
      ≡ map (claim_nonce now nonce) rows

-- Where a signed challenge is verified for a wallet, the message parses, is of this domain and
-- network and is byte for byte the one derived from the stored row, the row of its nonce is
-- unused, not expired and issued to that wallet, the signature recovers to it, and the nonce was
-- still unused at the update, which leaves it used.
pub verify_challenge-Completed :
    (env : SiweEnv) (now : ℕ) (message signature : Text) (read written : Bool)
    (before rows : List NonceRow) (wallet : Text)
    → (verify_challenge env now message signature read written before rows).0 ≡ verified wallet
    → Completed env now message signature read written before rows wallet
unfolding verify_challenge
verify_challenge-Completed env now message signature read written before rows wallet h =
    elim (Outcome-cases (check_challenge env now message signature read before)) [
      | inr (refusal, e) ↦ absurd (ground arith)
      | inl ((nonce, address), e) ↦
          let done : (consume_nonce written now nonce address rows).0 ≡ verified wallet =
            ground arith in
          let (is_wallet, claimed, left) =
            consume_nonce-verified env now written nonce address wallet rows done in
          record {
            nonce = nonce;
            signed =
                check_challenge-ok env now message signature read before nonce wallet
                  (e ∙ ap (λ w. ok (nonce, w)) is_wallet);
            claimed = claimed;
            left = rw (e, verify_challenge) left;
          }
    ]

nonce_parsed :
    (env : SiweEnv) (now : ℕ) {message signature nonce wallet : Text} {read : Bool}
    {before : List NonceRow} {parsed : SiweFields}
    → IsSigned env now message signature read before nonce wallet
    → parse_siwe_message env.numerals message ≡ some parsed
    → nonce ≡ parsed.nonce
nonce_parsed env now v e = let found = v.message_parsed in let of = v.nonce_of in ground arith

again :
    (now : ℕ) {nonce nonce' of of' : Text} (rows : List NonceRow) {rows' : List NonceRow}
    → nonce ≡ of
    → nonce' ≡ of'
    → of ≡ of'
    → rows' ≡ map (claim_nonce now nonce) rows
    → any (is_claimed nonce') rows' ≡ true
    → ⊥
again now {nonce = n} {nonce' = n'} rows a b c left claimed =
    let none_left = claimed-none now n rows in let same : n' ≡ n = b ∙ sym c ∙ sym a in ground arith

-- After a challenge was verified, no message with the same nonce is verified when the next update
-- runs on the table that it left, whatever that request had read before.
pub verify_challenge-once :
    (env : SiweEnv) (now now' : ℕ) (message message' signature signature' : Text)
    (read read' written written' : Bool) (before before' rows : List NonceRow) (wallet : Text)
    (parsed parsed' : SiweFields)
    → parse_siwe_message env.numerals message ≡ some parsed
    → parse_siwe_message env.numerals message' ≡ some parsed'
    → parsed.nonce ≡ parsed'.nonce
    → (verify_challenge env now message signature read written before rows).0 ≡ verified wallet
    → (wallet' : Text)
    → (verify_challenge env now' message' signature' read' written' before'
        (verify_challenge env now message signature read written before rows).1).0
      ≢ verified wallet'
verify_challenge-once env now now' message message' signature signature' read read' written written'
      before before' rows wallet parsed parsed' e e' same h wallet' h' =
    let c =
      verify_challenge-Completed env now message signature read written before rows wallet h in
    let c' =
      verify_challenge-Completed env now' message' signature' read' written' before' _ wallet' h' in
    again now rows (nonce_parsed env now c.signed e) (nonce_parsed env now' c'.signed e') same
      c.left c'.claimed
