-- ===== src/Codes/Operations/RoundTrip.antt =====
-- What became of an issued code when it is presented.
use owne_x.Base.{
  ℕ, ◌+◌, ◌≤◌, ◌≡◌, ap, ◌∙◌, false, ◌&&◌, Option, none, some, List, [], ◌∷◌, ◌++◌, arith, ltb,
  length, ok, if◌then◌else◌,
}
use owne_x.Base.Text.{Text, ◌===◌, ===_refl, lower}
use owne_x.Codes.Store.{
  GrantInput, ConsumeQuery, ConsumedGrant, Row, redeemable, fresh_row, consumed_of,
}
use owne_x.Codes.Rows.{row_of, row_of-append_absent, HasDistinctCodes, HasDistinctCodes-append}
use owne_x.Codes.Memory.{memory_code_store}
use owne_x.Codes.Postgres.{Postgres, supabase_code_store}
use owne_x.Codes.Postgres.Agrees.{supabase-memory}
use owne_x.Codes.Operations.{
  authorization_code_ttl_ms, stored_grant, issue_authorization_code, consume_authorization_code,
}

-- What a partner gets for a query: the grant, if it was bound to this client and redirect URI and
-- is presented within its two minutes.
abbrev pub expected : GrantInput → ℕ → ConsumeQuery → Option ConsumedGrant
expected grant issued q =
    if grant.client_id === q.client_id
      && grant.redirect_uri === q.redirect_uri
      && ltb q.now (issued + authorization_code_ttl_ms)
    then some (record {
      app_slug = grant.app_slug;
      org_id = grant.org_id;
      wallet = lower grant.wallet;
      redirect_uri = grant.redirect_uri;
    })
    else none

module _ (grant : GrantInput) (code : Text) (issued : ℕ) (rows : List Row) where
  issued_row : Row
  issued_row = fresh_row (stored_grant grant code issued)

  issue-rows :
      row_of code rows ≡ none
      → (issue_authorization_code memory_code_store grant code issued rows).1
        ≡ rows ++ issued_row ∷ []
  unfolding issue_authorization_code memory_code_store issued_row
  issue-rows absent = ground arith

  row_of-issued : row_of code rows ≡ none → row_of code (rows ++ issued_row ∷ []) ≡ some issued_row
  unfolding issued_row row_of
  row_of-issued absent =
      ground (arith, row_of-append_absent code rows issued_row absent, ===_refl code)

consume-answer :
    (q : ConsumeQuery) (rows : List Row) (r : Row)
    → row_of q.code rows ≡ some r
    → (memory_code_store.consume q rows).0
      ≡ ok (if redeemable q r then some (consumed_of r) else none)
unfolding memory_code_store
consume-answer q rows r held = ground arith

redeemable-issued :
    (grant : GrantInput) (issued : ℕ) (q : ConsumeQuery) (rows : List Row)
    → (if redeemable q (issued_row grant q.code issued rows)
        then some (consumed_of (issued_row grant q.code issued rows))
        else none)
      ≡ expected grant issued q
unfolding redeemable issued_row
redeemable-issued grant issued q rows = ground arith

-- Where a code of at least 32 units is not in the table, the code that is issued into the store in
-- memory and presented next is redeemed for exactly its grant, the wallet in lower case, if client
-- and redirect URI are those it was issued for and less than two minutes have passed, and for
-- nothing otherwise.
pub consume-issue :
    (grant : GrantInput) (issued : ℕ) (q : ConsumeQuery) (rows : List Row)
    → 32 ≤ length q.code
    → row_of q.code rows ≡ none
    → (consume_authorization_code memory_code_store q
        (issue_authorization_code memory_code_store grant q.code issued rows).1).0
      ≡ ok (expected grant issued q)
unfolding consume_authorization_code
consume-issue grant issued q rows long absent =
    let short : ltb (length q.code) 32 ≡ false = ground arith in
    rw (short, consume_authorization_code, issue-rows grant q.code issued rows absent)
      (consume-answer q _ _ (row_of-issued grant q.code issued rows absent)
        ∙ ap (λ g. ok g) (redeemable-issued grant issued q rows))

issue-database :
    (grant : GrantInput) (code : Text) (issued : ℕ) (rows : List Row)
    → row_of code rows ≡ none
    → (issue_authorization_code supabase_code_store grant code issued
        (record { rows = rows; replies = [] })).1
      ≡ record { rows = rows ++ issued_row grant code issued rows ∷ []; replies = [] }
unfolding issue_authorization_code supabase_code_store issued_row
issue-database grant code issued rows absent = ground arith

-- Where a code of at least 32 units is not in a table of distinct codes and the database answers,
-- the code that is issued into Postgres and presented next is redeemed for exactly its grant, the
-- wallet in lower case, if client and redirect URI are those it was issued for and less than two
-- minutes have passed, and for nothing otherwise.
pub consume-issue_supabase :
    (grant : GrantInput) (issued : ℕ) (q : ConsumeQuery) (rows : List Row)
    → 32 ≤ length q.code
    → row_of q.code rows ≡ none
    → HasDistinctCodes rows
    → let db : Postgres = record { rows = rows; replies = [] } in
      (consume_authorization_code supabase_code_store q
        (issue_authorization_code supabase_code_store grant q.code issued db).1).0
      ≡ ok (expected grant issued q)
unfolding consume_authorization_code
consume-issue_supabase grant issued q rows long absent distinct =
    let short : ltb (length q.code) 32 ≡ false = ground arith in
    let rows' = rows ++ issued_row grant q.code issued rows ∷ [] in
    let distinct' =
      HasDistinctCodes-append rows (issued_row grant q.code issued rows)
        (unfold issued_row in absent) distinct in
    rw (short, consume_authorization_code, issue-database grant q.code issued rows absent)
      (rw (supabase-memory q rows' distinct') (
        consume-answer q rows' _ (row_of-issued grant q.code issued rows absent)
        ∙ ap (λ g. ok g) (redeemable-issued grant issued q rows)))
