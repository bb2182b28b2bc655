-- ===== src/Codes/Postgres.antt =====
-- apps/platform/lib/authorize-store.ts: `supabaseCodeStore`. The state is the table and how the
-- database will answer: each request takes the next reply, and every request after the last is
-- answered. A request may be refused with nothing changed, for an outage or a constraint of the
-- schema, and its answer may be lost after the change was made; either way the client throws.
pub mod Lawful
pub mod Agrees
use owne_x.Base.{
  ℕ, Bool, not, ◌&&◌, Option, none, some, List, [], ◌∷◌, ◌++◌, map, ltb, if◌then◌else◌, filter,
  Read, ok, thrown,
}
use owne_x.Base.Text.{Text, codes, ◌===◌}
use owne_x.Codes.Store.{
  StoredGrant, ConsumeQuery, ConsumedGrant, Row, AuthorizationCodeStore, is_unused, fresh_row,
  used_row, consumed_of,
}
use owne_x.Codes.Rows.{row_of}

pub data Reply : Type 0 where
  delivered refused lost : Reply

pub record Postgres : Type 0 where
  pub rows : List Row
  pub replies : List Reply

abbrev next_reply : List Reply → Reply × List Reply
next_reply [] = (delivered, [])
next_reply (r ∷ rs) = (r, rs)

-- The `where` of the conditional update.
pub matches : ConsumeQuery → Row → Bool
matches q r =
    r.grant.code === q.code
    && r.grant.input.client_id === q.client_id
    && r.grant.input.redirect_uri === q.redirect_uri
    && is_unused r.used_at
    && ltb q.now r.grant.expires_at

pub claim : ConsumeQuery → Row → Row
unfolding matches
claim q r = if matches q r then used_row q r else r

-- `maybeSingle()`: more than one row is an error.
single : List Row → Read (Option ConsumedGrant)
single [] = ok none
single (r ∷ []) = ok (some (consumed_of r))
single (r ∷ r' ∷ rs) = thrown (codes "Could not consume the authorization code")

insert_reply : Reply → StoredGrant → List Row → Read (Unit {0}) × List Row
insert_reply refused grant rows = (thrown (codes "Could not issue an authorization code"), rows)
insert_reply reply grant rows = elim (row_of grant.code rows) [
  | some _ ↦ (thrown (codes "Could not issue an authorization code"), rows)
  | none ↦ (
    elim reply [ lost ↦ thrown (codes "Could not issue an authorization code") | _ ↦ ok tt ],
    rows ++ fresh_row grant ∷ [],
  )
]

consume_reply : Reply → ConsumeQuery → List Row → Read (Option ConsumedGrant) × List Row
unfolding matches claim single
consume_reply refused q rows = (thrown (codes "Could not consume the authorization code"), rows)
consume_reply lost q rows =
    (thrown (codes "Could not consume the authorization code"), map (claim q) rows)
consume_reply delivered q rows = (single (filter (matches q) rows), map (claim q) rows)

supabase_insert : StoredGrant → Postgres → Read (Unit {0}) × Postgres
unfolding insert_reply
supabase_insert grant db =
    let (reply, replies) = next_reply db.replies in
    let (answer, rows) = insert_reply reply grant db.rows in
    (answer, record { rows = rows; replies = replies })

supabase_consume : ConsumeQuery → Postgres → Read (Option ConsumedGrant) × Postgres
unfolding consume_reply
supabase_consume q db =
    let (reply, replies) = next_reply db.replies in
    let (answer, rows) = consume_reply reply q db.rows in
    (answer, record { rows = rows; replies = replies })

unfoldable pub supabase_code_store : AuthorizationCodeStore Postgres
unfolding supabase_insert supabase_consume
supabase_code_store = record { insert = supabase_insert; consume = supabase_consume }
