-- ===== src/Codes/Memory.antt =====
-- apps/platform/lib/authorize.ts: `createMemoryCodeStore`. Its state is the map's rows.
pub mod Lawful
use owne_x.Base.{Option, none, some, List, [], ◌∷◌, ◌++◌, map, if◌then◌else◌, Read, ok, thrown}
use owne_x.Base.Text.{Text, codes, ◌===◌}
use owne_x.Codes.Store.{
  StoredGrant, ConsumeQuery, ConsumedGrant, Row, AuthorizationCodeStore, redeemable, fresh_row,
  used_row, consumed_of,
}
use owne_x.Codes.Rows.{row_of}

memory_insert : StoredGrant → List Row → Read (Unit {0}) × List Row
memory_insert grant rows = elim (row_of grant.code rows) [
  | some _ ↦ (thrown (codes "Duplicate authorization code"), rows)
  | none ↦ (ok tt, rows ++ fresh_row grant ∷ [])
]

-- `row.usedAt = …` on the row of that key.
unfoldable pub mark_used : ConsumeQuery → Row → Row
mark_used q r = if r.grant.code === q.code then used_row q r else r

memory_consume : ConsumeQuery → List Row → Read (Option ConsumedGrant) × List Row
unfolding mark_used
memory_consume q rows = elim (row_of q.code rows) [
  | none ↦ (ok none, rows)
  | some row ↦
      if redeemable q row
      then (ok (some (consumed_of row)), map (mark_used q) rows)
      else (ok none, rows)
]

unfoldable pub memory_code_store : AuthorizationCodeStore (List Row)
unfolding memory_insert memory_consume
memory_code_store = record { insert = memory_insert; consume = memory_consume }
