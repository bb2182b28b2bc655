-- ===== src/Indexer/Sync/Origin.antt =====
-- Where the rows of the table come from.
use owne_x.Base.{
  subst, ℕ, ◌≡◌, ◌⊎◌, inl, inr, refl, sym, Bool, Option, some, List, [], ◌∷◌, Memᴰ, Memᴰ-filter,
  Option-cases, Bool-cases, ok,
}
use owne_x.Indexer.Events.{
  ContractName, Conversions, EventLog, Log, decoded, undecoded, TrackedEvent, tracked_event,
}
use owne_x.Indexer.Cache.{Cache, CacheRow, Request, upsert_all, has_key}
use owne_x.Indexer.Sync.{
  done, failed, out_of_fuel, Run, ChainNode, Settings, row_of_event, rows_of, push_event,
  sync_events,
}
use owne_x.Indexer.Sync.Kept.{Leaves, sync_events-Leaves}
use owne_x.Indexer.Sync.Loop.{Ends, sync_events-Ends}

-- The run has not run out of fuel, and the tables it leaves have the property.
abbrev pub EndsWith {ℓ} : {A : Type ℓ} → (Cache → Type 0) → Run A → Type 0
EndsWith P (done cache a) = P cache
EndsWith P (failed cache reason) = P cache
EndsWith P out_of_fuel = ⊥

Leaves-EndsWith {ℓ} :
    {A : Type ℓ} (P : Cache → Type 0) (m : Run A) → Leaves P m → Ends m → EndsWith P m
Leaves-EndsWith P (done cache a) h e = h
Leaves-EndsWith P (failed cache reason) h e = h
Leaves-EndsWith P out_of_fuel h e = e

-- The row tells a tracked event of a log that the node gave for the contract: its transaction, its
-- block, its index in the block and its name.
pub record IsOfLog (node : ChainNode) (r : CacheRow) : Type 0 where
  pub start : ℕ
  pub stop : ℕ
  pub logs : List Log
  pub given : node.query_filter r.contract_name start stop ≡ ok logs
  pub log : EventLog
  pub there : Memᴰ (decoded log) logs
  pub event : TrackedEvent
  pub tracked : tracked_event log.event_name ≡ some event
  pub transaction : r.tx_hash ≡ log.transaction_hash
  pub position : r.log_index ≡ log.index
  pub block : r.block_number ≡ log.block_number
  pub name : r.event_name ≡ log.event_name

Memᴰ-upsert_all :
    (r : CacheRow) (new rows : List CacheRow)
    → Memᴰ r (upsert_all new rows)
    → Memᴰ r new ⊎ Memᴰ r rows
unfolding upsert_all
Memᴰ-upsert_all r [] rows m = inr m
Memᴰ-upsert_all r (s ∷ new) rows m = elim (Bool-cases (has_key s rows)) [
  | inl known ↦ elim (Memᴰ-upsert_all r new rows (rw known at m)) [
    | inl added ↦ inl (Memᴰ.tail added)
    | inr old ↦ inr old
  ]
  | inr fresh ↦ elim (Memᴰ-upsert_all r new (s ∷ rows) (rw fresh at m)) [
    | inl added ↦ inl (Memᴰ.tail added)
    | inr (Memᴰ.head e) ↦ inl (Memᴰ.head e)
    | inr (Memᴰ.tail old) ↦ inr old
  ]
]

module _ (js : Conversions) (node : ChainNode) where
  -- A row of the logs is that of one of them.
  Memᴰ-rows_of :
      (name : ContractName) (logs : List Log) (r : CacheRow)
      → Memᴰ r (rows_of js name logs)
      → (log : EventLog) × Memᴰ (decoded log) logs
        × ((event : TrackedEvent) × (tracked_event log.event_name ≡ some event)
            × (r ≡ row_of_event js name log event))
  unfolding rows_of
  Memᴰ-rows_of name [] r m = elim m [ ]
  Memᴰ-rows_of name (undecoded ∷ logs) r m =
      let (log, there, e) = Memᴰ-rows_of name logs r m in (log, Memᴰ.tail there, e)
  Memᴰ-rows_of name (decoded log ∷ logs) r m = elim (Option-cases (tracked_event log.event_name)) [
    | inl untracked ↦ earlier (Memᴰ-rows_of name logs r (rw (untracked, push_event) at m))
    | inr (event, e) ↦ pushed event e (Memᴰ-rows_of name logs r) (rw (e, push_event) at m)
  ]
    where
      earlier :
          (other : EventLog) × Memᴰ (decoded other) logs
            × ((event : TrackedEvent) × (tracked_event other.event_name ≡ some event)
                × (r ≡ row_of_event js name other event))
          → (other : EventLog) × Memᴰ (decoded other) (decoded log ∷ logs)
            × ((event : TrackedEvent) × (tracked_event other.event_name ≡ some event)
                × (r ≡ row_of_event js name other event))
      earlier (other, there, e) = (other, Memᴰ.tail there, e)

      pushed :
          (event : TrackedEvent)
          → tracked_event log.event_name ≡ some event
          → (Memᴰ r (rows_of js name logs)
              → (other : EventLog) × Memᴰ (decoded other) logs
                × ((event : TrackedEvent) × (tracked_event other.event_name ≡ some event)
                    × (r ≡ row_of_event js name other event)))
          → Memᴰ r (row_of_event js name log event ∷ rows_of js name logs)
          → (other : EventLog) × Memᴰ (decoded other) (decoded log ∷ logs)
            × ((event : TrackedEvent) × (tracked_event other.event_name ≡ some event)
                × (r ≡ row_of_event js name other event))
      pushed event e rec (Memᴰ.head same) = (log, Memᴰ.head refl, (event, e, same))
      pushed event e rec (Memᴰ.tail m) = earlier (rec m)

  rows_of-IsOfLog :
      (name : ContractName) (start stop : ℕ) (logs : List Log) (r : CacheRow)
      → node.query_filter name start stop ≡ ok logs
      → Memᴰ r (rows_of js name logs)
      → IsOfLog node r
  unfolding row_of_event
  rows_of-IsOfLog name start stop logs r e m =
      let (log, there, (event, tracked, same)) = Memᴰ-rows_of name logs r m in
      subst (IsOfLog node) (sym same) (record {
        start = start;
        stop = stop;
        logs = logs;
        given = e;
        log = log;
        there = there;
        event = event;
        tracked = tracked;
        transaction = refl;
        position = refl;
        block = refl;
        name = refl;
      })

  -- Every row was there before or is that of a log.
  abbrev pub HasOrigin : (before rows : List CacheRow) → Type 0
  HasOrigin before rows = (r : CacheRow) → Memᴰ r rows → Memᴰ r before ⊎ IsOfLog node r

  HasOrigin-upserted :
      (before : List CacheRow) (name : ContractName) (start stop : ℕ) (logs : List Log)
      (rows : List CacheRow)
      → node.query_filter name start stop ≡ ok logs
      → HasOrigin before rows
      → HasOrigin before (upsert_all (rows_of js name logs) rows)
  HasOrigin-upserted before name start stop logs rows e h r m =
      elim (Memᴰ-upsert_all r (rows_of js name logs) rows m) [
        | inl added ↦ inr (rows_of-IsOfLog name start stop logs r e added)
        | inr old ↦ h r old
      ]

  -- Whatever the node answers and whichever requests are refused, a sync does not run out of fuel,
  -- and however it ends each row of the table was there before or tells a tracked event of a log
  -- that the node gave for the contract of the row, with the transaction, the index, the block and
  -- the name of that log.
  pub sync_events-HasOrigin :
      (answers : Request → Bool) (env : Settings) (from_block : Option ℕ) (cache : Cache)
      → EndsWith
          (λ after. HasOrigin cache.rows after.rows)
          (sync_events js node answers env from_block cache)
  sync_events-HasOrigin answers env from_block cache =
      Leaves-EndsWith (λ after. HasOrigin cache.rows after.rows)
        (sync_events js node answers env from_block cache)
        (sync_events-Leaves js node answers env (HasOrigin cache.rows)
          (HasOrigin-upserted cache.rows) (λ p rows h r m. h r (Memᴰ-filter p r rows m).0)
          from_block cache (λ r m. inl m))
        (sync_events-Ends js node answers env from_block cache)
