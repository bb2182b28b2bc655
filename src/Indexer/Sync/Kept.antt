-- ===== src/Indexer/Sync/Kept.antt =====
-- A property of the rows that upserts of indexed rows and deletions keep is one of the rows that
-- every run leaves, whichever requests are refused.
use owne_x.Base.{
  ℕ, suc, zero, ◌+◌, ◌-◌, inl, inr, Bool, true, false, Option, List, [], ◌∷◌, leb, ltb, Bool-cases,
  if◌then◌else◌, filter, not, ◌≡◌, Outcome-cases, Outcome, ok, thrown,
}
use owne_x.Base.Text.{Text}
use owne_x.Indexer.Events.{ContractName, Conversions, Log}
use owne_x.Indexer.Cache.{
  upsert_all, same_contract, Cache, CacheRow, Request, purge_contract_cache, PurgeCause,
}
use owne_x.Indexer.Sync.{
  ◌and_then◌, out_of_fuel, failed, chunk_size, detect_chain_reset, Progress, asks_rebuild, rows_of,
  record_height, min, first_block, restart, store_rows, invalidate, sync_events, sync_contracts,
  sync_contract, index_from, done, index_chunks, index_chunk, Settings, await, Run, ChainNode,
}

-- The tables that a run leaves, however it ends, have the property.
abbrev pub Leaves {ℓ} : {A : Type ℓ} → (Cache → Type 0) → Run A → Type 0
Leaves P (done cache a) = P cache
Leaves P (failed cache reason) = P cache
Leaves P out_of_fuel = Unit

Leaves-then {ℓ κ} :
    (P : Cache → Type 0) {A : Type ℓ} {B : Type κ} (m : Run A) (rest : Cache → A → Run B)
    → Leaves P m
    → ((cache : Cache) (a : A) → P cache → Leaves P (rest cache a))
    → Leaves P (m and_then rest)
Leaves-then P (done cache a) rest h k = k cache a h
Leaves-then P (failed cache reason) rest h k = h
Leaves-then P out_of_fuel rest h k = h

Leaves-await {ℓ} :
    (P : Cache → Type 0) {A : Type ℓ} (cache : Cache) (m : Outcome Text A)
    → P cache
    → Leaves P (await cache m)
Leaves-await P cache (ok a) h = h
Leaves-await P cache (thrown reason) h = h

module _ (js : Conversions) (node : ChainNode) (answers : Request → Bool) (env : Settings)
    (P : List CacheRow → Type 0)
    (upserted : (name : ContractName) (start stop : ℕ) (logs : List Log) (rows : List CacheRow)
      → node.query_filter name start stop ≡ ok logs
      → P rows
      → P (upsert_all (rows_of js name logs) rows))
    (deleted : (p : CacheRow → Bool) (rows : List CacheRow) → P rows → P (filter p rows)) where
  abbrev Of : Cache → Type 0
  Of cache = P cache.rows

  purged :
      (cause : PurgeCause) (name : ContractName) (address : Text) (cache : Cache)
      → Of cache
      → Of (purge_contract_cache answers cause name address cache)
  unfolding purge_contract_cache
  purged cause name address cache h = elim (Bool-cases (answers (Request.delete_rows name cause))) [
    | inl answered ↦
        rw answered (deleted (λ r. not (same_contract r.contract_name name)) cache.rows h)
    | inr refused ↦ rw refused h
  ]

  store_rows-Leaves :
      (name : ContractName) (start : ℕ) (rows : List CacheRow) (count : ℕ) (cache : Cache)
      → P cache.rows
      → P (upsert_all rows cache.rows)
      → Leaves Of (store_rows js node answers env name start rows count cache)
  unfolding store_rows
  store_rows-Leaves name start [] count cache h h' = h
  store_rows-Leaves name start (r ∷ rows) count cache h h' =
      elim (Bool-cases (answers (Request.upsert_rows name start))) [
        | inl answered ↦ rw answered h'
        | inr refused ↦ rw refused h
      ]

  index_chunk-Leaves :
      (name : ContractName) (start stop count : ℕ) (cache : Cache)
      → Of cache
      → Leaves Of (index_chunk js node answers env name start stop count cache)
  unfolding index_chunk
  index_chunk-Leaves name start stop count cache h =
      elim (Outcome-cases (node.query_filter name start stop)) [
        | inr (reason, e) ↦ rw e h
        | inl (logs, e) ↦ rw e (
            store_rows-Leaves name start (rows_of js name logs) count cache h
              (upserted name start stop logs cache.rows e h))
      ]

  index_chunks-Leaves :
      (fuel : ℕ) (name : ContractName) (start latest count : ℕ) (cache : Cache)
      → Of cache
      → Leaves Of (index_chunks js node answers env fuel name start latest count cache)
  unfolding index_chunks
  index_chunks-Leaves zero name start latest count cache h = tt
  index_chunks-Leaves (suc fuel) name start latest count cache h =
      elim (Bool-cases (leb start latest)) [
        | inl more ↦
            rw (more, Leaves)
              (Leaves-then Of
                (index_chunk js node answers env name start
                  (min (start + chunk_size env.chain - 1) latest) count cache)
                (λ cache count.
                  index_chunks js node answers env fuel name (start + chunk_size env.chain) latest
                    count cache)
                (index_chunk-Leaves name start (min (start + chunk_size env.chain - 1) latest) count
                  cache h)
                (λ cache count.
                  index_chunks-Leaves fuel name (start + chunk_size env.chain) latest count cache))
        | inr over ↦ rw (over, Leaves) h
      ]

  if_purged-Leaves :
      (gone : Bool) (cause : PurgeCause) (name : ContractName) (address : Text) (cache : Cache)
      → Of cache
      → Leaves Of (
          if gone
          then done (purge_contract_cache answers cause name address cache) true
          else done cache false)
  if_purged-Leaves true cause name address cache h = purged cause name address cache h
  if_purged-Leaves false cause name address cache h = h

  invalidate-Leaves :
      (name : ContractName) (address : Text) (from_block : Option ℕ) (cache : Cache)
      → Of cache
      → Leaves Of (invalidate js node answers env name address from_block cache)
  unfolding invalidate
  invalidate-Leaves name address from_block cache h =
      elim (Bool-cases (asks_rebuild js node answers env from_block)) [
        | inl asked ↦ rw asked (purged PurgeCause.rebuild name address cache h)
        | inr unasked ↦ rw unasked (
            Leaves-then Of (await cache (detect_chain_reset js node answers env name cache))
              (λ cache gone.
                if gone
                then done (purge_contract_cache answers PurgeCause.replaced name address cache) true
                else done cache false)
              (Leaves-await Of cache (detect_chain_reset js node answers env name cache) h)
              (λ cache gone. if_purged-Leaves gone PurgeCause.replaced name address cache))
      ]

  restart-Of :
      (name : ContractName) (address : Text) (latest from : ℕ) (cache : Cache)
      → Of cache
      → Of (restart js node answers env name address latest from cache).0
  unfolding restart
  restart-Of name address latest from cache h = elim (Bool-cases (ltb (latest + 1) from)) [
    | inl beyond ↦ rw beyond (purged PurgeCause.beyond_tip name address cache h)
    | inr within ↦ rw within h
  ]

  index_from-Leaves :
      (name : ContractName) (address : Text) (latest : ℕ) (gone : Bool) (p : Cache × ℕ × Bool)
      → Of p.0
      → Leaves Of (index_from js node answers env name address latest gone p)
  unfolding index_from record_height
  index_from-Leaves name address latest gone (cache, from, beyond) h =
      Leaves-then Of
        (index_chunks js node answers env (suc (latest + 1 - from)) name from latest 0 cache) _
        (index_chunks-Leaves (suc (latest + 1 - from)) name from latest 0 cache h)
        (λ cache indexed h. h)

  sync_contract-Leaves :
      (name : ContractName) (latest : ℕ) (from_block : Option ℕ) (cache : Cache)
      → Of cache
      → Leaves Of (sync_contract js node answers env name latest from_block cache)
  unfolding sync_contract
  sync_contract-Leaves name latest from_block cache h =
      Leaves-then Of (await cache (node.get_address name)) _
        (Leaves-await Of cache (node.get_address name) h)
        (λ cache address h.
          Leaves-then Of (invalidate js node answers env name address from_block cache) _
            (invalidate-Leaves name address from_block cache h)
            (λ cache gone h.
              index_from-Leaves name address latest gone
                (restart js node answers env name address latest
                  (first_block js node answers env address name from_block cache) cache)
                (restart-Of name address latest
                  (first_block js node answers env address name from_block cache) cache h)))

  sync_contracts-Leaves :
      (names : List ContractName) (latest : ℕ) (from_block : Option ℕ) (p : Progress)
      (cache : Cache)
      → Of cache
      → Leaves Of (sync_contracts js node answers env names latest from_block p cache)
  unfolding sync_contracts
  sync_contracts-Leaves [] latest from_block p cache h = h
  sync_contracts-Leaves (name ∷ names) latest from_block p cache h =
      Leaves-then Of (sync_contract js node answers env name latest from_block cache) _
        (sync_contract-Leaves name latest from_block cache h)
        (λ cache s. sync_contracts-Leaves names latest from_block _ cache)

  pub sync_events-Leaves :
      (from_block : Option ℕ) (cache : Cache)
      → P cache.rows
      → Leaves Of (sync_events js node answers env from_block cache)
  unfolding sync_events
  sync_events-Leaves from_block cache h =
      Leaves-then Of (await cache node.block_number) _ (Leaves-await Of cache node.block_number h)
        (λ cache latest h.
          Leaves-then Of (sync_contracts js node answers env _ latest from_block _ cache) _
            (sync_contracts-Leaves _ latest from_block _ cache h) (λ cache p h. h))
