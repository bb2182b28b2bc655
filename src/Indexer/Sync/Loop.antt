-- ===== src/Indexer/Sync/Loop.antt =====
-- The loop over blocks ends: its fuel is one more than the number of blocks that are left, and
-- every round moves the start by a chunk, which is not empty.
use owne_x.Base.{
  ℕ, suc, zero, ◌+◌, ◌-◌, ◌<◌, ◌≡◌, inl, inr, Bool, true, false, Option, List, [], ◌∷◌, leb, leb→le,
  Bool-cases, if◌then◌else◌, Outcome, ok, thrown, arith,
}
use owne_x.Base.Text.{Text}
use owne_x.Indexer.Events.{ContractName, Conversions}
use owne_x.Indexer.Cache.{Cache, CacheRow, Request}
use owne_x.Indexer.Sync.{
  ◌and_then◌, out_of_fuel, failed, detect_chain_reset, Progress, rows_of, min, asks_rebuild,
  store_rows, invalidate, sync_events, sync_contracts, sync_contract, index_from, done,
  index_chunks, index_chunk, Settings, await, chunk_size, Run, ChainNode,
}

-- A run that has a result or throws.
abbrev pub Ends {ℓ} : {A : Type ℓ} → Run A → Type 0
Ends (done cache a) = Unit
Ends (failed cache reason) = Unit
Ends out_of_fuel = ⊥

pub Ends-then {ℓ κ} :
    {A : Type ℓ} {B : Type κ} (m : Run A) (rest : Cache → A → Run B)
    → Ends m
    → ((cache : Cache) (a : A) → Ends (rest cache a))
    → Ends (m and_then rest)
Ends-then (done cache a) rest h k = k cache a
Ends-then (failed cache reason) rest h k = h
Ends-then out_of_fuel rest h k = h

pub Ends-await {ℓ} : {A : Type ℓ} (cache : Cache) (m : Outcome Text A) → Ends (await cache m)
Ends-await cache (ok a) = tt
Ends-await cache (thrown reason) = tt

pub chunk_size-positive : (chain : ℕ) → 0 < chunk_size chain
unfolding chunk_size
chunk_size-positive chain = ground arith

module _ (js : Conversions) (node : ChainNode) (answers : Request → Bool) (env : Settings) where
  store_rows-Ends :
      (name : ContractName) (start : ℕ) (rows : List CacheRow) (count : ℕ) (cache : Cache)
      → Ends (store_rows js node answers env name start rows count cache)
  unfolding store_rows
  store_rows-Ends name start [] count cache = tt
  store_rows-Ends name start (r ∷ rows) count cache =
      elim (Bool-cases (answers (Request.upsert_rows name start))) [
        | inl answered ↦ rw answered tt
        | inr refused ↦ rw refused tt
      ]

  index_chunk-Ends :
      (name : ContractName) (start stop count : ℕ) (cache : Cache)
      → Ends (index_chunk js node answers env name start stop count cache)
  unfolding index_chunk
  index_chunk-Ends name start stop count cache =
      Ends-then (await cache (node.query_filter name start stop)) _
        (Ends-await cache (node.query_filter name start stop))
        (λ cache logs. store_rows-Ends name start (rows_of js name logs) count cache)

  -- The loop over block ranges ends where the fuel exceeds the number of blocks that are left.
  index_chunks-Ends :
      (fuel : ℕ) (name : ContractName) (start latest count : ℕ) (cache : Cache)
      → latest + 1 - start < fuel
      → Ends (index_chunks js node answers env fuel name start latest count cache)
  unfolding index_chunks
  index_chunks-Ends zero name start latest count cache h = omega arith
  index_chunks-Ends (suc fuel) name start latest count cache h =
      elim (Bool-cases (leb start latest)) [
        | inl more ↦
            rw (more, Ends)
              (Ends-then
                (index_chunk js node answers env name start
                  (min (start + chunk_size env.chain - 1) latest) count cache)
                _
                (index_chunk-Ends name start (min (start + chunk_size env.chain - 1) latest) count
                  cache)
                (λ cache count.
                  index_chunks-Ends fuel name (start + chunk_size env.chain) latest count cache
                    (fuel_left more)))
        | inr over ↦ rw (over, Ends) tt
      ]
    where
      fuel_left : leb start latest ≡ true → latest + 1 - (start + chunk_size env.chain) < fuel
      fuel_left more = omega (arith, leb→le start latest more, chunk_size-positive env.chain, h)

  if_purged-Ends :
      (gone : Bool) (purged cache : Cache)
      → Ends (if gone then done purged true else done cache false)
  if_purged-Ends true purged cache = tt
  if_purged-Ends false purged cache = tt

  invalidate-Ends :
      (name : ContractName) (address : Text) (from_block : Option ℕ) (cache : Cache)
      → Ends (invalidate js node answers env name address from_block cache)
  unfolding invalidate
  invalidate-Ends name address from_block cache =
      elim (Bool-cases (asks_rebuild js node answers env from_block)) [
        | inl asked ↦ rw asked tt
        | inr unasked ↦ rw unasked (
            Ends-then (await cache (detect_chain_reset js node answers env name cache)) _
              (Ends-await cache (detect_chain_reset js node answers env name cache))
              (λ cache gone. if_purged-Ends gone _ cache))
      ]

  index_from-Ends :
      (name : ContractName) (address : Text) (latest : ℕ) (gone : Bool) (p : Cache × ℕ × Bool)
      → Ends (index_from js node answers env name address latest gone p)
  unfolding index_from
  index_from-Ends name address latest gone (cache, from, beyond) =
      Ends-then
        (index_chunks js node answers env (suc (latest + 1 - from)) name from latest 0 cache) _
        (index_chunks-Ends (suc (latest + 1 - from)) name from latest 0 cache (omega arith))
        (λ cache indexed. tt)

  sync_contract-Ends :
      (name : ContractName) (latest : ℕ) (from_block : Option ℕ) (cache : Cache)
      → Ends (sync_contract js node answers env name latest from_block cache)
  unfolding sync_contract
  sync_contract-Ends name latest from_block cache =
      Ends-then (await cache (node.get_address name)) _ (Ends-await cache (node.get_address name))
        (λ cache address.
          Ends-then (invalidate js node answers env name address from_block cache) _
            (invalidate-Ends name address from_block cache)
            (λ cache gone. index_from-Ends name address latest gone _))

  sync_contracts-Ends :
      (names : List ContractName) (latest : ℕ) (from_block : Option ℕ) (p : Progress)
      (cache : Cache)
      → Ends (sync_contracts js node answers env names latest from_block p cache)
  unfolding sync_contracts
  sync_contracts-Ends [] latest from_block p cache = tt
  sync_contracts-Ends (name ∷ names) latest from_block p cache =
      Ends-then (sync_contract js node answers env name latest from_block cache) _
        (sync_contract-Ends name latest from_block cache)
        (λ cache s. sync_contracts-Ends names latest from_block _ cache)

  -- Whatever the node and the database answer and wherever the run starts, a sync ends with a
  -- result or a thrown error: the fuel of its loop over chunks is enough.
  pub sync_events-Ends :
      (from_block : Option ℕ) (cache : Cache)
      → Ends (sync_events js node answers env from_block cache)
  unfolding sync_events
  sync_events-Ends from_block cache =
      Ends-then (await cache node.block_number) _ (Ends-await cache node.block_number)
        (λ cache latest.
          Ends-then (sync_contracts js node answers env _ latest from_block _ cache) _
            (sync_contracts-Ends _ latest from_block _ cache) (λ cache p. tt))
