-- ===== src/Indexer/Sync.antt =====
-- `detectChainReset`, the loop over blocks, and `syncEvents`: what the chain's node answers is the
-- record `ChainNode`, and a run that throws keeps what it stored before.
use owne_x.Base.{
  ℕ, zero, suc, ◌+◌, ◌-◌, Bool, true, false, Option, none, some, List, [], ◌∷◌, ◌++◌, ltb, leb,
  ◌==◌, if◌then◌else◌, length, Read, Outcome, ok, thrown,
}
use mathlib.Core.Option
use owne_x.Base.Text.{Text, codes, lower, is_empty, number_of}
use owne_x.Indexer.Events.{
  ContractName, identity_registry, org_access_manager, asset_nft, Conversions, EventLog, Log,
  decoded, undecoded, TrackedEvent, tracked_event, extract, readable_payload,
}
use owne_x.Indexer.Cache.{
  CacheRow, IndexerRow, Cache, Request, read_newest, read_state, write_state, upsert_rows,
  PurgeCause, rebuild, replaced, beyond_tip, newest_of, state_of, put_state, upsert_all,
  purge_contract_cache,
}
pub mod Kept
pub mod Loop
pub mod Origin
pub mod Blocks

pub record ChainNode : Type 0 where
  pub block_number : Read ℕ
  pub get_address : ContractName → Read Text
  pub has_receipt : Text → Read Bool
  pub query_filter : ContractName → ℕ → ℕ → Read (List Log)

pub record Settings : Type 0 where
  pub chain : ℕ
  pub indexer_start_block : Option Text

-- A run ends with a result or with what it threw, and with the tables as they then are.
pub data Run {ℓ} (A : Type ℓ) : Type ℓ where
  done : Cache → A → Run A
  failed : Cache → Text → Run A
  out_of_fuel : Run A

module _ {ℓ κ} {A : Type ℓ} {B : Type κ} where
  infixl 5 ◌and_then◌
  abbrev pub ◌and_then◌ : Run A → (Cache → A → Run B) → Run B
  done cache a and_then rest = rest cache a
  failed cache reason and_then rest = failed cache reason
  out_of_fuel and_then rest = out_of_fuel

abbrev pub await {ℓ} : {A : Type ℓ} → Cache → Outcome Text A → Run A
await cache (ok a) = done cache a
await cache (thrown reason) = failed cache reason

unfoldable pub chunk_size : ℕ → ℕ
chunk_size chain = if chain == 11155111 then 10 else 2000

default_start : ℕ → ℕ
default_start chain = if chain == 11155111 then 11585353 else 0

configured : Option Text → Option ℕ
configured none = none
configured (some raw) = number_of raw

configured_start : ℕ → Option ℕ → ℕ
configured_start chain (some n) = n
configured_start chain none = default_start chain

unfoldable pub start_block : Settings → ℕ
unfolding configured configured_start default_start
start_block env = configured_start env.chain (configured env.indexer_start_block)

unfoldable pub row_of_event : Conversions → ContractName → EventLog → TrackedEvent → CacheRow
row_of_event js name log event =
    let fields = extract js event log.args in
    record {
      contract_name = name;
      event_name = log.event_name;
      org_id = fields.org_id;
      actor_wallet = Option.map lower fields.actor;
      subject_wallet = Option.map lower fields.subject;
      token_id = fields.token_id;
      tx_hash = log.transaction_hash;
      block_number = log.block_number;
      log_index = log.index;
      payload = readable_payload js log;
    }

push_event :
    Conversions → ContractName → EventLog → Option TrackedEvent → List CacheRow → List CacheRow
push_event js name log none rows = rows
push_event js name log (some event) rows = row_of_event js name log event ∷ rows

-- The rows of the logs that are decoded and tracked, in their order.
unfoldable pub rows_of : Conversions → ContractName → List Log → List CacheRow
unfolding push_event
rows_of js name [] = []
rows_of js name (undecoded ∷ logs) = rows_of js name logs
rows_of js name (decoded log ∷ logs) =
    push_event js name log (tracked_event log.event_name) (rows_of js name logs)

pub record Synced : Type 0 where
  pub from : ℕ
  pub indexed : ℕ
  pub reset : Bool

pub record Progress : Type 0 where
  pub total : ℕ
  pub overall_from : ℕ
  pub per_contract : List (ContractName × ℕ)
  pub reset_detected : Bool

pub record SyncResult : Type 0 where
  pub chain_id : ℕ
  pub from_block : ℕ
  pub to_block : ℕ
  pub progress : Progress

abbrev pub max : ℕ → ℕ → ℕ
max a b = if ltb a b then b else a

abbrev pub min : ℕ → ℕ → ℕ
min a b = if ltb b a then b else a

module _ (js : Conversions) (node : ChainNode) (answers : Request → Bool) (env : Settings) where
  receipt_missing : Option CacheRow → Read Bool
  receipt_missing none = ok false
  receipt_missing (some r) =
      if is_empty r.tx_hash then ok false else missing (node.has_receipt r.tx_hash)
    where
      missing : Read Bool → Read Bool
      missing (ok there) = ok (if there then false else true)
      missing (thrown reason) = thrown reason

  -- A refused read gives no row.
  unfoldable pub detect_chain_reset : ContractName → Cache → Read Bool
  unfolding receipt_missing
  detect_chain_reset name cache =
      receipt_missing (if answers (read_newest name) then newest_of name cache.rows else none)

  -- The logs of one block range: the rows are upserted where there is one.
  unfoldable pub store_rows : ContractName → ℕ → List CacheRow → ℕ → Cache → Run ℕ
  store_rows name start [] count cache = done cache count
  store_rows name start (r ∷ rows) count cache =
      if answers (upsert_rows name start)
      then done (record { rows = upsert_all (r ∷ rows) cache.rows; states = cache.states })
          (count + length (r ∷ rows))
      else failed cache (codes "Indexing failed")

  unfoldable pub index_chunk : ContractName → ℕ → ℕ → ℕ → Cache → Run ℕ
  unfolding store_rows
  index_chunk name start stop count cache =
      await cache (node.query_filter name start stop) and_then λ cache logs.
      store_rows name start (rows_of js name logs) count cache

  -- `for (let start = from; start <= latest; start += queryChunk)`
  unfoldable pub index_chunks : ℕ → ContractName → ℕ → ℕ → ℕ → Cache → Run ℕ
  unfolding index_chunk
  index_chunks zero name start latest count cache = out_of_fuel
  index_chunks (suc fuel) name start latest count cache = elim (leb start latest) [
    | false ↦ done cache count
    | true ↦
        index_chunk name start (min (start + chunk_size env.chain - 1) latest) count cache
        and_then λ cache count.
            index_chunks fuel name (start + chunk_size env.chain) latest count cache
  ]

  asks_rebuild : Option ℕ → Bool
  asks_rebuild none = false
  asks_rebuild (some n) = leb n (start_block env)

  -- The purge before the height is read, and whether there was one.
  unfoldable pub invalidate : ContractName → Text → Option ℕ → Cache → Run Bool
  unfolding asks_rebuild
  invalidate name address from_block cache =
      if asks_rebuild from_block
      then done (purge_contract_cache answers rebuild name address cache) true
      else await cache (detect_chain_reset name cache) and_then λ cache gone.
          (if gone
            then done (purge_contract_cache answers replaced name address cache) true
            else done cache false)

  next_block : Option IndexerRow → ℕ
  next_block none = start_block env
  next_block (some s) = s.last_block + 1

  unfoldable pub first_block : Text → ContractName → Option ℕ → Cache → ℕ
  unfolding next_block
  first_block address name (some n) cache = max n (start_block env)
  first_block address name none cache =
      max (next_block (if answers (read_state name) then state_of address cache.states else none))
        (start_block env)

  -- Beyond the tip the rows are purged and the blocks are read from 0.
  unfoldable pub restart : ContractName → Text → ℕ → ℕ → Cache → Cache × ℕ × Bool
  restart name address latest from cache =
      if ltb (latest + 1) from
      then (purge_contract_cache answers beyond_tip name address cache, 0, true)
      else (cache, from, false)

  unfoldable pub record_height : ContractName → Text → ℕ → Cache → Cache
  record_height name address latest cache = record {
    rows = cache.rows;
    states =
        if answers (write_state name)
        then put_state
            (record {
              contract_address = address;
              contract = name;
              chain_id = env.chain;
              last_block = latest;
            })
            cache.states
        else cache.states;
  }

  unfoldable pub index_from : ContractName → Text → ℕ → Bool → Cache × ℕ × Bool → Run Synced
  index_from name address latest gone (cache, from, beyond) =
      index_chunks (suc (latest + 1 - from)) name from latest 0 cache and_then λ cache indexed.
      done (record_height name address latest cache)
        (record { from = from; indexed = indexed; reset = if gone then true else beyond })

  unfoldable pub sync_contract : ContractName → ℕ → Option ℕ → Cache → Run Synced
  sync_contract name latest from_block cache =
      await cache (node.get_address name) and_then λ cache address.
      invalidate name address from_block cache and_then λ cache gone.
      index_from name address latest gone
        (restart name address latest (first_block address name from_block cache) cache)

  add_contract : Progress → ContractName → Synced → Progress
  add_contract p name s = record {
    total = p.total + s.indexed;
    overall_from = min p.overall_from s.from;
    per_contract = p.per_contract ++ ((name, s.indexed) ∷ []);
    reset_detected = if s.reset then true else p.reset_detected;
  }

  unfoldable pub sync_contracts : List ContractName → ℕ → Option ℕ → Progress → Cache → Run Progress
  unfolding add_contract
  sync_contracts [] latest from_block p cache = done cache p
  sync_contracts (name ∷ names) latest from_block p cache =
      sync_contract name latest from_block cache and_then λ cache s.
      sync_contracts names latest from_block (add_contract p name s) cache

  unfoldable pub sync_events : Option ℕ → Cache → Run SyncResult
  sync_events from_block cache = await cache node.block_number and_then λ cache latest.
      sync_contracts (identity_registry ∷ org_access_manager ∷ asset_nft ∷ []) latest from_block
        (record { total = 0; overall_from = latest; per_contract = []; reset_detected = false })
        cache
      and_then λ cache p.
          done cache (record {
            chain_id = env.chain;
            from_block = overall p;
            to_block = latest;
            progress = p;
          })
    where
      overall : Progress → ℕ
      overall p = p.overall_from
