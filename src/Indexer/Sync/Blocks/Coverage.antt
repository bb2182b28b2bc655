-- ===== src/Indexer/Sync/Blocks/Coverage.antt =====
-- A sync of one contract that is answered leaves every tracked event up to the tip in the tables.
use owne_x.Base.{
  subst, ltb→lt, ℕ, suc, zero, ◌+◌, ◌-◌, ◌≤◌, ◌<◌, ◌≡◌, refl, ap, inl, inr, Bool, true, false, not,
  Option, none, some, List, [], ◌∷◌, ◌++◌, Memᴰ, ltb, Bool-cases, Option-cases, if◌then◌else◌,
  filter, ok, arith,
}
use owne_x.Base.Text.{is_empty, Text, ===_refl, ◌===◌}
use owne_x.Indexer.Events.{ContractName, Conversions, Log}
use owne_x.Indexer.Cache.{
  PurgeCause, newest_of, purge_contract_cache, Cache, CacheRow, IndexerRow, Request, state_of,
  put_state, has_key, upsert_all,
}
use owne_x.Indexer.Cache.Keys.{upsert_all-has_key, has_key-upsert_all}
use owne_x.Indexer.Sync.{
  max, receipt_missing, next_block, ◌and_then◌, detect_chain_reset, detect_chain_reset, done,
  Synced, ChainNode, Settings, start_block, rows_of, sync_contract, index_from, restart,
  first_block, invalidate, record_height,
}
use owne_x.Indexer.Sync.Blocks.{
  Answers, logs_between, rows_of-append, index_chunks-upsert_all, upserted, block_rows,
}

-- Every request to the tables is answered.
abbrev pub all_answered : Request → Bool
all_answered request = true

Memᴰ-left {ℓ} : {A : Type ℓ} (x : A) (a b : List A) → Memᴰ x a → Memᴰ x (a ++ b)
Memᴰ-left x [] b m = elim m [ ]
Memᴰ-left x (y ∷ a) b (Memᴰ.head e) = Memᴰ.head e
Memᴰ-left x (y ∷ a) b (Memᴰ.tail m) = Memᴰ.tail (Memᴰ-left x a b m)

Memᴰ-right {ℓ} : {A : Type ℓ} (x : A) (a b : List A) → Memᴰ x b → Memᴰ x (a ++ b)
Memᴰ-right x [] b m = m
Memᴰ-right x (y ∷ a) b m = Memᴰ.tail (Memᴰ-right x a b m)

-- No row of the address is left after its row is deleted.
find-deleted :
    (address : Text) (states : List IndexerRow)
    → state_of address (filter (λ s. not (s.contract_address === address)) states) ≡ none
unfolding state_of
find-deleted address [] = refl
find-deleted address (s ∷ states) = elim (Bool-cases (s.contract_address === address)) [
  | inl same ↦ rw same (find-deleted address states)
  | inr differs ↦ rw (differs, differs) (find-deleted address states)
]

module _ (js : Conversions) (node : ChainNode) (env : Settings)
    (blocks : ContractName → ℕ → List Log) (filters : Answers node blocks) (name : ContractName)
    (address : Text) (located : node.get_address name ≡ ok address)
    (receipts : (hash : Text) → (there : Bool) × (node.has_receipt hash ≡ ok there)) where
  -- The rows of a block have their keys in the table.
  abbrev pub Has : Cache → ℕ → Type 0
  Has cache b =
      (r : CacheRow) → Memᴰ r (rows_of js name (blocks name b)) → has_key r cache.rows ≡ true

  -- So have the rows of every block from the start block up to one.
  abbrev pub Complete : Cache → ℕ → Type 0
  Complete cache last = (b : ℕ) → start_block env ≤ b → b ≤ last → Has cache b

  -- The recorded height promises no more than the table has.
  abbrev pub Truthful : Cache → Type 0
  Truthful cache =
      (s : IndexerRow) → state_of address cache.states ≡ some s → Complete cache s.last_block

  in_block :
      (r : CacheRow) (b start n : ℕ)
      → start ≤ b
      → b < start + n
      → Memᴰ r (rows_of js name (blocks name b))
      → Memᴰ r (rows_of js name (logs_between (blocks name) start n))
  unfolding logs_between
  in_block r b start zero h k m = ground arith
  in_block r b start (suc n) h k m = elim (Bool-cases (ltb start b)) [
    | inl later ↦ step (in_block r b (suc start) n (next later) (within later) m)
    | inr here ↦
        rw (rows_of-append js name (blocks name start) (logs_between (blocks name) (suc start) n))
          (Memᴰ-left r _ _ (subst (λ c. Memᴰ r (rows_of js name (blocks name c))) (same here) m))
  ]
    where
      next : ltb start b ≡ true → suc start ≤ b
      next later = ground arith

      within : ltb start b ≡ true → b < suc start + n
      within later = omega (arith, k)

      same : ltb start b ≡ false → b ≡ start
      same here = ground arith

      step :
          Memᴰ r (rows_of js name (logs_between (blocks name) (suc start) n))
          → Memᴰ r (rows_of js name (blocks name start ++ logs_between (blocks name) (suc start) n))
      step m =
          rw (rows_of-append js name (blocks name start) (logs_between (blocks name) (suc start) n))
            (Memᴰ-right r (rows_of js name (blocks name start)) _ m)

  -- Before a height, every block from the start block on has its rows in the table.
  abbrev pub CompleteBefore : Cache → ℕ → Type 0
  CompleteBefore cache from = (b : ℕ) → start_block env ≤ b → b < from → Has cache b

  -- What a finished sync leaves.
  abbrev pub Synchronized : ℕ → Cache → Type 0
  Synchronized latest cache =
      Complete cache latest
      × ((s : IndexerRow) × (state_of address cache.states ≡ some s) × (s.last_block ≡ latest))

  -- The rows of `n` blocks.
  abbrev rows_from : ℕ → ℕ → List CacheRow
  rows_from from n = rows_of js name (logs_between (blocks name) from n)

  abbrev with_rows : List CacheRow → Cache → Cache
  with_rows rows cache = record { rows = upsert_all rows cache.rows; states = cache.states }

  Complete-with_rows :
      (latest from : ℕ) (cache : Cache)
      → CompleteBefore cache from
      → Complete (with_rows (rows_from from (latest + 1 - from)) cache) latest
  Complete-with_rows latest from cache h b le top r m = elim (Bool-cases (ltb b from)) [
    | inl before ↦ has_key-upsert_all r _ cache.rows (h b le (ltb→lt b from before) r m)
    | inr after ↦
        upsert_all-has_key r _ cache.rows
          (in_block r b from (latest + 1 - from) (from_le after) (below after) m)
  ]
    where
      from_le : ltb b from ≡ false → from ≤ b
      from_le after = ground arith

      below : ltb b from ≡ false → b < from + (latest + 1 - from)
      below after = omega (arith, from_le after, top)

  state_of-record_height :
      (latest : ℕ) (cache : Cache)
      → (s : IndexerRow) × (state_of address
            (record_height js node all_answered env name address latest cache).states
          ≡ some s)
        × (s.last_block ≡ latest)
  unfolding record_height state_of put_state
  state_of-record_height latest cache = (
    record {
      contract_address = address;
      contract = name;
      chain_id = env.chain;
      last_block = latest;
    },
    rw (===_refl address) refl,
    refl,
  )

  index_from_lem :
      (latest : ℕ) (gone : Bool) (p : Cache × ℕ × Bool)
      → CompleteBefore p.0 p.1
      → (cache : Cache) × (s : Synced) × (index_from js node all_answered env name address latest
            gone p
          ≡ done cache s)
        × Synchronized latest cache
  unfolding index_from record_height upserted block_rows
  index_from_lem latest gone (cache, from, beyond) h = (
    _,
    _,
    ap
        (λ m. m and_then λ cache indexed.
          done (record_height js node all_answered env name address latest cache)
            (record { from = from; indexed = indexed; reset = if gone then true else beyond }))
        (index_chunks-upsert_all js node all_answered env blocks filters (λ name start. refl)
          (suc (latest + 1 - from)) name from latest 0 cache (omega arith)),
    (
      Complete-with_rows latest from cache h,
      state_of-record_height latest (with_rows (rows_from from (latest + 1 - from)) cache),
    ),
  )

  -- A purge leaves no height to be believed.
  Truthful-purge :
      (cause : PurgeCause) (cache : Cache)
      → Truthful (purge_contract_cache all_answered cause name address cache)
  unfolding purge_contract_cache
  Truthful-purge cause cache s e = cc (find-deleted address cache.states, e)

  receipt_missing-ok :
      (r : Option CacheRow) → (gone : Bool) × (receipt_missing js node all_answered env r ≡ ok gone)
  unfolding receipt_missing
  receipt_missing-ok none = (false, refl)
  receipt_missing-ok (some r) = elim (Bool-cases (is_empty r.tx_hash)) [
    | inl blank ↦ (false, rw blank refl)
    | inr hash ↦
        let (there, e) = receipts r.tx_hash in (if there then false else true, rw (hash, e) refl)
  ]

  invalidate_lem :
      (cache : Cache)
      → Truthful cache
      → (after : Cache) × (gone : Bool) × (invalidate js node all_answered env name address none
            cache
          ≡ done after gone)
        × Truthful after
  unfolding invalidate detect_chain_reset
  invalidate_lem cache h =
      let (gone, e) = receipt_missing-ok (newest_of name cache.rows) in by_answer gone e
    where
      by_answer :
          (gone : Bool)
          → receipt_missing js node all_answered env (newest_of name cache.rows) ≡ ok gone
          → (after : Cache) × (gone : Bool) × (invalidate js node all_answered env name address none
                cache
              ≡ done after gone)
            × Truthful after
      by_answer true e = (_, true, rw e refl, Truthful-purge PurgeCause.replaced cache)
      by_answer false e = (cache, false, rw e refl, h)

  -- Below the first block that is read, the rows are there.
  CompleteBefore-first_block :
      (cache : Cache)
      → Truthful cache
      → CompleteBefore cache (first_block js node all_answered env address name none cache)
  unfolding first_block next_block
  CompleteBefore-first_block cache h = elim (Option-cases (state_of address cache.states)) [
    | inl unknown ↦ rw unknown (λ b le below. ground arith)
    | inr (s, e) ↦ rw e (λ b le below. h s e b le (recorded s b le below))
  ]
    where
      recorded :
          (s : IndexerRow) (b : ℕ)
          → start_block env ≤ b
          → b < max (s.last_block + 1) (start_block env)
          → b ≤ s.last_block
      recorded s b le below = ground arith

  restart_lem :
      (latest from : ℕ) (cache : Cache)
      → CompleteBefore cache from
      → CompleteBefore
          (restart js node all_answered env name address latest from cache).0
          (restart js node all_answered env name address latest from cache).1
  unfolding restart
  restart_lem latest from cache h = elim (Bool-cases (ltb (latest + 1) from)) [
    | inl beyond ↦ rw beyond (λ b le below. ground arith)
    | inr within ↦ rw within h
  ]

  Truthful-Synchronized : (latest : ℕ) (cache : Cache) → Synchronized latest cache → Truthful cache
  Truthful-Synchronized latest cache (complete, (s, e, height)) t f =
      subst (Complete cache) (same_height f) complete
    where
      same_height : state_of address cache.states ≡ some t → latest ≡ t.last_block
      same_height f = cc (e, f, height)

  -- Where the node gives the logs of its blocks and an answer for every receipt, the database
  -- answers, and the recorded height of a contract promises no more than its table has, a sync of
  -- that contract without an explicit start ends with a result, after which every tracked event
  -- from the start block to the tip has its key in the table, the recorded height is the tip, and
  -- the promise holds again.
  pub sync_contract_complete :
      (latest : ℕ) (cache : Cache)
      → Truthful cache
      → (after : Cache) × (s : Synced) × (sync_contract js node all_answered env name latest none
            cache
          ≡ done after s)
        × Synchronized latest after
        × Truthful after
  unfolding sync_contract
  sync_contract_complete latest cache h =
      let (kept, gone, e, truthful) = invalidate_lem cache h in
      let first = first_block js node all_answered env address name none kept in
      let (after, s, run, result) =
        index_from_lem latest gone (restart js node all_answered env name address latest first kept)
          (restart_lem latest first kept (CompleteBefore-first_block kept truthful)) in
      (after, s, rw (located, e) run, result, Truthful-Synchronized latest after result)
