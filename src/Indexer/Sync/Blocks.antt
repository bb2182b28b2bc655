-- ===== src/Indexer/Sync/Blocks.antt =====
-- The loop over chunks as one upsert: the logs of a range are those of its blocks in order.
use mathlib.Core.Option.{none}
use owne_x.Base.{
  some, Option, ℕ, suc, zero, ◌+◌, ◌-◌, ◌≤◌, ◌<◌, ◌≡◌, refl, sym, ap, ◌∙◌, inl, inr, Bool, true,
  false, List, [], ◌∷◌, ◌++◌, Memᴰ, leb, leb→le, ltb, Bool-cases, if◌then◌else◌, ok, arith, length,
}
use owne_x.Indexer.Events.{
  TrackedEvent, EventLog, ContractName, Conversions, Log, decoded, undecoded, tracked_event,
}
use owne_x.Indexer.Cache.{Cache, CacheRow, Request, upsert_all, upsert_rows}
use owne_x.Indexer.Cache.Keys.{upsert_all-append}
use owne_x.Indexer.Sync.{
  ◌and_then◌, chunk_size, done, Run, index_chunks, store_rows, index_chunk, min, Settings, rows_of,
  push_event, ChainNode,
}
use owne_x.Indexer.Sync.Loop.{chunk_size-positive}
pub mod Coverage

-- The logs of `n` blocks from `start` on.
unfoldable pub logs_between : (ℕ → List Log) → ℕ → ℕ → List Log
logs_between blocks start zero = []
logs_between blocks start (suc n) = blocks start ++ logs_between blocks (suc start) n

++_assoc {ℓ} : {A : Type ℓ} (a b c : List A) → (a ++ b) ++ c ≡ a ++ (b ++ c)
++_assoc [] b c = refl
++_assoc (x ∷ a) b c = ap (λ r. x ∷ r) (++_assoc a b c)

++_nil {ℓ} : {A : Type ℓ} (a : List A) → a ++ [] ≡ a
++_nil [] = refl
++_nil (x ∷ a) = ap (λ r. x ∷ r) (++_nil a)

length-append {ℓ} : {A : Type ℓ} (a b : List A) → length (a ++ b) ≡ length a + length b
length-append [] b = omega arith
length-append (x ∷ a) b = omega (arith, length-append a b)

zero_add : (n : ℕ) → zero + n ≡ n
zero_add n = omega arith

add_zero : (n : ℕ) → n + zero ≡ n
add_zero n = omega arith

suc_add : (m n : ℕ) → suc m + n ≡ m + suc n
suc_add m n = omega arith

suc_plus : (m n : ℕ) → suc m + n ≡ suc (m + n)
suc_plus m n = omega arith

logs_between-append :
    (blocks : ℕ → List Log) (start m n : ℕ)
    → logs_between blocks start (m + n)
      ≡ logs_between blocks start m ++ logs_between blocks (start + m) n
unfolding logs_between
logs_between-append blocks start zero n =
    ap (logs_between blocks start) (zero_add n)
    ∙ ap (λ a. logs_between blocks a n) (sym (add_zero start))
logs_between-append blocks start (suc m) n =
    ap (logs_between blocks start) (suc_plus m n)
    ∙ ap (λ r. blocks start ++ r) (logs_between-append blocks (suc start) m n)
    ∙ sym (++_assoc (blocks start) (logs_between blocks (suc start) m) _)
    ∙ ap (λ a. (blocks start ++ logs_between blocks (suc start) m) ++ logs_between blocks a n)
        (suc_add start m)

split_last :
    (blocks : ℕ → List Log) (start k next n : ℕ)
    → n ≡ 0
    → logs_between blocks start k ≡ logs_between blocks start k ++ logs_between blocks next n
unfolding logs_between
split_last blocks start k next n e = rw e (sym (++_nil (logs_between blocks start k)))

split_more :
    (blocks : ℕ → List Log) (start k next n total : ℕ)
    → total ≡ k + n
    → next ≡ start + k
    → logs_between blocks start total ≡ logs_between blocks start k ++ logs_between blocks next n
split_more blocks start k next n total e f = rw (e, f) (logs_between-append blocks start k n)

-- The first chunk, and what is left for the rounds after it.
chunk_split :
    (blocks : ℕ → List Log) (start latest chunk : ℕ)
    → start ≤ latest
    → 0 < chunk
    → logs_between blocks start (latest + 1 - start)
      ≡ logs_between blocks start (min (start + chunk - 1) latest + 1 - start)
        ++ logs_between blocks (start + chunk) (latest + 1 - (start + chunk))
chunk_split blocks start latest chunk h k = elim (Bool-cases (ltb latest (start + chunk - 1))) [
  | inl last ↦ rw last (
      split_last blocks start (latest + 1 - start) (start + chunk) (latest + 1 - (start + chunk))
        (past_end last))
  | inr more ↦ rw more (
      split_more blocks start (start + chunk - 1 + 1 - start) (start + chunk)
        (latest + 1 - (start + chunk)) (latest + 1 - start) (parts more).0 (parts more).1)
]
  where
    past_end : ltb latest (start + chunk - 1) ≡ true → latest + 1 - (start + chunk) ≡ 0
    past_end last = ground arith

    parts :
        ltb latest (start + chunk - 1) ≡ false
        → (latest + 1 - start ≡ (start + chunk - 1 + 1 - start) + (latest + 1 - (start + chunk)))
          × (start + chunk ≡ start + (start + chunk - 1 + 1 - start))
    parts more = ground arith

module _ (js : Conversions) (name : ContractName) where
  push_event-append :
      (log : EventLog) (event : Option TrackedEvent) (a b : List CacheRow)
      → push_event js name log event (a ++ b) ≡ push_event js name log event a ++ b
  unfolding push_event
  push_event-append log none a b = refl
  push_event-append log (some event) a b = refl

  pub rows_of-append :
      (a b : List Log) → rows_of js name (a ++ b) ≡ rows_of js name a ++ rows_of js name b
  unfolding rows_of
  rows_of-append [] b = refl
  rows_of-append (undecoded ∷ a) b = rows_of-append a b
  rows_of-append (decoded log ∷ a) b =
      ap (push_event js name log (tracked_event log.event_name)) (rows_of-append a b)
      ∙ push_event-append log (tracked_event log.event_name) (rows_of js name a) (rows_of js name b)

-- What the node answers about the logs of a block range.
abbrev pub Answers : ChainNode → (ContractName → ℕ → List Log) → Type 0
Answers node blocks =
    (name : ContractName) (a b : ℕ)
    → a ≤ b
    → node.query_filter name a b ≡ ok (logs_between (blocks name) a (b + 1 - a))

module _ (js : Conversions) (node : ChainNode) (answers : Request → Bool) (env : Settings)
    (blocks : ContractName → ℕ → List Log) (filters : Answers node blocks)
    (stored : (name : ContractName) (start : ℕ) → answers (upsert_rows name start) ≡ true) where
  -- The rows of `n` blocks.
  unfoldable pub block_rows : ContractName → ℕ → ℕ → List CacheRow
  block_rows name start n = rows_of js name (logs_between (blocks name) start n)

  -- The tables and the count after an upsert of all those rows.
  unfoldable pub upserted : List CacheRow → ℕ → Cache → Run ℕ
  upserted rows count cache =
      done (record { rows = upsert_all rows cache.rows; states = cache.states })
        (count + length rows)

  store_rows-upserted :
      (name : ContractName) (start : ℕ) (rows : List CacheRow) (count : ℕ) (cache : Cache)
      → store_rows js node answers env name start rows count cache ≡ upserted rows count cache
  unfolding store_rows upserted upsert_all
  store_rows-upserted name start [] count cache = ap (λ n. done cache n) (sym (add_zero count))
  store_rows-upserted name start (r ∷ rows) count cache = rw (stored name start) refl

  index_chunk-upserted :
      (name : ContractName) (start stop count : ℕ) (cache : Cache)
      → start ≤ stop
      → index_chunk js node answers env name start stop count cache
        ≡ upserted (block_rows name start (stop + 1 - start)) count cache
  unfolding index_chunk block_rows
  index_chunk-upserted name start stop count cache h = rw (filters name start stop h) (
      store_rows-upserted name start
        (rows_of js name (logs_between (blocks name) start (stop + 1 - start))) count cache)

  upserted-append :
      (a b : List CacheRow) (count : ℕ) (cache : Cache)
      → upserted b
          (count + length a)
          (record { rows = upsert_all a cache.rows; states = cache.states })
        ≡ upserted (a ++ b) count cache
  unfolding upserted
  upserted-append a b count cache = rw (upsert_all-append a b cache.rows, total) refl
    where
      total : count + length (a ++ b) ≡ count + length a + length b
      total = omega (arith, length-append a b)

  rows_split :
      (name : ContractName) (start latest : ℕ)
      → start ≤ latest
      → block_rows name start (latest + 1 - start)
        ≡ block_rows name start (min (start + chunk_size env.chain - 1) latest + 1 - start)
          ++ block_rows name
              (start + chunk_size env.chain)
              (latest + 1 - (start + chunk_size env.chain))
  unfolding block_rows
  rows_split name start latest h =
      ap (rows_of js name) (
        chunk_split (blocks name) start latest (chunk_size env.chain) h
          (chunk_size-positive env.chain))
      ∙ rows_of-append js name _ _

  nothing_left :
      (name : ContractName) (start n count : ℕ) (cache : Cache)
      → n ≡ 0
      → done cache count ≡ upserted (block_rows name start n) count cache
  unfolding block_rows upserted upsert_all logs_between rows_of
  nothing_left name start n count cache e = rw (e, add_zero count) refl

  -- Where the node gives the logs of its blocks and the upserts are answered, the loop over chunks
  -- from a start to the tip leaves the table and the count of one upsert of all the tracked events
  -- of those blocks.
  pub index_chunks-upsert_all :
      (fuel : ℕ) (name : ContractName) (start latest count : ℕ) (cache : Cache)
      → latest + 1 - start < fuel
      → index_chunks js node answers env fuel name start latest count cache
        ≡ upserted (block_rows name start (latest + 1 - start)) count cache
  unfolding index_chunks upserted
  index_chunks-upsert_all zero name start latest count cache h = ground arith
  index_chunks-upsert_all (suc fuel) name start latest count cache h =
      elim (Bool-cases (leb start latest)) [
        | inl more ↦
            rw (more, index_chunks)
              (ap
                  (λ m. m and_then λ cache count.
                    index_chunks js node answers env fuel name (start + chunk_size env.chain) latest
                      count cache)
                  (index_chunk-upserted name start (min (start + chunk_size env.chain - 1) latest)
                    count cache (leb→min more))
                ∙ index_chunks-upsert_all fuel name (start + chunk_size env.chain) latest _ _
                    (fuel_left more)
                ∙ upserted-append _ _ count cache
                ∙ ap (λ rows. upserted rows count cache)
                    (sym (rows_split name start latest (leb→le start latest more))))
        | inr over ↦
            rw (over, index_chunks)
              (nothing_left name start (latest + 1 - start) count cache (gone over))
      ]
    where
      leb→min : leb start latest ≡ true → start ≤ min (start + chunk_size env.chain - 1) latest
      leb→min more = ground (arith, chunk_size-positive env.chain)

      fuel_left : leb start latest ≡ true → latest + 1 - (start + chunk_size env.chain) < fuel
      fuel_left more = omega (arith, leb→le start latest more, chunk_size-positive env.chain, h)

      gone : leb start latest ≡ false → latest + 1 - start ≡ 0
      gone over = ground arith
