-- ===== src/Indexer/Cache.antt =====
-- The tables `audit_cache` and `indexer_state`: the upsert that ignores duplicates, the purge, and
-- the requests of which the database may answer some and refuse others.
use owne_x.Base.{
  ℕ, Bool, true, false, not, ◌&&◌, Option, none, some, List, [], ◌∷◌, ltb, ◌==◌, if◌then◌else◌, any,
  filter, find,
}
use owne_x.Base.Text.{Text, ◌===◌}
use owne_x.Indexer.Events.{
  ContractName, PayloadValue, identity_registry, org_access_manager, asset_nft,
}
pub mod Keys

pub record CacheRow : Type 0 where
  pub contract_name : ContractName
  pub event_name : Text
  pub org_id : Option ℕ
  pub actor_wallet : Option Text
  pub subject_wallet : Option Text
  pub token_id : Option ℕ
  pub tx_hash : Text
  pub block_number : ℕ
  pub log_index : ℕ
  pub payload : List (Text × PayloadValue)

-- `contract_address` is the table's key.
pub record IndexerRow : Type 0 where
  pub contract_address : Text
  pub contract : ContractName
  pub chain_id : ℕ
  pub last_block : ℕ

pub record Cache : Type 0 where
  pub rows : List CacheRow
  pub states : List IndexerRow

-- Why a contract's rows are purged.
pub data PurgeCause : Type 0 where
  rebuild replaced beyond_tip : PurgeCause

pub data Request : Type 0 where
  read_newest : ContractName → Request
  delete_rows delete_state : ContractName → PurgeCause → Request
  read_state write_state : ContractName → Request
  upsert_rows : ContractName → ℕ → Request

abbrev pub same_contract : ContractName → ContractName → Bool
same_contract identity_registry identity_registry = true
same_contract org_access_manager org_access_manager = true
same_contract asset_nft asset_nft = true
same_contract a b = false

-- The unique constraint on `(tx_hash, log_index)`.
abbrev pub same_key : CacheRow → CacheRow → Bool
same_key r s = r.tx_hash === s.tx_hash && r.log_index == s.log_index

abbrev pub has_key : CacheRow → List CacheRow → Bool
has_key r rows = any (same_key r) rows

abbrev pub insert_row : CacheRow → List CacheRow → List CacheRow
insert_row r rows = if has_key r rows then rows else r ∷ rows

-- `upsert(rows, { onConflict: "tx_hash,log_index", ignoreDuplicates: true })`
unfoldable pub upsert_all : List CacheRow → List CacheRow → List CacheRow
upsert_all [] rows = rows
upsert_all (r ∷ new) rows = upsert_all new (insert_row r rows)

-- `order("block_number", { ascending: false }).limit(1)`: of the rows of the highest block, one.
abbrev pub higher : CacheRow → Option CacheRow → Option CacheRow
higher r none = some r
higher r (some s) = if ltb r.block_number s.block_number then some s else some r

unfoldable pub newest_of : ContractName → List CacheRow → Option CacheRow
newest_of name [] = none
newest_of name (r ∷ rows) =
    let rest = newest_of name rows in
    if same_contract r.contract_name name then higher r rest else rest

unfoldable pub state_of : Text → List IndexerRow → Option IndexerRow
state_of address states = find (λ s. s.contract_address === address) states

-- `upsert(state, { onConflict: "contract_address" })`
unfoldable pub put_state : IndexerRow → List IndexerRow → List IndexerRow
put_state new states = new ∷ filter (λ s. not (s.contract_address === new.contract_address)) states

-- Of the two deletions either may be refused: its error is not read.
unfoldable pub purge_contract_cache :
    (Request → Bool) → PurgeCause → ContractName → Text → Cache → Cache
purge_contract_cache answers cause name address cache = record {
  rows =
      if answers (delete_rows name cause)
      then filter (λ r. not (same_contract r.contract_name name)) cache.rows
      else cache.rows;
  states =
      if answers (delete_state name cause)
      then filter (λ s. not (s.contract_address === address)) cache.states
      else cache.states;
}
