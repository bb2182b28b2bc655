-- ===== src/Indexer/Tests.antt =====
-- Runs of the indexer on a chain of a few blocks.
use owne_x.Base.{
  ℕ, zero, suc, ◌+◌, ◌-◌, ◌≡◌, refl, Bool, true, false, Option, none, some, List, [], ◌∷◌, ok,
  arith,
}
use owne_x.Base.Text.{includes, lower, Text, codes}
use owne_x.Indexer.Events.{
  readable_payload, extract, tracked_event, PayloadValue, ContractName, Conversions, ArgValue,
  EventLog, Log, decoded, undecoded, identity_registry,
}
use owne_x.Indexer.Cache.{upsert_all, put_state, newest_of, state_of, Cache, Request}
use owne_x.Indexer.Sync.{
  chunk_size, record_height, row_of_event, rows_of, store_rows, index_chunk, index_from, restart,
  start_block, first_block, detect_chain_reset, invalidate, done, index_chunks, sync_contract,
  Synced, ChainNode, Settings, sync_events,
}
use owne_x.Indexer.Sync.Origin.{EndsWith, HasOrigin, sync_events-HasOrigin}
use owne_x.Indexer.Sync.Loop.{Ends, sync_events-Ends}
use owne_x.Indexer.Sync.Blocks.{
  block_rows, upserted, Answers, logs_between, index_chunks-upsert_all,
}
use owne_x.Indexer.Sync.Blocks.Coverage.{
  Synchronized, Truthful, all_answered, sync_contract_complete,
}

abbrev js : Conversions
js = record { string_of = text_of; number_of = size_of; keccak_id = λ t. t }
  where
    text_of : ArgValue → Text
    text_of (ArgValue.big n) = n ∷ []
    text_of (ArgValue.other t) = t

    size_of : ArgValue → ℕ
    size_of (ArgValue.big n) = n
    size_of (ArgValue.other t) = 0

abbrev registered : EventLog
registered = record {
  event_name = codes "RegistrarUpdated";
  args = ArgValue.other (codes "0xAB") ∷ [];
  inputs = record { name = codes "registrar"; type' = codes "address" } ∷ [];
  transaction_hash = codes "0x01";
  block_number = 3;
  index = 0;
}

-- Block 3 has an event that is kept and one that is not decoded.
abbrev blocks : ContractName → ℕ → List Log
blocks ContractName.identity_registry (suc (suc (suc zero))) = decoded registered ∷ undecoded ∷ []
blocks name n = []

abbrev address_of : ContractName → Text
address_of ContractName.identity_registry = codes "0xa1"
address_of ContractName.org_access_manager = codes "0xa2"
address_of ContractName.asset_nft = codes "0xa3"

abbrev node : ChainNode
node = record {
  block_number = ok 5;
  get_address = λ name. ok (address_of name);
  has_receipt = λ hash. ok true;
  query_filter = λ name a b. ok (logs_between (blocks name) a (b + 1 - a));
}

abbrev env : Settings
env = record { chain = 31337; indexer_start_block = none }

abbrev no_rows : Cache
no_rows = record { rows = []; states = [] }

-- A database that refuses to record heights.
abbrev forgetful : Request → Bool
forgetful (Request.write_state name) = false
forgetful request = true

sync_events-Ends_example : Ends (sync_events js node forgetful env (some 9) no_rows)
sync_events-Ends_example = sync_events-Ends js node forgetful env (some 9) no_rows

sync_events-HasOrigin_example :
    EndsWith
      (λ after. HasOrigin js node no_rows.rows after.rows)
      (sync_events js node forgetful env none no_rows)
sync_events-HasOrigin_example = sync_events-HasOrigin js node forgetful env none no_rows

abbrev filters : Answers node blocks
filters name a b h = refl

abbrev receipts : (hash : Text) → (there : Bool) × (node.has_receipt hash ≡ ok there)
receipts hash = (true, refl)

no_rows-Truthful :
    Truthful js node env blocks filters identity_registry (codes "0xa1") refl receipts no_rows
unfolding state_of
no_rows-Truthful s e = elim (none_some e) [ ]
  where
    none_some : none ≡ some s → ⊥
    none_some e = cc e

index_chunks-upsert_all_example :
    index_chunks js node forgetful env 7 identity_registry 0 5 0 no_rows
    ≡ upserted js node forgetful env blocks filters
        (λ name start. refl)
        (block_rows js node forgetful env blocks filters (λ name start. refl) identity_registry 0 6)
        0
        no_rows
index_chunks-upsert_all_example =
    index_chunks-upsert_all js node forgetful env blocks filters (λ name start. refl) 7
      identity_registry 0 5 0 no_rows (omega arith)

sync_contract_complete_example :
    (after : Cache) × (s : Synced) × (sync_contract js node all_answered env identity_registry 5
        none no_rows
      ≡ done after s)
    × Synchronized js node env blocks filters identity_registry (codes "0xa1") refl receipts 5 after
    × Truthful js node env blocks filters identity_registry (codes "0xa1") refl receipts after
sync_contract_complete_example =
    sync_contract_complete js node env blocks filters identity_registry (codes "0xa1") refl receipts
      5 no_rows no_rows-Truthful

-- The event of block 3 is kept, once, by a run over the blocks.
kept_once :
    sync_contract js node all_answered env identity_registry 5 none no_rows
    ≡ done
        (record {
          rows =
              record {
                contract_name = identity_registry;
                event_name = codes "RegistrarUpdated";
                org_id = none;
                actor_wallet = none;
                subject_wallet = some (codes "0xab");
                token_id = none;
                tx_hash = codes "0x01";
                block_number = 3;
                log_index = 0;
                payload = (codes "registrar", PayloadValue.text (codes "0xAB")) ∷ [];
              }
              ∷ [];
          states =
              record {
                contract_address = codes "0xa1";
                contract = identity_registry;
                chain_id = 31337;
                last_block = 5;
              }
              ∷ [];
        })
        (record { from = 0; indexed = 1; reset = false })
unfolding sync_contract invalidate detect_chain_reset first_block start_block restart index_from
    index_chunks index_chunk store_rows rows_of row_of_event record_height newest_of state_of
    put_state upsert_all chunk_size logs_between tracked_event extract readable_payload lower
    includes owne_x.Base.Text.◌===◌
kept_once = refl
