-- ===== src/Indexer/Cache/Keys.antt =====
-- The keys of `audit_cache`: what is upserted is there.
use owne_x.Base.{◌≡◌, refl, ◌↔◌, true, List, [], ◌∷◌, ◌++◌, Memᴰ, arith, ==_iff}
use owne_x.Base.Text.{===_iff}
use owne_x.Indexer.Cache.{CacheRow, same_key, has_key, insert_row, upsert_all}

same_key_iff :
    (r s : CacheRow)
    → (same_key r s ≡ true) ↔ ((r.tx_hash ≡ s.tx_hash) × (r.log_index ≡ s.log_index))
same_key_iff r s = ground (arith, ===_iff r.tx_hash s.tx_hash, ==_iff r.log_index s.log_index)

same_key_refl : (r : CacheRow) → same_key r r ≡ true
same_key_refl r = (same_key_iff r r).1 (refl, refl)

pub upsert_all-append :
    (first later rows : List CacheRow)
    → upsert_all (first ++ later) rows ≡ upsert_all later (upsert_all first rows)
unfolding upsert_all
upsert_all-append [] later rows = refl
upsert_all-append (r ∷ first) later rows = upsert_all-append first later (insert_row r rows)

has_key-insert_row :
    (r s : CacheRow) (rows : List CacheRow)
    → has_key r rows ≡ true
    → has_key r (insert_row s rows) ≡ true
has_key-insert_row r s rows h = ground arith

insert_row-has_key : (r : CacheRow) (rows : List CacheRow) → has_key r (insert_row r rows) ≡ true
insert_row-has_key r rows = ground (arith, same_key_refl r)

-- What is there stays there.
pub has_key-upsert_all :
    (r : CacheRow) (new rows : List CacheRow)
    → has_key r rows ≡ true
    → has_key r (upsert_all new rows) ≡ true
unfolding upsert_all
has_key-upsert_all r [] rows h = h
has_key-upsert_all r (s ∷ new) rows h =
    has_key-upsert_all r new (insert_row s rows) (has_key-insert_row r s rows h)

-- What is upserted is there.
pub upsert_all-has_key :
    (r : CacheRow) (new rows : List CacheRow) → Memᴰ r new → has_key r (upsert_all new rows) ≡ true
unfolding upsert_all
upsert_all-has_key r [] rows m = elim m [ ]
upsert_all-has_key r (s ∷ new) rows (Memᴰ.head e) =
    rw e (has_key-upsert_all s new (insert_row s rows) (insert_row-has_key s rows))
upsert_all-has_key r (s ∷ new) rows (Memᴰ.tail m) = upsert_all-has_key r new (insert_row s rows) m
