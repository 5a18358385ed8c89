-- ===== src/Sync/Tests.antt =====
-- The writer at concrete inputs: a batch is its number of rows, of eight bytes each.
use seafowl.Prelude.{
  ℕ, ◌+◌, ◌*◌, ◌≡◌, ◌≢◌, refl, String, true, false, none, some, List, [], ◌∷◌, ◌++◌, All, arith,
}
use seafowl.Prelude.Map.{
  nat_eq, string_eq, member, insert_member, remove_member, lookup, update, insert, remove,
}
use seafowl.Sync.Writer.{
  Batches, unfinished_transaction, squash_failed, ok, err, panic, Transaction, SyncConf, last_entry,
  SeafowlDataSyncWriter, merge_transaction, new_transaction, upsert_transaction, new, add_item,
  store_item, flag_memory, store_batches, after_upsert, enqueue_sync,
}
use seafowl.Sync.Writer.Flush.{
  Storage, is_durable, durable_txs, is_committed, remove_location, remove_tx_locations, new_commit,
  advance_durable, remove_sync, skip_count, skip_slice, starts_new_tx, last_complete, skip_syncs,
  after_commit, apply_flush, ensure_table, flush_table, flush_entry, flush_syncs, flush_loop,
}
use seafowl.Sync.Writer.Invariant.{IsValid, new-IsValid}
use seafowl.Sync.Writer.Enqueue.{enqueue_sync-IsValid, enqueue_sync_refused}
use seafowl.Sync.Writer.Flush.Durable.{record_durable, IsFlushed, IsHeldBack, advance_durable_lem}
use seafowl.Sync.Writer.Flush.Valid.{Safe, flush_syncs-IsValid}
use seafowl.Sync.Writer.Flush.Loop.{Ended, flush_loop-Ended}

abbrev sum : List ℕ → ℕ
sum [] = 0
sum (x ∷ xs) = x + sum xs

abbrev toy : Batches
toy = record {
  SyncSchema = Unit {0};
  RecordBatch = ℕ;
  memory_size = λ n. n * 8;
  num_rows = λ n. n;
  squash_batches = λ s l. some (sum l);
}

abbrev Writer : Type 0
Writer = SeafowlDataSyncWriter toy

-- The first message of a transaction of `pg`, for the table `a`.
abbrev w1 : Writer
w1 = (enqueue_sync toy 100 1 "a" none "pg" tt (2 ∷ 3 ∷ []) (new toy)).1

-- The last message of the transaction, for the table `b`.
abbrev w2 : Writer
w2 = (enqueue_sync toy 101 2 "b" (some 7) "pg" tt (4 ∷ []) w1).1

w1-IsValid : IsValid toy w1
unfolding lookup
w1-IsValid =
    enqueue_sync-IsValid toy 100 1 "a" none "pg" tt (2 ∷ 3 ∷ []) (new toy) refl (new-IsValid toy)

w1_fresh : lookup 2 w1.txs ≡ none
unfolding lookup last_entry enqueue_sync upsert_transaction new_transaction after_upsert
    store_batches store_item flag_memory
w1_fresh = refl

enqueue_sync-IsValid_example :
    IsValid toy (enqueue_sync toy 101 2 "b" (some 7) "pg" tt (4 ∷ []) w1).1
enqueue_sync-IsValid_example =
    enqueue_sync-IsValid toy 101 2 "b" (some 7) "pg" tt (4 ∷ []) w1 w1_fresh w1-IsValid

w2_txs : w2.txs ≡ (1, record { origin = "pg"; sequence = some 7; locations = "b" ∷ "a" ∷ [] }) ∷ []
unfolding lookup last_entry update member insert_member enqueue_sync upsert_transaction
    new_transaction merge_transaction after_upsert store_batches store_item flag_memory
w2_txs = refl

w1_refuses :
    (enqueue_sync toy 101 2 "b" none "other" tt (4 ∷ []) w1).0
    ≡ err (unfinished_transaction "other" "pg")
unfolding lookup last_entry enqueue_sync upsert_transaction new_transaction after_upsert
    store_batches store_item flag_memory
w1_refuses = refl

enqueue_sync_refused_example :
    let w' = (enqueue_sync toy 101 2 "b" none "other" tt (4 ∷ []) w1).1 in
    (unfinished_transaction "other" "pg" ≢ squash_failed → w' ≡ w1)
    × (w' ≡ record w1 { txs = w'.txs })
enqueue_sync_refused_example =
    enqueue_sync_refused toy 101 2 "b" none "other" tt (4 ∷ []) w1
      (unfinished_transaction "other" "pg") w1_refuses

abbrev tables : String → Storage
tables url = record {
  is_delta_table_location = ok false;
  create_table = ok tt;
  last_sync_commit = ok none;
  commits = ok tt;
}

abbrev conf : SyncConf
conf = record { max_replication_lag_s = 10; max_in_memory_bytes = 1000; max_syncs_per_url = 5 }

-- The first message, stored already by a commit of sequence 7.
abbrev w0 : Writer
w0 = (enqueue_sync toy 100 1 "a" (some 7) "pg" tt (2 ∷ []) (new toy)).1

w0-IsValid : IsValid toy w0
unfolding lookup
w0-IsValid =
    enqueue_sync-IsValid toy 100 1 "a" (some 7) "pg" tt (2 ∷ []) (new toy) refl (new-IsValid toy)

flush_syncs-IsValid_example :
    Safe (tables "a") (flush_syncs toy (tables "a") "a" w0).0
    × IsValid toy (flush_syncs toy (tables "a") "a" w0).1
flush_syncs-IsValid_example = flush_syncs-IsValid toy (tables "a") "a" w0 w0-IsValid

flush_loop-Ended_example : Ended toy tables conf 200 (flush_loop toy 3 tables conf 200 w0)
unfolding lookup insert last_entry enqueue_sync upsert_transaction new_transaction after_upsert
    store_batches store_item flag_memory
flush_loop-Ended_example =
    flush_loop-Ended toy tables conf 200 3 w0 (omega arith) w0-IsValid (omega arith)

abbrev flushed_tx : Transaction
flushed_tx = record { origin = "pg"; sequence = some 7; locations = [] }

abbrev open_tx : Transaction
open_tx = record { origin = "pg"; sequence = none; locations = "a" ∷ [] }

abbrev w3 : Writer
w3 = record (new toy) { txs = (1, flushed_tx) ∷ (2, open_tx) ∷ [] }

advance_durable_lem_example :
    (flushed : List (ℕ × Transaction)) × (rest : List (ℕ × Transaction)) × (w3.txs
      ≡ flushed ++ rest)
    × All IsFlushed flushed
    × IsHeldBack rest
    × (advance_durable toy w3
        ≡ record w3 { txs = rest; origin_durable = record_durable flushed w3.origin_durable })
unfolding lookup
advance_durable_lem_example = advance_durable_lem toy w3 (refl, (refl, tt))

-- The durable sequence after a flush of the one table.
w0_durable : (flush_syncs toy (tables "a") "a" w0).1.origin_durable ≡ ("pg", 7) ∷ []
unfolding lookup insert last_entry member remove_member update remove enqueue_sync
    upsert_transaction new_transaction after_upsert store_batches store_item flag_memory add_item
    flush_syncs ensure_table flush_entry flush_table skip_syncs skip_slice starts_new_tx
    last_complete new_commit apply_flush after_commit remove_sync remove_tx_locations
    remove_location advance_durable durable_txs is_durable
w0_durable = refl

abbrev stored_tables : Storage
stored_tables = record (tables "a") {
  is_delta_table_location = ok true;
  last_sync_commit = ok (some (record { origin = "pg"; sequence = 7; new_tx = false }));
}

-- A flush of what is stored already drops the collection, and the transaction keeps the table.
stored_flush :
    ((flush_syncs toy stored_tables "a" w0).1.syncs ≡ [])
    × ((flush_syncs toy stored_tables "a" w0).1.txs ≡ w0.txs)
unfolding lookup insert last_entry remove enqueue_sync upsert_transaction new_transaction
    after_upsert store_batches store_item flag_memory add_item skip_syncs skip_slice skip_count
    is_committed starts_new_tx last_complete new_commit flush_syncs ensure_table flush_entry
    flush_table apply_flush remove_sync
stored_flush = (refl, refl)

-- A commit that panics, and nothing has changed.
broken_flush : flush_syncs toy (record (tables "a") { commits = panic }) "a" w0 ≡ (panic, w0)
unfolding lookup insert last_entry remove enqueue_sync upsert_transaction new_transaction
    after_upsert store_batches store_item flag_memory add_item skip_syncs skip_slice starts_new_tx
    last_complete new_commit flush_syncs ensure_table flush_entry flush_table apply_flush
broken_flush = refl
