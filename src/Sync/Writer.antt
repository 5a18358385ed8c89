-- ===== src/Sync/Writer.antt =====
-- frontend/flight/sync/writer.rs: pending changes in memory, the transactions that they belong to,
-- and the flush of one table. The metrics are left out.
pub mod Flush
pub mod Invariant
pub mod Enqueue
use seafowl.Prelude.{
  ℕ, zero, suc, ◌+◌, ◌-◌, ◌≡◌, String, Bool, true, false, not, ◌&&◌, Option, none, some, List, [],
  ◌∷◌, ◌++◌, length, map, ltb, leb, ◌==◌, str_eq, if◌then◌else◌,
}
use seafowl.Prelude.Map.{
  nat_eq, string_eq, member, insert_member, remove_member, lookup, update, insert, remove,
}

-- What the writer needs of record batches: their schemas, sizes, and `squash_batches` of utils.rs.
pub record Batches : Type 1 where
  pub SyncSchema : Type 0
  pub RecordBatch : Type 0
  pub memory_size : RecordBatch → ℕ
  pub num_rows : RecordBatch → ℕ
  pub squash_batches : SyncSchema → List RecordBatch → Option RecordBatch

-- `SyncError`: the two messages that are refused, and what other components report.
pub data SyncError : Type 0 where
  unfinished_transaction : String → String → SyncError
  empty_transaction : String → ℕ → SyncError
  squash_failed : SyncError
  storage_failed : SyncError

-- `()` or an error, and a panic.
pub data Outcome (A : Type 0) : Type 0 where
  ok : A → Outcome A
  err : SyncError → Outcome A
  panic : Outcome A

pub record SyncCommitInfo : Type 0 where
  pub origin : String
  pub sequence : ℕ
  pub new_tx : Bool

pub record Transaction : Type 0 where
  pub origin : String
  pub sequence : Option ℕ
  pub locations : List String

pub record SyncConf : Type 0 where
  pub max_replication_lag_s : ℕ
  pub max_in_memory_bytes : ℕ
  pub max_syncs_per_url : ℕ

abbrev pub is_none {ℓ} : {A : Type ℓ} → Option A → Bool
is_none none = true
is_none (some a) = false

abbrev pub is_empty {ℓ} : {A : Type ℓ} → List A → Bool
is_empty [] = true
is_empty (x ∷ xs) = false

-- `IndexMap::last_mut`
unfoldable pub last_entry : {A : Type 0} → List A → Option A
last_entry [] = none
last_entry (x ∷ []) = some x
last_entry (x ∷ y ∷ xs) = last_entry (y ∷ xs)

-- `Map::first`
abbrev pub first_entry : {A : Type 0} → List A → Option A
first_entry [] = none
first_entry (x ∷ xs) = some x

-- The pending transaction of the last entry takes the message in.
unfoldable pub merge_transaction : Option ℕ → String → ℕ → Transaction → Transaction
merge_transaction sequence url rows tx = record tx {
  sequence = elim sequence [ some seq ↦ some seq | none ↦ tx.sequence ];
  locations = if 0 == rows then tx.locations else insert_member url tx.locations;
}

-- The `else` branch: a new transaction under the identifier `new_id`.
unfoldable pub new_transaction :
    ℕ
    → Option ℕ
    → String
    → String
    → ℕ
    → List (ℕ × Transaction)
    → Outcome (ℕ × List (ℕ × Transaction))
new_transaction new_id (some seq) origin url zero txs = err (empty_transaction origin seq)
new_transaction new_id sequence origin url rows txs = ok (
  new_id,
  txs ++ (new_id, record { origin = origin; sequence = sequence; locations = url ∷ [] }) ∷ [],
)

-- "Upsert a sequence entry for this origin and sequence number": the identifier of the
-- transaction of the message, and the transactions.
unfoldable pub upsert_transaction :
    Option (ℕ × Transaction)
    → ℕ
    → Option ℕ
    → String
    → String
    → ℕ
    → List (ℕ × Transaction)
    → Outcome (ℕ × List (ℕ × Transaction))
upsert_transaction none new_id sequence origin url rows txs =
    new_transaction new_id sequence origin url rows txs
upsert_transaction (some (tx_id, tx)) new_id sequence origin url rows txs =
    if is_none tx.sequence
    then if str_eq origin tx.origin
      then ok (tx_id, update tx_id (merge_transaction sequence url rows) txs)
      else err (unfinished_transaction origin tx.origin)
    else new_transaction new_id sequence origin url rows txs

module _ (b : Batches) where
  open b use {SyncSchema, RecordBatch, memory_size, num_rows, squash_batches}

  pub record DataSyncItem : Type 0 where
    pub tx_id : ℕ
    pub sync_schema : SyncSchema
    pub batch : RecordBatch

  -- The log store of a collection is named by its URL, the key.
  pub record DataSyncCollection : Type 0 where
    pub size : ℕ
    pub rows : ℕ
    pub insertion_time : ℕ
    pub syncs : List DataSyncItem

  pub record SeafowlDataSyncWriter : Type 0 where
    pub txs : List (ℕ × Transaction)
    pub syncs : List (String × DataSyncCollection)
    pub size : ℕ
    pub origin_memory : List (String × ℕ)
    pub origin_durable : List (String × ℕ)

  abbrev pub new : SeafowlDataSyncWriter
  new = record { txs = []; syncs = []; size = 0; origin_memory = []; origin_durable = [] }

  unfoldable pub stored_sequences : SeafowlDataSyncWriter → String → Option ℕ × Option ℕ
  stored_sequences w origin = (lookup origin w.origin_memory, lookup origin w.origin_durable)

  abbrev pub total_rows : List RecordBatch → ℕ
  total_rows [] = 0
  total_rows (x ∷ xs) = num_rows x + total_rows xs

  -- `and_modify` or `or_insert` on the entry of the URL.
  unfoldable pub add_item : ℕ → DataSyncItem → Option DataSyncCollection → DataSyncCollection
  add_item now item (some c) = record c {
    size = c.size + memory_size item.batch;
    rows = c.rows + num_rows item.batch;
    syncs = c.syncs ++ item ∷ [];
  }
  add_item now item none = record {
    size = memory_size item.batch;
    rows = num_rows item.batch;
    insertion_time = now;
    syncs = item ∷ [];
  }

  unfoldable pub store_item :
      ℕ → String → DataSyncItem → SeafowlDataSyncWriter → SeafowlDataSyncWriter
  store_item now url item w = record w {
    syncs = insert url (add_item now item (lookup url w.syncs)) w.syncs;
    size = w.size + memory_size item.batch;
  }

  -- "Flag the sequence as volatile persisted" if the message ends its transaction.
  unfoldable pub flag_memory : Option ℕ → String → SeafowlDataSyncWriter → SeafowlDataSyncWriter
  flag_memory none origin w = w
  flag_memory (some seq) origin w = record w { origin_memory = insert origin seq w.origin_memory }

  -- The rest of `enqueue_sync` once the transaction is known. A failure to squash returns early,
  -- and leaves the transactions as they are by then.
  unfoldable pub store_batches :
      ℕ
      → String
      → Option ℕ
      → String
      → SyncSchema
      → List RecordBatch
      → ℕ
      → SeafowlDataSyncWriter
      → Outcome (Unit {0}) × SeafowlDataSyncWriter
  store_batches now url sequence origin schema batches tx_id w =
      if 0 == total_rows batches
      then (ok tt, flag_memory sequence origin w)
      else elim (squash_batches schema batches) [
        | none ↦ (err squash_failed, w)
        | some batch ↦ (
          ok tt,
          flag_memory sequence origin (
              store_item now url (record { tx_id = tx_id; sync_schema = schema; batch = batch }) w),
        )
      ]

  unfoldable pub after_upsert :
      ℕ
      → String
      → Option ℕ
      → String
      → SyncSchema
      → List RecordBatch
      → SeafowlDataSyncWriter
      → Outcome (ℕ × List (ℕ × Transaction))
      → Outcome (Unit {0}) × SeafowlDataSyncWriter
  after_upsert now url sequence origin schema batches w (ok (tx_id, txs)) =
      store_batches now url sequence origin schema batches tx_id (record w { txs = txs })
  after_upsert now url sequence origin schema batches w (err e) = (err e, w)
  after_upsert now url sequence origin schema batches w panic = (panic, w)

  -- `now` is the clock and `new_id` the random identifier, should one be drawn.
  unfoldable pub enqueue_sync :
      ℕ
      → ℕ
      → String
      → Option ℕ
      → String
      → SyncSchema
      → List RecordBatch
      → SeafowlDataSyncWriter
      → Outcome (Unit {0}) × SeafowlDataSyncWriter
  enqueue_sync now new_id url sequence origin schema batches w =
      after_upsert now url sequence origin schema batches w (
        upsert_transaction (last_entry w.txs) new_id sequence origin url (total_rows batches) w.txs)
