-- ===== src/Sync/Writer/Flush.antt =====
-- frontend/flight/sync/writer.rs, the flush: which table is due, which of its syncs are stored
-- already, and what a commit changes in memory. How the work on the Delta table ends is an argument, a
-- `Storage`: the table's log is not part of the program, and the query plan of a flush, which is, is
-- not modelled; each may fail or panic, before anything has changed in memory.
pub mod Durable
pub mod Valid
pub mod Loop
use seafowl.Prelude.{
  ℕ, zero, suc, ◌+◌, ◌-◌, String, Bool, true, false, not, ◌&&◌, Option, none, some, List, [], ◌∷◌,
  length, map, drop, leb, ◌==◌, str_eq, if◌then◌else◌,
}
use seafowl.Prelude.Map.{nat_eq, string_eq, member, remove_member, lookup, update, insert, remove}
use seafowl.Sync.Writer.{
  Batches, Outcome, ok, err, panic, SyncCommitInfo, Transaction, SyncConf, is_none, is_empty,
  last_entry, first_entry, DataSyncItem, DataSyncCollection, SeafowlDataSyncWriter,
}

-- How the work on the table at the URL ends: the test whether it is there, its creation, the reading
-- of its last sync commit (`load`, and `table_sequence` with its `expect`), and all from
-- `prune_partitions` over the plan that `apply_sync` builds to the new files and their commit.
pub record Storage : Type 0 where
  pub is_delta_table_location : Outcome Bool
  pub create_table : Outcome (Unit {0})
  pub last_sync_commit : Outcome (Option SyncCommitInfo)
  pub commits : Outcome (Unit {0})

-- The first part of the loop of `advance_durable`: the transactions that become durable, and the
-- durable sequences with theirs.
unfoldable pub is_durable : Transaction → Bool
is_durable tx = not (is_none tx.sequence) && is_empty tx.locations

abbrev pub set_durable : Transaction → List (String × ℕ) → List (String × ℕ)
set_durable tx durable = elim tx.sequence [
  | some seq ↦ insert tx.origin seq durable
  | none ↦ durable
]

unfoldable pub durable_txs : List (ℕ × Transaction) → List (String × ℕ) → List ℕ × List (String × ℕ)
durable_txs [] durable = ([], durable)
durable_txs ((tx_id, tx) ∷ txs) durable =
    let (ids, durable') = durable_txs txs (set_durable tx durable) in
    if is_durable tx then (tx_id ∷ ids, durable') else ([], durable)

-- `txs.retain(|tx_id, _| !durable_txs.contains(tx_id))`
unfoldable pub retain_others : List ℕ → List (ℕ × Transaction) → List (ℕ × Transaction)
retain_others ids [] = []
retain_others ids ((tx_id, tx) ∷ txs) =
    let rest = retain_others ids txs in if member tx_id ids then rest else (tx_id, tx) ∷ rest

-- The transaction is complete and is the one that the commit names.
unfoldable pub is_committed : SyncCommitInfo → Option Transaction → Bool
is_committed commit none = false
is_committed commit (some tx) = elim tx.sequence [
  | none ↦ false
  | some seq ↦ str_eq tx.origin commit.origin && seq == commit.sequence
]

unfoldable pub remove_location : String → Transaction → Transaction
remove_location url tx = record tx { locations = remove_member url tx.locations }

unfoldable pub remove_tx_locations :
    String → List ℕ → List (ℕ × Transaction) → List (ℕ × Transaction)
remove_tx_locations url [] txs = txs
remove_tx_locations url (tx_id ∷ ids) txs =
    remove_tx_locations url ids (update tx_id (remove_location url) txs)

unfoldable pub new_commit :
    Option SyncCommitInfo → Bool → Option (String × ℕ) → Option SyncCommitInfo
new_commit last new_tx (some (origin, seq)) =
    some (record { origin = origin; sequence = seq; new_tx = new_tx })
new_commit none new_tx none = none
new_commit (some commit) new_tx none = some (record commit { new_tx = new_tx })

module _ (b : Batches) where
  abbrev pub Writer : Type 0
  Writer = SeafowlDataSyncWriter b

  abbrev pub Item : Type 0
  Item = DataSyncItem b

  unfoldable pub advance_durable : Writer → Writer
  advance_durable w =
      let (ids, durable) = durable_txs w.txs w.origin_durable in
      record w { txs = retain_others ids w.txs; origin_durable = durable }

  unfoldable pub remove_sync : String → Writer → Writer
  remove_sync url w = elim (lookup url w.syncs) [
    | none ↦ w
    | some sync ↦ record w { syncs = remove url w.syncs; size = w.size - sync.size }
  ]

  -- The position behind the first sync whose transaction is the one of the commit.
  unfoldable pub skip_count : List (ℕ × Transaction) → SyncCommitInfo → List Item → ℕ → ℕ
  skip_count txs commit [] ind = 0
  skip_count txs commit (sync ∷ syncs) ind =
      let rest = skip_count txs commit syncs (ind + 1) in
      if is_committed commit (lookup sync.tx_id txs) then ind + 1 else rest

  unfoldable pub skip_slice : List (ℕ × Transaction) → Option SyncCommitInfo → List Item → List Item
  skip_slice txs none syncs = syncs
  skip_slice txs (some commit) syncs = drop (skip_count txs commit syncs 0) syncs

  -- `self.txs[&sync.tx_id].sequence.is_none()` on the last sync; indexing panics on a missing key.
  unfoldable pub starts_new_tx : List (ℕ × Transaction) → Option Item → Outcome Bool
  starts_new_tx txs none = ok false
  starts_new_tx txs (some sync) = elim (lookup sync.tx_id txs) [
    | none ↦ panic
    | some tx ↦ ok (is_none tx.sequence)
  ]

  -- The origin and sequence of the last sync whose transaction is complete.
  unfoldable pub last_complete : List (ℕ × Transaction) → List Item → Option (String × ℕ)
  last_complete txs [] = none
  last_complete txs (sync ∷ syncs) =
      let later = last_complete txs syncs in
      elim later [
        | some x ↦ some x
        | none ↦ elim (lookup sync.tx_id txs) [
          | none ↦ none
          | some tx ↦ elim tx.sequence [ none ↦ none | some seq ↦ some (tx.origin, seq) ]
        ]
      ]

  unfoldable pub skip_syncs :
      List (ℕ × Transaction)
      → Option SyncCommitInfo
      → List Item
      → Outcome (List Item × Option SyncCommitInfo)
  skip_syncs txs last syncs =
      let left = skip_slice txs last syncs in
      elim (starts_new_tx txs (last_entry left)) [
        | ok new_tx ↦ ok (left, new_commit last new_tx (last_complete txs left))
        | err e ↦ err e
        | panic ↦ panic
      ]

  -- What a flush hands to the table: the syncs that are applied, and the commit info.
  abbrev pub Commit : Type 0
  Commit = List Item × Option SyncCommitInfo

  -- After a successful commit.
  unfoldable pub after_commit : String → List Item → Writer → Writer
  after_commit url syncs w = advance_durable (
      remove_sync url (record w { txs = remove_tx_locations url (map (λ s. s.tx_id) syncs) w.txs }))

  unfoldable pub apply_flush :
      Storage → String → List Item → Outcome Commit → Writer → Outcome (Option Commit) × Writer
  apply_flush storage url syncs (ok ([], commit)) w = (ok none, remove_sync url w)
  apply_flush storage url syncs (ok (s ∷ left, commit)) w = elim storage.commits [
    | ok _ ↦ (ok (some (s ∷ left, commit)), after_commit url syncs w)
    | err e ↦ (err e, w)
    | panic ↦ (panic, w)
  ]
  apply_flush storage url syncs (err e) w = (err e, w)
  apply_flush storage url syncs panic w = (panic, w)

  -- "If there's no delta table at this location yet create one first"; `unwrap` panics on a
  -- collection without a sync.
  unfoldable pub ensure_table : Storage → List Item → Outcome (Unit {0})
  ensure_table storage syncs = elim storage.is_delta_table_location [
    | err e ↦ err e
    | panic ↦ panic
    | ok true ↦ ok tt
    | ok false ↦ elim (first_entry syncs) [ none ↦ panic | some sync ↦ storage.create_table ]
  ]

  unfoldable pub flush_table :
      Storage → String → List Item → Writer → Outcome (Option Commit) × Writer
  flush_table storage url syncs w = elim storage.last_sync_commit [
    | err e ↦ (err e, w)
    | panic ↦ (panic, w)
    | ok last ↦ apply_flush storage url syncs (skip_syncs w.txs last syncs) w
  ]

  unfoldable pub flush_entry :
      Storage → String → List Item → Outcome (Unit {0}) → Writer → Outcome (Option Commit) × Writer
  flush_entry storage url syncs (ok x) w = flush_table storage url syncs w
  flush_entry storage url syncs (err e) w = (err e, w)
  flush_entry storage url syncs panic w = (panic, w)

  -- `flush_syncs`: what was committed, if anything.
  unfoldable pub flush_syncs : Storage → String → Writer → Outcome (Option Commit) × Writer
  flush_syncs storage url w = elim (lookup url w.syncs) [
    | none ↦ (ok none, w)
    | some entry ↦ flush_entry storage url entry.syncs (ensure_table storage entry.syncs) w
  ]

  -- The first collection with enough messages.
  unfoldable pub find_full : ℕ → List (String × DataSyncCollection b) → Option String
  find_full n [] = none
  find_full n ((url, c) ∷ syncs) = if leb n (length c.syncs) then some url else find_full n syncs

  unfoldable pub oldest_is_due : SyncConf → ℕ → Option (String × DataSyncCollection b) → Bool
  oldest_is_due conf now none = false
  oldest_is_due conf now (some (url, c)) = leb conf.max_replication_lag_s (now - c.insertion_time)

  unfoldable pub first_url : Option (String × DataSyncCollection b) → Outcome (Option String)
  first_url none = panic
  first_url (some (url, c)) = ok (some url)

  -- `flush_ready`; the clock does not run backwards, and `unwrap` panics without a collection.
  unfoldable pub flush_ready : SyncConf → ℕ → Writer → Outcome (Option String)
  flush_ready conf now w =
      if oldest_is_due conf now (first_entry w.syncs)
      then first_url (first_entry w.syncs)
      else if leb conf.max_in_memory_bytes w.size
      then first_url (first_entry w.syncs)
      else ok (find_full conf.max_syncs_per_url w.syncs)

  -- The loop of `flush`, on fuel: `none` means that the fuel ran out.
  unfoldable pub flush_loop :
      ℕ → (String → Storage) → SyncConf → ℕ → Writer → Option (Outcome (Unit {0}) × Writer)
  flush_loop zero storage conf now w = none
  flush_loop (suc fuel) storage conf now w = elim (flush_ready conf now w) [
    | panic ↦ some (panic, w)
    | err e ↦ some (err e, w)
    | ok none ↦ some (ok tt, w)
    | ok (some url) ↦
        let (result, w') = flush_syncs (storage url) url w in
        elim result [
          | ok _ ↦ flush_loop fuel storage conf now w'
          | err e ↦ some (err e, w')
          | panic ↦ some (panic, w')
        ]
  ]
