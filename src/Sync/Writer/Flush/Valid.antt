-- ===== src/Sync/Writer/Flush/Valid.antt =====
-- frontend/flight/sync/writer.rs, `flush_syncs`: it keeps the bookkeeping, and panics only in the work
-- on the table.
use seafowl.Prelude.{
  ℕ, zero, suc, ◌-◌, ◌≡◌, ◌≢◌, refl, sym, ◌∙◌, String, ◌⊎◌, inl, inr, Bool, true, false, Option,
  none, some, List, [], ◌∷◌, All, arith, str_eq, str_eq_iff, map, drop, Bool-cases, Option-cases,
  ◌==◌,
}
use mathlib.Core.Path.{subst⁻¹}
use seafowl.Prelude.Map.{
  nat_eq, string_eq, member, member-remove, lookup, update, remove, Unique, lookup-update,
  update-Unique, lookup-remove, remove-Unique, total-remove,
}
use seafowl.Sync.Writer.{
  Batches, SyncError, Transaction, is_none, Outcome, ok, err, panic, SyncCommitInfo, last_entry,
  DataSyncItem, DataSyncCollection, SeafowlDataSyncWriter,
}
use seafowl.Sync.Writer.Flush.{
  Storage, Commit, skip_slice, starts_new_tx, skip_syncs, last_complete, new_commit, durable_txs,
  retain_others, advance_durable, remove_location, remove_tx_locations, remove_sync, after_commit,
  apply_flush, flush_table, ensure_table, flush_entry, flush_syncs,
}
use seafowl.Sync.Writer.Invariant.{Waits, Pending, collection_size, IsValid, IsCollected-Keeps}
use seafowl.Sync.Writer.Flush.Durable.{retain-Keeps, retain_others-Unique}

remove_location-other :
    (url u : String) (tx : Transaction)
    → u ≢ url
    → member u tx.locations ≡ true
    → member u (remove_location url tx).locations ≡ true
unfolding remove_location
remove_location-other url u tx ne h =
    ground (arith, member-remove url u tx.locations, str_eq_iff url u)

update-Waits :
    (url u : String) (k id : ℕ) (txs : List (ℕ × Transaction))
    → u ≢ url
    → Waits txs id u
    → Waits (update k (remove_location url) txs) id u
update-Waits url u k id txs ne (tx, found, waits) = elim (Bool-cases (k == id)) [
  | inl same ↦ (
    remove_location url tx,
    lookup-update k id (remove_location url) txs ∙ rw (found, same),
    remove_location-other url u tx ne waits,
  )
  | inr other ↦ (tx, lookup-update k id (remove_location url) txs ∙ rw (found, other), waits)
]

pub remove_tx_locations-Waits :
    (url u : String) (ids : List ℕ) (id : ℕ) (txs : List (ℕ × Transaction))
    → u ≢ url
    → Waits txs id u
    → Waits (remove_tx_locations url ids txs) id u
unfolding remove_tx_locations
remove_tx_locations-Waits url u [] id txs ne h = h
remove_tx_locations-Waits url u (k ∷ ids) id txs ne h =
    remove_tx_locations-Waits url u ids id (update k (remove_location url) txs) ne
      (update-Waits url u k id txs ne h)

remove_tx_locations-Unique :
    (url : String) (ids : List ℕ) (txs : List (ℕ × Transaction))
    → Unique txs
    → Unique (remove_tx_locations url ids txs)
unfolding remove_tx_locations
remove_tx_locations-Unique url [] txs u = u
remove_tx_locations-Unique url (k ∷ ids) txs u =
    remove_tx_locations-Unique url ids (update k (remove_location url) txs)
      (update-Unique k (remove_location url) txs u)

-- Some of the work on the table panics.
abbrev pub Panics : Storage → Type 0
Panics storage =
    (storage.is_delta_table_location ≡ panic)
    ⊎ (storage.create_table ≡ panic)
    ⊎ (storage.last_sync_commit ≡ panic)
    ⊎ (storage.commits ≡ panic)

-- The outcome is no panic, or the panic of some work on the table.
abbrev pub Safe : {A : Type 0} → Storage → Outcome A → Type 0
Safe storage (ok a) = Unit
Safe storage (err e) = Unit
Safe storage panic = Panics storage

pub Outcome-cases :
    {A : Type 0} (r : Outcome A)
    → ((a : A) × (r ≡ ok a)) ⊎ (((e : SyncError) × (r ≡ err e)) ⊎ (r ≡ panic))
Outcome-cases (ok a) = inl (a, refl)
Outcome-cases (err e) = inr (inl (e, refl))
Outcome-cases panic = inr (inr refl)

module _ (b : Batches) where
  abbrev Writer : Type 0
  Writer = SeafowlDataSyncWriter b

  -- The state without the collection of one URL.
  abbrev without : String → DataSyncCollection b → List (ℕ × Transaction) → Writer → Writer
  without url c txs w = record w { txs = txs; syncs = remove url w.syncs; size = w.size - c.size }

  -- Transactions that wait as before for every other table do for a state without this one.
  without-IsValid :
      (url : String) (c : DataSyncCollection b) (txs : List (ℕ × Transaction)) (w : Writer)
      → lookup url w.syncs ≡ some c
      → Unique txs
      → ((u : String) → u ≢ url → (id : ℕ) → Waits w.txs id u → Waits txs id u)
      → IsValid b w
      → IsValid b (without url c txs w)
  without-IsValid url c txs w found unique keeps v = record {
    unique_txs = unique;
    unique_syncs = remove-Unique url w.syncs v.unique_syncs;
    sized = omega (arith, v.sized, total-remove (collection_size b) url c w.syncs found);
    collected = λ u d e.
        let e' = sym (lookup-remove url u w.syncs v.unique_syncs) ∙ e in
        elim (Bool-cases (str_eq url u)) [
          | inl same ↦ absurd (ground (arith, e', same))
          | inr other ↦
              IsCollected-Keeps b w.txs txs u d
                (keeps u (λ eq. ground (arith, str_eq_iff url u, other, eq)))
                (v.collected u d (rw other at e'))
        ];
  }

  remove_sync-IsValid :
      (url : String) (c : DataSyncCollection b) (txs : List (ℕ × Transaction)) (w : Writer)
      → lookup url w.syncs ≡ some c
      → Unique txs
      → ((u : String) → u ≢ url → (id : ℕ) → Waits w.txs id u → Waits txs id u)
      → IsValid b w
      → IsValid b (remove_sync b url (record w { txs = txs }))
  unfolding remove_sync
  remove_sync-IsValid url c txs w found unique keeps v =
      rw (found, remove_sync) (without-IsValid url c txs w found unique keeps v)

  advance_durable-IsValid : (w : Writer) → IsValid b w → IsValid b (advance_durable b w)
  unfolding advance_durable
  advance_durable-IsValid w v =
      let ids = (durable_txs w.txs w.origin_durable).0 in
      record {
        unique_txs = retain_others-Unique ids w.txs v.unique_txs;
        unique_syncs = v.unique_syncs;
        sized = v.sized;
        collected = λ url c e.
            IsCollected-Keeps b w.txs (retain_others ids w.txs) url c
              (λ id. retain-Keeps w.txs w.origin_durable v.unique_txs id url) (v.collected url c e);
      }

  after_commit-IsValid :
      (url : String) (c : DataSyncCollection b) (syncs : List (DataSyncItem b)) (w : Writer)
      → lookup url w.syncs ≡ some c
      → IsValid b w
      → IsValid b (after_commit b url syncs w)
  unfolding after_commit
  after_commit-IsValid url c syncs w found v =
      let ids = map (λ s. s.tx_id) syncs in
      advance_durable-IsValid _ (
        remove_sync-IsValid url c (remove_tx_locations url ids w.txs) w found
          (remove_tx_locations-Unique url ids w.txs v.unique_txs)
          (λ u ne id. remove_tx_locations-Waits url u ids id w.txs ne) v)

  apply_flush-IsValid :
      (storage : Storage) (url : String) (c : DataSyncCollection b)
      (commit : Outcome (List (DataSyncItem b) × Option SyncCommitInfo)) (w : Writer)
      → lookup url w.syncs ≡ some c
      → IsValid b w
      → IsValid b (apply_flush b storage url c.syncs commit w).1
  unfolding apply_flush
  apply_flush-IsValid storage url c (ok ([], commit)) w found v =
      remove_sync-IsValid url c w.txs w found v.unique_txs (λ u ne id h. h) v
  apply_flush-IsValid storage url c (ok (s ∷ left, commit)) w found v =
      elim (Outcome-cases storage.commits) [
        | inl (u, e) ↦ rw e (after_commit-IsValid url c c.syncs w found v)
        | inr (inl (x, e)) ↦ rw e v
        | inr (inr e) ↦ rw e v
      ]
  apply_flush-IsValid storage url c (err e) w found v = v
  apply_flush-IsValid storage url c panic w found v = v

  drop-Pending :
      (txs : List (ℕ × Transaction)) (url : String) (n : ℕ) (items : List (DataSyncItem b))
      → All (Pending b txs url) items
      → All (Pending b txs url) (drop n items)
  drop-Pending txs url zero items a = a
  drop-Pending txs url (suc n) [] a = tt
  drop-Pending txs url (suc n) (s ∷ items) a = drop-Pending txs url n items a.1

  slice-Pending :
      (txs : List (ℕ × Transaction)) (url : String) (last : Option SyncCommitInfo)
      (items : List (DataSyncItem b))
      → All (Pending b txs url) items
      → All (Pending b txs url) (skip_slice b txs last items)
  unfolding skip_slice
  slice-Pending txs url none items a = a
  slice-Pending txs url (some commit) items a = drop-Pending txs url _ items a

  -- The index of the last sync's transaction is there.
  starts_new_tx-total :
      (txs : List (ℕ × Transaction)) (url : String) (items : List (DataSyncItem b))
      → All (Pending b txs url) items
      → (x : Bool) × (starts_new_tx b txs (last_entry items) ≡ ok x)
  unfolding starts_new_tx last_entry
  starts_new_tx-total txs url [] a = (false, refl)
  starts_new_tx-total txs url (s ∷ []) ((tx, found, waits), a) =
      (is_none tx.sequence, rw (found, starts_new_tx))
  starts_new_tx-total txs url (s ∷ x ∷ items) a = starts_new_tx-total txs url (x ∷ items) a.1

  -- Of pending items `skip_syncs` gives those that are left and their commit info.
  pub skip_syncs-total :
      (txs : List (ℕ × Transaction)) (url : String) (last : Option SyncCommitInfo)
      (items : List (DataSyncItem b))
      → All (Pending b txs url) items
      → let left = skip_slice b txs last items in
        (new_tx : Bool) × (starts_new_tx b txs (last_entry left) ≡ ok new_tx)
        × (skip_syncs b txs last items
            ≡ ok (left, new_commit last new_tx (last_complete b txs left)))
  unfolding skip_syncs
  skip_syncs-total txs url last items a =
      let (new_tx, e) = starts_new_tx-total txs url _ (slice-Pending txs url last items a) in
      (new_tx, e, rw (e, skip_syncs))

  apply_flush-Safe :
      (storage : Storage) (url : String) (syncs left : List (DataSyncItem b))
      (commit : Option SyncCommitInfo) (w : Writer)
      → Safe storage (apply_flush b storage url syncs (ok (left, commit)) w).0
  unfolding apply_flush
  apply_flush-Safe storage url syncs [] commit w = tt
  apply_flush-Safe storage url syncs (s ∷ left) commit w = elim (Outcome-cases storage.commits) [
    | inl (u, e) ↦ rw e tt
    | inr (inl (x, e)) ↦ rw e tt
    | inr (inr e) ↦ rw e (inr (inr (inr refl)))
  ]

  flush_table-IsValid :
      (storage : Storage) (url : String) (c : DataSyncCollection b) (w : Writer)
      → lookup url w.syncs ≡ some c
      → IsValid b w
      → Safe storage (flush_table b storage url c.syncs w).0
        × IsValid b (flush_table b storage url c.syncs w).1
  unfolding flush_table
  flush_table-IsValid storage url c w found v = go storage.last_sync_commit refl
    where
      by_log : Outcome (Option SyncCommitInfo) → Outcome (Option (Commit b)) × Writer
      by_log r = elim r [
        | err e ↦ (err e, w)
        | panic ↦ (panic, w)
        | ok last ↦ apply_flush b storage url c.syncs (skip_syncs b w.txs last c.syncs) w
      ]

      go :
          (r : Outcome (Option SyncCommitInfo))
          → storage.last_sync_commit ≡ r
          → Safe storage (by_log r).0 × IsValid b (by_log r).1
      go (ok last) e =
          let (new_tx, _, skipped) =
            skip_syncs-total w.txs url last c.syncs (v.collected url c found).pending in
          (
            subst⁻¹ (λ r. Safe storage (apply_flush b storage url c.syncs r w).0) skipped
                (apply_flush-Safe storage url c.syncs _ _ w),
            apply_flush-IsValid storage url c (skip_syncs b w.txs last c.syncs) w found v,
          )
      go (err x) e = (tt, v)
      go panic e = (inr (inr (inl e)), v)

  create_table-Safe : (storage : Storage) → Safe storage storage.create_table
  create_table-Safe storage = elim (Outcome-cases storage.create_table) [
    | inl (x, e) ↦ subst⁻¹ (Safe storage) e tt
    | inr (inl (x, e)) ↦ subst⁻¹ (Safe storage) e tt
    | inr (inr e) ↦ subst⁻¹ (Safe storage) e (inr (inl e))
  ]

  -- A collection has a first sync, whose schema the table is created with.
  ensure_table-Safe :
      (storage : Storage) (syncs : List (DataSyncItem b))
      → syncs ≢ []
      → Safe storage (ensure_table b storage syncs)
  unfolding ensure_table
  ensure_table-Safe storage [] filled = absurd (filled refl)
  ensure_table-Safe storage (s ∷ syncs) filled =
      elim (Outcome-cases storage.is_delta_table_location) [
        | inl (there, e) ↦ elim (Bool-cases there) [
          | inl y ↦ subst⁻¹ (Safe storage) {y = ok tt} (rw (e, y) refl) tt
          | inr n ↦
              subst⁻¹ (Safe storage) {y = storage.create_table} (rw (e, n) refl)
                (create_table-Safe storage)
        ]
        | inr (inl (x, e)) ↦ subst⁻¹ (Safe storage) {y = err x} (rw e refl) tt
        | inr (inr e) ↦ subst⁻¹ (Safe storage) {y = panic} (rw e refl) (inl e)
      ]

  flush_entry-IsValid :
      (storage : Storage) (url : String) (c : DataSyncCollection b) (r : Outcome (Unit {0}))
      (w : Writer)
      → Safe storage r
      → lookup url w.syncs ≡ some c
      → IsValid b w
      → Safe storage (flush_entry b storage url c.syncs r w).0
        × IsValid b (flush_entry b storage url c.syncs r w).1
  unfolding flush_entry
  flush_entry-IsValid storage url c (ok x) w fine found v =
      flush_table-IsValid storage url c w found v
  flush_entry-IsValid storage url c (err e) w fine found v = (tt, v)
  flush_entry-IsValid storage url c panic w fine found v = (fine, v)

  -- However the work on the table ends, `flush_syncs` keeps the bookkeeping, and it panics only if that
  -- work does: it neither looks up a transaction that is missing nor takes the first item of an
  -- empty collection.
  pub flush_syncs-IsValid :
      (storage : Storage) (url : String) (w : Writer)
      → IsValid b w
      → Safe storage (flush_syncs b storage url w).0 × IsValid b (flush_syncs b storage url w).1
  unfolding flush_syncs
  flush_syncs-IsValid storage url w v = elim (Option-cases (lookup url w.syncs)) [
    | inl absent ↦ rw (absent, flush_syncs) (tt, v)
    | inr (c, found) ↦
        rw (found, flush_syncs)
          (flush_entry-IsValid storage url c (ensure_table b storage c.syncs) w
            (ensure_table-Safe storage c.syncs (v.collected url c found).filled) found v)
  ]
