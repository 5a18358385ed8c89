-- ===== src/Sync/Writer/Enqueue.antt =====
-- frontend/flight/sync/writer.rs, `enqueue_sync`: it keeps the bookkeeping, and what it refuses it
-- leaves alone.
use seafowl.Prelude.{
  ℕ, ◌+◌, ◌<◌, ◌≡◌, ◌≢◌, refl, sym, ◌∙◌, String, inl, inr, Option, none, some, List, [], ◌∷◌, ◌++◌,
  All, arith, str_eq, str_eq_iff, ◌==◌, if◌then◌else◌, Bool-cases, Option-cases,
}
use mathlib.Core.Option.{some-injective}
use seafowl.Prelude.Map.{
  nat_eq, string_eq, lookup, insert, Unique, total, lookup-insert, insert-Unique, total-insert,
  total-insert_new,
}
use seafowl.Sync.Writer.{
  Batches, SyncError, squash_failed, new_transaction, Outcome, ok, err, panic, Transaction,
  last_entry, DataSyncItem, DataSyncCollection, SeafowlDataSyncWriter, total_rows,
  upsert_transaction, add_item, store_item, flag_memory, store_batches, after_upsert, enqueue_sync,
}
use seafowl.Sync.Writer.Invariant.{
  Waits, Keeps, Upserted, upsert_transaction-Upserted, Pending, batches_size, collection_size,
  IsCollected, IsValid, IsCollected-Keeps,
}

module _ (b : Batches) where
  abbrev Writer : Type 0
  Writer = SeafowlDataSyncWriter b

  batches_size-snoc :
      (items : List (DataSyncItem b)) (item : DataSyncItem b)
      → batches_size b (items ++ item ∷ []) ≡ batches_size b items + b.memory_size item.batch
  batches_size-snoc [] item = omega arith
  batches_size-snoc (s ∷ items) item = omega (arith, batches_size-snoc items item)

  snoc-Pending :
      (txs : List (ℕ × Transaction)) (url : String) (items : List (DataSyncItem b))
      (item : DataSyncItem b)
      → All (Pending b txs url) items
      → Waits txs item.tx_id url
      → All (Pending b txs url) (items ++ item ∷ [])
  snoc-Pending txs url [] item a p = (p, tt)
  snoc-Pending txs url (s ∷ items) item a p = (a.0, snoc-Pending txs url items item a.1 p)

  snoc-filled : (items : List (DataSyncItem b)) (item : DataSyncItem b) → (items ++ item ∷ []) ≢ []
  snoc-filled [] item e = cc
  snoc-filled (s ∷ items) item e = cc

  -- New transactions in which everything that waited still waits.
  with_txs-IsValid :
      (w : Writer) (txs : List (ℕ × Transaction))
      → Unique txs
      → Keeps w.txs txs
      → IsValid b w
      → IsValid b (record w { txs = txs })
  with_txs-IsValid w txs u keeps v = record {
    unique_txs = u;
    unique_syncs = v.unique_syncs;
    sized = v.sized;
    collected =
        λ url c e. IsCollected-Keeps b w.txs txs url c (λ id. keeps id url) (v.collected url c e);
  }

  flag_memory-IsValid :
      (sequence : Option ℕ) (origin : String) (w : Writer)
      → IsValid b w
      → IsValid b (flag_memory b sequence origin w)
  unfolding flag_memory
  flag_memory-IsValid none origin w v = v
  flag_memory-IsValid (some seq) origin w v = record {
    unique_txs = v.unique_txs;
    unique_syncs = v.unique_syncs;
    sized = v.sized;
    collected = v.collected;
  }

  add_item-IsCollected :
      (now : ℕ) (url : String) (item : DataSyncItem b) (w : Writer)
      (held : Option (DataSyncCollection b))
      → lookup url w.syncs ≡ held
      → Waits w.txs item.tx_id url
      → IsValid b w
      → IsCollected b w.txs url (add_item b now item held)
  unfolding add_item
  add_item-IsCollected now url item w none e p v = record {
    pending = (p, tt);
    counted = omega arith;
    filled = λ x. cc;
  }
  add_item-IsCollected now url item w (some c) e p v =
      let old = v.collected url c e in
      record {
        pending = snoc-Pending w.txs url c.syncs item old.pending p;
        counted = omega (arith, old.counted, batches_size-snoc c.syncs item);
        filled = snoc-filled c.syncs item;
      }

  add_item-sized :
      (now : ℕ) (url : String) (item : DataSyncItem b) (w : Writer)
      (held : Option (DataSyncCollection b))
      → lookup url w.syncs ≡ held
      → IsValid b w
      → w.size + b.memory_size item.batch
        ≡ total (collection_size b) (insert url (add_item b now item held) w.syncs)
  unfolding add_item
  add_item-sized now url item w none e v = omega (
    arith,
    v.sized,
    total-insert_new (collection_size b) url (add_item b now item none) w.syncs e,
  )
  add_item-sized now url item w (some c) e v = omega (
    arith,
    v.sized,
    total-insert (collection_size b) url (add_item b now item (some c)) c w.syncs e,
  )

  -- After an insertion each entry is the new one or an old one.
  inserted :
      (w : Writer) (url u : String) (c d : DataSyncCollection b)
      → IsCollected b w.txs url c
      → IsValid b w
      → (if str_eq u url then some c else lookup u w.syncs) ≡ some d
      → IsCollected b w.txs u d
  inserted w url u c d new v e = elim (Bool-cases (str_eq u url)) [
    | inl same ↦
        let same' : u ≡ url = (str_eq_iff u url).0 same in
        let is_new : c ≡ d = some-injective _ _ (rw same at e) in rw (same', ← is_new) new
    | inr other ↦ v.collected u d (rw other at e)
  ]

  store_item-IsValid :
      (now : ℕ) (url : String) (item : DataSyncItem b) (w : Writer)
      → Waits w.txs item.tx_id url
      → IsValid b w
      → IsValid b (store_item b now url item w)
  unfolding store_item
  store_item-IsValid now url item w p v =
      let c = add_item b now item (lookup url w.syncs) in
      record {
        unique_txs = v.unique_txs;
        unique_syncs = insert-Unique url c w.syncs v.unique_syncs;
        sized = add_item-sized now url item w (lookup url w.syncs) refl v;
        collected = λ u d e.
            inserted w url u c d (add_item-IsCollected now url item w (lookup url w.syncs) refl p v)
              v (sym (lookup-insert url u c w.syncs) ∙ e);
      }

  store_batches-IsValid :
      (now : ℕ) (url : String) (sequence : Option ℕ) (origin : String) (schema : b.SyncSchema)
      (batches : List b.RecordBatch) (tx_id : ℕ) (w : Writer)
      → (0 < total_rows b batches → Waits w.txs tx_id url)
      → IsValid b w
      → IsValid b (store_batches b now url sequence origin schema batches tx_id w).1
  unfolding store_batches
  store_batches-IsValid now url sequence origin schema batches tx_id w p v =
      elim (Bool-cases (0 == total_rows b batches)) [
        | inl no_rows ↦ rw no_rows (flag_memory-IsValid sequence origin w v)
        | inr rows ↦ rw rows (elim (Option-cases (b.squash_batches schema batches)) [
          | inl failed ↦ rw (failed, store_batches) v
          | inr (batch, squashed) ↦
              rw (squashed, store_batches)
                (flag_memory-IsValid sequence origin _ (
                  store_item-IsValid now url
                    (record { tx_id = tx_id; sync_schema = schema; batch = batch }) w
                    (p (ground arith)) v))
        ])
      ]

  enqueued :
      (now : ℕ) (url : String) (sequence : Option ℕ) (origin : String) (schema : b.SyncSchema)
      (batches : List b.RecordBatch) (w : Writer) (r : Outcome (ℕ × List (ℕ × Transaction)))
      → Upserted w.txs url (total_rows b batches) r
      → IsValid b w
      → IsValid b (after_upsert b now url sequence origin schema batches w r).1
  unfolding after_upsert
  enqueued now url sequence origin schema batches w (ok (id, txs)) u v =
      store_batches-IsValid now url sequence origin schema batches id (record w { txs = txs }) u.2
        (with_txs-IsValid w txs u.0 u.1 v)
  enqueued now url sequence origin schema batches w (err e) u v = v
  enqueued now url sequence origin schema batches w panic u v = absurd u

  -- With a fresh identifier `enqueue_sync` keeps the bookkeeping on every branch, also where it
  -- returns an error.
  pub enqueue_sync-IsValid :
      (now new_id : ℕ) (url : String) (sequence : Option ℕ) (origin : String)
      (schema : b.SyncSchema) (batches : List b.RecordBatch) (w : Writer)
      → lookup new_id w.txs ≡ none
      → IsValid b w
      → IsValid b (enqueue_sync b now new_id url sequence origin schema batches w).1
  unfolding enqueue_sync
  enqueue_sync-IsValid now new_id url sequence origin schema batches w fresh v =
      enqueued now url sequence origin schema batches w _
        (upsert_transaction-Upserted (last_entry w.txs) new_id (total_rows b batches) sequence
          origin url w.txs refl v.unique_txs fresh)
        v

  store_batches_refused :
      (now : ℕ) (url : String) (sequence : Option ℕ) (origin : String) (schema : b.SyncSchema)
      (batches : List b.RecordBatch) (tx_id : ℕ) (w : Writer) (e : SyncError)
      → (store_batches b now url sequence origin schema batches tx_id w).0 ≡ err e
      → (e ≡ squash_failed)
        × ((store_batches b now url sequence origin schema batches tx_id w).1 ≡ w)
  unfolding store_batches
  store_batches_refused now url sequence origin schema batches tx_id w e h = ground arith

  upsert_refused :
      (last : Option (ℕ × Transaction)) (new_id rows : ℕ) (sequence : Option ℕ)
      (origin url : String) (txs : List (ℕ × Transaction)) (e : SyncError)
      → upsert_transaction last new_id sequence origin url rows txs ≡ err e
      → e ≢ squash_failed
  unfolding upsert_transaction new_transaction
  upsert_refused none new_id rows sequence origin url txs e h = ground arith
  upsert_refused (some (k, tx)) new_id rows sequence origin url txs e h = ground arith

  after_upsert_refused :
      (now : ℕ) (url : String) (sequence : Option ℕ) (origin : String) (schema : b.SyncSchema)
      (batches : List b.RecordBatch) (w : Writer) (r : Outcome (ℕ × List (ℕ × Transaction)))
      (e : SyncError)
      → (after_upsert b now url sequence origin schema batches w r).0 ≡ err e
      → let w' = (after_upsert b now url sequence origin schema batches w r).1 in
        (e ≢ squash_failed → w' ≡ w) × (w' ≡ record w { txs = w'.txs })
  unfolding after_upsert
  after_upsert_refused now url sequence origin schema batches w (ok (id, txs)) e h =
      let (failed, same) =
        store_batches_refused now url sequence origin schema batches id (record w { txs = txs }) e
          h in
      (λ other. absurd (other failed), rw same)
  after_upsert_refused now url sequence origin schema batches w (err x) e h = (λ _. refl, refl)
  after_upsert_refused now url sequence origin schema batches w panic e h = cc

  -- A message that is refused changes nothing at all, and one whose batches cannot be squashed
  -- changes nothing but the transactions: no pending row, no size and no sequence number.
  pub enqueue_sync_refused :
      (now new_id : ℕ) (url : String) (sequence : Option ℕ) (origin : String)
      (schema : b.SyncSchema) (batches : List b.RecordBatch) (w : Writer) (e : SyncError)
      → (enqueue_sync b now new_id url sequence origin schema batches w).0 ≡ err e
      → let w' = (enqueue_sync b now new_id url sequence origin schema batches w).1 in
        (e ≢ squash_failed → w' ≡ w) × (w' ≡ record w { txs = w'.txs })
  unfolding enqueue_sync
  enqueue_sync_refused now new_id url sequence origin schema batches w e h =
      after_upsert_refused now url sequence origin schema batches w _ e h
