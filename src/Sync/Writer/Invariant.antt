-- ===== src/Sync/Writer/Invariant.antt =====
-- The bookkeeping of the writer: each pending item belongs to a transaction that still waits for
-- the item's table, and the size is the sum of the collections' sizes.
use seafowl.Prelude.{
  ℕ, zero, suc, ◌+◌, ◌<◌, ◌≡◌, ◌≢◌, refl, ◌∙◌, String, inl, inr, true, Option, none, some, List, [],
  ◌∷◌, ◌++◌, All, arith, str_eq, str_eq_refl, ◌==◌, Bool-cases,
}
use seafowl.Prelude.Map.{
  nat_eq, string_eq, member, member-insert, lookup, update, Unique, total, lookup-update,
  lookup-snoc, update-Unique, snoc-Unique,
}
use seafowl.Sync.Writer.{
  Batches, Outcome, ok, err, panic, Transaction, is_none, last_entry, DataSyncItem,
  DataSyncCollection, SeafowlDataSyncWriter, merge_transaction, new_transaction, upsert_transaction,
  new,
}

-- The transaction is known and waits for the table.
abbrev pub Waits : List (ℕ × Transaction) → ℕ → String → Type 0
Waits txs id url = (tx : Transaction) × (lookup id txs ≡ some tx) × (member url tx.locations ≡ true)

-- What waited still waits.
abbrev pub Keeps : List (ℕ × Transaction) → List (ℕ × Transaction) → Type 0
Keeps txs txs' = (id : ℕ) (url : String) → Waits txs id url → Waits txs' id url

last_entry-lookup :
    (l : List (ℕ × Transaction)) (k : ℕ) (tx : Transaction)
    → Unique l
    → last_entry l ≡ some (k, tx)
    → lookup k l ≡ some tx
unfolding last_entry lookup
last_entry-lookup [] k tx u e = cc
last_entry-lookup ((j, v) ∷ []) k tx u e = ground arith
last_entry-lookup ((j, v) ∷ x ∷ l) k tx u e = ground (arith, last_entry-lookup (x ∷ l) k tx u.1 e)

merge-locations :
    (sequence : Option ℕ) (url u : String) (rows : ℕ) (tx : Transaction)
    → member u tx.locations ≡ true
    → member u (merge_transaction sequence url rows tx).locations ≡ true
unfolding merge_transaction
merge-locations sequence url u rows tx h = ground (arith, member-insert url u tx.locations)

merge-location_new :
    (sequence : Option ℕ) (url : String) (rows : ℕ) (tx : Transaction)
    → 0 < rows
    → member url (merge_transaction sequence url rows tx).locations ≡ true
unfolding merge_transaction
merge-location_new sequence url rows tx h =
    ground (arith, member-insert url url tx.locations, str_eq_refl url)

merge-Keeps :
    (k : ℕ) (sequence : Option ℕ) (url : String) (rows : ℕ) (txs : List (ℕ × Transaction))
    → Keeps txs (update k (merge_transaction sequence url rows) txs)
merge-Keeps k sequence url rows txs id u (tx, found, waits) = elim (Bool-cases (k == id)) [
  | inl same ↦ (
    merge_transaction sequence url rows tx,
    lookup-update k id (merge_transaction sequence url rows) txs ∙ rw (found, same),
    merge-locations sequence url u rows tx waits,
  )
  | inr other ↦
      (tx, lookup-update k id (merge_transaction sequence url rows) txs ∙ rw (found, other), waits)
]

snoc-Keeps :
    (k : ℕ) (new_tx : Transaction) (txs : List (ℕ × Transaction))
    → Keeps txs (txs ++ (k, new_tx) ∷ [])
snoc-Keeps k new_tx txs id u (tx, found, waits) =
    (tx, lookup-snoc k id new_tx txs ∙ rw found, waits)

-- What `upsert_transaction` ensures of its result.
abbrev pub Upserted :
    List (ℕ × Transaction) → String → ℕ → Outcome (ℕ × List (ℕ × Transaction)) → Type 0
Upserted txs url rows (ok (id, txs')) =
    Unique txs' × Keeps txs txs' × (0 < rows → Waits txs' id url)
Upserted txs url rows (err e) = Unit
Upserted txs url rows panic = ⊥

snoc-Upserted :
    (new_id rows : ℕ) (sequence : Option ℕ) (origin url : String) (txs : List (ℕ × Transaction))
    → Unique txs
    → lookup new_id txs ≡ none
    → Upserted txs url rows (
        ok (
          new_id,
          txs
              ++ (new_id, record { origin = origin; sequence = sequence; locations = url ∷ [] })
                ∷ [],
        ))
unfolding member
snoc-Upserted new_id rows sequence origin url txs u fresh = (
  snoc-Unique new_id _ txs fresh u,
  snoc-Keeps new_id _ txs,
  λ _.
      let tx : Transaction = record {
        origin = origin;
        sequence = sequence;
        locations = url ∷ [];
      } in
      (
        tx,
        lookup-snoc new_id new_id tx txs ∙ rw fresh (ground arith),
        ground (arith, str_eq_refl url),
      ),
)

new_transaction-Upserted :
    (new_id rows : ℕ) (sequence : Option ℕ) (origin url : String) (txs : List (ℕ × Transaction))
    → Unique txs
    → lookup new_id txs ≡ none
    → Upserted txs url rows (new_transaction new_id sequence origin url rows txs)
unfolding new_transaction
new_transaction-Upserted new_id zero (some seq) origin url txs u fresh = tt
new_transaction-Upserted new_id zero none origin url txs u fresh =
    snoc-Upserted new_id 0 none origin url txs u fresh
new_transaction-Upserted new_id (suc rows) none origin url txs u fresh =
    snoc-Upserted new_id (suc rows) none origin url txs u fresh
new_transaction-Upserted new_id (suc rows) (some seq) origin url txs u fresh =
    snoc-Upserted new_id (suc rows) (some seq) origin url txs u fresh

pub upsert_transaction-Upserted :
    (last : Option (ℕ × Transaction)) (new_id rows : ℕ) (sequence : Option ℕ) (origin url : String)
    (txs : List (ℕ × Transaction))
    → last_entry txs ≡ last
    → Unique txs
    → lookup new_id txs ≡ none
    → Upserted txs url rows (upsert_transaction last new_id sequence origin url rows txs)
unfolding upsert_transaction
upsert_transaction-Upserted none new_id rows sequence origin url txs e u fresh =
    new_transaction-Upserted new_id rows sequence origin url txs u fresh
upsert_transaction-Upserted (some (k, tx)) new_id rows sequence origin url txs e u fresh =
    elim (Bool-cases (is_none tx.sequence)) [
      | inr closed ↦
          rw closed (new_transaction-Upserted new_id rows sequence origin url txs u fresh)
      | inl opened ↦ rw opened (elim (Bool-cases (str_eq origin tx.origin)) [
        | inr other ↦ rw other tt
        | inl same ↦ rw same (
          update-Unique k (merge_transaction sequence url rows) txs u,
          merge-Keeps k sequence url rows txs,
          λ some_rows. (
            merge_transaction sequence url rows tx,
            lookup-update k k (merge_transaction sequence url rows) txs
                ∙ rw (last_entry-lookup txs k tx u e) (ground arith),
            merge-location_new sequence url rows tx some_rows,
          ),
        )
      ])
    ]

module _ (b : Batches) where
  open b use {SyncSchema, RecordBatch, memory_size, num_rows, squash_batches}

  abbrev pub Pending : List (ℕ × Transaction) → String → DataSyncItem b → Type 0
  Pending txs url item = Waits txs item.tx_id url

  abbrev pub batches_size : List (DataSyncItem b) → ℕ
  batches_size [] = 0
  batches_size (s ∷ syncs) = memory_size s.batch + batches_size syncs

  abbrev pub collection_size : DataSyncCollection b → ℕ
  collection_size c = c.size

  -- A collection counts the memory of its batches, and each of its items is waited for.
  pub record IsCollected (txs : List (ℕ × Transaction)) (url : String) (c : DataSyncCollection b)
      : Type 0 where
    pub pending : All (Pending txs url) c.syncs
    pub counted : c.size ≡ batches_size c.syncs
    pub filled : c.syncs ≢ []

  pub record IsValid (w : SeafowlDataSyncWriter b) : Type 0 where
    pub unique_txs : Unique w.txs
    pub unique_syncs : Unique w.syncs
    pub sized : w.size ≡ total collection_size w.syncs
    pub collected :
        (url : String) (c : DataSyncCollection b)
        → lookup url w.syncs ≡ some c
        → IsCollected w.txs url c

  pub new-IsValid : IsValid (new b)
  unfolding total lookup
  new-IsValid = record {
    unique_txs = tt;
    unique_syncs = tt;
    sized = refl;
    collected = λ url c e. cc;
  }

  All-Keeps :
      (txs txs' : List (ℕ × Transaction)) (url : String) (items : List (DataSyncItem b))
      → ((id : ℕ) → Waits txs id url → Waits txs' id url)
      → All (Pending txs url) items
      → All (Pending txs' url) items
  All-Keeps txs txs' url [] keeps a = tt
  All-Keeps txs txs' url (s ∷ items) keeps a =
      (keeps s.tx_id a.0, All-Keeps txs txs' url items keeps a.1)

  pub IsCollected-Keeps :
      (txs txs' : List (ℕ × Transaction)) (url : String) (c : DataSyncCollection b)
      → ((id : ℕ) → Waits txs id url → Waits txs' id url)
      → IsCollected txs url c
      → IsCollected txs' url c
  IsCollected-Keeps txs txs' url c keeps v = record {
    pending = All-Keeps txs txs' url c.syncs keeps v.pending;
    counted = v.counted;
    filled = v.filled;
  }
