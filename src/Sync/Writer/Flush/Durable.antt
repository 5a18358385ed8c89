-- ===== src/Sync/Writer/Flush/Durable.antt =====
-- frontend/flight/sync/writer.rs, `advance_durable`: which transactions become durable.
use seafowl.Prelude.{
  ℕ, ◌≡◌, refl, ap, sym, ◌∙◌, String, inl, inr, true, false, ◌&&◌, not, Option, none, some, List,
  [], ◌∷◌, ◌++◌, All, arith, ◌==◌, if◌then◌else◌, Bool-cases,
}
use mathlib.Core.Option.{some-injective}
use seafowl.Prelude.Map.{nat_eq, string_eq, member, lookup, Unique}
use seafowl.Sync.Writer.{Batches, Transaction, is_none, is_empty, SeafowlDataSyncWriter}
use seafowl.Sync.Writer.Flush.{is_durable, set_durable, durable_txs, retain_others, advance_durable}
use seafowl.Sync.Writer.Invariant.{Keeps}

-- The longest run of durable transactions at the front.
unfoldable pub durable_prefix : List (ℕ × Transaction) → List (ℕ × Transaction)
durable_prefix [] = []
durable_prefix ((id, tx) ∷ txs) =
    let rest = durable_prefix txs in if is_durable tx then (id, tx) ∷ rest else []

-- What follows it.
unfoldable pub durable_rest : List (ℕ × Transaction) → List (ℕ × Transaction)
durable_rest [] = []
durable_rest ((id, tx) ∷ txs) =
    let rest = durable_rest txs in if is_durable tx then rest else (id, tx) ∷ txs

-- The durable sequences after the transactions have been recorded in order.
unfoldable pub record_durable : List (ℕ × Transaction) → List (String × ℕ) → List (String × ℕ)
record_durable [] durable = durable
record_durable ((id, tx) ∷ txs) durable = record_durable txs (set_durable tx durable)

durable_txs-sequences :
    (txs : List (ℕ × Transaction)) (durable : List (String × ℕ))
    → (durable_txs txs durable).1 ≡ record_durable (durable_prefix txs) durable
unfolding durable_txs record_durable durable_prefix
durable_txs-sequences [] durable = refl
durable_txs-sequences ((id, tx) ∷ txs) durable = elim (Bool-cases (is_durable tx)) [
  | inl yes' ↦ rw yes' (durable_txs-sequences txs (set_durable tx durable))
  | inr no' ↦ rw no'
]

member-durable_txs :
    (txs : List (ℕ × Transaction)) (durable : List (String × ℕ)) (id : ℕ)
    → Unique txs
    → member id (durable_txs txs durable).0 ≡ true
    → (tx : Transaction) × (lookup id txs ≡ some tx) × (is_durable tx ≡ true)
unfolding durable_txs member lookup
member-durable_txs [] durable id u m = cc
member-durable_txs ((k, tx) ∷ txs) durable id u m = elim (Bool-cases (is_durable tx)) [
  | inr kept ↦ absurd (ground arith)
  | inl goes ↦ elim (Bool-cases (id == k)) [
    | inl same ↦ (tx, rw same, goes)
    | inr other ↦
        let (x, found, durable') =
          member-durable_txs txs (set_durable tx durable) id u.1 (ground arith) in
        (x, rw other found, durable')
  ]
]

lookup-retain_others :
    (ids : List ℕ) (txs : List (ℕ × Transaction)) (id : ℕ)
    → lookup id (retain_others ids txs) ≡ (if member id ids then none else lookup id txs)
unfolding retain_others lookup
lookup-retain_others ids [] id = ground arith
lookup-retain_others ids ((k, tx) ∷ txs) id = ground (arith, lookup-retain_others ids txs id)

pub retain_others-Unique :
    (ids : List ℕ) (txs : List (ℕ × Transaction)) → Unique txs → Unique (retain_others ids txs)
unfolding retain_others
retain_others-Unique ids [] u = tt
retain_others-Unique ids ((k, tx) ∷ txs) u =
    ground (arith, retain_others-Unique ids txs u.1, lookup-retain_others ids txs k)

-- A transaction that still waits for a table is not durable.
waiting_not_durable :
    (tx : Transaction) (url : String) → member url tx.locations ≡ true → is_durable tx ≡ false
unfolding is_durable member
waiting_not_durable tx url h = ground arith

pub retain-Keeps :
    (txs : List (ℕ × Transaction)) (durable : List (String × ℕ))
    → Unique txs
    → Keeps txs (retain_others (durable_txs txs durable).0 txs)
retain-Keeps txs durable u id url (tx, found, waits) =
    elim (Bool-cases (member id (durable_txs txs durable).0)) [
      | inr kept ↦
          (tx, lookup-retain_others (durable_txs txs durable).0 txs id ∙ rw kept found, waits)
      | inl goes ↦
          let (x, found', durable') = member-durable_txs txs durable id u goes in
          let same : x ≡ tx = some-injective _ _ (sym found' ∙ found) in
          absurd (ground (arith, waiting_not_durable tx url waits))
    ]

retain-nil : (txs : List (ℕ × Transaction)) → retain_others [] txs ≡ txs
unfolding retain_others member
retain-nil [] = refl
retain-nil ((k, tx) ∷ txs) = ap (◌∷◌ (k, tx)) (retain-nil txs)

retain-cons_absent :
    (k : ℕ) (ids : List ℕ) (txs : List (ℕ × Transaction))
    → lookup k txs ≡ none
    → retain_others (k ∷ ids) txs ≡ retain_others ids txs
unfolding retain_others member lookup
retain-cons_absent k ids [] e = refl
retain-cons_absent k ids ((j, tx) ∷ txs) e = ground (arith, retain-cons_absent k ids txs)

retain_self :
    (k : ℕ) (ids : List ℕ) (tx : Transaction) (txs : List (ℕ × Transaction))
    → lookup k txs ≡ none
    → retain_others (k ∷ ids) ((k, tx) ∷ txs) ≡ retain_others ids txs
unfolding retain_others member
retain_self k ids tx txs absent = ground (arith, retain-cons_absent k ids txs absent)

durable_txs-rest :
    (txs : List (ℕ × Transaction)) (durable : List (String × ℕ))
    → Unique txs
    → retain_others (durable_txs txs durable).0 txs ≡ durable_rest txs
unfolding durable_txs durable_rest
durable_txs-rest [] durable u = unfold retain_others in refl
durable_txs-rest ((k, tx) ∷ txs) durable u = elim (Bool-cases (is_durable tx)) [
  | inr kept ↦ rw kept (retain-nil ((k, tx) ∷ txs))
  | inl goes ↦
      let ids = (durable_txs txs (set_durable tx durable)).0 in
      rw goes (retain_self k ids tx txs u.0 ∙ durable_txs-rest txs (set_durable tx durable) u.1)
]

prefix-rest : (txs : List (ℕ × Transaction)) → txs ≡ durable_prefix txs ++ durable_rest txs
unfolding durable_prefix durable_rest
prefix-rest [] = refl
prefix-rest ((k, tx) ∷ txs) = ground (arith, prefix-rest txs)

-- The transaction is complete and no table of it has a pending flush.
abbrev pub IsFlushed : ℕ × Transaction → Type 0
IsFlushed (id, tx) = ((seq : ℕ) × (tx.sequence ≡ some seq)) × (tx.locations ≡ [])

complete_and_empty :
    (sequence : Option ℕ) (locations : List String)
    → not (is_none sequence) && is_empty locations ≡ true
    → ((seq : ℕ) × (sequence ≡ some seq)) × (locations ≡ [])
complete_and_empty none locations h = cc
complete_and_empty (some seq) (x ∷ xs) h = cc
complete_and_empty (some seq) [] h = ((seq, refl), refl)

is_durable_sound : (id : ℕ) (tx : Transaction) → is_durable tx ≡ true → IsFlushed (id, tx)
unfolding is_durable
is_durable_sound id tx h = complete_and_empty tx.sequence tx.locations h

prefix-IsFlushed : (txs : List (ℕ × Transaction)) → All IsFlushed (durable_prefix txs)
unfolding durable_prefix
prefix-IsFlushed [] = tt
prefix-IsFlushed ((k, tx) ∷ txs) = elim (Bool-cases (is_durable tx)) [
  | inr kept ↦ rw kept tt
  | inl goes ↦ rw goes (is_durable_sound k tx goes, prefix-IsFlushed txs)
]

-- The first transaction of the list, if there is one, is not flushed.
abbrev pub IsHeldBack : List (ℕ × Transaction) → Type 0
IsHeldBack [] = Unit
IsHeldBack (x ∷ txs) = ¬ IsFlushed x

is_durable_complete : (id : ℕ) (tx : Transaction) → is_durable tx ≡ false → ¬ IsFlushed (id, tx)
unfolding is_durable
is_durable_complete id tx h f = ground arith

rest-IsHeldBack : (txs : List (ℕ × Transaction)) → IsHeldBack (durable_rest txs)
unfolding durable_rest
rest-IsHeldBack [] = tt
rest-IsHeldBack ((k, tx) ∷ txs) = elim (Bool-cases (is_durable tx)) [
  | inr kept ↦ rw kept (is_durable_complete k tx kept)
  | inl goes ↦ rw goes (rest-IsHeldBack txs)
]

module _ (b : Batches) where
  -- `advance_durable` takes the longest run of flushed transactions from the front of the queue,
  -- records their sequences in order, and keeps the rest: exactly the flushed ones before the first
  -- that is not.
  pub advance_durable_lem :
      (w : SeafowlDataSyncWriter b)
      → Unique w.txs
      → (flushed : List (ℕ × Transaction)) × (rest : List (ℕ × Transaction)) × (w.txs
          ≡ flushed ++ rest)
        × All IsFlushed flushed
        × IsHeldBack rest
        × (advance_durable b w
            ≡ record w { txs = rest; origin_durable = record_durable flushed w.origin_durable })
  unfolding advance_durable
  advance_durable_lem w u = (
    durable_prefix w.txs,
    durable_rest w.txs,
    prefix-rest w.txs,
    prefix-IsFlushed w.txs,
    rest-IsHeldBack w.txs,
    rw (durable_txs-rest w.txs w.origin_durable u, durable_txs-sequences w.txs w.origin_durable),
  )
