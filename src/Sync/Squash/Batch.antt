-- ===== src/Sync/Squash/Batch.antt =====
-- utils.rs, `squash_batches`: from record batches to a record batch.
use seafowl.Prelude.{
  ℕ, zero, suc, String, Bool, Option, none, some, List, [], ◌∷◌, ◌++◌, map, length, get_elem?,
  str_eq, if◌then◌else◌,
}
use seafowl.Prelude.Map.{Eq, nat_eq, lookup, insert}
use seafowl.Sync.Schema.{
  DataTypes, SyncSchema, SyncColumn, ColumnRole, old_pk, new_pk, changed, value, role_eq, column,
}
use seafowl.Sync.Squash.{ColumnRows, squash_rows}

-- The result, an error of arrow, or a panic.
pub data Outcome (A : Type 0) : Type 0 where
  ok : A → Outcome A
  err : Outcome A
  panic : Outcome A

infixl 5 ◌>>=◌
abbrev pub ◌>>=◌ : {A B : Type 0} → Outcome A → (A → Outcome B) → Outcome B
ok a >>= f = f a
err >>= f = err
panic >>= f = panic

abbrev pub expect : {A : Type 0} → Option A → Outcome A
expect none = panic
expect (some a) = ok a

abbrev pub question : {A : Type 0} → Option A → Outcome A
question none = err
question (some a) = ok a

-- What arrow gives: cells, of which `null` is one, and flags are read from; rows of keys, equal
-- exactly when their cells are; and the check of a new batch, which may fail.
pub record Arrow : Type 1 where
  pub Cell : Type 0
  pub row_eq : Eq (List Cell)
  pub null : Cell
  pub is_set : Cell → Bool
  pub try_new : List String → List (List Cell) → Option (List (List Cell))

-- `changed_rows`: the row ids of an entry go to the ends of the columns' lists.
unfoldable pub push_each : List ℕ → List (List ℕ) → List (List ℕ)
push_each [] columns = columns
push_each (row ∷ rows) [] = (row ∷ []) ∷ push_each rows []
push_each (row ∷ rows) (v ∷ columns) = (v ++ row ∷ []) ∷ push_each rows columns

unfoldable pub transpose : List ColumnRows → List (List ℕ) → List (List ℕ)
unfolding push_each
transpose [] columns = columns
transpose (rows ∷ kept) columns = transpose kept (push_each rows.changed_rows columns)

-- `Schema::index_of`, from the index `i` on.
unfoldable pub index_of : String → ℕ → List String → Option ℕ
index_of name i [] = none
index_of name i (n ∷ names) = if str_eq n name then some i else index_of name (suc i) names

-- `entry(..).or_insert(..)`
abbrev pub or_insert : ℕ → List ℕ → List (ℕ × List ℕ) → List (ℕ × List ℕ)
or_insert k v m = elim (lookup k m) [ none ↦ insert k v m | some w ↦ m ]

module _ (types : DataTypes) (a : Arrow) where
  open a use {Cell, row_eq, null, is_set, try_new}

  abbrev pub Column : Type 0
  Column = List Cell

  -- A batch: the names of the fields, the columns, and their length.
  pub record RecordBatch : Type 0 where
    pub names : List String
    pub columns : List Column
    pub num_rows : ℕ

  -- The cell of a column by its row id; row ids are below the length.
  abbrev pub cell : Column → ℕ → Cell
  cell [] i = null
  cell (x ∷ xs) zero = x
  cell (x ∷ xs) (suc i) = cell xs i

  -- The columns of a role.
  unfoldable pub columns_of : ColumnRole → List (SyncColumn types) → List Column → List Column
  unfolding role_eq
  columns_of role (col ∷ cols) (array ∷ arrays) =
      let rest = columns_of role cols arrays in if role_eq col.role role then array ∷ rest else rest
  columns_of role _ _ = []

  -- `RowConverter`: the key of a row.
  abbrev pub row : List Column → ℕ → List Cell
  row cols i = map (λ c. cell c i) cols

  -- The loop that designates row ids for each column, from the column `col_id` on.
  unfoldable pub designate :
      SyncSchema types
      → List String
      → List ℕ
      → List ℕ
      → List (List ℕ)
      → ℕ
      → List (SyncColumn types)
      → List (ℕ × List ℕ)
      → Outcome (List (ℕ × List ℕ))
  unfolding index_of column
  designate s names olds news changed_indices col_id [] indices = ok indices
  designate s names olds news changed_indices col_id (col ∷ cols) indices = elim (col.role) [
    | old_pk ↦
        designate s names olds news changed_indices (suc col_id) cols (insert col_id olds indices)
    | new_pk ↦
        designate s names olds news changed_indices (suc col_id) cols (insert col_id news indices)
    | changed ↦ expect (get_elem? changed_indices 0) >>= λ first.
        expect (column types s col.name value) >>= λ target.
        expect (index_of target.field.name 0 names) >>= λ changed_col_id.
        designate s names olds news changed_indices (suc col_id) cols
          (insert changed_col_id first (insert col_id first indices))
    | value ↦
        designate s names olds news changed_indices (suc col_id) cols
          (or_insert col_id news indices)
  ]

  -- The designated rows of each column, from the column `col_id` on.
  unfoldable pub take_all : ℕ → List Column → List (ℕ × List ℕ) → Outcome (List Column)
  take_all col_id [] indices = ok []
  take_all col_id (array ∷ arrays) indices = expect (lookup col_id indices) >>= λ rows.
      take_all (suc col_id) arrays indices >>= λ rest. ok (map (cell array) rows ∷ rest)

  -- The entries that a batch is squashed to.
  unfoldable pub kept_rows : SyncSchema types → RecordBatch → Option (List ColumnRows)
  unfolding squash_rows columns_of
  kept_rows s batch =
      let olds = columns_of old_pk s.columns batch.columns in
      squash_rows ⦃e = row_eq⦄ (map (λ _. null) olds) (row olds)
        (row (columns_of new_pk s.columns batch.columns))
        (map (λ c i. is_set (cell c i)) (columns_of changed s.columns batch.columns)) batch.num_rows

  -- After the batches are joined.
  unfoldable pub squash_joined : SyncSchema types → RecordBatch → Outcome RecordBatch
  unfolding kept_rows designate take_all transpose
  squash_joined s batch = expect (kept_rows s batch) >>= λ kept.
      designate s batch.names (map (λ r. r.old_pk_row) kept) (map (λ r. r.new_pk_row) kept)
        (transpose kept []) 0 s.columns []
      >>= λ indices. take_all 0 batch.columns indices >>= λ taken.
          question (try_new batch.names taken) >>= λ arrays.
          ok (record { names = batch.names; columns = arrays; num_rows = length kept })

  -- `concat_batches` joins batches of one schema, or fails.
  unfoldable pub squash_batches :
      (List String → List RecordBatch → Option RecordBatch)
      → SyncSchema types
      → List RecordBatch
      → Outcome RecordBatch
  unfolding squash_joined
  squash_batches concat_batches s [] = panic
  squash_batches concat_batches s (first ∷ rest) =
      question (concat_batches first.names (first ∷ rest)) >>= λ batch. squash_joined s batch
