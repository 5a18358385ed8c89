-- ===== src/Sync/Prune.antt =====
-- `get_prune_map` of frontend/flight/sync/utils.rs: which files of a table can hold rows with the
-- keys of some changes. The kernels of arrow are an interface.
pub mod Maps
pub mod Answers
pub mod Found
pub mod Files
pub mod Covering
pub mod Scanned
pub mod Sound
mod Tests
use seafowl.Prelude.{
  ℕ, zero, suc, ◌<◌, ◌≡◌, ◌≢◌, String, Bool, true, false, not, ◌&&◌, ◌||◌, Option, none, some, List,
  [], ◌∷◌, ltb, get_elem?, if◌then◌else◌,
}
use seafowl.Prelude.Map.{string_eq, lookup, insert}
use seafowl.Sync.Schema.{ColumnRole, old_pk, new_pk}

pub data Outcome (A : Type 0) : Type 0 where
  ok : A → Outcome A
  err : Outcome A
  panic : Outcome A

infixl 5 ◌>>=◌
abbrev pub ◌>>=◌ : {A B : Type 0} → Outcome A → (A → Outcome B) → Outcome B
ok a >>= f = f a
err >>= f = err
panic >>= f = panic

-- `?` on what a kernel gives.
abbrev pub try : {A : Type 0} → Option A → Outcome A
try none = err
try (some a) = ok a

abbrev pub unwrap : {A : Type 0} → Option A → Outcome A
unwrap none = panic
unwrap (some a) = ok a

-- The three truth values of SQL; nothing is unknown.
abbrev pub kleene_and : Option Bool → Option Bool → Option Bool
kleene_and (some false) b = some false
kleene_and (some true) b = b
kleene_and none (some false) = some false
kleene_and none b = none

abbrev pub compare_with : {V : Type 0} → (V → V → Bool) → Option V → Option V → Option Bool
compare_with le (some a) (some b) = some (le a b)
compare_with le _ _ = none

-- The place of element `i` when only the elements that the mask holds are kept.
abbrev pub rank : List Bool → ℕ → ℕ
rank [] i = zero
rank (b ∷ mask) zero = zero
rank (b ∷ mask) (suc i) = if b then suc (rank mask i) else rank mask i

-- An array of a column, without a value where it is NULL.
abbrev pub Array : Type 0 → Type 0
Array V = List (Option V)

-- The kernels of arrow, each of which can fail, and what is documented of them.
pub record Kernels (V : Type 0) : Type 0 where
  pub le : V → V → Bool
  pub is_not_null : Array V → Option (List Bool)
  pub filter : Array V → List Bool → Option (Array V)
  pub gt_eq : Array V → Option V → Option (Array Bool)
  pub lt_eq : Array V → Option V → Option (Array Bool)
  pub and_kleene : Array Bool → Array Bool → Option (Array Bool)
  pub bool_or : Array Bool → Option Bool
  pub null_count : Array Bool → ℕ
  pub is_not_null_lem :
      (xs : Array V) (m : List Bool) (i : ℕ) (v : V)
      → is_not_null xs ≡ some m
      → get_elem? xs i ≡ some (some v)
      → get_elem? m i ≡ some true
  pub filter_lem :
      (xs ys : Array V) (m : List Bool) (i : ℕ) (x : Option V)
      → filter xs m ≡ some ys
      → get_elem? m i ≡ some true
      → get_elem? xs i ≡ some x
      → get_elem? ys (rank m i) ≡ some x
  pub gt_eq_lem :
      (xs : Array V) (s : Option V) (zs : Array Bool) (i : ℕ) (x : Option V)
      → gt_eq xs s ≡ some zs
      → get_elem? xs i ≡ some x
      → get_elem? zs i ≡ some (compare_with le s x)
  pub lt_eq_lem :
      (xs : Array V) (s : Option V) (zs : Array Bool) (i : ℕ) (x : Option V)
      → lt_eq xs s ≡ some zs
      → get_elem? xs i ≡ some x
      → get_elem? zs i ≡ some (compare_with le x s)
  pub and_kleene_lem :
      (xs ys zs : Array Bool) (i : ℕ) (a b : Option Bool)
      → and_kleene xs ys ≡ some zs
      → get_elem? xs i ≡ some a
      → get_elem? ys i ≡ some b
      → get_elem? zs i ≡ some (kleene_and a b)
  pub bool_or_lem :
      (xs : Array Bool) (i : ℕ) → get_elem? xs i ≡ some (some true) → bool_or xs ≡ some true
  pub null_count_lem : (xs : Array Bool) (i : ℕ) → get_elem? xs i ≡ some none → 0 < null_count xs

-- What is read of a column with a key: its name in the table and in the batch.
pub record PkColumn : Type 0 where
  pub name : String
  pub field_name : String

-- What is read of a sync: the columns of its schema that have a role, and the batch.
pub record DataSync (V : Type 0) : Type 0 where
  pub pk_columns : ColumnRole → List PkColumn
  pub column_by_name : String → Option (Array V)

-- `PruningStatistics`
pub record PruningStatistics (V : Type 0) : Type 0 where
  pub num_containers : ℕ
  pub min_values : String → Option (Array V)
  pub max_values : String → Option (Array V)

-- The values of each column, file by file; the source has one key for a column and a file.
abbrev pub Values : Type 0 → Type 0
Values V = List (String × Array V)

module _ {V : Type 0} where
  -- The slices of one element each, from `file` on; a slice out of range is a panic.
  unfoldable pub slices : ℕ → ℕ → Array V → Outcome (Array V)
  slices zero file vals = ok []
  slices (suc left) file vals =
      unwrap (get_elem? vals file) >>= λ x. slices left (suc file) vals >>= λ xs. ok (x ∷ xs)

  abbrev pub add_values : ℕ → String → Option (Array V) → Values V → Outcome (Values V)
  add_values count name none m = ok m
  add_values count name (some vals) m = slices count 0 vals >>= λ xs. ok (insert name xs m)

  abbrev pub is_none : Option (Array V) → Bool
  is_none none = true
  is_none (some vals) = false

  -- The statistics of the columns, or nothing where a column has none.
  unfoldable pub gather :
      PruningStatistics V
      → List PkColumn
      → Values V
      → Values V
      → Outcome (Option (Values V × Values V))
  unfolding slices
  gather stats [] mins maxs = ok (some (mins, maxs))
  gather stats (col ∷ cols) mins maxs =
      if is_none (stats.min_values col.name) && is_none (stats.max_values col.name)
      then ok none
      else (add_values stats.num_containers col.name (stats.min_values col.name) mins >>= λ mins'.
          add_values stats.num_containers col.name (stats.max_values col.name) maxs >>= λ maxs'.
          gather stats cols mins' maxs')

  -- `min_values.get(&col_file)`
  abbrev pub at_file : ℕ → Option (Array V) → Option (Option V)
  at_file ind none = none
  at_file ind (some xs) = get_elem? xs ind

abbrev pub is_some_true : Option Bool → Bool
is_some_true (some b) = b
is_some_true none = false

abbrev pub replicate : Bool → ℕ → List Bool
replicate b zero = []
replicate b (suc n) = b ∷ replicate b n

module _ {V : Type 0} (kernels : Kernels V) where
  -- The array without its NULLs, and the map of what is no NULL.
  abbrev pub scope : Option (List Bool) → Array V → Outcome (Array V × List Bool)
  scope none array = try (kernels.is_not_null array) >>= λ non_nulls.
      try (kernels.filter array non_nulls) >>= λ xs. ok (xs, non_nulls)
  scope (some non_nulls) array = try (kernels.filter array non_nulls) >>= λ xs. ok (xs, non_nulls)

  abbrev pub in_file : Array V → Option (Option V) → Option (Option V) → Outcome (Array Bool)
  in_file array (some min_value) (some max_value) = try (kernels.gt_eq array min_value) >>= λ xs.
      try (kernels.lt_eq array max_value) >>= λ ys. try (kernels.and_kleene xs ys)
  in_file array (some min_value) none = try (kernels.gt_eq array min_value)
  in_file array none (some max_value) = try (kernels.lt_eq array max_value)
  in_file array none none = panic

  abbrev pub merge : Option (Array Bool) → Array Bool → Outcome (Array Bool)
  merge none next = ok next
  merge (some prev) next = try (kernels.and_kleene prev next)

  -- The loop over the key columns of a sync for file `ind`.
  unfoldable pub column_loop :
      Values V
      → Values V
      → ℕ
      → DataSync V
      → List PkColumn
      → Option (List Bool)
      → Option (Array Bool)
      → Outcome (Option (Array Bool))
  column_loop mins maxs ind sync [] non_null_map prune_map = ok prune_map
  column_loop mins maxs ind sync (col ∷ cols) non_null_map prune_map =
      unwrap (sync.column_by_name col.field_name) >>= λ array.
      scope non_null_map array >>= λ (xs, non_nulls). elim xs [
        | [] ↦ column_loop mins maxs ind sync cols (some non_nulls) prune_map
        | y ∷ ys ↦
            in_file (y ∷ ys) (at_file ind (lookup col.name mins))
              (at_file ind (lookup col.name maxs))
            >>= λ next. merge prune_map next >>= λ merged.
                column_loop mins maxs ind sync cols (some non_nulls) (some merged)
      ]

  -- Whether a row of the sync is in the file, or it is unknown.
  abbrev pub is_needed : Option (Array Bool) → Bool
  is_needed none = false
  is_needed (some prune_map) =
      is_some_true (kernels.bool_or prune_map) || ltb 0 (kernels.null_count prune_map)

  -- The loop over the files from `ind` on.
  unfoldable pub file_loop :
      Values V → Values V → ColumnRole → DataSync V → ℕ → List Bool → Outcome (List Bool)
  unfolding column_loop
  file_loop mins maxs role sync ind [] = ok []
  file_loop mins maxs role sync ind (used ∷ prune_map) =
      (if used
        then ok true
        else (column_loop mins maxs ind sync (sync.pk_columns role) none none >>= λ m.
            ok (is_needed m)))
      >>= λ used'. file_loop mins maxs role sync (suc ind) prune_map >>= λ rest. ok (used' ∷ rest)

  unfoldable pub sync_loop :
      Values V → Values V → ColumnRole → List (DataSync V) → List Bool → Outcome (List Bool)
  unfolding file_loop
  sync_loop mins maxs role [] prune_map = ok prune_map
  sync_loop mins maxs role (sync ∷ syncs) prune_map =
      file_loop mins maxs role sync 0 prune_map >>= sync_loop mins maxs role syncs

  abbrev pub with_values :
      List (DataSync V) → ℕ → Option (Values V × Values V) → Outcome (List Bool)
  with_values syncs count none = ok (replicate true count)
  with_values syncs count (some (mins, maxs)) =
      sync_loop mins maxs old_pk syncs (replicate false count) >>= sync_loop mins maxs new_pk syncs

  unfoldable pub get_prune_map : List (DataSync V) → PruningStatistics V → Outcome (List Bool)
  unfolding gather sync_loop
  get_prune_map [] stats = panic
  get_prune_map (first ∷ syncs) stats =
      gather stats (first.pk_columns old_pk) [] []
      >>= with_values (first ∷ syncs) stats.num_containers
