-- ===== src/Sync/Prune/Scanned.antt =====
-- When a file is read that may hold a row of a sync.
use seafowl.Prelude.{
  ℕ, zero, suc, ◌<◌, ◌≡◌, refl, ap, Bool, true, none, some, List, [], ◌∷◌, get_elem?, length, arith,
  All,
}
use mathlib.Core.Path.{}
use seafowl.Prelude.Map.{string_eq, lookup}
use seafowl.Sync.Schema.{ColumnRole}
use seafowl.Sync.Prune.{
  Array, Kernels, PkColumn, DataSync, PruningStatistics, Values, at_file, replicate,
}
use seafowl.Sync.Prune.Maps.{Faithful, Covered}
use seafowl.Sync.Prune.Found.{Ready, Held, Begun}
use seafowl.Sync.Prune.Answers.{Within}
use seafowl.Sync.Prune.Files.{HitsAt}
use seafowl.Sync.Prune.Covering.{
  Listed, NonEmpty, Covered-Present, Listed-Covered, Faithful-at_file,
}

module _ {V : Type 0} (kernels : Kernels V) (stats : PruningStatistics V) where
  -- Row `r` of the sync has a value in the column, and the statistics of file `j` do not tell that
  -- it is not there: a bound that is missing or NULL tells nothing.
  abbrev pub MayHold : DataSync V → ℕ → ℕ → PkColumn → Type 0
  MayHold sync j r col =
      (array : Array V) × (v : V) × (sync.column_by_name col.field_name ≡ some array)
      × (get_elem? array r ≡ some (some v))
      × Within kernels (at_file j (stats.min_values col.name))
          (at_file j (stats.max_values col.name)) v

  -- Each file that may hold a row of the sync, by its keys of a role, is in.
  abbrev pub IsScanned : ColumnRole → List Bool → DataSync V → Type 0
  IsScanned role out sync =
      (j r : ℕ)
      → j < stats.num_containers
      → NonEmpty (sync.pk_columns role)
      → All (MayHold sync j r) (sync.pk_columns role)
      → get_elem? out j ≡ some true

  pub replicate-all : (count j : ℕ) → j < count → get_elem? (replicate true count) j ≡ some true
  replicate-all zero j lt = absurd (omega arith)
  replicate-all (suc count) zero lt = refl
  replicate-all (suc count) (suc j) lt = replicate-all count j (omega arith)

  pub replicate-length : (b : Bool) (count : ℕ) → length (replicate b count) ≡ count
  replicate-length b zero = refl
  replicate-length b (suc count) = ap suc (replicate-length b count)

  module _ (mins maxs : Values V) (hmin : Faithful stats.num_containers stats.min_values mins)
      (hmax : Faithful stats.num_containers stats.max_values maxs) where
    pub prepared-Ready :
        (firsts : List PkColumn) (sync : DataSync V) (j : ℕ) (cols : List PkColumn)
        → All (λ col. Covered mins maxs col.name) firsts
        → j < stats.num_containers
        → All
            (λ col.
              ((array : Array V) × (sync.column_by_name col.field_name ≡ some array))
              × Listed firsts col.name)
            cols
        → All (Ready kernels mins maxs j sync) cols
    prepared-Ready firsts sync j [] all lt h = tt
    prepared-Ready firsts sync j (col ∷ cols) all lt ((has_column, listed), h) = (
      (
        has_column,
        Covered-Present stats mins maxs col.name j hmin hmax
            (Listed-Covered mins maxs firsts col.name all listed) lt,
      ),
      prepared-Ready firsts sync j cols all lt h,
    )

    MayHold-Held :
        (sync : DataSync V) (j r : ℕ) (cols : List PkColumn)
        → j < stats.num_containers
        → All (MayHold sync j r) cols
        → All (Held kernels mins maxs j sync r) cols
    MayHold-Held sync j r [] lt h = tt
    MayHold-Held sync j r (col ∷ cols) lt ((array, v, column, at, (lo, hi)), h) = (
      (
        array,
        v,
        column,
        at,
        (
          λ s here. lo s (
              Faithful-at_file stats.num_containers stats.min_values mins col.name
                (lookup col.name mins) j s refl hmin lt here),
          λ s here. hi s (
              Faithful-at_file stats.num_containers stats.max_values maxs col.name
                (lookup col.name maxs) j s refl hmax lt here),
        ),
      ),
      MayHold-Held sync j r cols lt h,
    )

    NonEmpty-Begun :
        (j : ℕ) (sync : DataSync V) (cols : List PkColumn)
        → NonEmpty cols
        → Begun kernels mins maxs j sync cols none
    NonEmpty-Begun j sync [] h = absurd h
    NonEmpty-Begun j sync (col ∷ cols) h = tt

    pub HitsAt-IsScanned :
        (role : ColumnRole) (out : List Bool) (sync : DataSync V)
        → ((j : ℕ)
            → j < stats.num_containers
            → HitsAt kernels mins maxs role sync j (get_elem? out j))
        → IsScanned role out sync
    HitsAt-IsScanned role out sync hits j r lt b h =
        hits j lt r (NonEmpty-Begun j sync (sync.pk_columns role) b)
          (MayHold-Held sync j r (sync.pk_columns role) lt h)
