-- ===== src/Sync/Prune/Sound.antt =====
-- No file is pruned that can hold a row of a change.
use seafowl.Prelude.{
  ℕ, ◌<◌, ◌≡◌, ◌∙◌, Bool, true, false, Option, none, some, List, [], ◌∷◌, get_elem?, length, arith,
  All,
}
use mathlib.Core.Path.{}
use seafowl.Prelude.Map.{string_eq, lookup}
use seafowl.Sync.Schema.{ColumnRole, old_pk, new_pk}
use seafowl.Sync.Prune.{
  Kernels, PkColumn, DataSync, PruningStatistics, Values, gather, replicate, with_values, sync_loop,
  get_prune_map,
}
use seafowl.Sync.Prune.Maps.{
  Ensures, bind-Ensures, Ensures_mono, Faithful, Fits, Covered, Gathered, Kept, gather-Gathered,
}
use seafowl.Sync.Prune.Found.{Ready}
use seafowl.Sync.Prune.Answers.{}
use seafowl.Sync.Prune.Files.{HitsAt, sync_loop-Hits}
use seafowl.Sync.Prune.Covering.{IsPrepared}
use seafowl.Sync.Prune.Scanned.{
  IsScanned, replicate-all, replicate-length, prepared-Ready, HitsAt-IsScanned,
}

module _ {V : Type 0} (kernels : Kernels V) (stats : PruningStatistics V) where
  module _ (mins maxs : Values V) (hmin : Faithful stats.num_containers stats.min_values mins)
      (hmax : Faithful stats.num_containers stats.max_values maxs) where
    with_values-Scans :
        (firsts : List PkColumn) (syncs : List (DataSync V))
        → All (λ col. Covered mins maxs col.name) firsts
        → All (λ sync. IsPrepared firsts sync old_pk × IsPrepared firsts sync new_pk) syncs
        → Ensures (with_values kernels syncs stats.num_containers (some (mins, maxs))) (λ out.
          (length out ≡ stats.num_containers)
          × All
              (λ sync.
                IsScanned kernels stats old_pk out sync × IsScanned kernels stats new_pk out sync)
              syncs)
    with_values-Scans firsts syncs covered prepared =
        let count = stats.num_containers in
        let start = replicate false count in
        let len = replicate-length kernels stats false count in
        bind-Ensures (sync_loop kernels mins maxs old_pk syncs start)
          (sync_loop kernels mins maxs new_pk syncs) _ _
          (sync_loop-Hits kernels mins maxs old_pk syncs start
            (readies old_pk syncs start len (olds syncs prepared)))
          (λ mid (grown, hits).
            let len' = grown.same_length ∙ len in
            Ensures_mono (sync_loop kernels mins maxs new_pk syncs mid) _ _
              (λ out (more, rest).
                (more.same_length ∙ len', join syncs start mid out len len' more.kept hits rest))
              (sync_loop-Hits kernels mins maxs new_pk syncs mid
                (readies new_pk syncs mid len' (news syncs prepared))))
      where
        olds :
            (syncs : List (DataSync V))
            → All (λ sync. IsPrepared firsts sync old_pk × IsPrepared firsts sync new_pk) syncs
            → All (λ sync. IsPrepared firsts sync old_pk) syncs
        olds [] h = tt
        olds (s ∷ ss) ((a, b), h) = (a, olds ss h)

        news :
            (syncs : List (DataSync V))
            → All (λ sync. IsPrepared firsts sync old_pk × IsPrepared firsts sync new_pk) syncs
            → All (λ sync. IsPrepared firsts sync new_pk) syncs
        news [] h = tt
        news (s ∷ ss) ((a, b), h) = (b, news ss h)

        readies :
            (role : ColumnRole) (syncs : List (DataSync V)) (pm : List Bool)
            → length pm ≡ stats.num_containers
            → All (λ sync. IsPrepared firsts sync role) syncs
            → All
                (λ sync.
                  (j : ℕ)
                  → j < length pm
                  → All (Ready kernels mins maxs j sync) (sync.pk_columns role))
                syncs
        readies role [] pm len h = tt
        readies role (s ∷ ss) pm len (a, h) = (
          λ j lt.
              prepared-Ready kernels stats mins maxs hmin hmax firsts s j (s.pk_columns role)
                covered (omega arith) a,
          readies role ss pm len h,
        )

        join :
            (syncs : List (DataSync V)) (start mid out : List Bool)
            → length start ≡ stats.num_containers
            → length mid ≡ stats.num_containers
            → ((j : ℕ) → get_elem? mid j ≡ some true → get_elem? out j ≡ some true)
            → All
                (λ sync.
                  (j : ℕ)
                  → j < length start
                  → HitsAt kernels mins maxs old_pk sync j (get_elem? mid j))
                syncs
            → All
                (λ sync.
                  (j : ℕ)
                  → j < length mid
                  → HitsAt kernels mins maxs new_pk sync j (get_elem? out j))
                syncs
            → All
                (λ sync.
                  IsScanned kernels stats old_pk out sync × IsScanned kernels stats new_pk out sync)
                syncs
        join [] start mid out len len' kept x y = tt
        join (s ∷ ss) start mid out len len' kept (a, x) (b, y) = (
          (
            λ j r lt ne held. kept j (
                HitsAt-IsScanned kernels stats mins maxs hmin hmax old_pk mid s
                  (λ i h. a i (omega arith)) j r lt ne held),
            HitsAt-IsScanned kernels stats mins maxs hmin hmax new_pk out s
                (λ i h. b i (omega arith)),
          ),
          join ss start mid out len len' kept x y,
        )

  replicate-IsScanned :
      (syncs : List (DataSync V))
      → All
          (λ sync.
            IsScanned kernels stats old_pk (replicate true stats.num_containers) sync
            × IsScanned kernels stats new_pk (replicate true stats.num_containers) sync)
          syncs
  replicate-IsScanned [] = tt
  replicate-IsScanned (s ∷ ss) = (
    (
      λ j r lt ne h. replicate-all kernels stats stats.num_containers j lt,
      λ j r lt ne h. replicate-all kernels stats stats.num_containers j lt,
    ),
    replicate-IsScanned ss,
  )

  -- If the statistics have a value for each file wherever they have a column, and the batch of
  -- each sync has its columns with keys, whose names are among those of the first sync,
  -- `get_prune_map` does not panic. If no kernel fails, it answers for each file, and a file is
  -- read if, as far as the statistics tell, it may hold a row with the old keys or with the new
  -- keys of some row of a sync, where the sync has columns for such keys and the row has a value
  -- in each.
  pub get_prune_map-Scans :
      (first : DataSync V) (syncs : List (DataSync V))
      → Fits stats.num_containers stats.min_values
      → Fits stats.num_containers stats.max_values
      → All
          (λ sync.
            IsPrepared (first.pk_columns old_pk) sync old_pk
            × IsPrepared (first.pk_columns old_pk) sync new_pk)
          (first ∷ syncs)
      → Ensures (get_prune_map kernels (first ∷ syncs) stats) (λ out.
        (length out ≡ stats.num_containers)
        × All
            (λ sync.
              IsScanned kernels stats old_pk out sync × IsScanned kernels stats new_pk out sync)
            (first ∷ syncs))
  unfolding get_prune_map lookup
  get_prune_map-Scans first syncs fit_min fit_max prepared =
      bind-Ensures (gather stats (first.pk_columns old_pk) [] [])
        (with_values kernels (first ∷ syncs) stats.num_containers) _ _
        (gather-Gathered stats (first.pk_columns old_pk) [] [] fit_min fit_max (λ n xs h. absurd cc)
          (λ n xs h. absurd cc))
        after
    where
      after :
          (o : Option (Values V × Values V))
          → Gathered stats (first.pk_columns old_pk) o × Kept [] [] o
          → Ensures (with_values kernels (first ∷ syncs) stats.num_containers o) (λ out.
            (length out ≡ stats.num_containers)
            × All
                (λ sync.
                  IsScanned kernels stats old_pk out sync × IsScanned kernels stats new_pk out sync)
                (first ∷ syncs))
      after none h = (
        replicate-length kernels stats true stats.num_containers,
        replicate-IsScanned (first ∷ syncs),
      )
      after (some (mins, maxs)) ((hmin, hmax, covered), _) =
          with_values-Scans mins maxs hmin hmax (first.pk_columns old_pk) (first ∷ syncs) covered
            prepared
