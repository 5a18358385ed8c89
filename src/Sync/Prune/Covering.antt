-- ===== src/Sync/Prune/Covering.antt =====
-- The collected statistics of the columns of a sync.
use seafowl.Prelude.{
  ℕ, zero, suc, ◌+◌, ◌<◌, ◌≡◌, refl, ap, sym, ◌∙◌, String, Bool, true, false, inl, inr, ◌⊎◌, Option,
  none, some, List, [], ◌∷◌, get_elem?, length, arith, All,
}
use mathlib.Core.Path.{subst}
use seafowl.Prelude.Map.{string_eq, lookup}
use seafowl.Sync.Schema.{ColumnRole}
use seafowl.Sync.Prune.{Array, PkColumn, DataSync, PruningStatistics, Values, at_file, is_none}
use seafowl.Sync.Prune.Maps.{Faithful, Covered}
use seafowl.Sync.Prune.Found.{}
use seafowl.Sync.Prune.Answers.{Present}
use seafowl.Sync.Prune.Files.{}

-- The name is that of one of the columns.
abbrev pub Listed : List PkColumn → String → Type 0
Listed [] n = ⊥
Listed (col ∷ cols) n = (col.name ≡ n) ⊎ Listed cols n

abbrev pub NonEmpty : List PkColumn → Type 0
NonEmpty [] = ⊥
NonEmpty (col ∷ cols) = Unit

module _ {V : Type 0} where
  -- The batch of the sync has the columns with keys, and they are among those of the first sync.
  abbrev pub IsPrepared : List PkColumn → DataSync V → ColumnRole → Type 0
  IsPrepared firsts sync role =
      All
        (λ col.
          ((array : Array V) × (sync.column_by_name col.field_name ≡ some array))
          × Listed firsts col.name)
        (sync.pk_columns role)

  left-Present : (a b : Option (Option V)) (s : Option V) → a ≡ some s → Present a b
  left-Present none b s h = absurd cc
  left-Present (some a) b s h = tt

  right-Present : (a b : Option (Option V)) (s : Option V) → b ≡ some s → Present a b
  right-Present none none s h = absurd cc
  right-Present none (some b) s h = tt
  right-Present (some a) b s h = tt

  found :
      (count : ℕ) (stat : String → Option (Array V)) (m : Values V) (n : String)
      (o : Option (Array V)) (j : ℕ)
      → lookup n m ≡ o
      → is_none o ≡ false
      → Faithful count stat m
      → j < count
      → (s : Option V) × (at_file j (lookup n m) ≡ some s)
  found count stat m n none j h some_there faithful lt = absurd cc
  found count stat m n (some xs) j h some_there faithful lt =
      let (x, at, _) = faithful n xs h j lt in (x, ap (at_file j) h ∙ at)

  pub Covered-Present :
      (stats : PruningStatistics V) (mins maxs : Values V) (n : String) (j : ℕ)
      → Faithful stats.num_containers stats.min_values mins
      → Faithful stats.num_containers stats.max_values maxs
      → Covered mins maxs n
      → j < stats.num_containers
      → Present (at_file j (lookup n mins)) (at_file j (lookup n maxs))
  Covered-Present stats mins maxs n j hmin hmax (inl h) lt =
      let (s, at) =
        found stats.num_containers stats.min_values mins n (lookup n mins) j refl
          (not_none (lookup n mins) h) hmin lt in
      left-Present (at_file j (lookup n mins)) (at_file j (lookup n maxs)) s at
    where
      not_none : (o : Option (Array V)) → seafowl.Prelude.not (is_none o) ≡ true → is_none o ≡ false
      not_none none h = absurd cc
      not_none (some x) h = refl
  Covered-Present stats mins maxs n j hmin hmax (inr h) lt =
      let (s, at) =
        found stats.num_containers stats.max_values maxs n (lookup n maxs) j refl
          (not_none (lookup n maxs) h) hmax lt in
      right-Present (at_file j (lookup n mins)) (at_file j (lookup n maxs)) s at
    where
      not_none : (o : Option (Array V)) → seafowl.Prelude.not (is_none o) ≡ true → is_none o ≡ false
      not_none none h = absurd cc
      not_none (some x) h = refl

  pub Listed-Covered :
      (mins maxs : Values V) (cols : List PkColumn) (n : String)
      → All (λ col. Covered mins maxs col.name) cols
      → Listed cols n
      → Covered mins maxs n
  Listed-Covered mins maxs (col ∷ cols) n (c, all) (inl h) = subst (Covered mins maxs) h c
  Listed-Covered mins maxs (col ∷ cols) n (c, all) (inr h) = Listed-Covered mins maxs cols n all h
  Listed-Covered mins maxs [] n all h = absurd h

  pub Faithful-at_file :
      (count : ℕ) (stat : String → Option (Array V)) (m : Values V) (n : String)
      (o : Option (Array V)) (j : ℕ) (s : Option V)
      → lookup n m ≡ o
      → Faithful count stat m
      → j < count
      → at_file j o ≡ some s
      → at_file j (stat n) ≡ some s
  Faithful-at_file count stat m n none j s h faithful lt at = absurd cc
  Faithful-at_file count stat m n (some xs) j s h faithful lt at =
      let (x, here, there) = faithful n xs h j lt in there ∙ (sym here ∙ at)
