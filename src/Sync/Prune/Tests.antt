-- ===== src/Sync/Prune/Tests.antt =====
-- get_prune_map on three files with numbers for keys, with simple kernels that do not fail.
use seafowl.Prelude.{
  ℕ, zero, suc, ◌+◌, ◌<◌, ◌≡◌, refl, ap, sym, ◌∙◌, String, Bool, true, false, Bool-cases, inl, inr,
  not, Option, none, some, List, [], ◌∷◌, leb, length, get_elem?, str_eq, arith, All, if◌then◌else◌,
}
use seafowl.Sync.Schema.{ColumnRole, old_pk, new_pk, changed, value}
use seafowl.Sync.Prune.{
  ok, Array, Kernels, PkColumn, DataSync, PruningStatistics, compare_with, kleene_and, rank,
  get_prune_map,
}
use seafowl.Sync.Prune.Maps.{Ensures}
use seafowl.Sync.Prune.Scanned.{IsScanned}
use seafowl.Sync.Prune.Sound.{get_prune_map-Scans}

unfoldable is_value : Option ℕ → Bool
is_value none = false
is_value (some x) = true

unfoldable non_nulls : Array ℕ → List Bool
unfolding is_value
non_nulls [] = []
non_nulls (x ∷ xs) = is_value x ∷ non_nulls xs

non_nulls_lem :
    (xs : Array ℕ) (i : ℕ) (v : ℕ)
    → get_elem? xs i ≡ some (some v)
    → get_elem? (non_nulls xs) i ≡ some true
unfolding non_nulls
non_nulls_lem [] i v h = absurd cc
non_nulls_lem (x ∷ xs) zero v h = let y : x ≡ some v = cc in rw y refl
non_nulls_lem (x ∷ xs) (suc i) v h = non_nulls_lem xs i v h

unfoldable keep : Array ℕ → List Bool → Array ℕ
keep [] m = []
keep (x ∷ xs) [] = []
keep (x ∷ xs) (true ∷ m) = x ∷ keep xs m
keep (x ∷ xs) (false ∷ m) = keep xs m

keep_lem :
    (xs : Array ℕ) (m : List Bool) (i : ℕ) (x : Option ℕ)
    → get_elem? m i ≡ some true
    → get_elem? xs i ≡ some x
    → get_elem? (keep xs m) (rank m i) ≡ some x
unfolding keep
keep_lem [] m i x h g = absurd cc
keep_lem (y ∷ xs) [] i x h g = absurd cc
keep_lem (y ∷ xs) (true ∷ m) zero x h g = g
keep_lem (y ∷ xs) (false ∷ m) zero x h g = absurd cc
keep_lem (y ∷ xs) (true ∷ m) (suc i) x h g = keep_lem xs m i x h g
keep_lem (y ∷ xs) (false ∷ m) (suc i) x h g = keep_lem xs m i x h g

unfoldable each : (Option ℕ → Option Bool) → Array ℕ → Array Bool
each f [] = []
each f (x ∷ xs) = f x ∷ each f xs

each_lem :
    (f : Option ℕ → Option Bool) (xs : Array ℕ) (i : ℕ) (x : Option ℕ)
    → get_elem? xs i ≡ some x
    → get_elem? (each f xs) i ≡ some (f x)
unfolding each
each_lem f [] i x h = absurd cc
each_lem f (y ∷ xs) zero x h = let e : y ≡ x = cc in ap (λ z. some (f z)) e
each_lem f (y ∷ xs) (suc i) x h = each_lem f xs i x h

unfoldable both : Array Bool → Array Bool → Array Bool
both [] ys = []
both (x ∷ xs) [] = []
both (x ∷ xs) (y ∷ ys) = kleene_and x y ∷ both xs ys

both_lem :
    (xs ys : Array Bool) (i : ℕ) (a b : Option Bool)
    → get_elem? xs i ≡ some a
    → get_elem? ys i ≡ some b
    → get_elem? (both xs ys) i ≡ some (kleene_and a b)
unfolding both
both_lem [] ys i a b h g = absurd cc
both_lem (x ∷ xs) [] i a b h g = absurd cc
both_lem (x ∷ xs) (y ∷ ys) zero a b h g = let p : x ≡ a = cc in let q : y ≡ b = cc in rw (p, q) refl
both_lem (x ∷ xs) (y ∷ ys) (suc i) a b h g = both_lem xs ys i a b h g

unfoldable any : Array Bool → Bool
any [] = false
any (some true ∷ xs) = true
any (some false ∷ xs) = any xs
any (none ∷ xs) = any xs

any_lem : (xs : Array Bool) (i : ℕ) → get_elem? xs i ≡ some (some true) → any xs ≡ true
unfolding any
any_lem [] i h = absurd cc
any_lem (some true ∷ xs) i h = refl
any_lem (some false ∷ xs) zero h = absurd cc
any_lem (none ∷ xs) zero h = absurd cc
any_lem (some false ∷ xs) (suc i) h = any_lem xs i h
any_lem (none ∷ xs) (suc i) h = any_lem xs i h

unfoldable nulls : Array Bool → ℕ
nulls [] = 0
nulls (none ∷ xs) = suc (nulls xs)
nulls (some b ∷ xs) = nulls xs

nulls_lem : (xs : Array Bool) (i : ℕ) → get_elem? xs i ≡ some none → 0 < nulls xs
unfolding nulls
nulls_lem [] i h = absurd cc
nulls_lem (none ∷ xs) i h = omega arith
nulls_lem (some b ∷ xs) zero h = absurd cc
nulls_lem (some b ∷ xs) (suc i) h = nulls_lem xs i h

some_injective : {A : Type 0} {a b : A} → some a ≡ some b → a ≡ b
some_injective h = cc

abbrev kernels : Kernels ℕ
kernels = record {
  le = leb;
  is_not_null = λ xs. some (non_nulls xs);
  filter = λ xs m. some (keep xs m);
  gt_eq = λ xs s. some (each (compare_with leb s) xs);
  lt_eq = λ xs s. some (each (λ x. compare_with leb x s) xs);
  and_kleene = λ xs ys. some (both xs ys);
  bool_or = λ xs. some (any xs);
  null_count = nulls;
  is_not_null_lem =
      λ xs m i v run h. ap (λ l. get_elem? l i) (sym (some_injective run)) ∙ non_nulls_lem xs i v h;
  filter_lem = λ xs ys m i x run h g.
      ap (λ l. get_elem? l (rank m i)) (sym (some_injective run)) ∙ keep_lem xs m i x h g;
  gt_eq_lem = λ xs s zs i x run h.
      ap (λ l. get_elem? l i) (sym (some_injective run)) ∙ each_lem (compare_with leb s) xs i x h;
  lt_eq_lem = λ xs s zs i x run h.
      ap (λ l. get_elem? l i) (sym (some_injective run))
      ∙ each_lem (λ y. compare_with leb y s) xs i x h;
  and_kleene_lem = λ xs ys zs i a b run h g.
      ap (λ l. get_elem? l i) (sym (some_injective run)) ∙ both_lem xs ys i a b h g;
  bool_or_lem = λ xs i h. ap some (any_lem xs i h);
  null_count_lem = nulls_lem;
}

abbrev columns : ColumnRole → List PkColumn
columns old_pk = record { name = "c1"; field_name = "old_c1" } ∷ []
columns new_pk = record { name = "c1"; field_name = "new_c1" } ∷ []
columns changed = []
columns value = []

-- Row 7 is updated to row 25, and row 8 is deleted.
abbrev sync : DataSync ℕ
sync = record {
  pk_columns = columns;
  column_by_name = λ n.
      if str_eq n "old_c1"
      then some (some 7 ∷ some 8 ∷ [])
      else if str_eq n "new_c1"
      then some (some 25 ∷ none ∷ [])
      else none;
}

-- The files have keys 0 to 9, 10 to 19, and 20 to an unknown key.
abbrev stats : PruningStatistics ℕ
stats = record {
  num_containers = 3;
  min_values = λ n. if str_eq n "c1" then some (some 0 ∷ some 10 ∷ some 20 ∷ []) else none;
  max_values = λ n. if str_eq n "c1" then some (some 9 ∷ some 19 ∷ none ∷ []) else none;
}

-- The first and the last file are read.
three_files : get_prune_map kernels (sync ∷ []) stats ≡ ok (true ∷ false ∷ true ∷ [])
unfolding get_prune_map non_nulls keep each both any nulls seafowl.Prelude.Map.lookup
    seafowl.Prelude.Map.insert
three_files = refl

of_three :
    (vals : Array ℕ)
    → length vals ≡ 3
    → (i : ℕ) → i < 3
    → (x : Option ℕ) × (get_elem? vals i ≡ some x)
of_three [] h i lt = absurd (omega arith)
of_three (x ∷ []) h i lt = absurd (omega arith)
of_three (x ∷ y ∷ []) h i lt = absurd (omega arith)
of_three (x ∷ y ∷ z ∷ vals) h zero lt = (x, refl)
of_three (x ∷ y ∷ z ∷ vals) h (suc zero) lt = (y, refl)
of_three (x ∷ y ∷ z ∷ vals) h (suc (suc zero)) lt = (z, refl)
of_three (x ∷ y ∷ z ∷ vals) h (suc (suc (suc i))) lt = absurd (omega arith)

known :
    (q : Bool) (a vals : Array ℕ)
    → length a ≡ 3
    → (if q then some a else none) ≡ some vals
    → length vals ≡ 3
known true a vals l h = ap length (sym (some_injective h)) ∙ l
known false a vals l h = absurd cc

get_prune_map_example : Ensures (get_prune_map kernels (sync ∷ []) stats) (λ out.
    (length out ≡ 3)
    × All
        (λ s. IsScanned kernels stats old_pk out s × IsScanned kernels stats new_pk out s)
        (sync ∷ []))
get_prune_map_example =
    get_prune_map-Scans kernels stats sync []
      (λ n vals h i lt.
        of_three vals (known (str_eq n "c1") (some 0 ∷ some 10 ∷ some 20 ∷ []) vals refl h) i lt)
      (λ n vals h i lt.
        of_three vals (known (str_eq n "c1") (some 9 ∷ some 19 ∷ none ∷ []) vals refl h) i lt)
      (
        (
          (((some 7 ∷ some 8 ∷ [], refl), inl refl), tt),
          (((some 25 ∷ none ∷ [], refl), inl refl), tt),
        ),
        tt,
      )
