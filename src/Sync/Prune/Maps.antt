-- ===== src/Sync/Prune/Maps.antt =====
-- The statistics that get_prune_map collects.
use seafowl.Prelude.{
  ℕ, zero, suc, ◌+◌, ◌<◌, ◌≡◌, refl, ap, sym, ◌∙◌, String, Bool, true, false, Bool-cases, inl, inr,
  not, ◌&&◌, Option, none, some, List, [], ◌∷◌, get_elem?, arith, All, ◌⊎◌, str_eq, str_eq_iff,
}
use seafowl.Prelude.Map.{string_eq, lookup, insert, lookup-insert}
use seafowl.Sync.Prune.{
  Outcome, ok, err, panic, ◌>>=◌, Array, PkColumn, PruningStatistics, Values, slices, add_values,
  is_none, gather, at_file,
}

-- No panic, and a result with the property if there is no error.
abbrev pub Ensures : {A : Type 0} → Outcome A → (A → Type 0) → Type 0
Ensures (ok a) P = P a
Ensures err P = Unit
Ensures panic P = ⊥

pub bind-Ensures :
    {A B : Type 0} (r : Outcome A) (f : A → Outcome B) (P : A → Type 0) (Q : B → Type 0)
    → Ensures r P
    → ((a : A) → P a → Ensures (f a) Q)
    → Ensures (r >>= f) Q
bind-Ensures (ok a) f P Q h g = g a h
bind-Ensures err f P Q h g = tt
bind-Ensures panic f P Q h g = absurd h

pub Ensures_mono :
    {A : Type 0} (r : Outcome A) (P Q : A → Type 0)
    → ((a : A) → P a → Q a)
    → Ensures r P
    → Ensures r Q
Ensures_mono (ok a) P Q f h = f a h
Ensures_mono err P Q f h = tt
Ensures_mono panic P Q f h = absurd h

module _ {V : Type 0} where
  slices_lem :
      (left file : ℕ) (vals : Array V)
      → ((i : ℕ) → i < left → (x : Option V) × (get_elem? vals (file + i) ≡ some x))
      → (xs : Array V) × (slices left file vals ≡ ok xs)
        × ((i : ℕ) → i < left → get_elem? xs i ≡ get_elem? vals (file + i))
  unfolding slices
  slices_lem zero file vals h = ([], refl, λ i lt. absurd (omega arith))
  slices_lem (suc left) file vals h =
      let (x, here) = h 0 (omega arith) in
      let start : file ≡ file + 0 = omega arith in
      let (xs, run, rest) = slices_lem left (suc file) vals (λ i lt.
        let shift : suc file + i ≡ file + suc i = omega arith in
        rw shift (h (suc i) (omega arith))) in
      let first : get_elem? vals file ≡ some x = rw start here in
      (x ∷ xs, rw (first, run) refl, at x xs first rest)
    where
      at :
          (x : Option V) (xs : Array V)
          → get_elem? vals file ≡ some x
          → ((i : ℕ) → i < left → get_elem? xs i ≡ get_elem? vals (suc file + i))
          → (i : ℕ) → i < suc left
          → get_elem? (x ∷ xs) i ≡ get_elem? vals (file + i)
      at x xs first rest zero lt = let z : file + 0 ≡ file = omega arith in rw z (sym first)
      at x xs first rest (suc i) lt =
          let z : file + suc i ≡ suc file + i = omega arith in rw z (rest i (omega arith))

  -- What a map holds for a column are the statistics of all its files.
  abbrev pub Faithful : ℕ → (String → Option (Array V)) → Values V → Type 0
  Faithful count stat m =
      (name : String) (xs : Array V)
      → lookup name m ≡ some xs
      → (i : ℕ) → i < count
      → (x : Option V) × (get_elem? xs i ≡ some x) × (at_file i (stat name) ≡ some x)

  -- Statistics with a value for each file.
  abbrev pub Fits : ℕ → (String → Option (Array V)) → Type 0
  Fits count stat =
      (name : String) (vals : Array V)
      → stat name ≡ some vals
      → (i : ℕ) → i < count
      → (x : Option V) × (get_elem? vals i ≡ some x)

  abbrev pub has : String → Values V → Bool
  has name m = not (is_none (lookup name m))

  insert-Faithful :
      (count : ℕ) (stat : String → Option (Array V)) (name : String) (vals xs : Array V)
      (m : Values V)
      → Fits count stat
      → stat name ≡ some vals
      → ((i : ℕ) → i < count → get_elem? xs i ≡ get_elem? vals i)
      → Faithful count stat m
      → Faithful count stat (insert name xs m)
  insert-Faithful count stat name vals xs m fits known same faithful n ys found i lt =
      elim (Bool-cases (str_eq n name)) [
        | inl y ↦
            let eq : n ≡ name = (str_eq_iff n name).0 y in
            let look : lookup n (insert name xs m) ≡ some xs =
              rw (lookup-insert name n xs m, y) refl in
            let (x, place) = fits name vals known i lt in
            let ys_xs : some xs ≡ some ys = sym look ∙ found in
            (
              x,
              let list : at_file i (some xs) ≡ at_file i (some ys) = ap (at_file i) ys_xs in
                  sym list ∙ (same i lt ∙ place),
              ap (λ k. at_file i (stat k)) eq ∙ (ap (at_file i) known ∙ place),
            )
        | inr ne ↦
            let look : lookup n (insert name xs m) ≡ lookup n m =
              rw (lookup-insert name n xs m, ne) refl in
            faithful n ys (sym look ∙ found) i lt
      ]

  has-insert :
      (n name : String) (xs : Array V) (m : Values V)
      → has n m ≡ true
      → has n (insert name xs m) ≡ true
  has-insert n name xs m h = elim (Bool-cases (str_eq n name)) [
    | inl y ↦ rw (lookup-insert name n xs m, y) refl
    | inr ne ↦ rw (lookup-insert name n xs m, ne) h
  ]

  has-insert_self :
      (name : String) (xs : Array V) (m : Values V) → has name (insert name xs m) ≡ true
  has-insert_self name xs m =
      let y : str_eq name name ≡ true = (str_eq_iff name name).1 refl in
      rw (lookup-insert name name xs m, y) refl

  add_values-Faithful :
      (count : ℕ) (stat : String → Option (Array V)) (name : String) (o : Option (Array V))
      (m : Values V)
      → Fits count stat
      → stat name ≡ o
      → Faithful count stat m
      → (m' : Values V) × (add_values count name o m ≡ ok m')
        × Faithful count stat m'
        × (is_none o ≡ false → has name m' ≡ true)
        × ((n : String) → has n m ≡ true → has n m' ≡ true)
  add_values-Faithful count stat name none m fits known faithful =
      (m, refl, faithful, λ h. absurd cc, λ n h. h)
  add_values-Faithful count stat name (some vals) m fits known faithful =
      let (xs, run, same) =
        slices_lem count 0 vals
          (λ i lt. let z : 0 + i ≡ i = omega arith in rw z (fits name vals known i lt)) in
      let same_at : (i : ℕ) → i < count → get_elem? xs i ≡ get_elem? vals i =
        λ i lt. let z : 0 + i ≡ i = omega arith in same i lt ∙ ap (get_elem? vals) z in
      (
        insert name xs m,
        rw run refl,
        insert-Faithful count stat name vals xs m fits known same_at faithful,
        λ h. has-insert_self name xs m,
        λ n h. has-insert n name xs m h,
      )

  -- A column with the least or the greatest values of its files.
  abbrev pub Covered : Values V → Values V → String → Type 0
  Covered mins maxs n = (has n mins ≡ true) ⊎ (has n maxs ≡ true)

  abbrev pub Gathered : PruningStatistics V → List PkColumn → Option (Values V × Values V) → Type 0
  Gathered stats cols none = Unit
  Gathered stats cols (some (mins, maxs)) =
      Faithful stats.num_containers stats.min_values mins
      × Faithful stats.num_containers stats.max_values maxs
      × All (λ col. Covered mins maxs col.name) cols

  -- What was covered before is covered after.
  abbrev pub Kept : Values V → Values V → Option (Values V × Values V) → Type 0
  Kept mins maxs none = Unit
  Kept mins maxs (some (mins', maxs')) = (n : String) → Covered mins maxs n → Covered mins' maxs' n

  is_none-cases :
      (a b : Option (Array V))
      → is_none a && is_none b ≡ false
      → (is_none a ≡ false) ⊎ (is_none b ≡ false)
  is_none-cases none none h = absurd cc
  is_none-cases none (some b) h = inr refl
  is_none-cases (some a) b h = inl refl

  pub gather-Gathered :
      (stats : PruningStatistics V) (cols : List PkColumn) (mins maxs : Values V)
      → Fits stats.num_containers stats.min_values
      → Fits stats.num_containers stats.max_values
      → Faithful stats.num_containers stats.min_values mins
      → Faithful stats.num_containers stats.max_values maxs
      → Ensures (gather stats cols mins maxs) (λ o. Gathered stats cols o × Kept mins maxs o)
  unfolding gather
  gather-Gathered stats [] mins maxs fit_min fit_max hmin hmax = ((hmin, hmax, tt), λ n h. h)
  gather-Gathered stats (col ∷ cols) mins maxs fit_min fit_max hmin hmax =
      elim (Bool-cases
        (is_none (stats.min_values col.name) && is_none (stats.max_values col.name))) [
          | inl y ↦ rw y (tt, tt)
          | inr ne ↦
              let (mins', run_min, hmin', new_min, keep_min) =
                add_values-Faithful stats.num_containers stats.min_values col.name
                  (stats.min_values col.name) mins fit_min refl hmin in
              let (maxs', run_max, hmax', new_max, keep_max) =
                add_values-Faithful stats.num_containers stats.max_values col.name
                  (stats.max_values col.name) maxs fit_max refl hmax in
              let new : Covered mins' maxs' col.name =
                cover col.name mins' maxs' (stats.min_values col.name) (stats.max_values col.name)
                  (is_none-cases (stats.min_values col.name) (stats.max_values col.name) ne) new_min
                  new_max in
              rw (ne, run_min, run_max)
                (Ensures_mono (gather stats cols mins' maxs')
                  (λ o. Gathered stats cols o × Kept mins' maxs' o)
                  (λ o. Gathered stats (col ∷ cols) o × Kept mins maxs o)
                  (λ o (g, k).
                    extend mins' maxs' o g k new
                      (λ n c. keep n mins maxs mins' maxs' c keep_min keep_max))
                  (gather-Gathered stats cols mins' maxs' fit_min fit_max hmin' hmax'))
        ]
    where
      cover :
          (n : String) (m M : Values V) (a b : Option (Array V))
          → (is_none a ≡ false) ⊎ (is_none b ≡ false)
          → (is_none a ≡ false → has n m ≡ true)
          → (is_none b ≡ false → has n M ≡ true)
          → Covered m M n
      cover n m M a b (inl h) f g = inl (f h)
      cover n m M a b (inr h) f g = inr (g h)

      keep :
          (n : String) (m M m' M' : Values V)
          → Covered m M n
          → ((k : String) → has k m ≡ true → has k m' ≡ true)
          → ((k : String) → has k M ≡ true → has k M' ≡ true)
          → Covered m' M' n
      keep n m M m' M' (inl h) f g = inl (f n h)
      keep n m M m' M' (inr h) f g = inr (g n h)

      extend :
          (m M : Values V) (o : Option (Values V × Values V))
          → Gathered stats cols o
          → Kept m M o
          → Covered m M col.name
          → ((n : String) → Covered mins maxs n → Covered m M n)
          → Gathered stats (col ∷ cols) o × Kept mins maxs o
      extend m M none g k new old = (tt, tt)
      extend m M (some (a, b)) (x, y, all) k new old =
          ((x, y, (k col.name new, all)), λ n c. k n (old n c))
