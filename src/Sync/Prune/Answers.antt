-- ===== src/Sync/Prune/Answers.antt =====
-- What the kernels answer at the place of a row.
use seafowl.Prelude.{
  ℕ, ◌≡◌, ◌≢◌, refl, Bool, true, false, ◌||◌, Option, none, some, List, ltb, get_elem?, arith,
}
use seafowl.Prelude.Map.{string_eq}
use seafowl.Sync.Prune.{
  ok, ◌>>=◌, try, kleene_and, compare_with, rank, Array, Kernels, scope, in_file, merge, is_needed,
  is_some_true,
}
use seafowl.Sync.Prune.Maps.{Ensures}

pub try-Ensures :
    {A : Type 0} (o : Option A) (P : A → Type 0) → ((a : A) → o ≡ some a → P a) → Ensures (try o) P
try-Ensures none P f = tt
try-Ensures (some a) P f = f a refl

-- The answer at a place is yes or unknown.
abbrev pub PossibleAt : Array Bool → ℕ → Type 0
PossibleAt zs i = (e : Option Bool) × (get_elem? zs i ≡ some e) × (e ≢ some false)

abbrev pub At : Option (Array Bool) → ℕ → Type 0
At none i = Unit
At (some p) i = PossibleAt p i

kleene_and_possible :
    (a b : Option Bool) → a ≢ some false → b ≢ some false → kleene_and a b ≢ some false
kleene_and_possible (some false) b f g = absurd (f refl)
kleene_and_possible (some true) b f g = g
kleene_and_possible none (some false) f g = absurd (g refl)
kleene_and_possible none (some true) f g = λ h. absurd cc
kleene_and_possible none none f g = λ h. absurd cc

abbrev pub Present : {V : Type 0} → Option (Option V) → Option (Option V) → Type 0
Present none none = ⊥
Present _ _ = Unit

module _ {V : Type 0} (kernels : Kernels V) where
  -- The statistics of a file do not tell that the value is not in it.
  abbrev pub Within : Option (Option V) → Option (Option V) → V → Type 0
  Within a b v =
      ((s : Option V) → a ≡ some s → compare_with kernels.le s (some v) ≢ some false)
      × ((s : Option V) → b ≡ some s → compare_with kernels.le (some v) s ≢ some false)

  pub in_file-Possible :
      (array : Array V) (a b : Option (Option V))
      → Present a b
      → Ensures (in_file kernels array a b) (λ zs.
        (i : ℕ) (v : V) → get_elem? array i ≡ some (some v) → Within a b v → PossibleAt zs i)
  in_file-Possible array none none p = absurd p
  in_file-Possible array (some s) none p =
      try-Ensures (kernels.gt_eq array s)
        (λ zs.
          (i : ℕ) (v : V)
          → get_elem? array i ≡ some (some v)
          → Within (some s) none v
          → PossibleAt zs i)
        (λ zs run i v at w. (
          compare_with kernels.le s (some v),
          kernels.gt_eq_lem array s zs i (some v) run at,
          w.0 s refl,
        ))
  in_file-Possible array none (some s) p =
      try-Ensures (kernels.lt_eq array s)
        (λ zs.
          (i : ℕ) (v : V)
          → get_elem? array i ≡ some (some v)
          → Within none (some s) v
          → PossibleAt zs i)
        (λ zs run i v at w. (
          compare_with kernels.le (some v) s,
          kernels.lt_eq_lem array s zs i (some v) run at,
          w.1 s refl,
        ))
  in_file-Possible array (some s) (some t) p =
      both (kernels.gt_eq array s) (kernels.lt_eq array t) refl refl
    where
      both :
          (g l : Option (Array Bool))
          → kernels.gt_eq array s ≡ g
          → kernels.lt_eq array t ≡ l
          → Ensures (try g >>= λ xs. try l >>= λ ys. try (kernels.and_kleene xs ys)) (λ zs.
            (i : ℕ) (v : V)
            → get_elem? array i ≡ some (some v)
            → Within (some s) (some t) v
            → PossibleAt zs i)
      both none l hg hl = tt
      both (some xs) none hg hl = tt
      both (some xs) (some ys) hg hl =
          try-Ensures (kernels.and_kleene xs ys)
            (λ zs.
              (i : ℕ) (v : V)
              → get_elem? array i ≡ some (some v)
              → Within (some s) (some t) v
              → PossibleAt zs i)
            (λ zs run i v at w.
              let x = compare_with kernels.le s (some v) in
              let y = compare_with kernels.le (some v) t in
              (
                kleene_and x y,
                kernels.and_kleene_lem xs ys zs i x y run
                    (kernels.gt_eq_lem array s xs i (some v) hg at)
                    (kernels.lt_eq_lem array t ys i (some v) hl at),
                kleene_and_possible x y (w.0 s refl) (w.1 t refl),
              ))

  pub merge-Possible :
      (pm : Option (Array Bool)) (next : Array Bool)
      → Ensures
          (merge kernels pm next)
          (λ zs. (i : ℕ) → At pm i → PossibleAt next i → PossibleAt zs i)
  merge-Possible none next = λ i _ h. h
  merge-Possible (some prev) next =
      try-Ensures (kernels.and_kleene prev next)
        (λ zs. (i : ℕ) → PossibleAt prev i → PossibleAt next i → PossibleAt zs i)
        (λ zs run i (x, hx, px) (y, hy, py). (
          kleene_and x y,
          kernels.and_kleene_lem prev next zs i x y run hx hy,
          kleene_and_possible x y px py,
        ))

  -- Row `r` is kept by the mask, and its place in what was compared so far is possible.
  abbrev pub Aligned : Option (List Bool) → Option (Array Bool) → ℕ → Type 0
  Aligned none none r = Unit
  Aligned none (some p) r = ⊥
  Aligned (some m) pm r = (get_elem? m r ≡ some true) × At pm (rank m r)

  unfoldable pub Scoped : Option (List Bool) → Array V → Array V × List Bool → Type 0
  Scoped nn array (xs, m) =
      (r : ℕ) (v : V) (pm : Option (Array Bool))
      → get_elem? array r ≡ some (some v)
      → Aligned nn pm r
      → Aligned (some m) pm r × (get_elem? xs (rank m r) ≡ some (some v))

  pub scope-Scoped :
      (nn : Option (List Bool)) (array : Array V)
      → Ensures (scope kernels nn array) (Scoped nn array)
  unfolding Scoped
  scope-Scoped none array = first (kernels.is_not_null array) refl
    where
      second :
          (m : List Bool) (o : Option (Array V))
          → kernels.is_not_null array ≡ some m
          → kernels.filter array m ≡ o
          → Ensures (try o >>= λ xs. ok (xs, m)) (Scoped none array)
      second m none hm h = tt
      second m (some xs) hm h = λ r v pm at al.
          let kept = kernels.is_not_null_lem array m r v hm at in
          ((kept, begin pm r (rank m r) al), kernels.filter_lem array xs m r (some v) h kept at)
        where
          begin : (pm : Option (Array Bool)) (r i : ℕ) → Aligned none pm r → At pm i
          begin none r i al = tt
          begin (some p) r i al = absurd al

      first :
          (o : Option (List Bool))
          → kernels.is_not_null array ≡ o
          → Ensures
              (try o >>= λ m. try (kernels.filter array m) >>= λ xs. ok (xs, m))
              (Scoped none array)
      first none h = tt
      first (some m) h = second m (kernels.filter array m) h refl
  scope-Scoped (some m) array = go (kernels.filter array m) refl
    where
      go :
          (o : Option (Array V))
          → kernels.filter array m ≡ o
          → Ensures (try o >>= λ xs. ok (xs, m)) (Scoped (some m) array)
      go none h = tt
      go (some xs) h = λ r v pm at al. (al, kernels.filter_lem array xs m r (some v) h al.0 at)

  pub is_needed-PossibleAt :
      (p : Array Bool) (i : ℕ) → PossibleAt p i → is_needed kernels (some p) ≡ true
  is_needed-PossibleAt p i (some false, h, q) = absurd (q refl)
  is_needed-PossibleAt p i (some true, h, q) = let r = kernels.bool_or_lem p i h in rw r refl
  is_needed-PossibleAt p i (none, h, q) =
      let r = kernels.null_count_lem p i h in
      let t : ltb 0 (kernels.null_count p) ≡ true = ground arith in
      rw t (or_true (is_some_true (kernels.bool_or p)))
    where
      or_true : (b : Bool) → b || true ≡ true
      or_true true = refl
      or_true false = refl
