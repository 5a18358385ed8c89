-- ===== src/Sync/Squash/Final.antt =====
-- utils.rs, `squash_batches`: the squashed rows do to a table what the changes do.
use seafowl.Prelude.{
  ℕ, zero, suc, Bool, ◌+◌, ◌≡◌, ◌≢◌, inl, inr, refl, sym, ap, ◌∙◌, arith, true, false, ◌||◌,
  Bool-cases, none, some, Option-cases, List, [], ◌∷◌, get_elem?, if◌then◌else◌, ◌≤◌, length,
}
use seafowl.Prelude.Map.{Eq, nat_eq, member, lookup}
use seafowl.Sync.Squash.{
  ColumnRows, Chains, chain_step, chain_loop, no_chains, keep_rows, squash_rows,
}
use seafowl.Sync.Squash.Meaning.{
  Changes, Table, apply_change, apply_all, IsPossible, IsConsistent, find_new, any_old, content,
  apply_squashed, merge, base, first_rows, apply_taken,
}
use seafowl.Sync.Squash.Step.{Tracks, Advances-Tracks}
use seafowl.Sync.Squash.Round.{continue-Advances}
use seafowl.Sync.Squash.Start.{start-Advances}

module _ {K P F : Type 0} ⦃e : Eq K⦄ (b : Changes K P F) where
  -- Entries that are kept, from the id `n` on.
  find_new-keep :
      (k : K) (temp : List ℕ) (n : ℕ) (l : List ColumnRows) (rows : ColumnRows)
      → find_new b k (keep_rows temp n l) ≡ some rows
      → (j : ℕ) × (get_elem? l j ≡ some rows) × (b.new_pk rows.new_pk_row ≡ k)
  unfolding find_new keep_rows
  find_new-keep k temp n [] rows h = absurd (ground arith)
  find_new-keep k temp n (x ∷ l) rows h = elim (Bool-cases (member n temp)) [
    | inl m ↦ let (j, g, w) = find_new-keep k temp (suc n) l rows (rw m at h) in (suc j, g, w)
    | inr m ↦ elim (Bool-cases (e.eq k (b.new_pk x.new_pk_row))) [
      | inl y ↦
          let same : x ≡ rows = ground (arith) in
          (
            0,
            ap some same,
            ap (λ q. b.new_pk (q.new_pk_row)) (sym same)
                ∙ sym ((e.eq_iff k (b.new_pk x.new_pk_row)).0 y),
          )
      | inr y ↦
          let h' = (rw (m, find_new, y) at h) in
          let (j, g, w) = find_new-keep k temp (suc n) l rows h' in (suc j, g, w)
    ]
  ]

  find_new_first :
      (k : K) (x : ColumnRows) (l : List ColumnRows)
      → e.eq k (b.new_pk x.new_pk_row) ≡ true
      → find_new b k (x ∷ l) ≢ none
  unfolding find_new
  find_new_first k x l y h = absurd (ground arith)

  find_new_rest :
      (k : K) (x : ColumnRows) (l : List ColumnRows)
      → find_new b k (x ∷ l) ≡ none
      → find_new b k l ≡ none
  unfolding find_new
  find_new_rest k x l h = ground arith

  find_new-keep_none :
      (k : K) (temp : List ℕ) (n : ℕ) (l : List ColumnRows)
      → find_new b k (keep_rows temp n l) ≡ none
      → (j i : ℕ) (rows : ColumnRows) → get_elem? l j ≡ some rows
      → i ≡ n + j
      → member i temp ≡ false
      → b.new_pk rows.new_pk_row ≢ k
  unfolding find_new keep_rows
  find_new-keep_none k temp n [] h j i rows g a m w = cc
  find_new-keep_none k temp n (x ∷ l) h zero i rows g a m w =
      let m' : member n temp ≡ false = ap (λ q. member q temp) (omega arith) ∙ m in
      let same : x ≡ rows = cc in
      let hit : e.eq k (b.new_pk x.new_pk_row) ≡ true =
        (e.eq_iff k (b.new_pk x.new_pk_row)).1
          (sym w ∙ ap (λ q. b.new_pk (q.new_pk_row)) (sym same)) in
      find_new_first k x (keep_rows temp (suc n) l) hit (rw m' at h)
  find_new-keep_none k temp n (x ∷ l) h (suc j) i rows g a m w = elim (Bool-cases (member n temp)) [
    | inl y ↦ find_new-keep_none k temp (suc n) l (rw y at h) j i rows g (omega arith) m w
    | inr y ↦
        let h' = find_new_rest k x (keep_rows temp (suc n) l) (rw y at h) in
        find_new-keep_none k temp (suc n) l h' j i rows g (omega arith) m w
  ]

  any_old-keep :
      (k : K) (temp : List ℕ) (n : ℕ) (l : List ColumnRows)
      → ((j i : ℕ) (rows : ColumnRows)
          → get_elem? l j ≡ some rows
          → i ≡ n + j
          → member i temp ≡ true
          → e.eq k (b.old_pk rows.old_pk_row) ≡ false)
      → any_old b k (keep_rows temp n l) ≡ any_old b k l
  unfolding any_old keep_rows
  any_old-keep k temp n [] h = refl
  any_old-keep k temp n (x ∷ l) h =
      let ih =
        any_old-keep k temp (suc n) l (λ j i rows g a m. h (suc j) i rows g (omega arith) m) in
      elim (Bool-cases (member n temp)) [
        | inl m ↦ rw (m, h 0 n x refl (omega arith) m) ih
        | inr m ↦ rw m (ap (λ q. e.eq k (b.old_pk x.old_pk_row) || q) ih)
      ]

  module _ (initial : Table K P F) where
    round-Tracks :
        (row_id : ℕ) (s : Chains K) (t : Table K P F)
        → Tracks b initial s t
        → IsPossible b row_id t
        → (s' : Chains K) × (chain_step b.nulls b.old_pk b.new_pk b.changed row_id s ≡ some s')
          × Tracks b initial s' (apply_change b row_id t)
    unfolding chain_step
    round-Tracks row_id s t v p = elim (Option-cases (lookup (b.old_pk row_id) s.pk_chains)) [
      | inl unknown ↦
          let a = start-Advances b initial row_id s t v unknown p in
          (
            _,
            rw (unknown, chain_step),
            Advances-Tracks b initial row_id s.chain_count _ s _ t v a p,
          )
      | inr (c, known) ↦
          let (r, g, _, _, _) = v.live (b.old_pk row_id) c known in
          let a = continue-Advances b initial row_id c r s t v known g in
          (_, rw (known, chain_step) (rw g), Advances-Tracks b initial row_id c _ s _ t v a p)
    ]

    loop-Tracks :
        (left row_id : ℕ) (s : Chains K) (t : Table K P F)
        → Tracks b initial s t
        → IsConsistent b left row_id t
        → (s' : Chains K) × (chain_loop b.nulls b.old_pk b.new_pk b.changed left row_id s ≡ some s')
          × Tracks b initial s' (apply_all b left row_id t)
    unfolding chain_loop apply_all
    loop-Tracks zero row_id s t v h = (s, refl, v)
    loop-Tracks (suc left) row_id s t v (p, rest) =
        let (s1, run, v1) = round-Tracks row_id s t v p in
        let (s2, runs, v2) = loop-Tracks left (suc row_id) s1 _ v1 rest in
        (s2, rw (run, chain_loop) runs, v2)

    start-Tracks : Tracks b initial no_chains initial
    unfolding lookup member any_old
    start-Tracks = record {
      counted = refl;
      unique = tt;
      no_null = refl;
      live = λ k c h. absurd (cc);
      idle = λ k n h. refl;
      tracked = λ c rows h n. absurd (cc);
      bounded = λ c m. absurd (cc);
      temporary = λ c rows h m. absurd (cc);
    }

    module _ (s : Chains K) (t : Table K P F) (v : Tracks b initial s t) (k : K)
        (n : k ≢ b.nulls) where
      abbrev kept : List ColumnRows
      kept = keep_rows s.temp_rows 0 s.column_rows

      live_kept : (c : ℕ) → lookup k s.pk_chains ≡ some c → member c s.temp_rows ≡ false
      live_kept c l = elim (Bool-cases (member c s.temp_rows)) [
        | inl m ↦ let (r, g, w, _, _) = v.live k c l in absurd (n (sym w ∙ (v.temporary c r g m).0))
        | inr m ↦ m
      ]

      not_live : find_new b k kept ≡ none → lookup k s.pk_chains ≡ none
      not_live missing = elim (Option-cases (lookup k s.pk_chains)) [
        | inl l ↦ l
        | inr (c, l) ↦
            let (r, g, w, _, _) = v.live k c l in
            absurd (
              find_new-keep_none k s.temp_rows 0 s.column_rows missing c c r g (omega arith)
                (live_kept c l) w)
      ]

      temporary_old :
          (j i : ℕ) (rows : ColumnRows)
          → get_elem? s.column_rows j ≡ some rows
          → i ≡ 0 + j
          → member i s.temp_rows ≡ true
          → e.eq k (b.old_pk rows.old_pk_row) ≡ false
      temporary_old j i rows g a m =
          let at : i ≡ j = omega arith in
          let (_, o) = v.temporary j rows g (ap (λ q. member q s.temp_rows) (sym at) ∙ m) in
          rw o (ground (arith, e.eq_iff k b.nulls, n))

      -- What the kept entries do, in a state that tracks the table.
      kept-apply : apply_squashed b kept initial k ≡ t k
      unfolding apply_squashed
      kept-apply = elim (Option-cases (find_new b k kept)) [
        | inl missing ↦
            rw (missing, apply_squashed)
              (ap (λ q. if q then none else initial k)
                  (any_old-keep k s.temp_rows 0 s.column_rows temporary_old)
                ∙ sym (v.idle k n (not_live missing)))
        | inr (rows, found) ↦
            let (j, g, w) = find_new-keep k s.temp_rows 0 s.column_rows rows found in
            let l = v.tracked j rows g (λ z. n (sym w ∙ z)) in
            let (r, g', _, tk, _) = v.live (b.new_pk rows.new_pk_row) j l in
            let same : r ≡ rows = cc in
            rw (found, apply_squashed)
              (ap (λ q. some (content b initial q)) (sym same) ∙ (sym tk ∙ ap t w))
      ]

  -- Each flagged column at its own row.
  squash_rows-apply_squashed :
      (initial : Table K P F) (row_count : ℕ)
      → IsConsistent b row_count 0 initial
      → (l : List ColumnRows) × (squash_rows b.nulls b.old_pk b.new_pk b.changed row_count ≡ some l)
        × ((k : K) → k ≢ b.nulls → apply_squashed b l initial k ≡ apply_all b row_count 0 initial k)
  unfolding squash_rows
  squash_rows-apply_squashed initial row_count h =
      let (s, run, v) =
        loop-Tracks initial row_count 0 no_chains initial (start-Tracks initial) h in
      (_, rw (run, squash_rows), λ k n. kept-apply initial s _ v k n)

  merge-first_rows :
      (arrays : List (ℕ → Bool)) (values : List (ℕ → F)) (rows : List ℕ) (ws : List F)
      → length arrays ≤ 1
      → merge arrays values (first_rows arrays rows) ws ≡ merge arrays values rows ws
  merge-first_rows [] values rows ws h = refl
  merge-first_rows (a ∷ []) [] [] ws h = refl
  merge-first_rows (a ∷ []) [] (r ∷ rows) ws h = refl
  merge-first_rows (a ∷ []) (v ∷ values) [] ws h = refl
  merge-first_rows (a ∷ []) (v ∷ values) (r ∷ rows) [] h = refl
  merge-first_rows (a ∷ []) (v ∷ values) (r ∷ rows) (w ∷ ws) h = refl
  merge-first_rows (a ∷ c ∷ arrays) values rows ws h = absurd (omega (arith, h))

  apply_taken-squashed :
      (l : List ColumnRows) (t : Table K P F) (k : K)
      → length b.changed ≤ 1
      → apply_taken b l t k ≡ apply_squashed b l t k
  unfolding apply_taken apply_squashed
  apply_taken-squashed l t k h = elim (Option-cases (find_new b k l)) [
    | inl missing ↦ rw (missing, apply_taken, apply_squashed) refl
    | inr (rows, found) ↦
        rw (found, apply_taken, apply_squashed)
          (ap (λ ws. some (b.plain rows.new_pk_row, ws))
            (merge-first_rows b.changed b.values rows.changed_rows
              (base b (b.old_pk rows.old_pk_row) t) h))
  ]

  -- With at most one flagged column, the loop over a batch of possible changes does not panic, and the
  -- entries that it leaves, read as the end of `squash_batches` takes the rows of the output (the
  -- flagged column at the row found for it, the plain ones at the row of the new key), do to the row
  -- of every key what the changes do one after the other: it is there or not, and its plain and its
  -- flagged values are the same.
  pub squash_rows-apply :
      (initial : Table K P F) (row_count : ℕ)
      → length b.changed ≤ 1
      → IsConsistent b row_count 0 initial
      → (l : List ColumnRows) × (squash_rows b.nulls b.old_pk b.new_pk b.changed row_count ≡ some l)
        × ((k : K) → k ≢ b.nulls → apply_taken b l initial k ≡ apply_all b row_count 0 initial k)
  squash_rows-apply initial row_count one h =
      let (l, run, same) = squash_rows-apply_squashed initial row_count h in
      (l, run, λ k n. apply_taken-squashed l initial k one ∙ same k n)
