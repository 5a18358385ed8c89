-- ===== src/Sync/Squash/Start.antt =====
-- utils.rs, the loop of `squash_batches`: a round that starts a chain.
use seafowl.Prelude.{
  ℕ, ◌≡◌, ◌≢◌, inl, inr, refl, sym, ap, ◌∙◌, arith, not, ◌||◌, Bool-cases, none, some, List, [],
  ◌∷◌, ◌++◌, if◌then◌else◌, map, get_elem?-snoc_self, get_elem?-snoc_other, get_elem?-lt-length,
  length-append,
}
use native.Mathlib.Decide.{}
use seafowl.Prelude.Map.{Eq, nat_eq, lookup, insert, Unique, lookup-insert, insert-Unique}
use seafowl.Sync.Squash.{ColumnRows, Chains, start_chain}
use seafowl.Sync.Squash.Meaning.{
  Changes, Table, base, is_target, IsPossible, any_old, assign, flagged,
}
use seafowl.Sync.Squash.Step.{Tracks, Advances, residue}

module _ {K P F : Type 0} ⦃e : Eq K⦄ (b : Changes K P F) (initial : Table K P F) where
  any_old-snoc :
      (k : K) (l : List ColumnRows) (rows : ColumnRows)
      → any_old b k (l ++ rows ∷ []) ≡ (any_old b k l || e.eq k (b.old_pk rows.old_pk_row))
  unfolding any_old
  any_old-snoc k [] rows = ground arith
  any_old-snoc k (x ∷ l) rows = ground (arith, any_old-snoc k l rows)

  module _ (row_id : ℕ) (s : Chains K) (t : Table K P F) (v : Tracks b initial s t)
      (unknown : lookup (b.old_pk row_id) s.pk_chains ≡ none)
      (possible : IsPossible b row_id t) where
    abbrev pub first : ColumnRows
    first = record {
      old_pk_row = row_id;
      new_pk_row = row_id;
      changed_rows = map (λ _. row_id) b.changed;
    }

    same_old : b.old_pk row_id ≢ b.nulls → t (b.old_pk row_id) ≡ initial (b.old_pk row_id)
    same_old n = elim possible.0 [
      | inl z ↦ absurd (n z)
      | inr there ↦
          let left = v.idle (b.old_pk row_id) n unknown in
          elim (Bool-cases (any_old b (b.old_pk row_id) s.column_rows)) [
            | inl gone ↦ absurd (there (rw gone at left))
            | inr kept ↦ rw kept at left
          ]
    ]

    same_base : base b (b.old_pk row_id) initial ≡ base b (b.old_pk row_id) t
    same_base = elim (Bool-cases (e.eq (b.old_pk row_id) b.nulls)) [
      | inl z ↦ rw z
      | inr n ↦
          rw n
            (ap (flagged b) (sym (same_old (λ z. cc ((e.eq_iff (b.old_pk row_id) b.nulls).1 z)))))
    ]

    start-left :
        (k : K)
        → residue b initial k (s.column_rows ++ first ∷ [])
          ≡ (if e.eq k (b.old_pk row_id) then none else residue b initial k s.column_rows)
    start-left k = ground (arith, any_old-snoc k s.column_rows first)

    start-moved :
        (k : K)
        → lookup k (
            if not (e.eq (b.new_pk row_id) b.nulls)
            then insert (b.new_pk row_id) s.chain_count s.pk_chains
            else s.pk_chains)
          ≡ (if is_target b row_id k
              then some s.chain_count
              else if e.eq k (b.old_pk row_id)
              then none
              else lookup k s.pk_chains)
    start-moved k = ground (
      arith,
      lookup-insert (b.new_pk row_id) k s.chain_count s.pk_chains,
      e.eq_iff k (b.old_pk row_id),
    )

    start-Unique : Unique (
        if not (e.eq (b.new_pk row_id) b.nulls)
        then insert (b.new_pk row_id) s.chain_count s.pk_chains
        else s.pk_chains)
    start-Unique = elim (Bool-cases (e.eq (b.new_pk row_id) b.nulls)) [
      | inl n ↦ rw n v.unique
      | inr n ↦ rw n (insert-Unique (b.new_pk row_id) s.chain_count s.pk_chains v.unique)
    ]

    start-sole : (k : K) → lookup k s.pk_chains ≡ some s.chain_count → k ≡ b.old_pk row_id
    start-sole k h =
        let (r, g, _, _, _) = v.live k s.chain_count h in
        absurd (omega (arith, v.counted, get_elem?-lt-length s.column_rows s.chain_count g))

    pub start-Advances :
        Advances b initial row_id s.chain_count first s
          (start_chain b.nulls b.old_pk b.new_pk b.changed row_id s)
          t
    unfolding start_chain
    start-Advances = record {
      counted = omega (arith, v.counted, length-append s.column_rows (first ∷ []));
      unique = start-Unique;
      only = λ j h. cc;
      sole = start-sole;
      moved = start-moved;
      here = rw v.counted (get_elem?-snoc_self s.column_rows first);
      elsewhere =
          λ j other. get_elem?-snoc_other s.column_rows first j (λ z. other (z ∙ sym v.counted));
      latest = refl;
      filled = ap (λ q. (b.plain row_id, assign b.changed b.values row_id q)) same_base;
      left = λ k n. start-left k;
      bounded = λ j m.
          let old = v.bounded j m in omega (arith, old, length-append s.column_rows (first ∷ []));
      temporary = λ j m. inr (λ z. absurd (omega (arith, z, v.counted, v.bounded j m)), m);
    }
