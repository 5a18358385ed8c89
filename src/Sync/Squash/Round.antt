-- ===== src/Sync/Squash/Round.antt =====
-- utils.rs, the loop of `squash_batches`: both branches of a round.
use seafowl.Prelude.{
  ℕ, zero, suc, ◌<◌, ◌≡◌, ◌≢◌, ◌⊎◌, inl, inr, refl, sym, ap, ◌∙◌, arith, true, false, not, ◌||◌,
  Bool-cases, none, some, List, [], ◌∷◌, length, get_elem?, set, if◌then◌else◌, length-set,
  get_elem?-set_self, get_elem?-set_other, get_elem?-lt-length,
}
use native.Mathlib.Decide.{}
use seafowl.Prelude.Map.{
  Eq, nat_eq, member, lookup, insert, remove, Unique, lookup-insert, lookup-remove, insert-Unique,
  remove-Unique, member-insert,
}
use seafowl.Sync.Squash.{ColumnRows, Chains, continue_chain, update_changed}
use seafowl.Sync.Squash.Meaning.{
  Changes, Table, base, is_target, any_old, content, assign, merge-update_changed,
}
use seafowl.Sync.Squash.Step.{Tracks, Advances, residue}

module _ {K P F : Type 0} ⦃e : Eq K⦄ (b : Changes K P F) (initial : Table K P F) where
  any_old-set :
      (k : K) (l : List ColumnRows) (c : ℕ) (rows rows' : ColumnRows)
      → get_elem? l c ≡ some rows
      → rows'.old_pk_row ≡ rows.old_pk_row
      → any_old b k (set l c rows') ≡ any_old b k l
  unfolding any_old
  any_old-set k [] c rows rows' h o = refl
  any_old-set k (x ∷ l) zero rows rows' h o =
      let first : x ≡ rows = cc in
      let old : rows'.old_pk_row ≡ x.old_pk_row = o ∙ ap (λ q. q.old_pk_row) (sym first) in
      ap (λ q. e.eq k (b.old_pk q) || any_old b k l) old
  any_old-set k (x ∷ l) (suc c) rows rows' h o =
      ap (λ q. e.eq k (b.old_pk x.old_pk_row) || q) (any_old-set k l c rows rows' h o)

  lookup-moved :
      (row_id c : ℕ) (k : K) (l : List (K × ℕ))
      → Unique l
      → lookup k (
          if not (e.eq (b.new_pk row_id) b.nulls)
          then insert (b.new_pk row_id) c (remove (b.old_pk row_id) l)
          else remove (b.old_pk row_id) l)
        ≡ (if is_target b row_id k
            then some c
            else if e.eq k (b.old_pk row_id)
            then none
            else lookup k l)
  lookup-moved row_id c k l u = ground (
    arith,
    lookup-insert (b.new_pk row_id) k c (remove (b.old_pk row_id) l),
    lookup-remove (b.old_pk row_id) k l u,
    e.eq_iff k (b.old_pk row_id),
    e.eq_iff (b.old_pk row_id) k,
  )

  moved-Unique :
      (row_id c : ℕ) (l : List (K × ℕ))
      → Unique l
      → Unique (
          if not (e.eq (b.new_pk row_id) b.nulls)
          then insert (b.new_pk row_id) c (remove (b.old_pk row_id) l)
          else remove (b.old_pk row_id) l)
  moved-Unique row_id c l u = elim (Bool-cases (e.eq (b.new_pk row_id) b.nulls)) [
    | inl n ↦ rw n (remove-Unique (b.old_pk row_id) l u)
    | inr n ↦ rw n (
        insert-Unique (b.new_pk row_id) c (remove (b.old_pk row_id) l)
          (remove-Unique (b.old_pk row_id) l u))
  ]

  module _ (row_id c : ℕ) (rows : ColumnRows) (s : Chains K) (t : Table K P F)
      (v : Tracks b initial s t) (known : lookup (b.old_pk row_id) s.pk_chains ≡ some c)
      (entry : get_elem? s.column_rows c ≡ some rows) where
    abbrev next : ColumnRows
    next = record {
      old_pk_row = rows.old_pk_row;
      new_pk_row = row_id;
      changed_rows = update_changed row_id b.changed rows.changed_rows;
    }

    known-sole : (k : K) → lookup k s.pk_chains ≡ some c → k ≡ b.old_pk row_id
    known-sole k h =
        let (r, g, n, _, _) = v.live k c h in
        let (r', g', n', _, _) = v.live (b.old_pk row_id) c known in
        let same : r ≡ r' = cc in sym n ∙ (ap (λ q. b.new_pk (q.new_pk_row)) same ∙ n')

    known_content : t (b.old_pk row_id) ≡ some (content b initial rows)
    known_content =
        let (r, g, _, tk, _) = v.live (b.old_pk row_id) c known in
        let same : r ≡ rows = cc in tk ∙ ap (λ q. some (content b initial q)) same

    known_key : b.old_pk row_id ≢ b.nulls
    known_key z = let n = v.no_null in cc

    continue-filled :
        content b initial next
        ≡ (b.plain row_id, assign b.changed b.values row_id (base b (b.old_pk row_id) t))
    continue-filled =
        let no : e.eq (b.old_pk row_id) b.nulls ≡ false =
          ground (arith, e.eq_iff (b.old_pk row_id) b.nulls, known_key) in
        rw (no, known_content)
          (ap (λ q. (b.plain row_id, q))
            (merge-update_changed b.changed b.values row_id rows.changed_rows
              (base b (b.old_pk rows.old_pk_row) initial)))

    continue-left :
        (k : K)
        → k ≢ b.nulls
        → residue b initial k (set s.column_rows c next)
          ≡ (if e.eq k (b.old_pk row_id) then none else residue b initial k s.column_rows)
    continue-left k n =
        ap (λ q. if q then none else initial k) (any_old-set k s.column_rows c rows next entry refl)
        ∙ elim (Bool-cases (e.eq k (b.old_pk row_id))) [
          | inl o ↦
              let at = (e.eq_iff k (b.old_pk row_id)).0 o in
              rw (o, at) (v.live (b.old_pk row_id) c known).4
          | inr o ↦ rw o
        ]

    known_not_temp : member c s.temp_rows ≡ false
    known_not_temp = elim (Bool-cases (member c s.temp_rows)) [
      | inl m ↦
          let (r, g, n, _, _) = v.live (b.old_pk row_id) c known in
          absurd (known_key (sym n ∙ (v.temporary c r g m).0))
      | inr n ↦ n
    ]

    continue-temporary :
        (j : ℕ)
        → member j (continue_chain b.nulls b.old_pk b.new_pk b.changed row_id c rows s).temp_rows
          ≡ true
        → ((j ≡ c) × ((b.new_pk row_id ≡ b.nulls) × (b.old_pk rows.old_pk_row ≡ b.nulls)))
          ⊎ ((j ≢ c) × (member j s.temp_rows ≡ true))
    unfolding continue_chain
    continue-temporary j m = ground (
      arith,
      known_not_temp,
      member-insert c j s.temp_rows,
      e.eq_iff (b.new_pk row_id) b.nulls,
      e.eq_iff (b.old_pk rows.old_pk_row) b.nulls,
    )

    continue-bounded :
        (j : ℕ)
        → member j (continue_chain b.nulls b.old_pk b.new_pk b.changed row_id c rows s).temp_rows
          ≡ true
        → j < length (set s.column_rows c next)
    unfolding continue_chain
    continue-bounded j m = elim (continue-temporary j m) [
      | inl (same, _) ↦
          omega (arith, length-set s.column_rows c next, get_elem?-lt-length s.column_rows c entry)
      | inr (_, old) ↦ omega (arith, length-set s.column_rows c next, v.bounded j old)
    ]

    pub continue-Advances :
        Advances b initial row_id c next s
          (continue_chain b.nulls b.old_pk b.new_pk b.changed row_id c rows s)
          t
    unfolding continue_chain
    continue-Advances = record {
      counted = v.counted ∙ sym (length-set s.column_rows c next);
      unique = moved-Unique row_id c s.pk_chains v.unique;
      only = λ j h. cc;
      sole = known-sole;
      moved = λ k. lookup-moved row_id c k s.pk_chains v.unique;
      here = get_elem?-set_self s.column_rows c next entry;
      elsewhere = λ j other. get_elem?-set_other s.column_rows c j next other;
      latest = refl;
      filled = continue-filled;
      left = continue-left;
      bounded = continue-bounded;
      temporary = continue-temporary;
    }
