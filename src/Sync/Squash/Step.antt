-- ===== src/Sync/Squash/Step.antt =====
-- utils.rs, the loop of `squash_batches`: what the chains have to do with the table so far, and what
-- a round must do to keep it so.
use seafowl.Prelude.{
  ℕ, ◌<◌, ◌≡◌, ◌≢◌, ◌⊎◌, inl, inr, refl, sym, ap, ◌∙◌, arith, Bool, true, false, Bool-cases, Option,
  none, some, Option-cases, List, length, get_elem?, if◌then◌else◌,
}
use native.Mathlib.Decide.{ℕ_discrete}
use seafowl.Prelude.Map.{Eq, nat_eq, member, lookup, Unique}
use seafowl.Sync.Squash.{ColumnRows, Chains}
use seafowl.Sync.Squash.Meaning.{
  Changes, Table, base, is_target, apply_change, IsPossible, any_old, content, assign,
}

if_same : {A : Type 0} (q : Bool) (x : A) → (if q then x else x) ≡ x
if_same true x = refl
if_same false x = refl

module _ {K P F : Type 0} ⦃e : Eq K⦄ (b : Changes K P F) (initial : Table K P F) where
  -- What is left of the table before the batch: no row that a chain starts from.
  abbrev pub residue : K → List ColumnRows → Option (P × List F)
  residue k l = if any_old b k l then none else initial k

  -- `t` is the table after the rows that the loop has read.
  pub record Tracks (s : Chains K) (t : Table K P F) : Type 0 where
    pub counted : s.chain_count ≡ length s.column_rows
    pub unique : Unique s.pk_chains
    pub no_null : lookup b.nulls s.pk_chains ≡ none
    pub live :
        (k : K) (c : ℕ)
        → lookup k s.pk_chains ≡ some c
        → (rows : ColumnRows) × (get_elem? s.column_rows c ≡ some rows)
          × (b.new_pk rows.new_pk_row ≡ k)
          × (t k ≡ some (content b initial rows))
          × (residue k s.column_rows ≡ none)
    pub idle : (k : K) → k ≢ b.nulls → lookup k s.pk_chains ≡ none → t k ≡ residue k s.column_rows
    pub tracked :
        (c : ℕ) (rows : ColumnRows)
        → get_elem? s.column_rows c ≡ some rows
        → b.new_pk rows.new_pk_row ≢ b.nulls
        → lookup (b.new_pk rows.new_pk_row) s.pk_chains ≡ some c
    pub bounded : (c : ℕ) → member c s.temp_rows ≡ true → c < length s.column_rows
    pub temporary :
        (c : ℕ) (rows : ColumnRows)
        → get_elem? s.column_rows c ≡ some rows
        → member c s.temp_rows ≡ true
        → (b.new_pk rows.new_pk_row ≡ b.nulls) × (b.old_pk rows.old_pk_row ≡ b.nulls)

  -- What both branches of a round do at the chain `c`, whose entry becomes `rows`.
  pub record Advances (row_id c : ℕ) (rows : ColumnRows) (s s' : Chains K) (t : Table K P F)
      : Type 0 where
    pub counted : s'.chain_count ≡ length s'.column_rows
    pub unique : Unique s'.pk_chains
    pub only : (j : ℕ) → lookup (b.old_pk row_id) s.pk_chains ≡ some j → j ≡ c
    pub sole : (k : K) → lookup k s.pk_chains ≡ some c → k ≡ b.old_pk row_id
    pub moved :
        (k : K)
        → lookup k s'.pk_chains ≡ (
            if is_target b row_id k
            then some c
            else if e.eq k (b.old_pk row_id)
            then none
            else lookup k s.pk_chains)
    pub here : get_elem? s'.column_rows c ≡ some rows
    pub elsewhere : (j : ℕ) → j ≢ c → get_elem? s'.column_rows j ≡ get_elem? s.column_rows j
    pub latest : rows.new_pk_row ≡ row_id
    pub filled :
        content b initial rows
        ≡ (b.plain row_id, assign b.changed b.values row_id (base b (b.old_pk row_id) t))
    pub left :
        (k : K)
        → k ≢ b.nulls
        → residue k s'.column_rows
          ≡ (if e.eq k (b.old_pk row_id) then none else residue k s.column_rows)
    pub bounded : (j : ℕ) → member j s'.temp_rows ≡ true → j < length s'.column_rows
    pub temporary :
        (j : ℕ)
        → member j s'.temp_rows ≡ true
        → ((j ≡ c) × ((b.new_pk rows.new_pk_row ≡ b.nulls) × (b.old_pk rows.old_pk_row ≡ b.nulls)))
          ⊎ ((j ≢ c) × (member j s.temp_rows ≡ true))

  module _ (row_id c : ℕ) (rows : ColumnRows) (s s' : Chains K) (t : Table K P F) (v : Tracks s t)
      (a : Advances row_id c rows s s' t) (possible : IsPossible b row_id t) where
    abbrev w : K
    w = b.new_pk row_id

    -- A key that is the target is free before, or it is the old key.
    target-free : w ≢ b.nulls → (j : ℕ) → lookup w s.pk_chains ≡ some j → w ≡ b.old_pk row_id
    target-free n j h = elim (possible.1) [
      | inl z ↦ absurd (n z)
      | inr (inl same) ↦ same
      | inr (inr free) ↦ let l = (v.live w j h).3 in cc
    ]

    target-null : is_target b row_id b.nulls ≡ false
    target-null = ground (arith, e.eq_iff w b.nulls, e.eq_iff b.nulls w)

    is_target→eq : (k : K) → is_target b row_id k ≡ true → (k ≡ w) × (w ≢ b.nulls)
    is_target→eq k h = ground (arith, e.eq_iff w b.nulls, e.eq_iff k w)

    eq_old : (k : K) → e.eq k (b.old_pk row_id) ≡ true → k ≡ b.old_pk row_id
    eq_old k h = (e.eq_iff k (b.old_pk row_id)).0 h

    not_null : (k : K) (j : ℕ) → lookup k s.pk_chains ≡ some j → k ≢ b.nulls
    not_null k j l z = let n = v.no_null in cc

    target_self : w ≢ b.nulls → is_target b row_id w ≡ true
    target_self n = ground (arith, e.eq_iff w b.nulls, e.eq_iff w w)

    entry-here : (j : ℕ) (r : ColumnRows) → j ≡ c → get_elem? s'.column_rows j ≡ some r → rows ≡ r
    entry-here j r same h = let g = a.here in cc

    no_null' : lookup b.nulls s'.pk_chains ≡ none
    no_null' =
        rw (a.moved b.nulls, target-null, v.no_null) (if_same (e.eq b.nulls (b.old_pk row_id)) none)

    not_old : (k : K) → e.eq k (b.old_pk row_id) ≡ false → k ≢ b.old_pk row_id
    not_old k o z = cc ((e.eq_iff k (b.old_pk row_id)).1 z)

    free : w ≢ b.nulls → w ≢ b.old_pk row_id → t w ≡ none
    free n o = elim (possible.1) [
      | inl z ↦ absurd (n z)
      | inr (inl same) ↦ absurd (o same)
      | inr (inr gone) ↦ gone
    ]

    target-residue : (k : K) → is_target b row_id k ≡ true → residue k s'.column_rows ≡ none
    target-residue k h =
        let (same, n) = is_target→eq k h in
        rw (a.left k (λ z. n (sym same ∙ z))) (elim (Bool-cases (e.eq k (b.old_pk row_id))) [
          | inl o ↦ rw o
          | inr o ↦
              rw (o, same)
                (elim (Option-cases (lookup w s.pk_chains)) [
                  | inl l ↦ sym (v.idle w n l) ∙ free n (λ z. not_old k o (same ∙ z))
                  | inr (j, l) ↦ (v.live w j l).4
                ])
        ])

    live' :
        (k : K) (j : ℕ)
        → lookup k s'.pk_chains ≡ some j
        → (r : ColumnRows) × (get_elem? s'.column_rows j ≡ some r)
          × (b.new_pk r.new_pk_row ≡ k)
          × (apply_change b row_id t k ≡ some (content b initial r))
          × (residue k s'.column_rows ≡ none)
    unfolding apply_change
    live' k j h = elim (Bool-cases (is_target b row_id k)) [
      | inl y ↦
          let (same, n) = is_target→eq k y in
          let at : j ≡ c = cc (a.moved k) in
          (
            rows,
            ap (get_elem? s'.column_rows) at ∙ a.here,
            ap b.new_pk a.latest ∙ sym same,
            rw y (ap some (sym a.filled)),
            target-residue k y,
          )
      | inr x ↦ elim (Bool-cases (e.eq k (b.old_pk row_id))) [
        | inl o ↦ absurd (let l = a.moved k in let l' = (rw (x, o) at l) in cc)
        | inr o ↦
            let l : lookup k s.pk_chains ≡ some j = sym (rw (x, o) at (a.moved k)) ∙ h in
            let (r, g, n, tk, res) = v.live k j l in
            (
              r,
              a.elsewhere j (λ z. not_old k o (a.sole k (l ∙ ap some z))) ∙ g,
              n,
              rw (x, o) tk,
              rw (a.left k (not_null k j l), o) res,
            )
      ]
    ]

    idle' :
        (k : K)
        → k ≢ b.nulls
        → lookup k s'.pk_chains ≡ none
        → apply_change b row_id t k ≡ residue k s'.column_rows
    unfolding apply_change
    idle' k n h = elim (Bool-cases (is_target b row_id k)) [
      | inl y ↦ absurd (let l = (rw y at (a.moved k)) in cc)
      | inr x ↦ elim (Bool-cases (e.eq k (b.old_pk row_id))) [
        | inl o ↦ rw (x, o, a.left k n, o)
        | inr o ↦
            let l = (rw (x, o) at (a.moved k)) in rw (x, o, a.left k n, o) (v.idle k n (sym l ∙ h))
      ]
    ]

    -- A key of another chain is not touched.
    untouched_old :
        (k : K) (j : ℕ) → lookup k s.pk_chains ≡ some j → j ≢ c → e.eq k (b.old_pk row_id) ≡ false
    untouched_old k j l other = elim (Bool-cases (e.eq k (b.old_pk row_id))) [
      | inl o ↦ absurd (other (a.only j (ap (λ q. lookup q s.pk_chains) (sym (eq_old k o)) ∙ l)))
      | inr o ↦ o
    ]

    untouched_target :
        (k : K) (j : ℕ) → lookup k s.pk_chains ≡ some j → j ≢ c → is_target b row_id k ≡ false
    untouched_target k j l other = elim (Bool-cases (is_target b row_id k)) [
      | inl y ↦
          let (same, n) = is_target→eq k y in
          let old = same ∙ target-free n j (ap (λ q. lookup q s.pk_chains) (sym same) ∙ l) in
          absurd (other (a.only j (ap (λ q. lookup q s.pk_chains) (sym old) ∙ l)))
      | inr x ↦ x
    ]

    tracked' :
        (j : ℕ) (r : ColumnRows)
        → get_elem? s'.column_rows j ≡ some r
        → b.new_pk r.new_pk_row ≢ b.nulls
        → lookup (b.new_pk r.new_pk_row) s'.pk_chains ≡ some j
    tracked' j r h n = elim (ℕ_discrete j c) [
      | yes same ↦
          let at : b.new_pk r.new_pk_row ≡ w =
            ap (λ q. b.new_pk (q.new_pk_row)) (sym (entry-here j r same h))
            ∙ ap b.new_pk a.latest in
          rw (at, a.moved w, target_self (λ z. n (at ∙ z))) (ap some (sym same))
      | no other ↦
          let l = v.tracked j r (sym (a.elsewhere j other) ∙ h) n in
          rw
            (
              a.moved (b.new_pk r.new_pk_row),
              untouched_target (b.new_pk r.new_pk_row) j l other,
              untouched_old (b.new_pk r.new_pk_row) j l other,
            )
            l
    ]

    temporary' :
        (j : ℕ) (r : ColumnRows)
        → get_elem? s'.column_rows j ≡ some r
        → member j s'.temp_rows ≡ true
        → (b.new_pk r.new_pk_row ≡ b.nulls) × (b.old_pk r.old_pk_row ≡ b.nulls)
    temporary' j r h m = elim (a.temporary j m) [
      | inl (same, both) ↦
          let at = entry-here j r same h in
          (
            ap (λ q. b.new_pk (q.new_pk_row)) (sym at) ∙ both.0,
            ap (λ q. b.old_pk (q.old_pk_row)) (sym at) ∙ both.1,
          )
      | inr (other, m') ↦ v.temporary j r (sym (a.elsewhere j other) ∙ h) m'
    ]

    pub Advances-Tracks : Tracks s' (apply_change b row_id t)
    Advances-Tracks = record {
      counted = a.counted;
      unique = a.unique;
      no_null = no_null';
      live = live';
      idle = idle';
      tracked = tracked';
      bounded = a.bounded;
      temporary = temporary';
    }
