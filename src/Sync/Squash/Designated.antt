-- ===== src/Sync/Squash/Designated.antt =====
-- utils.rs, the end of `squash_batches`: the rows that are taken for flagged columns.
use seafowl.Prelude.{
  ℕ, zero, suc, ◌+◌, ◌<◌, ◌≡◌, inl, inr, refl, sym, ap, ◌∙◌, arith, String, Bool, true, false, ◌||◌,
  Option, none, some, Option-cases, List, [], ◌∷◌, get_elem?,
}
use seafowl.Prelude.Map.{nat_eq, lookup, insert, lookup-insert}
use seafowl.Sync.Schema.{
  DataTypes, SyncSchema, SyncColumn, ColumnRole, old_pk, new_pk, changed, value, role_eq, column,
}
use seafowl.Sync.Squash.{}
use seafowl.Sync.Squash.Batch.{
  Outcome, ok, panic, ◌>>=◌, expect, Arrow, RecordBatch, transpose, index_of, or_insert, designate,
  kept_rows, squash_joined,
}

or_true : (q : Bool) → (q || true) ≡ true
or_true true = refl
or_true false = refl

module _ (types : DataTypes) where
  -- Some column has the role `Changed`.
  abbrev pub any_changed : List (SyncColumn types) → Bool
  any_changed [] = false
  any_changed (col ∷ cols) = role_eq col.role changed || any_changed cols

  module _ (a : Arrow) (s : SyncSchema types) (names : List String) (olds news : List ℕ) where
    abbrev designated :
        List (List ℕ)
        → ℕ
        → List (SyncColumn types)
        → List (ℕ × List ℕ)
        → Outcome (List (ℕ × List ℕ))
    designated = designate types a s names olds news

    designate-nil :
        (col_id : ℕ) (cols : List (SyncColumn types)) (indices : List (ℕ × List ℕ))
        → any_changed cols ≡ true
        → designated [] col_id cols indices ≡ panic
    unfolding designate role_eq
    designate-nil i [] m h = absurd (cc)
    designate-nil i (col ∷ cols) m h = go col.role refl (designate-nil (suc i) cols)
      where
        go :
            (r : ColumnRole)
            → col.role ≡ r
            → ((m' : List (ℕ × List ℕ))
                → any_changed cols ≡ true
                → designated [] (suc i) cols m' ≡ panic)
            → designated [] i (col ∷ cols) m ≡ panic
        go old_pk p ih = rw (p, designate) (ih (insert i olds m) (rw p at h))
        go new_pk p ih = rw (p, designate) (ih (insert i news m) (rw p at h))
        go changed p ih = rw (p, designate)
        go value p ih = rw (p, designate) (ih (or_insert i news m) (rw p at h))

    insert_other :
        (k j : ℕ) (v : List ℕ) (m : List (ℕ × List ℕ)) (first : List ℕ)
        → j < k
        → lookup j m ≡ some first
        → lookup j (insert k v m) ≡ some first
    insert_other k j v m first h l = ground (arith, lookup-insert k j v m)

    insert_same :
        (k j : ℕ) (m : List (ℕ × List ℕ)) (first : List ℕ)
        → lookup j m ≡ some first
        → lookup j (insert k first m) ≡ some first
    insert_same k j m first l = ground (arith, lookup-insert k j first m)

    or_insert_other :
        (k j : ℕ) (v : List ℕ) (m : List (ℕ × List ℕ)) (first : List ℕ)
        → j < k
        → lookup j m ≡ some first
        → lookup j (or_insert k v m) ≡ some first
    or_insert_other k j v m first h l = ground (arith, lookup-insert k j v m)

    -- What the branch of a `Changed` column hands to the columns behind it.
    changed_rest :
        (col : SyncColumn types) (cols : List (SyncColumn types)) (ch : List (List ℕ))
        (first : List ℕ) (i : ℕ) (m res : List (ℕ × List ℕ))
        → col.role ≡ changed
        → get_elem? ch 0 ≡ some first
        → designated ch i (col ∷ cols) m ≡ ok res
        → (t : ℕ) × (designated ch (suc i) cols (insert t first (insert i first m)) ≡ ok res)
    unfolding designate
    changed_rest col cols ch first i m res p g h =
        go (column types s col.name value) refl (rw (p, designate) at h)
      where
        go :
            (o : Option (SyncColumn types))
            → column types s col.name value ≡ o
            → (expect (get_elem? ch 0) >>= λ f. expect (column types s col.name value) >>= λ target.
                expect (index_of target.field.name 0 names) >>= λ t.
                designated ch (suc i) cols (insert t f (insert i f m)))
              ≡ ok res
            → (t : ℕ) × (designated ch (suc i) cols (insert t first (insert i first m)) ≡ ok res)
        go none q h' = absurd (let h'' = (rw (g, q) at h') in cc)
        go (some target) q h' = elim (Option-cases (index_of target.field.name 0 names)) [
          | inl x ↦ absurd (let h'' = (rw (g, q, x) at h') in cc)
          | inr (t, x) ↦ (t, rw (g, q, x) at h')
        ]

    designate-keeps :
        (ch : List (List ℕ)) (first : List ℕ) (i k : ℕ) (cols : List (SyncColumn types))
        (m res : List (ℕ × List ℕ))
        → get_elem? ch 0 ≡ some first
        → k < i
        → lookup k m ≡ some first
        → designated ch i cols m ≡ ok res
        → lookup k res ≡ some first
    unfolding designate
    designate-keeps ch first i k [] m res g lt l h =
        let same : m ≡ res = cc in ap (lookup k) (sym same) ∙ l
    designate-keeps ch first i k (col ∷ cols) m res g lt l h =
        go col.role refl (λ m'. designate-keeps ch first (suc i) k cols m' res g (omega arith))
      where
        go :
            (r : ColumnRole)
            → col.role ≡ r
            → ((m' : List (ℕ × List ℕ))
                → lookup k m' ≡ some first
                → designated ch (suc i) cols m' ≡ ok res
                → lookup k res ≡ some first)
            → lookup k res ≡ some first
        go old_pk p ih = ih _ (insert_other i k olds m first lt l) (rw (p, designate) at h)
        go new_pk p ih = ih _ (insert_other i k news m first lt l) (rw (p, designate) at h)
        go value p ih = ih _ (or_insert_other i k news m first lt l) (rw (p, designate) at h)
        go changed p ih =
            let (t, h') = changed_rest col cols ch first i m res p g h in
            ih _ (insert_same t k (insert i first m) first (insert_other i k first m first lt l)) h'

    insert_here :
        (i t : ℕ) (m : List (ℕ × List ℕ)) (first : List ℕ)
        → lookup i (insert t first (insert i first m)) ≡ some first
    insert_here i t m first =
        ground (arith, lookup-insert t i first (insert i first m), lookup-insert i i first m)

    -- A `Changed` column gets the row ids of the first one.
    designate-changed :
        (ch : List (List ℕ)) (first : List ℕ) (i j k : ℕ) (cols : List (SyncColumn types))
        (col : SyncColumn types) (m res : List (ℕ × List ℕ))
        → get_elem? ch 0 ≡ some first
        → get_elem? cols j ≡ some col
        → col.role ≡ changed
        → k ≡ i + j
        → designated ch i cols m ≡ ok res
        → lookup k res ≡ some first
    unfolding designate
    designate-changed ch first i j k [] col m res g c r e h = absurd (cc)
    designate-changed ch first i zero k (x ∷ cols) col m res g c r e h =
        let same : x ≡ col = cc in
        let (t, h') = changed_rest x cols ch first i m res (ap (λ q. q.role) same ∙ r) g h in
        let at : k ≡ i = omega arith in
        rw at (
          designate-keeps ch first (suc i) i cols _ res g (omega arith) (insert_here i t m first)
            h')
    designate-changed ch first i (suc j) k (x ∷ cols) col m res g c r e h =
        go x.role refl
          (λ m'. designate-changed ch first (suc i) j k cols col m' res g c r (omega arith))
      where
        go :
            (r' : ColumnRole)
            → x.role ≡ r'
            → ((m' : List (ℕ × List ℕ))
                → designated ch (suc i) cols m' ≡ ok res
                → lookup k res ≡ some first)
            → lookup k res ≡ some first
        go old_pk p ih = ih _ (rw (p, designate) at h)
        go new_pk p ih = ih _ (rw (p, designate) at h)
        go value p ih = ih _ (rw (p, designate) at h)
        go changed p ih = let (t, h') = changed_rest x cols ch first i m res p g h in ih _ h'

    some_changed :
        (j : ℕ) (cols : List (SyncColumn types)) (col : SyncColumn types)
        → get_elem? cols j ≡ some col
        → col.role ≡ changed
        → any_changed cols ≡ true
    unfolding role_eq
    some_changed j [] col c r = absurd (cc)
    some_changed zero (x ∷ cols) col c r = let same : x ≡ col = cc in rw (ap (λ q. q.role) same ∙ r)
    some_changed (suc j) (x ∷ cols) col c r =
        rw (some_changed j cols col c r) (or_true (role_eq x.role changed))

    -- Whatever rows the chains found for the flagged columns, any two columns with the role `Changed`
    -- are taken at the same rows, those found for the first of them.
    pub designate_same :
        (ch : List (List ℕ)) (i j : ℕ) (cols : List (SyncColumn types)) (x y : SyncColumn types)
        (indices : List (ℕ × List ℕ))
        → get_elem? cols i ≡ some x
        → get_elem? cols j ≡ some y
        → x.role ≡ changed
        → y.role ≡ changed
        → designate types a s names olds news ch 0 cols [] ≡ ok indices
        → (lookup i indices ≡ get_elem? ch 0) × (lookup j indices ≡ get_elem? ch 0)
    designate_same [] i j cols x y indices gx gy rx ry h =
        absurd (let n = designate-nil 0 cols [] (some_changed i cols x gx rx) in cc)
    designate_same (first ∷ ch) i j cols x y indices gx gy rx ry h = (
      designate-changed (first ∷ ch) first 0 i i cols x [] indices refl gx rx (omega arith) h,
      designate-changed (first ∷ ch) first 0 j j cols y [] indices refl gy ry (omega arith) h,
    )

  -- A batch whose rows are all temporary, such as an insertion and its deletion, makes the code
  -- panic if the schema has a column with the role `Changed`.
  pub squash_joined_panics :
      (a : Arrow) (s : SyncSchema types) (batch : RecordBatch types a)
      → kept_rows types a s batch ≡ some []
      → any_changed s.columns ≡ true
      → squash_joined types a s batch ≡ panic
  unfolding squash_joined transpose
  squash_joined_panics a s batch k h =
      rw (k, squash_joined) (rw (designate-nil a s batch.names [] [] 0 s.columns [] h))
