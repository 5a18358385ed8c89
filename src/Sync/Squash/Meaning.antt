-- ===== src/Sync/Squash/Meaning.antt =====
-- What a batch of changes means for a table: the changes one after the other, or the squashed rows
-- all at once.
use seafowl.Prelude.{
  ℕ, zero, suc, ◌≡◌, ◌≢◌, ◌⊎◌, refl, arith, Bool, false, not, ◌&&◌, ◌||◌, Option, none, some, List,
  [], ◌∷◌, map, if◌then◌else◌,
}
use seafowl.Prelude.Map.{Eq}
use seafowl.Sync.Squash.{ColumnRows, update_changed}

-- The values of flagged columns: for each, the value at the row that the entry names, if the flag is
-- set there, and the old value otherwise.
abbrev pub merge : {F : Type 0} → List (ℕ → Bool) → List (ℕ → F) → List ℕ → List F → List F
merge (array ∷ arrays) (value ∷ values) (row ∷ rows) (w ∷ ws) =
    (if array row then value row else w) ∷ merge arrays values rows ws
merge _ _ _ _ = []

-- The same for the change in one row.
abbrev pub assign : {F : Type 0} → List (ℕ → Bool) → List (ℕ → F) → ℕ → List F → List F
assign arrays values row_id ws = merge arrays values (map (λ _. row_id) arrays) ws

-- To follow the flags through a chain is to make the changes one after the other.
pub merge-update_changed :
    {F : Type 0} (arrays : List (ℕ → Bool)) (values : List (ℕ → F)) (row_id : ℕ) (rows : List ℕ)
    (ws : List F)
    → merge arrays values (update_changed row_id arrays rows) ws
      ≡ assign arrays values row_id (merge arrays values rows ws)
unfolding update_changed
merge-update_changed [] values i rows ws = refl
merge-update_changed (a ∷ as') [] i [] ws = refl
merge-update_changed (a ∷ as') [] i (r ∷ rs) ws = refl
merge-update_changed (a ∷ as') (v ∷ vs) i [] ws = refl
merge-update_changed (a ∷ as') (v ∷ vs) i (r ∷ rs) [] = refl
merge-update_changed (a ∷ as') (v ∷ vs) i (r ∷ rs) (w ∷ ws) =
    ground (arith, merge-update_changed as' vs i rs ws)

-- `changed_indices[0]`, for all of the flagged columns.
abbrev pub first_rows : List (ℕ → Bool) → List ℕ → List ℕ
first_rows arrays [] = []
first_rows arrays (row ∷ rows) = map (λ _. row) arrays

-- The rows of a batch, by row id: the keys, the flag columns with the flagged values, and the plain
-- values. `absent` are the flagged values of a row that is not in the table.
pub record Changes (K P F : Type 0) : Type 0 where
  pub nulls : K
  pub old_pk : ℕ → K
  pub new_pk : ℕ → K
  pub changed : List (ℕ → Bool)
  pub values : List (ℕ → F)
  pub plain : ℕ → P
  pub absent : List F

-- A table gives the plain columns and the flagged ones of each key.
abbrev pub Table : Type 0 → Type 0 → Type 0 → Type 0
Table K P F = K → Option (P × List F)

module _ {K P F : Type 0} ⦃e : Eq K⦄ (b : Changes K P F) where
  abbrev pub flagged : Option (P × List F) → List F
  flagged none = b.absent
  flagged (some (p, ws)) = ws

  -- The flagged old values of a change whose old key is `k`.
  abbrev pub base : K → Table K P F → List F
  base k t = if e.eq k b.nulls then b.absent else flagged (t k)

  abbrev pub is_target : ℕ → K → Bool
  is_target row_id k = not (e.eq (b.new_pk row_id) b.nulls) && e.eq k (b.new_pk row_id)

  -- The change in a row: the row of the old key goes, the row of the new key comes.
  unfoldable pub apply_change : ℕ → Table K P F → Table K P F
  apply_change row_id t k =
      if is_target row_id k
      then some (b.plain row_id, assign b.changed b.values row_id (base (b.old_pk row_id) t))
      else if e.eq k (b.old_pk row_id)
      then none
      else t k

  -- The changes from `row_id` on, one after the other.
  unfoldable pub apply_all : ℕ → ℕ → Table K P F → Table K P F
  unfolding apply_change
  apply_all zero row_id t = t
  apply_all (suc left) row_id t = apply_all left (suc row_id) (apply_change row_id t)

  -- A change of a row that is there, or an insertion, to a key that is free, or a deletion.
  abbrev pub IsPossible : ℕ → Table K P F → Type 0
  IsPossible row_id t =
      ((b.old_pk row_id ≡ b.nulls) ⊎ (t (b.old_pk row_id) ≢ none))
      × ((b.new_pk row_id ≡ b.nulls)
          ⊎ (b.new_pk row_id ≡ b.old_pk row_id)
          ⊎ (t (b.new_pk row_id) ≡ none))

  abbrev pub IsConsistent : ℕ → ℕ → Table K P F → Type 0
  IsConsistent zero row_id t = Unit
  IsConsistent (suc left) row_id t =
      IsPossible row_id t × IsConsistent left (suc row_id) (apply_change row_id t)

  -- The entry with this new key.
  unfoldable pub find_new : K → List ColumnRows → Option ColumnRows
  find_new k [] = none
  find_new k (rows ∷ l) = if e.eq k (b.new_pk rows.new_pk_row) then some rows else find_new k l

  -- Some entry has this old key.
  unfoldable pub any_old : K → List ColumnRows → Bool
  any_old k [] = false
  any_old k (rows ∷ l) = e.eq k (b.old_pk rows.old_pk_row) || any_old k l

  -- The row of an entry, over the table before the batch, each flagged column at its own row.
  abbrev pub content : Table K P F → ColumnRows → P × List F
  content t rows = (
    b.plain rows.new_pk_row,
    merge b.changed b.values rows.changed_rows (base (b.old_pk rows.old_pk_row) t),
  )

  -- The same as the end of `squash_batches` takes it: every flagged column, and its flag, at the row of
  -- the first one.
  abbrev pub taken : Table K P F → ColumnRows → P × List F
  taken t rows = (
    b.plain rows.new_pk_row,
    merge b.changed b.values (first_rows b.changed rows.changed_rows)
        (base (b.old_pk rows.old_pk_row) t),
  )

  -- What the output batch does to a table, all rows at once.
  unfoldable pub apply_taken : List ColumnRows → Table K P F → Table K P F
  unfolding find_new any_old
  apply_taken l t k = elim (find_new k l) [
    | some rows ↦ some (taken t rows)
    | none ↦ if any_old k l then none else t k
  ]

  -- The squashed rows, all at once: the old keys go, the new keys come.
  unfoldable pub apply_squashed : List ColumnRows → Table K P F → Table K P F
  unfolding find_new any_old
  apply_squashed l t k = elim (find_new k l) [
    | some rows ↦ some (content t rows)
    | none ↦ if any_old k l then none else t k
  ]
