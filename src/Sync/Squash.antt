-- ===== src/Sync/Squash.antt =====
-- frontend/flight/sync/utils.rs, `squash_batches`: a chain of changes to one row of a table becomes
-- one row of the batch.
pub mod Meaning
pub mod Step
pub mod Round
pub mod Start
pub mod Final
pub mod Batch
pub mod Designated
mod Tests
use seafowl.Prelude.{
  ℕ, zero, suc, ◌+◌, ◌≡◌, Bool, true, false, not, Option, none, some, List, [], ◌∷◌, ◌++◌, map,
  length, get_elem?, set, if◌then◌else◌,
}
use seafowl.Prelude.Map.{Eq, nat_eq, member, insert_member, lookup, insert, remove}

-- An entry of `column_rows`: the row ids for the old key, the new key and the changed columns.
pub record ColumnRows : Type 0 where
  pub old_pk_row : ℕ
  pub new_pk_row : ℕ
  pub changed_rows : List ℕ

-- The variables of the loop.
pub record Chains (K : Type 0) : Type 0 where
  pub chain_count : ℕ
  pub column_rows : List ColumnRows
  pub temp_rows : List ℕ
  pub pk_chains : List (K × ℕ)

-- Row ids of the changed columns, where the flag is set at this row.
unfoldable pub update_changed : ℕ → List (ℕ → Bool) → List ℕ → List ℕ
update_changed row_id (array ∷ arrays) (row ∷ rows) =
    (if array row_id then row_id else row) ∷ update_changed row_id arrays rows
update_changed row_id _ rows = rows

-- Rows of primary keys are compared with `e.eq`; `old_pk` and `new_pk` are those of the batch by
-- row id, `nulls` is the row of null keys, and `changed` are the flag columns by row id.
module _ {K : Type 0} ⦃e : Eq K⦄ (nulls : K) (old_pk new_pk : ℕ → K)
    (changed : List (ℕ → Bool)) where
  abbrev pub is_null : K → Bool
  is_null k = e.eq k nulls

  -- The branch of a known key: the entry at `chain_id` is `rows`.
  unfoldable pub continue_chain : ℕ → ℕ → ColumnRows → Chains K → Chains K
  unfolding update_changed
  continue_chain row_id chain_id rows s = record s {
    column_rows = set s.column_rows chain_id (record {
      old_pk_row = rows.old_pk_row;
      new_pk_row = row_id;
      changed_rows = update_changed row_id changed rows.changed_rows;
    });
    pk_chains =
        if not (is_null (new_pk row_id))
        then insert (new_pk row_id) chain_id (remove (old_pk row_id) s.pk_chains)
        else remove (old_pk row_id) s.pk_chains;
    temp_rows =
        if not (is_null (new_pk row_id))
        then s.temp_rows
        else if is_null (old_pk rows.old_pk_row)
        then insert_member chain_id s.temp_rows
        else s.temp_rows;
  }

  -- The branch of an unknown key.
  unfoldable pub start_chain : ℕ → Chains K → Chains K
  start_chain row_id s = record s {
    chain_count = s.chain_count + 1;
    column_rows =
        s.column_rows
        ++ record {
          old_pk_row = row_id;
          new_pk_row = row_id;
          changed_rows = map (λ _. row_id) changed;
        }
          ∷ [];
    pk_chains =
        if not (is_null (new_pk row_id))
        then insert (new_pk row_id) s.chain_count s.pk_chains
        else s.pk_chains;
  }

  -- One round; `none` is the panic of `column_rows[chain_id]` out of range.
  unfoldable pub chain_step : ℕ → Chains K → Option (Chains K)
  chain_step row_id s = elim (lookup (old_pk row_id) s.pk_chains) [
    | none ↦ some (start_chain row_id s)
    | some chain_id ↦ elim (get_elem? s.column_rows chain_id) [
      | none ↦ none
      | some rows ↦ some (continue_chain row_id chain_id rows s)
    ]
  ]

  -- The loop over the rows from `row_id` on, of which some number is left.
  unfoldable pub chain_loop : ℕ → ℕ → Chains K → Option (Chains K)
  chain_loop zero row_id s = some s
  chain_loop (suc left) row_id s = elim (chain_step row_id s) [
    | none ↦ none
    | some s' ↦ chain_loop left (suc row_id) s'
  ]

-- The state before the loop.
abbrev pub no_chains : {K : Type 0} → Chains K
no_chains = record { chain_count = 0; column_rows = []; temp_rows = []; pk_chains = [] }

-- The entries from `id` on that are not temporary.
unfoldable pub keep_rows : List ℕ → ℕ → List ColumnRows → List ColumnRows
keep_rows temp_rows id [] = []
keep_rows temp_rows id (rows ∷ column_rows) =
    let rest = keep_rows temp_rows (suc id) column_rows in
    if member id temp_rows then rest else rows ∷ rest

-- The entries that make the output batch, from the keys and flags of `row_count` rows.
unfoldable pub squash_rows :
    {K : Type 0} ⦃e : Eq K⦄ → K → (ℕ → K) → (ℕ → K) → List (ℕ → Bool) → ℕ → Option (List ColumnRows)
unfolding keep_rows chain_loop
squash_rows nulls old_pk new_pk changed row_count =
    elim (chain_loop nulls old_pk new_pk changed row_count 0 no_chains) [
      | none ↦ none
      | some s ↦ some (keep_rows s.temp_rows 0 s.column_rows)
    ]
