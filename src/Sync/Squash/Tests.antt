-- ===== src/Sync/Squash/Tests.antt =====
-- The theorems about schema.rs and `squash_batches` at concrete messages.
use seafowl.Prelude.{
  ℕ, zero, suc, ◌+◌, ◌≡◌, ◌≢◌, ◌↔◌, inl, inr, refl, arith, Bool, true, false, none, some, List, [],
  ◌∷◌, ◌&&◌, ◌==◌, if◌then◌else◌, String,
}
use seafowl.Prelude.Map.{nat_eq, lookup, insert, remove, member, insert_member}
use seafowl.Sync.Schema.{
  DataTypes, Field, ColumnDescriptor, SyncColumn, SyncSchema, old_pk, new_pk, changed, value,
  role_eq, Result, try_new,
}
use seafowl.Sync.Squash.{ColumnRows, squash_rows, chain_step, continue_chain, start_chain}
use seafowl.Sync.Squash.Meaning.{Changes, Table, apply_all, apply_taken, IsConsistent, apply_change}
use seafowl.Sync.Squash.Final.{squash_rows-apply}
use seafowl.Sync.Squash.Batch.{Arrow, RecordBatch, designate, squash_joined, kept_rows, panic}
use seafowl.Sync.Squash.Designated.{designate_same, squash_joined_panics}

-- The row of the key 1 moves to the key 2 and is deleted there; a row of the key 5 is inserted.
abbrev olds : ℕ → ℕ
olds zero = 1
olds (suc zero) = 2
olds _ = 0

abbrev news : ℕ → ℕ
news zero = 2
news (suc zero) = 0
news _ = 5

abbrev batch : Changes ℕ ℕ ℕ
batch = record {
  nulls = 0;
  old_pk = olds;
  new_pk = news;
  changed = (λ i. i == 0) ∷ [];
  values = (λ i. 10 + i) ∷ [];
  plain = λ i. 20 + i;
  absent = 0 ∷ [];
}

abbrev before : Table ℕ ℕ ℕ
before k = if k == 1 then some (1, 7 ∷ []) else none

consistent : IsConsistent batch 3 0 before
unfolding apply_change
consistent =
    ((inr (λ h. cc), inr (inr refl)), ((inr (λ h. cc), inl refl), ((inl refl, inr (inr refl)), tt)))

squashed :
    squash_rows 0 olds news batch.changed 3
    ≡ some (
        record { old_pk_row = 0; new_pk_row = 1; changed_rows = 0 ∷ [] }
        ∷ record { old_pk_row = 2; new_pk_row = 2; changed_rows = 2 ∷ [] }
        ∷ [])
unfolding squash_rows chain_step start_chain continue_chain lookup insert remove member
squashed = refl

squash_rows-apply_example :
    (l : List ColumnRows) × (squash_rows 0 olds news batch.changed 3 ≡ some l)
    × ((k : ℕ) → k ≢ 0 → apply_taken batch l before k ≡ apply_all batch 3 0 before k)
squash_rows-apply_example = squash_rows-apply batch before 3 (omega arith) consistent

abbrev types : DataTypes
types = record { DataType = ℕ; type_eq = nat_eq; boolean = 0 }

abbrev id_field : String → Field types
id_field name = record { name = name; data_type = 1; is_nullable = true }

abbrev fields : List (Field types)
fields =
    id_field "old_id"
    ∷ id_field "new_id"
    ∷ id_field "v"
    ∷ record { name = "v_changed"; data_type = 0; is_nullable = false }
    ∷ []

abbrev descriptors : List ColumnDescriptor
descriptors =
    record { role = 0; name = "id" }
    ∷ record { role = 1; name = "id" }
    ∷ record { role = 3; name = "v" }
    ∷ record { role = 2; name = "v" }
    ∷ []

abbrev schema : SyncSchema types
schema = record {
  columns =
      record { role = old_pk; name = "id"; field = id_field "old_id" }
      ∷ record { role = new_pk; name = "id"; field = id_field "new_id" }
      ∷ record { role = value; name = "v"; field = id_field "v" }
      ∷ record {
        role = changed;
        name = "v";
        field = record { name = "v_changed"; data_type = 0; is_nullable = false };
      }
      ∷ [];
}

accepted : try_new types (λ l. l) descriptors fields ≡ Result.ok schema
unfolding try_new insert_member member
accepted = refl

cells_eq : List ℕ → List ℕ → Bool
cells_eq [] [] = true
cells_eq (x ∷ xs) (y ∷ ys) = x == y && cells_eq xs ys
cells_eq _ _ = false

cells_eq_iff : (xs ys : List ℕ) → (cells_eq xs ys ≡ true) ↔ (xs ≡ ys)
unfolding cells_eq
cells_eq_iff [] [] = (λ h. refl, λ h. refl)
cells_eq_iff [] (y ∷ ys) = (λ h. cc, λ h. cc)
cells_eq_iff (x ∷ xs) [] = (λ h. cc, λ h. cc)
cells_eq_iff (x ∷ xs) (y ∷ ys) = ground (arith, cells_eq_iff xs ys)

abbrev arrow : Arrow
arrow = record {
  Cell = ℕ;
  row_eq = record { eq = cells_eq; eq_iff = cells_eq_iff };
  null = 0;
  is_set = λ c. c == 1;
  try_new = λ names columns. some columns;
}

-- The key 5 is inserted and deleted.
abbrev temporary : RecordBatch types arrow
temporary = record {
  names = "old_id" ∷ "new_id" ∷ "v" ∷ "v_changed" ∷ [];
  columns = (0 ∷ 5 ∷ []) ∷ (5 ∷ 0 ∷ []) ∷ (7 ∷ 7 ∷ []) ∷ (1 ∷ 1 ∷ []) ∷ [];
  num_rows = 2;
}

squash_joined_panics_example : squash_joined types arrow schema temporary ≡ panic
unfolding kept_rows chain_step start_chain continue_chain lookup insert remove member insert_member
    cells_eq role_eq
squash_joined_panics_example = squash_joined_panics types arrow schema temporary refl refl

-- A value with two flags.
abbrev flags : List (SyncColumn types)
flags =
    record { role = value; name = "v"; field = id_field "v" }
    ∷ record { role = changed; name = "v"; field = id_field "f" }
    ∷ record { role = changed; name = "v"; field = id_field "g" }
    ∷ []

abbrev indices : List (ℕ × List ℕ)
indices = (0, 3 ∷ []) ∷ (1, 3 ∷ []) ∷ (2, 3 ∷ []) ∷ []

designate_same_example : (lookup 1 indices ≡ some (3 ∷ [])) × (lookup 2 indices ≡ some (3 ∷ []))
unfolding designate lookup insert
designate_same_example =
    designate_same types arrow (record { columns = flags }) ("v" ∷ "f" ∷ "g" ∷ []) [] (9 ∷ [])
      ((3 ∷ []) ∷ (4 ∷ []) ∷ []) 1 2 flags
      (record { role = changed; name = "v"; field = id_field "f" })
      (record { role = changed; name = "v"; field = id_field "g" }) indices refl refl refl refl refl
