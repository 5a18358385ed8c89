-- ===== src/Sync/Schema.antt =====
-- frontend/flight/sync/schema.rs: the columns of a sync message and their roles.
pub mod Valid
pub mod Accepts
use seafowl.Prelude.{
  ℕ, zero, suc, String, Bool, true, false, not, ◌&&◌, ◌||◌, Option, none, some, List, [], ◌∷◌, ◌==◌,
  length, str_eq, str_eq_iff, if◌then◌else◌, ◌≡◌, ◌↔◌, arith,
}
use seafowl.Prelude.Map.{Eq, member, insert_member}

-- `ColumnRole` of clade/proto/sync.proto.
pub data ColumnRole : Type 0 where
  old_pk new_pk changed value : ColumnRole

-- `ColumnRole::try_from` on the number of a message.
unfoldable pub try_from : ℕ → Option ColumnRole
try_from zero = some old_pk
try_from (suc zero) = some new_pk
try_from (suc (suc zero)) = some changed
try_from (suc (suc (suc zero))) = some value
try_from _ = none

unfoldable pub role_eq : ColumnRole → ColumnRole → Bool
role_eq old_pk old_pk = true
role_eq new_pk new_pk = true
role_eq changed changed = true
role_eq value value = true
role_eq _ _ = false

pub record ColumnDescriptor : Type 0 where
  pub role : ℕ
  pub name : String

-- `SyncError::SchemaError`, by its reasons.
pub data SchemaError : Type 0 where
  descriptors_do_not_match : SchemaError
  changed_not_boolean changed_is_nullable changed_without_value : String → SchemaError
  failed_parsing_role : ℕ → SchemaError
  no_pk_columns : SchemaError
  different_pk_columns : SchemaError

pub data Result (A : Type 0) : Type 0 where
  ok : A → Result A
  err : SchemaError → Result A

-- What the validation needs of the types of arrow.
pub record DataTypes : Type 1 where
  pub DataType : Type 0
  pub type_eq : Eq DataType
  pub boolean : DataType

-- `HashSet` equality.
unfoldable pub all_members : {K : Type 0} ⦃e : Eq K⦄ → List K → List K → Bool
all_members [] js = true
all_members (k ∷ ks) js = member k js && all_members ks js

unfoldable pub same_members : {K : Type 0} ⦃e : Eq K⦄ → List K → List K → Bool
unfolding all_members
same_members ks js = all_members ks js && all_members js ks

module _ (types : DataTypes) where
  open types use {DataType, type_eq, boolean}

  pub record Field : Type 0 where
    pub name : String
    pub data_type : DataType
    pub is_nullable : Bool

  pub record SyncColumn : Type 0 where
    pub role : ColumnRole
    pub name : String
    pub field : Field

  pub record SyncSchema : Type 0 where
    pub columns : List SyncColumn

  abbrev pub Key : Type 0
  Key = String × DataType

  pub key_eq_iff : (a b : Key) → ((str_eq a.0 b.0 && type_eq.eq a.1 b.1) ≡ true) ↔ (a ≡ b)
  key_eq_iff (s, t) (s', t') = ground (arith, str_eq_iff s s', type_eq.eq_iff t t')

  instance abbrev pub key_eq : Eq Key
  key_eq = record { eq = λ a b. str_eq a.0 b.0 && type_eq.eq a.1 b.1; eq_iff = key_eq_iff }

  -- A descriptor with the value role has this name.
  unfoldable pub has_value : String → List ColumnDescriptor → Bool
  has_value name [] = false
  has_value name (cd ∷ cds) = (str_eq name cd.name && cd.role == 3) || has_value name cds

  -- The checks of a column with the role `Changed`; `none` is "all good".
  unfoldable pub check_changed :
      List ColumnDescriptor → ColumnDescriptor → Field → Option SchemaError
  unfolding has_value
  check_changed all cd field =
      if not (type_eq.eq field.data_type boolean)
      then some (changed_not_boolean field.name)
      else if field.is_nullable
      then some (changed_is_nullable field.name)
      else if not (has_value cd.name all)
      then some (changed_without_value cd.name)
      else none

  -- The loop over the descriptors and fields: the sets of old and new keys, or the first error.
  unfoldable pub check_columns :
      List ColumnDescriptor
      → List (ColumnDescriptor × Field)
      → List Key
      → List Key
      → Result (List Key × List Key)
  unfolding check_changed try_from
  check_columns all [] olds news = ok (olds, news)
  check_columns all ((cd, field) ∷ rest) olds news = elim (try_from cd.role) [
    | none ↦ err (failed_parsing_role cd.role)
    | some old_pk ↦ check_columns all rest (insert_member (cd.name, field.data_type) olds) news
    | some new_pk ↦ check_columns all rest olds (insert_member (cd.name, field.data_type) news)
    | some value ↦ check_columns all rest olds news
    | some changed ↦ elim (check_changed all cd field) [
      | some e ↦ err e
      | none ↦ check_columns all rest olds news
    ]
  ]

  abbrev pub is_empty : List Key → Bool
  is_empty [] = true
  is_empty (k ∷ ks) = false

  -- The checks of the keys after the loop.
  unfoldable pub check_keys : List Key → List Key → Option SchemaError
  unfolding same_members
  check_keys olds news =
      if is_empty olds || is_empty news
      then some no_pk_columns
      else if not (same_members olds news)
      then some different_pk_columns
      else none

  -- The getter `role()` gives the first role for a number that is none.
  abbrev pub role_or_default : Option ColumnRole → ColumnRole
  role_or_default none = old_pk
  role_or_default (some r) = r

  -- `zip`
  unfoldable pub zip_fields : List ColumnDescriptor → List Field → List (ColumnDescriptor × Field)
  zip_fields (cd ∷ cds) (f ∷ fs) = (cd, f) ∷ zip_fields cds fs
  zip_fields _ _ = []

  unfoldable pub sync_columns : List (ColumnDescriptor × Field) → List SyncColumn
  unfolding try_from
  sync_columns [] = []
  sync_columns ((cd, field) ∷ rest) =
      record { role = role_or_default (try_from cd.role); name = cd.name; field = field }
      ∷ sync_columns rest

  abbrev pub finish :
      List ColumnDescriptor → List Field → Result (List Key × List Key) → Result SyncSchema
  finish cds fields (err e) = err e
  finish cds fields (ok (olds, news)) = elim (check_keys olds news) [
    | some e ↦ err e
    | none ↦ ok (record { columns = sync_columns (zip_fields cds fields) })
  ]

  -- `flattened_fields` lists the fields of a schema and all fields inside them.
  unfoldable pub try_new :
      (List Field → List Field) → List ColumnDescriptor → List Field → Result SyncSchema
  unfolding check_columns check_keys zip_fields sync_columns
  try_new flattened_fields cds fields =
      if not (length cds == length (flattened_fields fields))
      then err descriptors_do_not_match
      else finish cds fields (check_columns cds (zip_fields cds fields) [] [])

  -- `SyncSchema::column`
  unfoldable pub find_column : String → ColumnRole → List SyncColumn → Option SyncColumn
  unfolding role_eq
  find_column name role [] = none
  find_column name role (col ∷ cols) =
      if str_eq col.name name && role_eq col.role role then some col else find_column name role cols

  unfoldable pub column : SyncSchema → String → ColumnRole → Option SyncColumn
  unfolding find_column
  column s name role = find_column name role s.columns

  -- The columns with a role, mapped.
  unfoldable pub filter_map :
      {T : Type 0} → ColumnRole → (SyncColumn → T) → List SyncColumn → List T
  unfolding role_eq
  filter_map role f [] = []
  filter_map role f (col ∷ cols) =
      let rest = filter_map role f cols in if role_eq col.role role then f col ∷ rest else rest

  -- `SyncSchema::map_columns`
  unfoldable pub map_columns : {T : Type 0} → SyncSchema → ColumnRole → (SyncColumn → T) → List T
  unfolding filter_map
  map_columns s role f = filter_map role f s.columns
