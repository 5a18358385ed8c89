-- ===== src/Sync/Schema/Accepts.antt =====
-- schema.rs: which descriptors and fields make a `SyncSchema`.
use seafowl.Prelude.{◌≡◌, ◌↔◌, List, length}
use seafowl.Prelude.Map.{Eq}
use seafowl.Sync.Schema.{
  old_pk, new_pk, ColumnDescriptor, DataTypes, Field, Key, key_eq, zip_fields,
}
use seafowl.Sync.Schema.Valid.{HasKey, AllGood}

module _ (types : DataTypes) where
  instance abbrev keys : Eq (Key types)
  keys = key_eq types

  -- Old and new keys are of the same columns, and there are some.
  abbrev pub SameKeys : List (ColumnDescriptor × Field types) → Type 0
  SameKeys l =
      ((x : Key types) × HasKey types old_pk x l)
      × ((x : Key types) → HasKey types old_pk x l ↔ HasKey types new_pk x l)

  -- What `try_new` asks of the descriptors and fields.
  abbrev pub IsAccepted :
      (List (Field types) → List (Field types))
      → List ColumnDescriptor
      → List (Field types)
      → Type 0
  IsAccepted flattened_fields cds fields =
      (length cds ≡ length (flattened_fields fields))
      × AllGood types cds (zip_fields types cds fields)
      × SameKeys (zip_fields types cds fields)

  module _ (flattened_fields : List (Field types) → List (Field types))
      (cds : List ColumnDescriptor) (fields : List (Field types)) where
    abbrev zipped : List (ColumnDescriptor × Field types)
    zipped = zip_fields types cds fields
