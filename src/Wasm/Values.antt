-- ===== src/Wasm/Values.antt =====
-- Arrow arrays, MessagePack values, and results.
use seafowl.Prelude.{ℕ, String, Bool, true, false, Option, none, some, List, [], ◌∷◌, length}
use seafowl.Prelude.Integers.{ℤ}
use seafowl.Wasm.Types.{
  DataType, int16, int32, int64, float32, float64, utf8, decimal128, bool, date32, timestamp_ns,
  CreateFunctionDataType,
}

-- The slots of an array by its type. A float is its bits, and so is the i128 of a decimal; a slot that
-- is null has some value as well.
pub data Slots : Type 0 where
  int16_slots int32_slots int64_slots date32_slots timestamp_slots : List ℤ → Slots
  float32_slots float64_slots : List ℕ → Slots
  string_slots : List String → Slots
  boolean_slots : List Bool → Slots
  decimal128_slots : ℕ → ℤ → List ℕ → Slots

abbrev pub slots_type : Slots → DataType
slots_type (int16_slots xs) = int16
slots_type (int32_slots xs) = int32
slots_type (int64_slots xs) = int64
slots_type (date32_slots xs) = date32
slots_type (timestamp_slots xs) = timestamp_ns
slots_type (float32_slots xs) = float32
slots_type (float64_slots xs) = float64
slots_type (string_slots xs) = utf8
slots_type (boolean_slots xs) = bool
slots_type (decimal128_slots p s xs) = decimal128 p s

abbrev pub slots_len : Slots → ℕ
slots_len (int16_slots xs) = length xs
slots_len (int32_slots xs) = length xs
slots_len (int64_slots xs) = length xs
slots_len (date32_slots xs) = length xs
slots_len (timestamp_slots xs) = length xs
slots_len (float32_slots xs) = length xs
slots_len (float64_slots xs) = length xs
slots_len (string_slots xs) = length xs
slots_len (boolean_slots xs) = length xs
slots_len (decimal128_slots p s xs) = length xs

-- `ArrayRef`: the slots, and the validity of each if some may be null.
pub record ArrayRef : Type 0 where
  pub slots : Slots
  pub nulls : Option (List Bool)

abbrev pub data_type : ArrayRef → DataType
data_type a = slots_type a.slots

abbrev pub len : ArrayRef → ℕ
len a = slots_len a.slots

-- The arrays that are made of values, none of which is null.
abbrev pub int16_array : List ℤ → ArrayRef
int16_array xs = record { slots = int16_slots xs; nulls = none }

abbrev pub int32_array : List ℤ → ArrayRef
int32_array xs = record { slots = int32_slots xs; nulls = none }

abbrev pub int64_array : List ℤ → ArrayRef
int64_array xs = record { slots = int64_slots xs; nulls = none }

abbrev pub date32_array : List ℤ → ArrayRef
date32_array xs = record { slots = date32_slots xs; nulls = none }

abbrev pub timestamp_array : List ℤ → ArrayRef
timestamp_array xs = record { slots = timestamp_slots xs; nulls = none }

abbrev pub float32_array : List ℕ → ArrayRef
float32_array xs = record { slots = float32_slots xs; nulls = none }

abbrev pub float64_array : List ℕ → ArrayRef
float64_array xs = record { slots = float64_slots xs; nulls = none }

abbrev pub string_array : List String → ArrayRef
string_array xs = record { slots = string_slots xs; nulls = none }

abbrev pub boolean_array : List Bool → ArrayRef
boolean_array xs = record { slots = boolean_slots xs; nulls = none }

abbrev pub decimal128_array : ℕ → ℤ → List ℕ → ArrayRef
decimal128_array p s xs = record { slots = decimal128_slots p s xs; nulls = none }

-- The errors, by their messages and what is shown in them.
pub data UdfError (Value : Type 0) : Type 0 where
  casting_primitive casting_string casting_boolean : ℕ → UdfError Value
  expected_i64 expected_string expected_f64 expected_f32 expected_array : Value → UdfError Value
  converting_to_i16 converting_to_i32 converting_to_i32_date : ℤ → UdfError Value
  expected_elements : ℕ → UdfError Value
  precision_no_integer scale_no_integer high_no_integer low_no_integer : Value → UdfError Value
  converting_precision converting_scale wrong_precision wrong_scale : ℕ → UdfError Value
  setting_precision_scale : ℕ → ℤ → UdfError Value
  no_export : String → String → UdfError Value
  linking loading instantiating : String → UdfError Value
  no_memory : UdfError Value
  reading_size reading_output decoding_output serializing_input : String → UdfError Value
  negative_size : ℤ → UdfError Value
  allocating copying_size copying_input : String → UdfError Value
  invoking_udf deallocating_input deallocating_output : String → UdfError Value
  initializing invoking : String → UdfError Value → UdfError Value
  wrong_arguments : String → ℕ → ℕ → UdfError Value
  into_array : String → UdfError Value
  no_function executing : String → UdfError Value
  unsupported_type : CreateFunctionDataType → UdfError Value

-- What a library gives, or the text of its error.
pub data Given (A : Type 0) : Type 0 where
  given : A → Given A
  broken : String → Given A

pub data Result (Value A : Type 0) : Type 0 where
  ok : A → Result Value A
  err : UdfError Value → Result Value A
  panic : Result Value A

module _ {Value : Type 0} where
  infixl 5 ◌>>=◌
  unfoldable pub ◌>>=◌ : {A B : Type 0} → Result Value A → (A → Result Value B) → Result Value B
  ◌>>=◌ (ok a) f = f a
  ◌>>=◌ (err e) f = err e
  ◌>>=◌ panic f = panic

  -- `map_err(f)?`
  abbrev pub or_error : {A : Type 0} → Given A → (String → UdfError Value) → Result Value A
  or_error (given a) f = ok a
  or_error (broken e) f = err (f e)

  -- `ok_or(e)?`
  abbrev pub or_missing : {A : Type 0} → Option A → UdfError Value → Result Value A
  or_missing none e = err e
  or_missing (some a) e = ok a

  -- `unwrap`, or an index into a slice.
  abbrev pub unwrap : {A : Type 0} → Option A → Result Value A
  unwrap none = panic
  unwrap (some a) = ok a

  -- `if !test { return Err(e) }`
  abbrev pub require : Bool → UdfError Value → Result Value (Unit {0})
  require true e = ok tt
  require false e = err e

  -- `collect` of results, which stops at the first that is no value.
  abbrev pub collect : {A B : Type 0} → (A → Result Value B) → List A → Result Value (List B)
  collect f [] = ok []
  collect f (x ∷ xs) = f x >>= λ b. collect f xs >>= λ bs. ok (b ∷ bs)

-- rmpv and rmp_serde: integers, floats, texts, Booleans and arrays become values, and are read back
-- from them; `as_f32` is the match on `Value::F32`.
pub record MessagePack (Value : Type 0) : Type 0 where
  pub of_integer : ℤ → Value
  pub of_f32 : ℕ → Value
  pub of_f64 : ℕ → Value
  pub of_string : String → Value
  pub of_boolean : Bool → Value
  pub of_array : List Value → Value
  pub as_i64 : Value → Option ℤ
  pub as_u64 : Value → Option ℕ
  pub as_f32 : Value → Option ℕ
  pub as_f64 : Value → Option ℕ
  pub as_str : Value → Option String
  pub as_bool : Value → Option Bool
  pub as_array : Value → Option (List Value)
  pub serialize : Value → Given (List ℕ)
  pub from_slice : List ℕ → Given Value
