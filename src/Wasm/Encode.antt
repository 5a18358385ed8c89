-- ===== src/Wasm/Encode.antt =====
-- `messagepack_encode_input_value`, and `columnar_values_to_array`.
use seafowl.Prelude.{
  ℕ, ◌/◌, ◌%◌, String, Bool, Option, none, some, List, [], ◌∷◌, get_elem?, leb, if◌then◌else◌,
}
use seafowl.Prelude.Integers.{ℤ, pos, pow_64, i64_of}
use seafowl.Wasm.Types.{
  CreateFunctionDataType, i32, i64, f32, f64, smallint, int, bigint, char, varchar, text, decimal,
  float, real, double, boolean, date, timestamp,
}
use seafowl.Wasm.Values.{
  Slots, ArrayRef, int16_slots, int32_slots, int64_slots, date32_slots, timestamp_slots,
  float32_slots, float64_slots, string_slots, boolean_slots, decimal128_slots, len, UdfError,
  casting_primitive, casting_string, casting_boolean, into_array, Given, Result, ok, ◌>>=◌,
  or_error, or_missing, unwrap, collect, MessagePack,
}

-- `downcast_ref` to the arrays of a type.
abbrev pub as_int16 : Slots → Option (List ℤ)
as_int16 (int16_slots xs) = some xs
as_int16 _ = none

abbrev pub as_int32 : Slots → Option (List ℤ)
as_int32 (int32_slots xs) = some xs
as_int32 _ = none

abbrev pub as_int64 : Slots → Option (List ℤ)
as_int64 (int64_slots xs) = some xs
as_int64 _ = none

abbrev pub as_date32 : Slots → Option (List ℤ)
as_date32 (date32_slots xs) = some xs
as_date32 _ = none

abbrev pub as_timestamp : Slots → Option (List ℤ)
as_timestamp (timestamp_slots xs) = some xs
as_timestamp _ = none

abbrev pub as_float32 : Slots → Option (List ℕ)
as_float32 (float32_slots xs) = some xs
as_float32 _ = none

abbrev pub as_float64 : Slots → Option (List ℕ)
as_float64 (float64_slots xs) = some xs
as_float64 _ = none

abbrev pub as_strings : Slots → Option (List String)
as_strings (string_slots xs) = some xs
as_strings _ = none

abbrev pub as_booleans : Slots → Option (List Bool)
as_booleans (boolean_slots xs) = some xs
as_booleans _ = none

abbrev pub as_decimal128 : Slots → Option (List ℕ)
as_decimal128 (decimal128_slots p s xs) = some xs
as_decimal128 _ = none

module _ {Value : Type 0} where
  -- `args.get(col_ix).unwrap()`, cast, and the slot of the row; `value` panics past the end, and does
  -- not ask whether the slot is null.
  unfoldable pub get_arrow_value :
      {A : Type 0}
      → (Slots → Option (List A))
      → UdfError Value
      → List ArrayRef
      → ℕ
      → ℕ
      → Result Value A
  get_arrow_value downcast error args row_ix col_ix = unwrap (get_elem? args col_ix) >>= λ array.
      or_missing (downcast array.slots) error >>= λ slots. unwrap (get_elem? slots row_ix)

  module _ (mp : MessagePack Value) where
    -- The parts of a decimal: `val >> 64` and `val`, both as an i64.
    abbrev pub decimal_parts : ℕ → ℤ → ℕ → Value
    decimal_parts p s val = mp.of_array (
        mp.of_integer (pos p)
        ∷ mp.of_integer s
        ∷ mp.of_integer (i64_of (val / pow_64))
        ∷ mp.of_integer (i64_of (val % pow_64))
        ∷ [])

    abbrev pub encode_integer :
        (Slots → Option (List ℤ)) → List ArrayRef → ℕ → ℕ → Result Value Value
    encode_integer downcast args row_ix col_ix =
        get_arrow_value downcast (casting_primitive col_ix) args row_ix col_ix >>= λ n.
        ok (mp.of_integer n)

    abbrev pub encode_f32 : List ArrayRef → ℕ → ℕ → Result Value Value
    encode_f32 args row_ix col_ix =
        get_arrow_value as_float32 (casting_primitive col_ix) args row_ix col_ix >>= λ n.
        ok (mp.of_f32 n)

    abbrev pub encode_f64 : List ArrayRef → ℕ → ℕ → Result Value Value
    encode_f64 args row_ix col_ix =
        get_arrow_value as_float64 (casting_primitive col_ix) args row_ix col_ix >>= λ n.
        ok (mp.of_f64 n)

    abbrev pub encode_string : List ArrayRef → ℕ → ℕ → Result Value Value
    encode_string args row_ix col_ix =
        get_arrow_value as_strings (casting_string col_ix) args row_ix col_ix >>= λ s.
        ok (mp.of_string s)

    unfoldable pub messagepack_encode_input_value :
        CreateFunctionDataType → List ArrayRef → ℕ → ℕ → Result Value Value
    unfolding get_arrow_value
    messagepack_encode_input_value smallint args row col = encode_integer as_int16 args row col
    messagepack_encode_input_value i32 args row col = encode_integer as_int32 args row col
    messagepack_encode_input_value int args row col = encode_integer as_int32 args row col
    messagepack_encode_input_value i64 args row col = encode_integer as_int64 args row col
    messagepack_encode_input_value bigint args row col = encode_integer as_int64 args row col
    messagepack_encode_input_value f32 args row col = encode_f32 args row col
    messagepack_encode_input_value float args row col = encode_f32 args row col
    messagepack_encode_input_value real args row col = encode_f32 args row col
    messagepack_encode_input_value f64 args row col = encode_f64 args row col
    messagepack_encode_input_value double args row col = encode_f64 args row col
    messagepack_encode_input_value text args row col = encode_string args row col
    messagepack_encode_input_value char args row col = encode_string args row col
    messagepack_encode_input_value varchar args row col = encode_string args row col
    messagepack_encode_input_value boolean args row col =
        get_arrow_value as_booleans (casting_boolean col) args row col >>= λ b. ok (mp.of_boolean b)
    messagepack_encode_input_value (decimal p s) args row col =
        get_arrow_value as_decimal128 (casting_primitive col) args row col >>= λ val.
        ok (decimal_parts p s val)
    messagepack_encode_input_value date args row col = encode_integer as_date32 args row col
    messagepack_encode_input_value timestamp args row col = encode_integer as_timestamp args row col

-- An argument is an array, or a scalar of which an array of some length can be made.
pub data ColumnarValue (Scalar : Type 0) : Type 0 where
  array : ArrayRef → ColumnarValue Scalar
  scalar : Scalar → ColumnarValue Scalar

abbrev pub value_len : {Scalar : Type 0} → ColumnarValue Scalar → ℕ
value_len (array a) = len a
value_len (scalar s) = 1

-- `max().unwrap_or(0)`
unfoldable pub inferred_length : {Scalar : Type 0} → List (ColumnarValue Scalar) → ℕ
inferred_length [] = 0
inferred_length (v ∷ vs) =
    let rest = inferred_length vs in if leb rest (value_len v) then value_len v else rest

module _ {Value Scalar : Type 0} (to_array_of_size : Scalar → ℕ → Given ArrayRef) where
  abbrev pub to_array : ℕ → ColumnarValue Scalar → Result Value ArrayRef
  to_array n (array a) = ok a
  to_array n (scalar s) = or_error (to_array_of_size s n) into_array

  unfoldable pub columnar_values_to_array :
      List (ColumnarValue Scalar) → Result Value (List ArrayRef)
  unfolding inferred_length
  columnar_values_to_array args = collect (to_array (inferred_length args)) args
