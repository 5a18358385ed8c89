-- ===== src/Wasm/Decode.antt =====
-- `messagepack_decode_results`.
use seafowl.Prelude.{
  ℕ, ◌+◌, ◌*◌, ◌%◌, String, Bool, false, List, [], ◌∷◌, length, ltb, ◌==◌, if◌then◌else◌,
}
use seafowl.Prelude.Integers.{ℤ, pos, negsuc, fits, pow_64, pow_128, to_i128}
use seafowl.Wasm.Types.{
  CreateFunctionDataType, i32, i64, f32, f64, smallint, int, bigint, char, varchar, text, decimal,
  float, real, double, boolean, date, timestamp,
}
use seafowl.Wasm.Values.{
  ArrayRef, int16_array, int32_array, int64_array, date32_array, timestamp_array, float32_array,
  float64_array, string_array, boolean_array, decimal128_array, UdfError, expected_i64,
  expected_string, expected_f64, expected_f32, expected_array, converting_to_i16, converting_to_i32,
  converting_to_i32_date, expected_elements, precision_no_integer, scale_no_integer,
  high_no_integer, low_no_integer, converting_precision, converting_scale, wrong_precision,
  wrong_scale, setting_precision_scale, Result, ok, err, ◌>>=◌, or_missing, require, collect,
  MessagePack,
}

-- `s_i8 == *s`
abbrev pub same_scale : ℤ → ℕ → Bool
same_scale (pos m) n = m == n
same_scale (negsuc m) n = false

-- The bits of `(low as i128) + ((high as i128) << 64)`; the sum wraps, as in a build for release.
abbrev pub join_halves : ℤ → ℤ → ℕ
join_halves high low = (to_i128 low + to_i128 high * pow_64) % pow_128

module _ {Value : Type 0} (mp : MessagePack Value) where
  abbrev pub decode_i64 : Value → Result Value ℤ
  decode_i64 v = or_missing (mp.as_i64 v) (expected_i64 v)

  -- `try_from` of an i64.
  abbrev pub decode_narrow : ℕ → (ℤ → UdfError Value) → Value → Result Value ℤ
  decode_narrow limit error v = decode_i64 v >>= λ n. if fits limit n then ok n else err (error n)

  abbrev pub check_precision : ℕ → Value → Result Value (Unit {0})
  check_precision p v = or_missing (mp.as_u64 v) (precision_no_integer v) >>= λ n.
      require (ltb n 256) (converting_precision n) >>= λ _. require (n == p) (wrong_precision n)

  abbrev pub check_scale : ℤ → Value → Result Value (Unit {0})
  check_scale s v = or_missing (mp.as_u64 v) (scale_no_integer v) >>= λ n.
      require (ltb n 128) (converting_scale n) >>= λ _. require (same_scale s n) (wrong_scale n)

  -- The four elements of a decimal.
  abbrev pub decode_parts : ℕ → ℤ → List Value → Result Value ℕ
  decode_parts p s (a ∷ b ∷ c ∷ d ∷ []) = check_precision p a >>= λ _. check_scale s b >>= λ _.
      or_missing (mp.as_i64 c) (high_no_integer c) >>= λ high.
      or_missing (mp.as_i64 d) (low_no_integer d) >>= λ low. ok (join_halves high low)
  decode_parts p s vs = err (expected_elements (length vs))

  unfoldable pub decode_decimal : ℕ → ℤ → Value → Result Value ℕ
  decode_decimal p s v = or_missing (mp.as_array v) (expected_array v) >>= decode_parts p s

  abbrev pub decode_string : Value → Result Value String
  decode_string v = or_missing (mp.as_str v) (expected_string v)

  -- Arrow checks the precision and the scale of an array with `valid_decimal`.
  module _ (valid_decimal : ℕ → ℤ → Bool) where
    abbrev pub decode_f32s : List Value → Result Value ArrayRef
    decode_f32s vs =
        collect (λ v. or_missing (mp.as_f32 v) (expected_f32 v)) vs >>= λ xs. ok (float32_array xs)

    abbrev pub decode_f64s : List Value → Result Value ArrayRef
    decode_f64s vs =
        collect (λ v. or_missing (mp.as_f64 v) (expected_f64 v)) vs >>= λ xs. ok (float64_array xs)

    abbrev pub decode_i32s : List Value → Result Value ArrayRef
    decode_i32s vs =
        collect (decode_narrow 2147483648 converting_to_i32) vs >>= λ xs. ok (int32_array xs)

    abbrev pub decode_i64s : List Value → Result Value ArrayRef
    decode_i64s vs = collect decode_i64 vs >>= λ xs. ok (int64_array xs)

    abbrev pub decode_strings : List Value → Result Value ArrayRef
    decode_strings vs = collect decode_string vs >>= λ xs. ok (string_array xs)

    unfoldable pub messagepack_decode_results :
        CreateFunctionDataType → List Value → Result Value ArrayRef
    unfolding decode_decimal
    messagepack_decode_results smallint vs =
        collect (decode_narrow 32768 converting_to_i16) vs >>= λ xs. ok (int16_array xs)
    messagepack_decode_results i32 vs = decode_i32s vs
    messagepack_decode_results int vs = decode_i32s vs
    messagepack_decode_results i64 vs = decode_i64s vs
    messagepack_decode_results bigint vs = decode_i64s vs
    messagepack_decode_results char vs = decode_strings vs
    messagepack_decode_results varchar vs = decode_strings vs
    messagepack_decode_results text vs = decode_strings vs
    messagepack_decode_results date vs =
        collect (decode_narrow 2147483648 converting_to_i32_date) vs >>= λ xs. ok (date32_array xs)
    messagepack_decode_results timestamp vs =
        collect decode_i64 vs >>= λ xs. ok (timestamp_array xs)
    messagepack_decode_results boolean vs =
        collect (λ v. or_missing (mp.as_bool v) (expected_string v)) vs >>= λ xs.
        ok (boolean_array xs)
    messagepack_decode_results f64 vs = decode_f64s vs
    messagepack_decode_results double vs = decode_f64s vs
    messagepack_decode_results f32 vs = decode_f32s vs
    messagepack_decode_results real vs = decode_f32s vs
    messagepack_decode_results float vs = decode_f32s vs
    messagepack_decode_results (decimal p s) vs = collect (decode_decimal p s) vs >>= λ xs.
        require (valid_decimal p s) (setting_precision_scale p s) >>= λ _.
        ok (decimal128_array p s xs)
