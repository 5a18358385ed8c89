-- ===== src/Wasm/Scalar.antt =====
-- The functions on columns that are made from WASM modules, and `create_udf_from_wasm`.
use seafowl.Prelude.{
  ℕ, zero, suc, String, Bool, Option, none, some, List, [], ◌∷◌, length, map, get_elem?, ◌==◌,
  if◌then◌else◌,
}
use seafowl.Prelude.Integers.{ℤ}
use seafowl.Wasm.Types.{
  CreateFunctionDataType, CreateFunctionVolatility, CreateFunctionLanguage, wasm, wasm_message_pack,
  DataType, ValType, wasm_i32, wasm_i64, wasm_f32, wasm_f64, sql_type_to_arrow_type, get_wasm_type,
}
use seafowl.Wasm.Values.{
  ArrayRef, int32_array, int64_array, float32_array, float64_array, len, UdfError,
  casting_primitive, initializing, invoking, wrong_arguments, loading, instantiating, no_function,
  executing, unsupported_type, Given, Result, ok, err, panic, ◌>>=◌, or_error, or_missing, unwrap,
  require, collect, MessagePack,
}
use seafowl.Wasm.Encode.{
  as_int32, as_int64, as_float32, as_float64, get_arrow_value, messagepack_encode_input_value,
  ColumnarValue, columnar_values_to_array,
}
use seafowl.Wasm.Decode.{messagepack_decode_results}
use seafowl.Wasm.Instance.{Bytes, Wasmtime, Instance, new_instance, call}

-- A value of WASM; a float is its bits.
pub data Val : Type 0 where
  val_i32 val_i64 : ℤ → Val
  val_f32 val_f64 : ℕ → Val

abbrev pub unwrap_i32 : Val → Option ℤ
unwrap_i32 (val_i32 n) = some n
unwrap_i32 _ = none

abbrev pub unwrap_i64 : Val → Option ℤ
unwrap_i64 (val_i64 n) = some n
unwrap_i64 _ = none

abbrev pub unwrap_f32 : Val → Option ℕ
unwrap_f32 (val_f32 n) = some n
unwrap_f32 _ = none

abbrev pub unwrap_f64 : Val → Option ℕ
unwrap_f64 (val_f64 n) = some n
unwrap_f64 _ = none

-- wasmtime without WASI: a function is called on values and gives one.
pub record PlainWasmtime (Module Store : Type 0) : Type 0 where
  pub plain_from_binary : Bytes → Given Module
  pub plain_instantiate : Module → Given Store
  pub plain_get_func : Store → String → Option (Store → List Val → Given (Val × Store))

-- `first` of arrays.
abbrev pub first : {A : Type 0} → List A → Option A
first [] = none
first (x ∷ xs) = some x

abbrev pub map_err :
    {Value A : Type 0} → (UdfError Value → UdfError Value) → Result Value A → Result Value A
map_err f (ok a) = ok a
map_err f (err e) = err (f e)
map_err f panic = panic

-- The parameters of a row, for the columns from `col_ix` on, of which `n` are left.
unfoldable pub row_params :
    {Value T P : Type 0} → (T → ℕ → Result Value P) → List T → ℕ → ℕ → Result Value (List P)
row_params param input_types zero col_ix = ok []
row_params param input_types (suc n) col_ix = unwrap (get_elem? input_types col_ix) >>= λ t.
    param t col_ix >>= λ v. row_params param input_types n (suc col_ix) >>= λ vs. ok (v ∷ vs)

-- The calls for the rows from `row_ix` on, of which `n` are left, with what they change threaded.
unfoldable pub call_rows :
    {Value S P R : Type 0}
    → (ℕ → Result Value (List P))
    → (S → List P → Result Value (R × S))
    → S
    → ℕ
    → ℕ
    → Result Value (List R)
call_rows params call s zero row_ix = ok []
call_rows params call s (suc n) row_ix = params row_ix >>= λ ps.
    call s ps >>= λ (r, s). call_rows params call s n (suc row_ix) >>= λ rs. ok (r ∷ rs)

abbrev pub Implementation : Type 0 → Type 0 → Type 0
Implementation Value Scalar = List (ColumnarValue Scalar) → Result Value ArrayRef

pub record ScalarUdf (Value Scalar : Type 0) : Type 0 where
  pub name : String
  pub input_types : List DataType
  pub return_type : DataType
  pub volatility : CreateFunctionVolatility
  pub function : Implementation Value Scalar

module _ {Value Store : Type 0} (mp : MessagePack Value) (valid_decimal : ℕ → ℤ → Bool) where
  -- The rows of the columns, and the array of the results.
  unfoldable pub run_messagepack :
      String
      → List CreateFunctionDataType
      → CreateFunctionDataType
      → Instance Store
      → List ArrayRef
      → Result Value ArrayRef
  unfolding row_params call_rows call messagepack_encode_input_value messagepack_decode_results
  run_messagepack function_name input_types return_type instance_ args =
      unwrap (first args) >>= λ array.
      call_rows
        (λ row_ix.
          row_params (λ t col_ix. messagepack_encode_input_value mp t args row_ix col_ix)
            input_types (length args) 0)
        (λ self params. map_err (invoking function_name) (call mp self params)) instance_
        (len array) 0
      >>= messagepack_decode_results mp valid_decimal return_type

module _ {Value : Type 0} where
  unfoldable pub wasm_val : ValType → List ArrayRef → ℕ → ℕ → Result Value Val
  unfolding get_arrow_value
  wasm_val wasm_i32 args row col =
      get_arrow_value as_int32 (casting_primitive col) args row col >>= λ n. ok (val_i32 n)
  wasm_val wasm_i64 args row col =
      get_arrow_value as_int64 (casting_primitive col) args row col >>= λ n. ok (val_i64 n)
  wasm_val wasm_f32 args row col =
      get_arrow_value as_float32 (casting_primitive col) args row col >>= λ n. ok (val_f32 n)
  wasm_val wasm_f64 args row col =
      get_arrow_value as_float64 (casting_primitive col) args row col >>= λ n. ok (val_f64 n)

  -- The results as an array; it is a panic if one has another type.
  unfoldable pub results_to_array : ValType → List Val → Result Value ArrayRef
  results_to_array wasm_i32 results =
      collect (λ r. unwrap (unwrap_i32 r)) results >>= λ xs. ok (int32_array xs)
  results_to_array wasm_i64 results =
      collect (λ r. unwrap (unwrap_i64 r)) results >>= λ xs. ok (int64_array xs)
  results_to_array wasm_f32 results =
      collect (λ r. unwrap (unwrap_f32 r)) results >>= λ xs. ok (float32_array xs)
  results_to_array wasm_f64 results =
      collect (λ r. unwrap (unwrap_f64 r)) results >>= λ xs. ok (float64_array xs)

  module _ {Module Store : Type 0} (plain : PlainWasmtime Module Store) where
    -- A module that is loaded, and its function.
    unfoldable pub load_function :
        Bytes → String → Result Value (Store × (Store → List Val → Given (Val × Store)))
    load_function module_bytes function_name =
        or_error (plain.plain_from_binary module_bytes) loading >>= λ module_.
        or_error (plain.plain_instantiate module_) instantiating >>= λ store.
        or_missing (plain.plain_get_func store function_name) (no_function function_name)
        >>= λ func. ok (store, func)

module _ {Value Scalar : Type 0} (to_array_of_size : Scalar → ℕ → Given ArrayRef) where
  module _ {Module Store : Type 0} (wasmtime : Wasmtime Module Store) (mp : MessagePack Value)
      (valid_decimal : ℕ → ℤ → Bool) where
    unfoldable pub messagepack_inner :
        Bytes
        → String
        → List CreateFunctionDataType
        → CreateFunctionDataType
        → Implementation Value Scalar
    unfolding run_messagepack columnar_values_to_array new_instance
    messagepack_inner module_bytes function_name input_types return_type args =
        map_err (initializing function_name) (new_instance wasmtime module_bytes function_name)
        >>= λ instance_.
            require (length args == length input_types)
              (wrong_arguments function_name (length input_types) (length args))
            >>= λ _.
                columnar_values_to_array to_array_of_size args
                >>= run_messagepack mp valid_decimal function_name input_types return_type instance_

    unfoldable pub make_scalar_function_wasm_messagepack :
        Bytes
        → String
        → List CreateFunctionDataType
        → CreateFunctionDataType
        → Result Value (Implementation Value Scalar)
    unfolding messagepack_inner new_instance
    make_scalar_function_wasm_messagepack module_bytes function_name input_types return_type =
        map_err (initializing function_name) (new_instance wasmtime module_bytes function_name)
        >>= λ _. ok (messagepack_inner module_bytes function_name input_types return_type)

  module _ {Module Store : Type 0} (plain : PlainWasmtime Module Store) where
    unfoldable pub wasm_inner :
        Bytes → String → List ValType → ValType → Implementation Value Scalar
    unfolding load_function columnar_values_to_array row_params call_rows wasm_val results_to_array
    wasm_inner module_bytes function_name input_types return_type args =
        load_function plain module_bytes function_name >>= λ (store, func).
        (if length args == length input_types then ok tt else panic) >>= λ _.
        columnar_values_to_array to_array_of_size args >>= λ arrays.
        unwrap (first arrays) >>= λ array.
        call_rows
          (λ row_ix.
            row_params (λ t col_ix. wasm_val t arrays row_ix col_ix) input_types (length arrays) 0)
          (λ s params. or_error (func s params) executing) store (len array) 0
        >>= results_to_array return_type

    unfoldable pub make_scalar_function_from_wasm :
        Bytes → String → List ValType → ValType → Result Value (Implementation Value Scalar)
    unfolding wasm_inner load_function
    make_scalar_function_from_wasm module_bytes function_name input_types return_type =
        load_function plain module_bytes function_name >>= λ _.
        ok (wasm_inner module_bytes function_name input_types return_type)

  module _ {Module Store PlainModule PlainStore : Type 0} (wasmtime : Wasmtime Module Store)
      (plain : PlainWasmtime PlainModule PlainStore) (mp : MessagePack Value)
      (valid_decimal : ℕ → ℤ → Bool) where
    -- The implementation by the language; a type of an argument that WASM lacks is a panic, and a
    -- type of a result that it lacks an error.
    unfoldable pub make_function :
        CreateFunctionLanguage
        → Bytes
        → String
        → List CreateFunctionDataType
        → CreateFunctionDataType
        → Result Value (Implementation Value Scalar)
    unfolding make_scalar_function_from_wasm make_scalar_function_wasm_messagepack get_wasm_type
    make_function wasm module_bytes function_name input_types return_type =
        collect (λ t. unwrap (get_wasm_type t)) input_types >>= λ converted_input_types.
        or_missing (get_wasm_type return_type) (unsupported_type return_type)
        >>= make_scalar_function_from_wasm plain module_bytes function_name converted_input_types
    make_function wasm_message_pack module_bytes function_name input_types return_type =
        make_scalar_function_wasm_messagepack wasmtime mp valid_decimal module_bytes function_name
          input_types return_type

    unfoldable pub create_udf_from_wasm :
        CreateFunctionLanguage
        → String
        → Bytes
        → String
        → List CreateFunctionDataType
        → CreateFunctionDataType
        → CreateFunctionVolatility
        → Result Value (ScalarUdf Value Scalar)
    unfolding make_function sql_type_to_arrow_type
    create_udf_from_wasm language name module_bytes function_name input_types return_type
          volatility =
        make_function language module_bytes function_name input_types return_type >>= λ function.
        ok (record {
          name = name;
          input_types = map sql_type_to_arrow_type input_types;
          return_type = sql_type_to_arrow_type return_type;
          volatility = volatility;
          function = function;
        })
