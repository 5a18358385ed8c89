-- ===== src/Wasm/Declared.antt =====
-- What a function that is created gives: an array of the declared type, with a slot for each row.
use seafowl.Prelude.{ℕ, ◌≡◌, ◌∙◌, String, Bool, some, List}
use mathlib.Core.Path.{subst}
use seafowl.Prelude.Integers.{ℤ}
use seafowl.Wasm.Types.{
  CreateFunctionDataType, DataType, CreateFunctionLanguage, CreateFunctionVolatility, wasm,
  wasm_message_pack, ValType, sql_type_to_arrow_type,
}
use seafowl.Wasm.Values.{ArrayRef, len, unsupported_type, Given, ok, MessagePack}
use seafowl.Wasm.Encode.{ColumnarValue, columnar_values_to_array}
use seafowl.Wasm.Instance.{Bytes, Wasmtime}
use seafowl.Wasm.Scalar.{
  first, run_messagepack, messagepack_inner, make_scalar_function_wasm_messagepack, wasm_inner,
  make_scalar_function_from_wasm, make_function, PlainWasmtime, ScalarUdf, Implementation,
  create_udf_from_wasm,
}
use seafowl.Wasm.Inversion.{bind_ok, unwrap_ok, or_missing_ok, ok_injective}
use seafowl.Wasm.Typed.{
  Typed, arrow_of, get_wasm_type-arrow, messagepack_decode_results-Typed, results_to_array-Typed,
  call_rows-length,
}

-- The array has a type, and as many slots as the first argument has as an array.
abbrev pub Declared :
    (Value : Type 0)
    → {Scalar : Type 0} → (Scalar → ℕ → Given ArrayRef)
    → DataType
    → List (ColumnarValue Scalar)
    → ArrayRef
    → Type 0
Declared Value to_array_of_size t args result =
    (arrays : List ArrayRef) × (columnar_values_to_array {Value = Value} to_array_of_size args
      ≡ ok arrays)
    × ((array : ArrayRef) × (first arrays ≡ some array) × Typed (len array) t result)

module _ {Value Scalar : Type 0} (to_array_of_size : Scalar → ℕ → Given ArrayRef) where
  abbrev Gives : DataType → Implementation Value Scalar → Type 0
  Gives t function =
      (args : List (ColumnarValue Scalar)) (result : ArrayRef)
      → function args ≡ ok result
      → Declared Value to_array_of_size t args result

  wasm_inner-Gives :
      {Module Store : Type 0} (plain : PlainWasmtime Module Store) (module_bytes : Bytes)
      (name : String) (types : List ValType) (w : ValType)
      → Gives (arrow_of w) (wasm_inner to_array_of_size plain module_bytes name types w)
  unfolding wasm_inner
  wasm_inner-Gives plain module_bytes name types w args result e =
      let (_, _, e1) = bind_ok e in
      let (_, _, e2) = bind_ok e1 in
      let (arrays, aligned, e3) = bind_ok e2 in
      let (array, at, e4) = bind_ok e3 in
      let (vs, called, e5) = bind_ok e4 in
      let (typed, n) = results_to_array-Typed w vs result e5 in
      (
        arrays,
        aligned,
        (array, unwrap_ok at, (typed, n ∙ call_rows-length _ _ (len array) 0 _ vs called)),
      )

  module _ {Module Store PlainModule PlainStore : Type 0} (wasmtime : Wasmtime Module Store)
      (plain : PlainWasmtime PlainModule PlainStore) (mp : MessagePack Value)
      (valid_decimal : ℕ → ℤ → Bool) where
    messagepack_inner-Gives :
        (module_bytes : Bytes) (name : String) (types : List CreateFunctionDataType)
        (t : CreateFunctionDataType)
        → Gives
            (sql_type_to_arrow_type t)
            (messagepack_inner to_array_of_size wasmtime mp valid_decimal module_bytes name types t)
    unfolding messagepack_inner run_messagepack
    messagepack_inner-Gives module_bytes name types t args result e =
        let (self, _, e1) = bind_ok e in
        let (_, _, e2) = bind_ok e1 in
        let (arrays, aligned, e3) = bind_ok e2 in
        let (array, at, e4) = bind_ok e3 in
        let (vs, called, e5) = bind_ok e4 in
        let (typed, n) = messagepack_decode_results-Typed mp valid_decimal t vs result e5 in
        (
          arrays,
          aligned,
          (array, unwrap_ok at, (typed, n ∙ call_rows-length _ _ (len array) 0 self vs called)),
        )

    make_function-Gives :
        (language : CreateFunctionLanguage) (module_bytes : Bytes) (name : String)
        (types : List CreateFunctionDataType) (t : CreateFunctionDataType)
        (function : Implementation Value Scalar)
        → make_function to_array_of_size wasmtime plain mp valid_decimal language module_bytes name
            types t
          ≡ ok function
        → Gives (sql_type_to_arrow_type t) function
    unfolding make_function make_scalar_function_from_wasm make_scalar_function_wasm_messagepack
    make_function-Gives wasm module_bytes name types t function e =
        let (converted, _, e1) = bind_ok e in
        let (w, is, e2) = bind_ok e1 in
        let (_, _, e3) = bind_ok e2 in
        subst (Gives (sql_type_to_arrow_type t)) (ok_injective e3) (
          subst (λ d. Gives d (wasm_inner to_array_of_size plain module_bytes name converted w))
            (get_wasm_type-arrow t w (or_missing_ok (unsupported_type t) is))
            (wasm_inner-Gives plain module_bytes name converted w))
    make_function-Gives wasm_message_pack module_bytes name types t function e =
        let (_, _, e1) = bind_ok e in
        subst (Gives (sql_type_to_arrow_type t)) (ok_injective e1)
          (messagepack_inner-Gives module_bytes name types t)

    -- A function that is created, in either language, gives only arrays of the type that it declares for
    -- its results, with a slot for each row of the arguments.
    pub create_udf_from_wasm-Declared :
        (language : CreateFunctionLanguage) (name : String) (module_bytes : Bytes) (entry : String)
        (types : List CreateFunctionDataType) (t : CreateFunctionDataType)
        (volatility : CreateFunctionVolatility) (udf : ScalarUdf Value Scalar)
        → create_udf_from_wasm to_array_of_size wasmtime plain mp valid_decimal language name
            module_bytes entry types t volatility
          ≡ ok udf
        → (args : List (ColumnarValue Scalar)) (result : ArrayRef) → udf.function args ≡ ok result
        → Declared Value to_array_of_size udf.return_type args result
    unfolding create_udf_from_wasm
    create_udf_from_wasm-Declared language name module_bytes entry types t volatility udf e args
          result r =
        let (function, made, e1) = bind_ok e in
        subst (λ u. Gives u.return_type u.function) (ok_injective e1)
          (make_function-Gives language module_bytes entry types t function made) args result r
