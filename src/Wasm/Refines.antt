-- ===== src/Wasm/Refines.antt =====
-- A MessagePack function on columns, as a whole: its module's function on each row.
use seafowl.Prelude.{ℕ, ◌≡◌, refl, String, Bool, some, List, length, map, ◌==◌, ==_iff}
use seafowl.Prelude.Integers.{ℤ}
use seafowl.Wasm.Types.{CreateFunctionDataType}
use seafowl.Wasm.Values.{
  ArrayRef, len, UdfError, initializing, invoking, wrong_arguments, Given, given, Result, ok,
  require, collect, MessagePack,
}
use seafowl.Wasm.Encode.{messagepack_encode_input_value, ColumnarValue, columnar_values_to_array}
use seafowl.Wasm.Decode.{messagepack_decode_results}
use seafowl.Wasm.Instance.{Bytes, Wasmtime, Instance, new_instance, call}
use seafowl.Wasm.Scalar.{first, map_err, row_params, run_messagepack, messagepack_inner}
use seafowl.Wasm.Inversion.{bind_ok, unwrap_ok, map_err_ok}
use seafowl.Wasm.Calls.{rows, Serves, call-Serves, call_rows_ok}

module _ {Value Scalar Module Store : Type 0} (to_array_of_size : Scalar → ℕ → Given ArrayRef)
    (wasmtime : Wasmtime Module Store) (mp : MessagePack Value) (valid_decimal : ℕ → ℤ → Bool)
    (f : List Value → Value) where
  -- The parameters of a row.
  abbrev pub params_of : List CreateFunctionDataType → List ArrayRef → ℕ → Result Value (List Value)
  params_of input_types arrays row_ix =
      row_params (λ t col_ix. messagepack_encode_input_value mp t arrays row_ix col_ix) input_types
        (length arrays) 0

  -- The result is that of `f` on the parameters of each row, in the order of the rows, decoded.
  abbrev pub Rowwise :
      List CreateFunctionDataType → CreateFunctionDataType → List ArrayRef → ArrayRef → Type 0
  Rowwise input_types return_type arrays result =
      (array : ArrayRef) × (first arrays ≡ some array)
      × ((pss : List (List Value)) × (collect (params_of input_types arrays) (rows (len array) 0)
            ≡ ok pss)
          × (messagepack_decode_results mp valid_decimal return_type (map f pss) ≡ ok result))

  require_ok : (b : Bool) (e : UdfError Value) (u : Unit {0}) → require b e ≡ ok u → b ≡ Bool.true
  require_ok Bool.true e u h = refl
  require_ok Bool.false e u h = absurd cc

  module _
      (decodes : (v : Value) (b : List ℕ)
        → mp.serialize v ≡ given b
        → mp.from_slice b ≡ given v) where
    run_messagepack_lem :
        (name : String) (input_types : List CreateFunctionDataType)
        (return_type : CreateFunctionDataType) (self : Instance Store) (arrays : List ArrayRef)
        (result : ArrayRef)
        → Serves mp f self
        → run_messagepack mp valid_decimal name input_types return_type self arrays ≡ ok result
        → Rowwise input_types return_type arrays result
    unfolding run_messagepack
    run_messagepack_lem name input_types return_type self arrays result serves e =
        let (array, at, e1) = bind_ok e in
        let (rs, called, decoded) = bind_ok e1 in
        let (pss, all, same) =
          call_rows_ok (params_of input_types arrays)
            (λ self params. map_err (invoking name) (call mp self params)) f (Serves mp f)
            (λ s s' ps r inv h.
              call-Serves mp f decodes s s' ps r inv (map_err_ok (invoking name) h))
            (len array) 0 self rs serves called in
        (array, unwrap_ok at, (pss, all, rw⁻¹ same decoded))

    -- If the module's function computes `f` on messages, in a memory that keeps what is written, and the
    -- function on columns answers, then there was an argument for each type, and the answer is `f` on
    -- the parameters of each row, in the order of the rows, decoded.
    pub messagepack_inner-Rowwise :
        (module_bytes : Bytes) (name : String) (input_types : List CreateFunctionDataType)
        (return_type : CreateFunctionDataType)
        → ((self : Instance Store)
            → new_instance {Value = Value} wasmtime module_bytes name ≡ ok self
            → Serves mp f self)
        → (args : List (ColumnarValue Scalar)) (result : ArrayRef)
        → messagepack_inner to_array_of_size wasmtime mp valid_decimal module_bytes name input_types
            return_type args
          ≡ ok result
        → (length args ≡ length input_types)
          × ((arrays : List ArrayRef) × (columnar_values_to_array {Value = Value} to_array_of_size
                  args
                ≡ ok arrays)
              × Rowwise input_types return_type arrays result)
    unfolding messagepack_inner
    messagepack_inner-Rowwise module_bytes name input_types return_type serves args result e =
        let (self, made, e1) = bind_ok e in
        let (u, enough, e2) = bind_ok e1 in
        let (arrays, aligned, e3) = bind_ok e2 in
        (
          (==_iff (length args) (length input_types)).0 (
              require_ok (length args == length input_types)
                (wrong_arguments name (length input_types) (length args)) u enough),
          (
            arrays,
            aligned,
            run_messagepack_lem name input_types return_type self arrays result
                (serves self (map_err_ok (initializing name) made)) e3,
          ),
        )
