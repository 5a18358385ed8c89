-- ===== src/Wasm/Tests.antt =====
-- The theorems about WASM functions at small modules: a message is its bytes, and the module's
-- function gives its message back.
use seafowl.Prelude.{
  ℕ, zero, suc, ◌+◌, ◌<◌, ◌≤◌, ◌≡◌, refl, ap, sym, ◌∙◌, String, Bool, true, false, Bool-cases, inl,
  inr, Option, none, some, List, [], ◌∷◌, ◌++◌, length, map, take, ◌==◌, ==_iff, if◌then◌else◌,
  arith,
}
use mathlib.Core.Path.{subst}
use seafowl.Prelude.Integers.{ℤ, pos, negsuc}
use seafowl.Wasm.Types.{CreateFunctionDataType, int, decimal, int32, wasm, immutable, wasm_i32}
use seafowl.Wasm.Values.{
  int32_slots, ArrayRef, int32_array, decimal128_array, Given, given, broken, ok, collect,
  MessagePack, ◌>>=◌,
}
use seafowl.Wasm.Encode.{
  messagepack_encode_input_value, get_arrow_value, ColumnarValue, array, columnar_values_to_array,
  inferred_length,
}
use seafowl.Wasm.Decode.{messagepack_decode_results}
use seafowl.Wasm.Instance.{
  Bytes, Wasmtime, Instance, new_instance, read_udf_output, write_udf_input, call,
}
use seafowl.Wasm.Scalar.{
  row_params, call_rows, run_messagepack, messagepack_inner, PlainWasmtime, wasm_inner,
  load_function, wasm_val, results_to_array, make_function, make_scalar_function_from_wasm,
  create_udf_from_wasm,
}
use seafowl.Wasm.Protocol.{Holds, read_udf_output-write_udf_input}
use seafowl.Wasm.Calls.{rows, Implements, Serves}
use seafowl.Wasm.Refines.{Rowwise, messagepack_inner-Rowwise}
use seafowl.Wasm.Declared.{Declared, create_udf_from_wasm-Declared}
use seafowl.Wasm.RoundTrip.{Faithful, echoed, decode-encode}
use seafowl.Wasm.Cells.{Cells, put, memory, given_injective, memory-MemoryLaws}

-- A value is its bytes, and an array those of its elements.
abbrev concat : List Bytes → Bytes
concat [] = []
concat (b ∷ bs) = b ++ concat bs

abbrev of_integer : ℤ → Bytes
of_integer (pos n) = n ∷ []
of_integer (negsuc n) = n ∷ 0 ∷ []

abbrev as_i64 : Bytes → Option ℤ
as_i64 (n ∷ []) = some (pos n)
as_i64 (n ∷ z ∷ []) = some (negsuc n)
as_i64 bs = none

abbrev plain_bytes : MessagePack Bytes
plain_bytes = record {
  of_integer = of_integer;
  of_f32 = λ n. n ∷ [];
  of_f64 = λ n. n ∷ [];
  of_string = λ s. [];
  of_boolean = λ b. [];
  of_array = concat;
  as_i64 = as_i64;
  as_u64 = λ b. none;
  as_f32 = λ b. none;
  as_f64 = λ b. none;
  as_str = λ b. none;
  as_bool = λ b. none;
  as_array = λ b. none;
  serialize = λ b. given b;
  from_slice = λ b. given b;
}

plain_decodes :
    (v : Bytes) (b : List ℕ)
    → plain_bytes.serialize v ≡ given b
    → plain_bytes.from_slice b ≡ given v
plain_decodes v b e = sym e

abbrev echo : Instance Cells
echo = record {
  store = λ a. 0;
  alloc = λ s n. given (pos 1000, s);
  dealloc = λ s p n. given s;
  udf = λ s p. given (p, s);
  memory = memory;
}

abbrev runtime : Wasmtime (Unit {0}) Cells
runtime = record {
  add_to_linker = given tt;
  from_binary = λ b. given tt;
  instantiate = λ m. given (λ a. 0);
  get_func_1 = λ s name.
      if seafowl.Prelude.str_eq name "alloc"
      then given (λ s n. given (pos 1000, s))
      else given (λ s p. given (p, s));
  get_func_2 = λ s name. given (λ s p n. given s);
  get_memory = λ s name. some memory;
}

abbrev no_scalars : Unit {0} → ℕ → Given ArrayRef
no_scalars s n = broken "no scalars"

abbrev every_decimal : ℕ → ℤ → Bool
every_decimal p s = true

abbrev column : ArrayRef
column = int32_array (pos 5 ∷ negsuc 6 ∷ [])

pos_injective : {p q : ℕ} → pos p ≡ pos q → p ≡ q
pos_injective e = cc

echo-Implements : Implements plain_bytes concat echo
echo-Implements store store' p out params size holds e =
    let same = given_injective e in
    let at : p ≡ out = pos_injective (ap (λ x. x.0) same) in
    (
      size,
      subst (λ s. Holds plain_bytes memory s out (concat params) size) (ap (λ x. x.1) same)
          (subst (λ q. Holds plain_bytes memory store q (concat params) size) at holds),
    )

read_udf_output-write_udf_input_example :
    read_udf_output plain_bytes
      (record echo {
        store = put (put (λ a. 0) 1000 (2 ∷ 0 ∷ 0 ∷ 0 ∷ 0 ∷ 0 ∷ 0 ∷ 0 ∷ [])) 1004 (7 ∷ 8 ∷ []);
      })
      (pos 1000)
    ≡ ok (7 ∷ 8 ∷ [], pos 6)
unfolding write_udf_input ◌>>=◌
read_udf_output-write_udf_input_example =
    read_udf_output-write_udf_input plain_bytes plain_decodes echo memory-MemoryLaws (7 ∷ 8 ∷ [])
      (pos 1000) (pos 6)
      (record echo {
        store = put (put (λ a. 0) 1000 (2 ∷ 0 ∷ 0 ∷ 0 ∷ 0 ∷ 0 ∷ 0 ∷ 0 ∷ [])) 1004 (7 ∷ 8 ∷ []);
      })
      refl

made_echo :
    (self : Instance Cells)
    → new_instance {Value = Bytes} runtime [] "echo" ≡ ok self
    → Serves plain_bytes concat self
unfolding new_instance ◌>>=◌
made_echo self e =
    subst (Serves plain_bytes concat) (seafowl.Wasm.Inversion.ok_injective e)
      (memory-MemoryLaws, echo-Implements)

messagepack_inner-Rowwise_example :
    (length {A = ColumnarValue (Unit {0})} (array column ∷ []) ≡ length (int ∷ []))
    × ((arrays : List ArrayRef) × (columnar_values_to_array {Value = Bytes} no_scalars
            (array column ∷ [])
          ≡ ok arrays)
        × Rowwise no_scalars runtime plain_bytes every_decimal concat (int ∷ []) int arrays column)
unfolding messagepack_inner run_messagepack columnar_values_to_array inferred_length row_params
    call_rows call read_udf_output write_udf_input new_instance ◌>>=◌ messagepack_encode_input_value
    get_arrow_value messagepack_decode_results
messagepack_inner-Rowwise_example =
    messagepack_inner-Rowwise no_scalars runtime plain_bytes every_decimal concat plain_decodes []
      "echo" (int ∷ []) int made_echo (array column ∷ []) column refl

abbrev plain : PlainWasmtime (Unit {0}) (Unit {0})
plain = record {
  plain_from_binary = λ b. given tt;
  plain_instantiate = λ m. given tt;
  plain_get_func = λ s name.
      some (λ s params. elim params [ [] ↦ broken "no parameters" | v ∷ vs ↦ given (v, s) ]);
}

create_udf_from_wasm-Declared_example : Declared Bytes no_scalars int32 (array column ∷ []) column
unfolding create_udf_from_wasm make_function make_scalar_function_from_wasm wasm_inner load_function
    columnar_values_to_array inferred_length row_params call_rows wasm_val results_to_array
    get_arrow_value ◌>>=◌ seafowl.Wasm.Types.sql_type_to_arrow_type seafowl.Wasm.Types.get_wasm_type
create_udf_from_wasm-Declared_example =
    create_udf_from_wasm-Declared no_scalars runtime plain plain_bytes every_decimal wasm "same" []
      "same" (int ∷ []) int immutable
      (record {
        name = "same";
        input_types = int32 ∷ [];
        return_type = int32;
        volatility = immutable;
        function = wasm_inner no_scalars plain [] "same" (wasm_i32 ∷ []) wasm_i32;
      })
      refl (array column ∷ []) column refl

-- Values with a constructor for each kind; an array is built from its elements.
data TestValue : Type 0 where
  integer_value : ℤ → TestValue
  f32_value f64_value : ℕ → TestValue
  string_value : String → TestValue
  boolean_value : Bool → TestValue
  empty_value : TestValue
  cons_value : TestValue → TestValue → TestValue

abbrev test_of_array : List TestValue → TestValue
test_of_array [] = empty_value
test_of_array (v ∷ vs) = cons_value v (test_of_array vs)

abbrev add_first : TestValue → Option (List TestValue) → Option (List TestValue)
add_first v none = none
add_first v (some vs) = some (v ∷ vs)

abbrev test_as_array : TestValue → Option (List TestValue)
test_as_array empty_value = some []
test_as_array (cons_value v r) = add_first v (test_as_array r)
test_as_array v = none

abbrev tagged : MessagePack TestValue
tagged = record {
  of_integer = integer_value;
  of_f32 = f32_value;
  of_f64 = f64_value;
  of_string = string_value;
  of_boolean = boolean_value;
  of_array = test_of_array;
  as_i64 = λ v. elim v [ integer_value n ↦ some n | _ ↦ none ];
  as_u64 = λ v. elim v [ integer_value (pos n) ↦ some n | _ ↦ none ];
  as_f32 = λ v. elim v [ f32_value n ↦ some n | _ ↦ none ];
  as_f64 = λ v. elim v [ f64_value n ↦ some n | _ ↦ none ];
  as_str = λ v. elim v [ string_value s ↦ some s | _ ↦ none ];
  as_bool = λ v. elim v [ boolean_value b ↦ some b | _ ↦ none ];
  as_array = test_as_array;
  serialize = λ v. broken "";
  from_slice = λ b. broken "";
}

test_list : (vs : List TestValue) → test_as_array (test_of_array vs) ≡ some vs
test_list [] = refl
test_list (v ∷ vs) = rw (test_list vs) refl

tagged-Faithful : Faithful tagged
tagged-Faithful = record {
  integer = λ n h. refl;
  natural = λ n h. refl;
  single = λ n. refl;
  double_float = λ n. refl;
  string = λ s. refl;
  truth = λ b. refl;
  list = test_list;
}

-- 2 ^ 63 comes back as 2 ^ 63 - 2 ^ 64.
abbrev decimals : ArrayRef
decimals = decimal128_array 19 (pos 0) (5 ∷ 9223372036854775808 ∷ [])

decimal_lost :
    echoed decimals.slots
    ≡ decimal128_array 19 (pos 0) (5 ∷ 340282366920938463454151235394913435648 ∷ [])
decimal_lost = refl

-- A null that lies over the value 7 comes back as 7.
null_lost :
    (messagepack_encode_input_value tagged int
        (record { slots = int32_slots (pos 7 ∷ []); nulls = some (false ∷ []) } ∷ [])
        0
        0
      ≡ ok (tagged.of_integer (pos 7)))
    × (messagepack_decode_results tagged every_decimal int (tagged.of_integer (pos 7) ∷ [])
        ≡ ok (int32_array (pos 7 ∷ [])))
unfolding messagepack_encode_input_value get_arrow_value messagepack_decode_results ◌>>=◌
null_lost = (refl, refl)

decode-encode_example :
    (vs : List TestValue) × (collect
        (λ row. messagepack_encode_input_value tagged (decimal 19 (pos 0)) (decimals ∷ []) row 0)
        (rows 2 0)
      ≡ ok vs)
    × (messagepack_decode_results tagged every_decimal (decimal 19 (pos 0)) vs
        ≡ ok (echoed decimals.slots))
decode-encode_example =
    decode-encode tagged tagged-Faithful every_decimal (decimal 19 (pos 0)) decimals
      (omega arith, omega arith, refl, refl, refl, (omega arith, (omega arith, tt)))
