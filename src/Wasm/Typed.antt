-- ===== src/Wasm/Typed.antt =====
-- The array that a function gives has the type that is declared for its results.
use seafowl.Prelude.{ℕ, zero, suc, ◌≡◌, refl, ap, sym, ◌∙◌, Bool, some, List, [], ◌∷◌, length}
use mathlib.Core.Path.{subst}
use seafowl.Prelude.Integers.{ℤ}
use seafowl.Wasm.Types.{
  CreateFunctionDataType, i32, i64, f32, f64, smallint, int, bigint, char, varchar, text, decimal,
  float, real, double, boolean, date, timestamp, DataType, int16, int32, int64, float32, float64,
  utf8, decimal128, bool, date32, timestamp_ns, ValType, wasm_i32, wasm_i64, wasm_f32, wasm_f64,
  sql_type_to_arrow_type, get_wasm_type,
}
use seafowl.Wasm.Values.{
  ArrayRef, int16_array, int32_array, int64_array, date32_array, timestamp_array, float32_array,
  float64_array, string_array, boolean_array, len, data_type, Result, ok, ◌>>=◌, collect,
  MessagePack,
}
use seafowl.Wasm.Decode.{decode_decimal, messagepack_decode_results}
use seafowl.Wasm.Scalar.{results_to_array, Val, call_rows}
use seafowl.Wasm.Inversion.{bind_ok, ok_injective}

abbrev pub Typed : ℕ → DataType → ArrayRef → Type 0
Typed n t a = (data_type a ≡ t) × (len a ≡ n)

some_injective : {A : Type 0} {a b : A} → some a ≡ some b → a ≡ b
some_injective e = cc

abbrev pub arrow_of : ValType → DataType
arrow_of wasm_i32 = int32
arrow_of wasm_i64 = int64
arrow_of wasm_f32 = float32
arrow_of wasm_f64 = float64

-- A type that WASM has is the same type of Arrow.
pub get_wasm_type-arrow :
    (t : CreateFunctionDataType) (w : ValType)
    → get_wasm_type t ≡ some w
    → arrow_of w ≡ sql_type_to_arrow_type t
unfolding get_wasm_type sql_type_to_arrow_type
get_wasm_type-arrow i32 w e = ap arrow_of (sym (some_injective e))
get_wasm_type-arrow i64 w e = ap arrow_of (sym (some_injective e))
get_wasm_type-arrow f32 w e = ap arrow_of (sym (some_injective e))
get_wasm_type-arrow f64 w e = ap arrow_of (sym (some_injective e))
get_wasm_type-arrow int w e = ap arrow_of (sym (some_injective e))
get_wasm_type-arrow bigint w e = ap arrow_of (sym (some_injective e))
get_wasm_type-arrow float w e = ap arrow_of (sym (some_injective e))
get_wasm_type-arrow real w e = ap arrow_of (sym (some_injective e))
get_wasm_type-arrow double w e = ap arrow_of (sym (some_injective e))
get_wasm_type-arrow smallint w e = absurd cc
get_wasm_type-arrow char w e = absurd cc
get_wasm_type-arrow varchar w e = absurd cc
get_wasm_type-arrow text w e = absurd cc
get_wasm_type-arrow (decimal p s) w e = absurd cc
get_wasm_type-arrow boolean w e = absurd cc
get_wasm_type-arrow date w e = absurd cc
get_wasm_type-arrow timestamp w e = absurd cc

module _ {Value : Type 0} where
  collect-length :
      {A B : Type 0} (f : A → Result Value B) (xs : List A) (ys : List B)
      → collect f xs ≡ ok ys
      → length ys ≡ length xs
  collect-length f [] ys e = ap length (sym (ok_injective e))
  collect-length f (x ∷ xs) ys e =
      let (b, _, e1) = bind_ok e in
      let (bs, rest, e2) = bind_ok e1 in
      ap length (sym (ok_injective e2)) ∙ ap suc (collect-length f xs bs rest)

  built :
      {A B : Type 0} (t : DataType) (make : List B → ArrayRef) (f : A → Result Value B)
      (xs : List A) (a : ArrayRef)
      → ((ys : List B) → Typed (length ys) t (make ys))
      → collect f xs >>= (λ ys. ok (make ys)) ≡ ok a
      → Typed (length xs) t a
  built t make f xs a typed e =
      let (ys, all, e1) = bind_ok e in
      subst (Typed (length xs) t) (ok_injective e1)
        ((typed ys).0, (typed ys).1 ∙ collect-length f xs ys all)

  module _ (mp : MessagePack Value) (valid_decimal : ℕ → ℤ → Bool) where
    pub messagepack_decode_results-Typed :
        (t : CreateFunctionDataType) (vs : List Value) (a : ArrayRef)
        → messagepack_decode_results mp valid_decimal t vs ≡ ok a
        → Typed (length vs) (sql_type_to_arrow_type t) a
    unfolding messagepack_decode_results sql_type_to_arrow_type
    messagepack_decode_results-Typed smallint vs a e =
        built int16 int16_array _ vs a (λ ys. (refl, refl)) e
    messagepack_decode_results-Typed i32 vs a e =
        built int32 int32_array _ vs a (λ ys. (refl, refl)) e
    messagepack_decode_results-Typed int vs a e =
        built int32 int32_array _ vs a (λ ys. (refl, refl)) e
    messagepack_decode_results-Typed i64 vs a e =
        built int64 int64_array _ vs a (λ ys. (refl, refl)) e
    messagepack_decode_results-Typed bigint vs a e =
        built int64 int64_array _ vs a (λ ys. (refl, refl)) e
    messagepack_decode_results-Typed char vs a e =
        built utf8 string_array _ vs a (λ ys. (refl, refl)) e
    messagepack_decode_results-Typed varchar vs a e =
        built utf8 string_array _ vs a (λ ys. (refl, refl)) e
    messagepack_decode_results-Typed text vs a e =
        built utf8 string_array _ vs a (λ ys. (refl, refl)) e
    messagepack_decode_results-Typed date vs a e =
        built date32 date32_array _ vs a (λ ys. (refl, refl)) e
    messagepack_decode_results-Typed timestamp vs a e =
        built timestamp_ns timestamp_array _ vs a (λ ys. (refl, refl)) e
    messagepack_decode_results-Typed boolean vs a e =
        built bool boolean_array _ vs a (λ ys. (refl, refl)) e
    messagepack_decode_results-Typed f64 vs a e =
        built float64 float64_array _ vs a (λ ys. (refl, refl)) e
    messagepack_decode_results-Typed double vs a e =
        built float64 float64_array _ vs a (λ ys. (refl, refl)) e
    messagepack_decode_results-Typed f32 vs a e =
        built float32 float32_array _ vs a (λ ys. (refl, refl)) e
    messagepack_decode_results-Typed real vs a e =
        built float32 float32_array _ vs a (λ ys. (refl, refl)) e
    messagepack_decode_results-Typed float vs a e =
        built float32 float32_array _ vs a (λ ys. (refl, refl)) e
    messagepack_decode_results-Typed (decimal p s) vs a e =
        let (ys, all, e1) = bind_ok e in
        let (_, _, e2) = bind_ok e1 in
        subst (Typed (length vs) (decimal128 p s)) (ok_injective e2)
          (refl, collect-length (decode_decimal mp p s) vs ys all)

  pub results_to_array-Typed :
      (w : ValType) (vs : List Val) (a : ArrayRef)
      → results_to_array {Value = Value} w vs ≡ ok a
      → Typed (length vs) (arrow_of w) a
  unfolding results_to_array
  results_to_array-Typed wasm_i32 vs a e = built int32 int32_array _ vs a (λ ys. (refl, refl)) e
  results_to_array-Typed wasm_i64 vs a e = built int64 int64_array _ vs a (λ ys. (refl, refl)) e
  results_to_array-Typed wasm_f32 vs a e = built float32 float32_array _ vs a (λ ys. (refl, refl)) e
  results_to_array-Typed wasm_f64 vs a e = built float64 float64_array _ vs a (λ ys. (refl, refl)) e

  pub call_rows-length :
      {S P R : Type 0} (params : ℕ → Result Value (List P))
      (call : S → List P → Result Value (R × S)) (n i : ℕ) (s : S) (rs : List R)
      → call_rows params call s n i ≡ ok rs
      → length rs ≡ n
  unfolding call_rows
  call_rows-length params call zero i s rs e = ap length (sym (ok_injective e))
  call_rows-length params call (suc n) i s rs e =
      let (ps, _, e1) = bind_ok e in
      let ((r, s'), _, e2) = bind_ok e1 in
      let (rest, more, e3) = bind_ok e2 in
      ap length (sym (ok_injective e3))
      ∙ ap suc (call_rows-length params call n (suc i) s' rest more)
