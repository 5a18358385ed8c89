-- ===== src/Wasm/RoundTrip.antt =====
-- A column that is encoded row by row, and whose values come back, is decoded.
use seafowl.Prelude.{
  ℕ, zero, suc, ◌+◌, ◌-◌, ◌%◌, ◌/◌, ◌<◌, ◌≡◌, refl, ap, String, Bool, true, Option, none, some,
  List, [], ◌∷◌, length, map, get_elem?, All, ltb, lt→ltb, ==_iff, if◌then◌else◌, arith,
}
use seafowl.Prelude.Integers.{
  ℤ, pos, negsuc, Fits, fits, pow_63, pow_64, pow_128, i64_of, i64_of-Fits, halves,
}
use seafowl.Wasm.Types.{
  CreateFunctionDataType, i32, i64, f32, f64, smallint, int, bigint, char, varchar, text, decimal,
  float, real, double, boolean, date, timestamp,
}
use seafowl.Wasm.Values.{
  Slots, int16_slots, int32_slots, int64_slots, date32_slots, timestamp_slots, float32_slots,
  float64_slots, string_slots, boolean_slots, decimal128_slots, slots_len, ArrayRef, int16_array,
  int32_array, int64_array, date32_array, timestamp_array, float32_array, float64_array,
  string_array, boolean_array, decimal128_array, len, UdfError, converting_to_i16,
  converting_to_i32, converting_to_i32_date, Result, ok, ◌>>=◌, collect, MessagePack,
}
use seafowl.Wasm.Encode.{get_arrow_value, messagepack_encode_input_value, decimal_parts}
use seafowl.Wasm.Decode.{decode_narrow, decode_i64, decode_decimal, messagepack_decode_results}
use seafowl.Wasm.Calls.{rows}

-- rmpv reads back what was made of an integer that an i64 holds, of a float, and so on.
pub record Faithful {Value : Type 0} (mp : MessagePack Value) : Type 0 where
  pub integer : (n : ℤ) → Fits pow_63 n → mp.as_i64 (mp.of_integer n) ≡ some n
  pub natural : (n : ℕ) → n < pow_64 → mp.as_u64 (mp.of_integer (pos n)) ≡ some n
  pub single : (n : ℕ) → mp.as_f32 (mp.of_f32 n) ≡ some n
  pub double_float : (n : ℕ) → mp.as_f64 (mp.of_f64 n) ≡ some n
  pub string : (s : String) → mp.as_str (mp.of_string s) ≡ some s
  pub truth : (b : Bool) → mp.as_bool (mp.of_boolean b) ≡ some b
  pub list : (vs : List Value) → mp.as_array (mp.of_array vs) ≡ some vs

-- What comes back of a decimal: 2 ^ 64 less if its lower half is a negative i64.
abbrev pub returned : ℕ → ℕ
returned w = if ltb (w % pow_64) pow_63 then w else (w + (pow_128 - pow_64)) % pow_128

-- The array is one of a type, with slots in its range; the scale of a decimal is none below zero.
abbrev pub Suits : (ℕ → ℤ → Bool) → CreateFunctionDataType → Slots → Type 0
Suits valid smallint (int16_slots xs) = All (Fits 32768) xs
Suits valid i32 (int32_slots xs) = All (Fits 2147483648) xs
Suits valid int (int32_slots xs) = All (Fits 2147483648) xs
Suits valid i64 (int64_slots xs) = All (Fits pow_63) xs
Suits valid bigint (int64_slots xs) = All (Fits pow_63) xs
Suits valid date (date32_slots xs) = All (Fits 2147483648) xs
Suits valid timestamp (timestamp_slots xs) = All (Fits pow_63) xs
Suits valid f32 (float32_slots xs) = Unit
Suits valid float (float32_slots xs) = Unit
Suits valid real (float32_slots xs) = Unit
Suits valid f64 (float64_slots xs) = Unit
Suits valid double (float64_slots xs) = Unit
Suits valid char (string_slots xs) = Unit
Suits valid varchar (string_slots xs) = Unit
Suits valid text (string_slots xs) = Unit
Suits valid boolean (boolean_slots xs) = Unit
Suits valid (decimal p (pos s)) (decimal128_slots q (pos r) xs) =
    (p < 256) × (s < 128) × (valid p (pos s) ≡ true) × (q ≡ p) × (r ≡ s) × All (λ w. w < pow_128) xs
Suits valid t a = ⊥

-- What comes back of a column: its slots, of which none is null any more.
abbrev pub echoed : Slots → ArrayRef
echoed (decimal128_slots p s xs) = decimal128_array p s (map returned xs)
echoed x = record { slots = x; nulls = none }

map_self : {A : Type 0} (xs : List A) → map (λ x. x) xs ≡ xs
map_self [] = refl
map_self (x ∷ xs) = ap (λ ys. x ∷ ys) (map_self xs)

All-unit : {A : Type 0} (xs : List A) → All (λ x. Unit {0}) xs
All-unit [] = tt
All-unit (x ∷ xs) = (tt, All-unit xs)

module _ {Value : Type 0} where
  collect-suc :
      {B : Type 0} (f : ℕ → Result Value B) (n i : ℕ)
      → collect f (rows n (suc i)) ≡ collect (λ r. f (suc r)) (rows n i)
  collect-suc f zero i = refl
  collect-suc f (suc n) i =
      ap (λ r. f (suc i) >>= λ b. r >>= λ bs. ok (b ∷ bs)) (collect-suc f n (suc i))

  -- Rows that are each made of their slot are together made of the slots.
  collect_rows :
      {A B : Type 0} (slots : List A) (make : A → B) (f : ℕ → Result Value B)
      → ((r : ℕ) (a : A) → get_elem? slots r ≡ some a → f r ≡ ok (make a))
      → collect f (rows (length slots) 0) ≡ ok (map make slots)
  unfolding ◌>>=◌
  collect_rows [] make f h = refl
  collect_rows (x ∷ xs) make f h =
      rw
        (
          h 0 x refl,
          collect-suc f (length xs) 0,
          collect_rows xs make (λ r. f (suc r)) (λ r a e. h (suc r) a e),
        )
        refl

  collect-map :
      {A B C : Type 0} (P : A → Type 0) (make : A → B) (f : B → Result Value C) (g : A → C)
      → ((a : A) → P a → f (make a) ≡ ok (g a))
      → (xs : List A) → All P xs
      → collect f (map make xs) ≡ ok (map g xs)
  unfolding ◌>>=◌
  collect-map P make f g h [] all = refl
  collect-map P make f g h (x ∷ xs) (p, all) = rw (h x p, collect-map P make f g h xs all) refl

  -- Both, for a column of slots that fit.
  column :
      {A : Type 0} (P : A → Type 0) (slots : List A) (make : A → Value)
      (enc : ℕ → Result Value Value) (dec : Value → Result Value A) (mk : List A → ArrayRef)
      → ((r : ℕ) (a : A) → get_elem? slots r ≡ some a → enc r ≡ ok (make a))
      → ((a : A) → P a → dec (make a) ≡ ok a)
      → All P slots
      → (vs : List Value) × (collect enc (rows (length slots) 0) ≡ ok vs)
        × (collect dec vs >>= (λ xs. ok (mk xs)) ≡ ok (mk slots))
  unfolding ◌>>=◌
  column P slots make enc dec mk e d all = (
    map make slots,
    collect_rows slots make enc e,
    rw (collect-map P make dec (λ x. x) d slots all, map_self slots) refl,
  )

  module _ (mp : MessagePack Value) (laws : Faithful mp) (valid : ℕ → ℤ → Bool) where
    fits-true : (limit : ℕ) (n : ℤ) → Fits limit n → fits limit n ≡ true
    fits-true limit (pos n) h = lt→ltb n limit h
    fits-true limit (negsuc n) h = lt→ltb n limit h

    wide : (limit : ℕ) (n : ℤ) → limit < pow_64 - pow_63 → Fits limit n → Fits pow_63 n
    wide limit (pos n) l h = omega arith
    wide limit (negsuc n) l h = omega arith

    narrow :
        (limit : ℕ) (error : ℤ → UdfError Value)
        → limit < pow_64 - pow_63
        → (n : ℤ) → Fits limit n
        → decode_narrow mp limit error (mp.of_integer n) ≡ ok n
    unfolding ◌>>=◌
    narrow limit error l n h = rw (laws.integer n (wide limit n l h), fits-true limit n h) refl

    long : (n : ℤ) → Fits pow_63 n → decode_i64 mp (mp.of_integer n) ≡ ok n
    long n h = rw (laws.integer n h) refl

    half : (w : ℕ) → w < pow_128 → (w / pow_64 < pow_64) × (w % pow_64 < pow_64)
    half w h = (omega arith, omega arith)

    decimal_back :
        (p s w : ℕ)
        → p < 256
        → s < 128
        → w < pow_128
        → decode_decimal mp p (pos s) (decimal_parts mp p (pos s) w) ≡ ok (returned w)
    unfolding decode_decimal ◌>>=◌
    decimal_back p s w hp hs hw =
        let (u, l) = half w hw in
        rw
          (
            laws.list (
                mp.of_integer (pos p)
                ∷ mp.of_integer (pos s)
                ∷ mp.of_integer (i64_of (w / pow_64))
                ∷ mp.of_integer (i64_of (w % pow_64))
                ∷ []),
            laws.natural p (omega arith),
            laws.natural s (omega arith),
            lt→ltb p 256 hp,
            lt→ltb s 128 hs,
            (==_iff p p).1 refl,
            (==_iff s s).1 refl,
            laws.integer (i64_of (w / pow_64)) (i64_of-Fits (w / pow_64) u),
            laws.integer (i64_of (w % pow_64)) (i64_of-Fits (w % pow_64) l),
          )
          (ap ok (halves w hw))

    decode-encode_slots :
        (t : CreateFunctionDataType) (x : Slots) (nulls : Option (List Bool))
        → Suits valid t x
        → (vs : List Value) × (collect
              (λ row.
                messagepack_encode_input_value mp t
                  (record { slots = x; nulls = nulls } ∷ [])
                  row
                  0)
              (rows (slots_len x) 0)
            ≡ ok vs)
          × (messagepack_decode_results mp valid t vs ≡ ok (echoed x))
    unfolding messagepack_encode_input_value get_arrow_value messagepack_decode_results ◌>>=◌
    decode-encode_slots smallint (int16_slots xs) nulls h =
        column (Fits 32768) xs mp.of_integer _ _ int16_array (λ r a e. rw e refl)
          (narrow 32768 converting_to_i16 (omega arith)) h
    decode-encode_slots i32 (int32_slots xs) nulls h =
        column (Fits 2147483648) xs mp.of_integer _ _ int32_array (λ r a e. rw e refl)
          (narrow 2147483648 converting_to_i32 (omega arith)) h
    decode-encode_slots int (int32_slots xs) nulls h =
        column (Fits 2147483648) xs mp.of_integer _ _ int32_array (λ r a e. rw e refl)
          (narrow 2147483648 converting_to_i32 (omega arith)) h
    decode-encode_slots i64 (int64_slots xs) nulls h =
        column (Fits pow_63) xs mp.of_integer _ _ int64_array (λ r a e. rw e refl) long h
    decode-encode_slots bigint (int64_slots xs) nulls h =
        column (Fits pow_63) xs mp.of_integer _ _ int64_array (λ r a e. rw e refl) long h
    decode-encode_slots date (date32_slots xs) nulls h =
        column (Fits 2147483648) xs mp.of_integer _ _ date32_array (λ r a e. rw e refl)
          (narrow 2147483648 converting_to_i32_date (omega arith)) h
    decode-encode_slots timestamp (timestamp_slots xs) nulls h =
        column (Fits pow_63) xs mp.of_integer _ _ timestamp_array (λ r a e. rw e refl) long h
    decode-encode_slots f32 (float32_slots xs) nulls h =
        column (λ x. Unit {0}) xs mp.of_f32 _ _ float32_array (λ r a e. rw e refl)
          (λ n u. rw (laws.single n) refl) (All-unit xs)
    decode-encode_slots float (float32_slots xs) nulls h =
        column (λ x. Unit {0}) xs mp.of_f32 _ _ float32_array (λ r a e. rw e refl)
          (λ n u. rw (laws.single n) refl) (All-unit xs)
    decode-encode_slots real (float32_slots xs) nulls h =
        column (λ x. Unit {0}) xs mp.of_f32 _ _ float32_array (λ r a e. rw e refl)
          (λ n u. rw (laws.single n) refl) (All-unit xs)
    decode-encode_slots f64 (float64_slots xs) nulls h =
        column (λ x. Unit {0}) xs mp.of_f64 _ _ float64_array (λ r a e. rw e refl)
          (λ n u. rw (laws.double_float n) refl) (All-unit xs)
    decode-encode_slots double (float64_slots xs) nulls h =
        column (λ x. Unit {0}) xs mp.of_f64 _ _ float64_array (λ r a e. rw e refl)
          (λ n u. rw (laws.double_float n) refl) (All-unit xs)
    decode-encode_slots char (string_slots xs) nulls h =
        column (λ x. Unit {0}) xs mp.of_string _ _ string_array (λ r a e. rw e refl)
          (λ n u. rw (laws.string n) refl) (All-unit xs)
    decode-encode_slots varchar (string_slots xs) nulls h =
        column (λ x. Unit {0}) xs mp.of_string _ _ string_array (λ r a e. rw e refl)
          (λ n u. rw (laws.string n) refl) (All-unit xs)
    decode-encode_slots text (string_slots xs) nulls h =
        column (λ x. Unit {0}) xs mp.of_string _ _ string_array (λ r a e. rw e refl)
          (λ n u. rw (laws.string n) refl) (All-unit xs)
    decode-encode_slots boolean (boolean_slots xs) nulls h =
        column (λ x. Unit {0}) xs mp.of_boolean _ _ boolean_array (λ r a e. rw e refl)
          (λ n u. rw (laws.truth n) refl) (All-unit xs)
    decode-encode_slots (decimal p (pos s)) (decimal128_slots q (pos r) xs) nulls
          (hp, hs, ok_valid, same_p, same_s, all) =
        (
          map (decimal_parts mp p (pos s)) xs,
          collect_rows xs (decimal_parts mp p (pos s)) _ (λ r a e. rw e refl),
          rw
              (
                collect-map (λ w. w < pow_128) (decimal_parts mp p (pos s))
                    (decode_decimal mp p (pos s)) returned (λ w hw. decimal_back p s w hp hs hw) xs
                    all,
                ok_valid,
                same_p,
                same_s,
              )
              refl,
        )
    decode-encode_slots t x nulls h = absurd h

    -- A column whose slots suit its type is encoded row by row and decoded to its slots, except that a
    -- decimal comes back 2 ^ 64 lower if its lower half has the top bit set. Which slots were null is
    -- lost: the value that lies in a null slot comes back, and no slot of the result is null.
    pub decode-encode :
        (t : CreateFunctionDataType) (a : ArrayRef)
        → Suits valid t a.slots
        → (vs : List Value) × (collect
              (λ row. messagepack_encode_input_value mp t (a ∷ []) row 0)
              (rows (len a) 0)
            ≡ ok vs)
          × (messagepack_decode_results mp valid t vs ≡ ok (echoed a.slots))
    decode-encode t a h = decode-encode_slots t a.slots a.nulls h
