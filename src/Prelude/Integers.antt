-- ===== src/Prelude/Integers.antt =====
-- Integers, and the bits of machine integers. A w-bit integer is an integer in its range, or its
-- bits, a natural number below 2 ^ w.
use Prim.Native.Nat.{ℕ, zero, suc, ◌+◌, ◌-◌, ◌*◌, ◌/◌, ◌%◌, ◌<◌}
use mathlib.Core.Path.{◌≡◌}
use mathlib.Core.Bool.{Bool}
use mathlib.Core.List.{List, [], ◌∷◌}
use native.Mathlib.Omega.{arith}
use seafowl.Prelude.Tests.{ltb, if◌then◌else◌}

-- `negsuc n` is - (n + 1).
pub data ℤ : Type 0 where
  pos negsuc : ℕ → ℤ

abbrev pub pow_63 : ℕ
pow_63 = 9223372036854775808

abbrev pub pow_64 : ℕ
pow_64 = 18446744073709551616

abbrev pub pow_128 : ℕ
pow_128 = 340282366920938463463374607431768211456

-- The integer is in the range from - limit to limit - 1.
abbrev pub Fits : ℕ → ℤ → Type 0
Fits limit (pos n) = n < limit
Fits limit (negsuc n) = n < limit

abbrev pub fits : ℕ → ℤ → Bool
fits limit (pos n) = ltb n limit
fits limit (negsuc n) = ltb n limit

-- The i64 with some bits, and the bits of its extension to an i128.
abbrev pub i64_of : ℕ → ℤ
i64_of bits = if ltb bits pow_63 then pos bits else negsuc (pow_64 - suc bits)

abbrev pub to_i128 : ℤ → ℕ
to_i128 (pos n) = n
to_i128 (negsuc n) = pow_128 - suc n

-- The i32 with some bits.
abbrev pub i32_of : ℕ → ℤ
i32_of bits = if ltb bits 2147483648 then pos bits else negsuc (4294967296 - suc bits)

-- The lower k bytes of a number, the lowest first, and back.
abbrev pub to_bytes : ℕ → ℕ → List ℕ
to_bytes zero n = []
to_bytes (suc k) n = n % 256 ∷ to_bytes k (n / 256)

abbrev pub of_bytes : List ℕ → ℕ
of_bytes [] = 0
of_bytes (b ∷ bs) = b + 256 * of_bytes bs

pub i64_of-Fits : (bits : ℕ) → bits < pow_64 → Fits pow_63 (i64_of bits)
i64_of-Fits bits h = ground arith

-- The halves of 128 bits, put together with the lower half read as an i64: they give the bits back if
-- the lower half is no negative i64, and 2 ^ 64 less if it is.
pub halves :
    (w : ℕ)
    → w < pow_128
    → (to_i128 (i64_of (w % pow_64)) + to_i128 (i64_of (w / pow_64)) * pow_64) % pow_128
      ≡ (if ltb (w % pow_64) pow_63 then w else (w + (pow_128 - pow_64)) % pow_128)
halves w h = ground arith

pub of_bytes-to_bytes : (n : ℕ) → n < 4294967296 → of_bytes (to_bytes 4 n) ≡ n
of_bytes-to_bytes n h = omega arith
