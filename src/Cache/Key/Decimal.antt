-- ===== src/Cache/Key/Decimal.antt =====
-- The decimal digits that `format!` prints for an unsigned number.
use seafowl.Prelude.{
  ℕ, zero, suc, ◌+◌, ◌-◌, ◌*◌, ◌/◌, ◌%◌, ◌<◌, ◌≡◌, ◌≢◌, refl, List, [], ◌∷◌, ◌++◌, arith, ltb, All,
  if◌then◌else◌, Bool-cases, inl, inr,
}

decimal_from : ℕ → ℕ → List ℕ
decimal_from zero n = []
decimal_from (suc fuel) n =
    let rest = decimal_from fuel (n / 10) in
    if ltb n 10 then (b'0' + n) ∷ [] else rest ++ (b'0' + n % 10) ∷ []

-- A number has at most as many digits as it counts, and one more.
unfoldable pub decimal : ℕ → List ℕ
unfolding decimal_from
decimal n = decimal_from (suc n) n

read_from : ℕ → List ℕ → ℕ
read_from acc [] = acc
read_from acc (c ∷ cs) = read_from (acc * 10 + (c - b'0')) cs

read_from-append :
    (acc : ℕ) (xs ys : List ℕ) → read_from acc (xs ++ ys) ≡ read_from (read_from acc xs) ys
unfolding read_from
read_from-append acc [] ys = refl
read_from-append acc (x ∷ xs) ys = read_from-append (acc * 10 + (x - b'0')) xs ys

read-decimal_from : (fuel n : ℕ) → n < fuel → read_from 0 (decimal_from fuel n) ≡ n
unfolding decimal_from read_from
read-decimal_from zero n h = absurd (omega arith)
read-decimal_from (suc fuel) n h = ground (
  arith,
  read-decimal_from fuel (n / 10),
  read_from-append 0 (decimal_from fuel (n / 10)) ((b'0' + n % 10) ∷ []),
)

read-decimal : (n : ℕ) → read_from 0 (decimal n) ≡ n
unfolding decimal
read-decimal n = read-decimal_from (suc n) n (omega arith)

-- Two numbers with the same digits are equal.
pub decimal-injective : (m n : ℕ) → decimal m ≡ decimal n → m ≡ n
decimal-injective m n h = ground (arith, read-decimal m, read-decimal n)

All-append :
    (xs ys : List ℕ)
    → All (λ c. c ≢ b'-') xs
    → All (λ c. c ≢ b'-') ys
    → All (λ c. c ≢ b'-') (xs ++ ys)
All-append [] ys h k = k
All-append (x ∷ xs) ys h k = (h.0, All-append xs ys h.1 k)

decimal_from-digits : (fuel n : ℕ) → All (λ c. c ≢ b'-') (decimal_from fuel n)
unfolding decimal_from
decimal_from-digits zero n = tt
decimal_from-digits (suc fuel) n = elim (Bool-cases (ltb n 10)) [
  | inl small ↦ rw small (omega arith, tt)
  | inr large ↦ rw large (
      All-append (decimal_from fuel (n / 10)) ((b'0' + n % 10) ∷ [])
        (decimal_from-digits fuel (n / 10)) (omega arith, tt))
]

-- No digit is a dash.
pub decimal-digits : (n : ℕ) → All (λ c. c ≢ b'-') (decimal n)
unfolding decimal
decimal-digits n = decimal_from-digits (suc n) n

-- A text before the first dash is determined.
pub split_at_dash :
    (xs ys us vs : List ℕ)
    → All (λ c. c ≢ b'-') xs
    → All (λ c. c ≢ b'-') ys
    → xs ++ b'-' ∷ us ≡ ys ++ b'-' ∷ vs
    → (xs ≡ ys) × (us ≡ vs)
split_at_dash [] [] us vs h k e = (refl, cc)
split_at_dash [] (y ∷ ys) us vs h k e = ground arith
split_at_dash (x ∷ xs) [] us vs h k e = ground arith
split_at_dash (x ∷ xs) (y ∷ ys) us vs h k e = ground (arith, split_at_dash xs ys us vs)
