-- ===== src/Cache/Key/Chunks.antt =====
-- Rounding an offset down and up to chunks of `m` bytes.
use seafowl.Prelude.{ℕ, ◌+◌, ◌-◌, ◌*◌, ◌/◌, ◌≤◌, ◌<◌, arith}

pub div-mul-le : (x m : ℕ) → x / m * m ≤ x
div-mul-le x m = grind arith

pub lt-div-mul : (x m : ℕ) → 0 < m → x < (x / m + 1) * m
lt-div-mul x m pos = grind arith

mul_mono : (x y m : ℕ) → x ≤ y → x * m ≤ y * m
mul_mono x y m le = grind arith

cancel : (x y m : ℕ) → 0 < m → x * m ≤ y * m → x ≤ y
cancel x y m pos le = grind (arith, mul_mono (y + 1) x m)

-- A range from `s` up to `e` starts at most one chunk behind its last byte.
pub first-le-last : (s e m : ℕ) → 0 < m → 0 < e → s ≤ e → s / m ≤ (e - 1) / m + 1
first-le-last s e m pos ends order =
    cancel (s / m) ((e - 1) / m + 1) m pos (omega (arith, div-mul-le s m, lt-div-mul (e - 1) m pos))
