-- ===== src/Cache/Key/Windows.antt =====
-- Windows of a list of bytes: how the slices of chunks join and split.
use seafowl.Prelude.{
  ℕ, ◌+◌, ◌-◌, ◌≤◌, ◌≡◌, ap, sym, ◌∙◌, ◌++◌, arith, length, take, drop, length-take, length-drop,
  drop-drop, drop-take, take-append-take, take-take-le,
}
use Prim.Native.Nat.{min}
use seafowl.Cache.Key.{Bytes, slice}

pub slice-append :
    (a b c : ℕ) (o : Bytes) → a ≤ b → b ≤ c → slice a b o ++ slice b c o ≡ slice a c o
slice-append a b c o h k =
    ap (λ t. slice a b o ++ take (c - b) t) (sym (drop-drop a (b - a) b o (omega arith)))
    ∙ take-append-take (b - a) (c - b) (c - a) (drop a o) (omega arith)

pub length-slice : (a b : ℕ) (o : Bytes) → length (slice a b o) ≡ min (b - a) (length o - a)
length-slice a b o = omega (arith, length-take (b - a) (drop a o), length-drop a o)

-- The first part of a window.
pub take-slice : (n a b c : ℕ) (o : Bytes) → a + n ≡ b → b ≤ c → take n (slice a c o) ≡ slice a b o
take-slice n a b c o h k =
    let e : n ≡ b - a = omega arith in
    take-take-le n (c - a) (drop a o) (omega arith) ∙ ap (λ i. take i (drop a o)) e

-- The rest of a window.
pub drop-slice : (n a b c : ℕ) (o : Bytes) → a + n ≡ b → b ≤ c → drop n (slice a c o) ≡ slice b c o
drop-slice n a b c o h k =
    drop-take n (c - b) (c - a) (drop a o) (omega arith) ∙ ap (take (c - b)) (drop-drop a n b o h)
