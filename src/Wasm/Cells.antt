-- ===== src/Wasm/Cells.antt =====
-- A memory for the tests: a function from addresses to bytes, with its laws.
use seafowl.Prelude.{
  ℕ, zero, suc, ◌+◌, ◌<◌, ◌≤◌, ◌≡◌, refl, ap, sym, ◌∙◌, Bool-cases, inl, inr, [], ◌∷◌, length, take,
  ◌==◌, ==_iff, if◌then◌else◌, arith,
}
use mathlib.Core.Path.{subst}
use seafowl.Wasm.Values.{given}
use seafowl.Wasm.Instance.{Bytes, Memory}
use seafowl.Wasm.Protocol.{MemoryLaws}

abbrev pub Cells : Type 0
Cells = ℕ → ℕ

abbrev pub cells : Cells → ℕ → ℕ → Bytes
cells s p zero = []
cells s p (suc n) = s p ∷ cells s (suc p) n

abbrev pub put : Cells → ℕ → Bytes → Cells
put s p [] a = s a
put s p (b ∷ bs) a = if a == p then b else put s (suc p) bs a

abbrev pub memory : Memory Cells
memory = record { read = λ s p n. given (cells s p n); write = λ s p b. given (put s p b) }

put_before : (b : Bytes) (s : Cells) (p a : ℕ) → a < p → put s p b a ≡ s a
put_before [] s p a h = refl
put_before (x ∷ b) s p a h = elim (Bool-cases (a == p)) [
  | inl y ↦ absurd (omega (arith, (==_iff a p).0 y))
  | inr n ↦ rw n (put_before b s (suc p) a (omega arith))
]

cells-put_before :
    (b : Bytes) (s : Cells) (p n q : ℕ) → q + n ≤ p → cells (put s p b) q n ≡ cells s q n
cells-put_before b s p zero q h = refl
cells-put_before b s p (suc n) q h =
    rw (put_before b s p q (omega arith), cells-put_before b s p n (suc q) (omega arith)) refl

cells_skip :
    (s : Cells) (b p n q : ℕ) → p < q → cells (λ a. if a == p then b else s a) q n ≡ cells s q n
cells_skip s b p zero q h = refl
cells_skip s b p (suc n) q h = elim (Bool-cases (q == p)) [
  | inl y ↦ absurd (omega (arith, (==_iff q p).0 y))
  | inr apart ↦ rw (apart, cells_skip s b p n (suc q) (omega arith)) refl
]

cells-put : (b : Bytes) (s : Cells) (p : ℕ) → cells (put s p b) p (length b) ≡ b
cells-put [] s p = refl
cells-put (x ∷ b) s p =
    rw
      (
        (==_iff p p).1 refl,
        cells_skip (put s (suc p) b) x p (length b) (suc p) (omega arith),
        cells-put b s (suc p),
      )
      refl

take-cells : (s : Cells) (p n k : ℕ) → take n (cells s p (n + k)) ≡ cells s p n
take-cells s p zero k = refl
take-cells s p (suc n) k =
    let e : suc n + k ≡ suc (n + k) = omega arith in rw (e, take-cells s (suc p) n k) refl

pub given_injective : {A : Type 0} {a b : A} → given a ≡ given b → a ≡ b
given_injective e = cc

pub memory-MemoryLaws : MemoryLaws memory
memory-MemoryLaws = record {
  read-write = λ s s' p b e.
      subst (λ t. given (cells t p (length b)) ≡ given b) (given_injective e)
        (ap given (cells-put b s p));
  read_part = λ s p n k b e. ap given (sym (take-cells s p n k) ∙ ap (take n) (given_injective e));
  read_before = λ s s' p q n b c e h r.
      subst (λ t. given (cells t q n) ≡ given c) (given_injective e)
        (ap given (cells-put_before b s p n q h) ∙ r);
}
