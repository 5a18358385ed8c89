-- ===== src/Cache/Fetch/Range.antt =====
-- cache.rs, `get_range`: behind the cache a client reads what the object store holds.
use seafowl.Prelude.{
  ℕ, ◌+◌, ◌-◌, ◌*◌, ◌/◌, ◌≤◌, ◌<◌, ◌≡◌, ap, ◌∙◌, String, inl, inr, true, false, ◌||◌, All, arith,
  length, take, drop, ltb, ◌==◌, Bool-cases,
}
use seafowl.Cache.Key.{Bytes, slice, Hasher}
use seafowl.Cache.Key.Windows.{length-slice, take-slice, drop-slice}
use seafowl.Cache.Key.Chunks.{div-mul-le, lt-div-mul, first-le-last}
use seafowl.Cache.Store.{Moka, Inner, State, continue, pure}
use seafowl.Cache.Fetch.{Turn, get_chunk_range, advance, request_range, get_range}
use seafowl.Cache.Fetch.Sound.{Ensures, Ensures-bind, IsSound, Fails, Clean, log-IsSound}
use seafowl.Cache.Fetch.Loop.{get_chunk_range-Ensures}

module _ (h : Hasher) (mk : Moka) (inner : Inner) (m : ℕ) where
  -- The trimming at the end of `get_range`.
  trim-Ensures :
      (a b s e : ℕ) (o bytes : Bytes) (st : State mk.Entries)
      → a ≤ s
      → s ≤ e
      → e ≤ b
      → e ≤ length o
      → bytes ≡ slice a b o
      → IsSound h mk inner st
      → Ensures
          (Fails inner)
          (IsSound h mk inner)
          (λ x. x ≡ slice s e o)
          (continue (advance h mk inner m bytes (s - a)) (λ rest. pure (take (e - s) rest)) st)
  trim-Ensures a b s e o bytes st le order inside near right sound =
      elim (Bool-cases (ltb (length bytes) (s - a))) [
        | inl short ↦
            absurd (ground (arith, length-slice a b o, ap (λ (t : Bytes). length t) right))
        | inr long ↦ rw long (
          sound,
          ap (λ x. take (e - s) (drop (s - a) x)) right
              ∙ ap (take (e - s)) (drop-slice (s - a) a s b o (omega arith) (omega arith))
              ∙ take-slice (e - s) s e b o (omega arith) inside,
        )
      ]

  request_range-Ensures :
      (turns : ℕ → Turn) (location : String) (s e : ℕ) (st : State mk.Entries)
      → h.known location ≡ true
      → ((i : ℕ) → All (Clean h mk inner) (turns i).events)
      → 0 < m
      → 0 < e
      → s ≤ e
      → e ≤ length (inner.content location)
      → IsSound h mk inner st
      → Ensures
          (Fails inner)
          (IsSound h mk inner)
          (λ x. x ≡ slice s e (inner.content location))
          (request_range h mk inner m turns location s e st)
  unfolding request_range
  request_range-Ensures turns location s e st known clean pos ends order near sound =
      Ensures-bind (Fails inner) (IsSound h mk inner)
        (λ x. x ≡ slice (s / m * m) (((e - 1) / m + 1) * m) (inner.content location))
        (λ x. x ≡ slice s e (inner.content location))
        (get_chunk_range h mk inner m turns location (s / m) ((e - 1) / m) st)
        (λ bytes st'.
          continue (advance h mk inner m bytes (s - s / m * m)) (λ rest. pure (take (e - s) rest))
            st')
        (get_chunk_range-Ensures h mk inner m location known turns (s / m) ((e - 1) / m) st clean
          (first-le-last s e m pos ends order) (omega (arith, div-mul-le (e - 1) m)) sound)
        (λ bytes st' sound' right.
          trim-Ensures (s / m * m) (((e - 1) / m + 1) * m) s e (inner.content location) bytes st'
            (div-mul-le s m) order (omega (arith, lt-div-mul (e - 1) m pos)) near right sound')

  -- A request inside a known object, on a sound cache and a positive chunk size, whatever write tasks
  -- end and entries are dropped between its chunks, as long as no disk write that fails leaves a
  -- file behind: it does not panic; it returns exactly the bytes of the range, or an error if the
  -- inner store fails some request; and the cache stays sound.
  pub get_range-Ensures :
      (turns : ℕ → Turn) (location : String) (s e : ℕ) (st : State mk.Entries)
      → h.known location ≡ true
      → ((i : ℕ) → All (Clean h mk inner) (turns i).events)
      → 0 < m
      → 0 < e
      → s ≤ e
      → e ≤ length (inner.content location)
      → IsSound h mk inner st
      → Ensures
          (Fails inner)
          (IsSound h mk inner)
          (λ x. x ≡ slice s e (inner.content location))
          (get_range h mk inner m turns location s e st)
  unfolding get_range
  get_range-Ensures turns location s e st known clean pos ends order near sound =
      let valid : (ltb e s || e == 0 || m == 0) ≡ false = ground arith in
      rw valid (
        request_range-Ensures turns location s e _ known clean pos ends order near
          (log-IsSound h mk inner _ st sound))
