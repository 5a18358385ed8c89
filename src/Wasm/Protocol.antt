-- ===== src/Wasm/Protocol.antt =====
-- Messages in the memory of a module: what is written for a function, and what it gives back.
use seafowl.Prelude.{
  ℕ, ◌+◌, ◌<◌, ◌≤◌, ◌≡◌, refl, ap, sym, ◌∙◌, Bool-cases, Option, none, some, length, take, ltb,
  ltb→lt, lt→ltb, if◌then◌else◌, arith, inl, inr,
}
use mathlib.Core.Path.{subst}
use seafowl.Prelude.Integers.{ℤ, pos, negsuc, i32_of, to_bytes, of_bytes, of_bytes-to_bytes}
use seafowl.Wasm.Values.{
  given, serializing_input, copying_size, copying_input, Result, ok, ◌>>=◌, MessagePack,
}
use seafowl.Wasm.Inversion.{bind_ok, or_error_ok, unwrap_ok, ok_injective}
use seafowl.Wasm.Instance.{
  Bytes, Memory, Instance, size_byte_count, to_usize, to_i32, read_udf_output, write_udf_input,
}

-- A memory as wasmtime documents it: what was written is read, a read of fewer bytes gives a part of
-- them, and a write does not change what lies before it.
pub record MemoryLaws {Store : Type 0} (m : Memory Store) : Type 0 where
  pub read-write :
      (s s' : Store) (p : ℕ) (b : Bytes)
      → m.write s p b ≡ given s'
      → m.read s' p (length b) ≡ given b
  pub read_part :
      (s : Store) (p n k : ℕ) (b : Bytes)
      → m.read s p (n + k) ≡ given b
      → m.read s p n ≡ given (take n b)
  pub read_before :
      (s s' : Store) (p q n : ℕ) (b c : Bytes)
      → m.write s p b ≡ given s'
      → q + n ≤ p
      → m.read s q n ≡ given c
      → m.read s' q n ≡ given c

to_i32_bound : (n : ℕ) (i : ℤ) → to_i32 n ≡ some i → n < 2147483648
to_i32_bound n i e = elim (Bool-cases (ltb n 2147483648)) [
  | inl y ↦ ltb→lt n 2147483648 y
  | inr n ↦ absurd (ground (arith, n, e))
]

to_i32_pos : (n : ℕ) (i : ℤ) → to_i32 n ≡ some i → i ≡ pos n
to_i32_pos n i e = elim (Bool-cases (ltb n 2147483648)) [
  | inl y ↦
      some_pos (subst (λ b. ◌≡◌ {A = Option ℤ} (if b then some (pos n) else none) (some i)) y e)
  | inr big ↦ absurd (ground (arith, big, e))
]
  where
    some_pos : ◌≡◌ {A = Option ℤ} (some (pos n)) (some i) → i ≡ pos n
    some_pos e = cc

pub to_usize_pos : (i : ℤ) (n : ℕ) → to_usize i ≡ some n → i ≡ pos n
to_usize_pos (pos m) n e = cc
to_usize_pos (negsuc m) n e = absurd cc

small : (n : ℕ) → n + size_byte_count < 2147483648 → i32_of (of_bytes (to_bytes 4 n)) ≡ pos n
small n h = rw (of_bytes-to_bytes n (omega arith), lt→ltb n 2147483648 (omega arith)) refl

module _ {Store Value : Type 0} (mp : MessagePack Value) where
  -- The message is at the address: the length of its bytes, as an i32, and then
  -- its bytes; the size counts both.
  abbrev pub Holds : Memory Store → Store → ℕ → Value → ℤ → Type 0
  Holds m s p v size =
      (bytes : Bytes) × (mp.serialize v ≡ given bytes)
      × (length bytes + size_byte_count < 2147483648)
      × (size ≡ pos (length bytes + size_byte_count))
      × (m.read s p size_byte_count ≡ given (to_bytes 4 (length bytes)))
      × (m.read s (p + size_byte_count) (length bytes) ≡ given bytes)

  -- What is held at an address is the output there.
  pub read_udf_output-Holds :
      ((v : Value) (b : Bytes) → mp.serialize v ≡ given b → mp.from_slice b ≡ given v)
      → (self : Instance Store) (p : ℕ) (v : Value) (size : ℤ)
      → Holds self.memory self.store p v size
      → read_udf_output mp self (pos p) ≡ ok (v, size)
  unfolding read_udf_output ◌>>=◌
  read_udf_output-Holds decodes self p v size (bytes, ser, fits, whole, front, body) =
      rw
        (
          front,
          small (length bytes) fits,
          body,
          decodes v bytes ser,
          lt→ltb (length bytes + size_byte_count) 2147483648 fits,
          whole,
        )
        refl

  -- A call of the udf changes the store and nothing else.
  abbrev pub Same : Instance Store → Instance Store → Type 0
  Same self self' =
      (self'.memory ≡ self.memory)
      × (self'.udf ≡ self.udf)
      × (self'.alloc ≡ self.alloc)
      × (self'.dealloc ≡ self.dealloc)

  held :
      (self : Instance Store)
      → MemoryLaws self.memory
      → (v : Value) (buf : Bytes) (ptr size q n : ℤ) (s1 s2 s3 : Store) (p : ℕ)
        (self' : Instance Store)
      → mp.serialize v ≡ given buf
      → to_i32 (length buf + size_byte_count) ≡ some n
      → to_usize q ≡ some p
      → self.memory.write s1 p (to_bytes 8 (length buf)) ≡ given s2
      → self.memory.write s2 (p + size_byte_count) buf ≡ given s3
      → ◌≡◌ {A = Result Value ((ℤ × ℤ) × Instance Store)}
          (ok ((q, n), record self { store = s3 }))
          (ok ((ptr, size), self'))
      → (p : ℕ) × (ptr ≡ pos p) × Same self self' × Holds self'.memory self'.store p v size
  held self laws v buf ptr size q n s1 s2 s3 p self' ser fits address sized put e =
      let same = ok_injective e in
      let front =
        laws.read_part s2 p 4 4 (to_bytes 8 (length buf))
          (laws.read-write s1 s2 p (to_bytes 8 (length buf)) sized) in
      let kept =
        laws.read_before s2 s3 (p + size_byte_count) p size_byte_count buf (to_bytes 4 (length buf))
          put (omega arith) front in
      let whole = sym (ap (λ x. x.0.1) same) ∙ to_i32_pos (length buf + size_byte_count) n fits in
      let (alike, holds) =
        subst (λ i. Same self i × Holds i.memory i.store p v size) (ap (λ x. x.1) same)
          (
            (refl, refl, refl, refl),
            (
              buf,
              ser,
              to_i32_bound (length buf + size_byte_count) n fits,
              whole,
              kept,
              laws.read-write s2 s3 (p + size_byte_count) buf put,
            ),
          ) in
      (p, sym (ap (λ x. x.0.0) same) ∙ to_usize_pos q p address, alike, holds)

  -- An input that is written is held at its address.
  pub write_udf_input-Holds :
      (self : Instance Store)
      → MemoryLaws self.memory
      → (v : Value) (ptr size : ℤ) (self' : Instance Store)
      → write_udf_input mp self v ≡ ok ((ptr, size), self')
      → (p : ℕ) × (ptr ≡ pos p) × Same self self' × Holds self'.memory self'.store p v size
  unfolding write_udf_input
  write_udf_input-Holds self laws v ptr size self' e =
      let (buf, ser, e1) = bind_ok e in
      let (n, fits, e2) = bind_ok e1 in
      let ((q, s1), alloc, e3) = bind_ok e2 in
      let (p, address, e4) = bind_ok e3 in
      let (s2, sized, e5) = bind_ok e4 in
      let (s3, put, e6) = bind_ok e5 in
      held self laws v buf ptr size q n s1 s2 s3 p self' (or_error_ok serializing_input ser)
        (unwrap_ok fits) (unwrap_ok address) (or_error_ok copying_size sized)
        (or_error_ok copying_input put) e6

  -- What is written for a function is read back at its address, with the size of its buffer, if a
  -- serialized value is read back, in a memory that keeps what is written.
  pub read_udf_output-write_udf_input :
      ((v : Value) (b : Bytes) → mp.serialize v ≡ given b → mp.from_slice b ≡ given v)
      → (self : Instance Store) → MemoryLaws self.memory
      → (v : Value) (ptr size : ℤ) (self' : Instance Store)
      → write_udf_input mp self v ≡ ok ((ptr, size), self')
      → read_udf_output mp self' ptr ≡ ok (v, size)
  read_udf_output-write_udf_input decodes self laws v ptr size self' e =
      let (p, at, _, holds) = write_udf_input-Holds self laws v ptr size self' e in
      rw at (read_udf_output-Holds decodes self' p v size holds)
