-- ===== src/Wasm/Calls.antt =====
-- A function on columns is the function of its module, on each row.
use seafowl.Prelude.{ℕ, zero, suc, ◌≡◌, refl, ap, sym, ◌∙◌, List, [], ◌∷◌, map}
use mathlib.Core.Path.{subst, subst⁻¹}
use seafowl.Prelude.Integers.{ℤ, pos}
use seafowl.Wasm.Values.{invoking_udf, given, Result, ok, ◌>>=◌, collect, MessagePack}
use seafowl.Wasm.Instance.{Instance, read_udf_output, call}
use seafowl.Wasm.Scalar.{call_rows}
use seafowl.Wasm.Inversion.{bind_ok, or_error_ok, unwrap_ok, ok_injective}
use seafowl.Wasm.Protocol.{
  MemoryLaws, Holds, Same, to_usize_pos, read_udf_output-Holds, write_udf_input-Holds,
}

-- The rows from `i` on.
abbrev pub rows : ℕ → ℕ → List ℕ
rows zero i = []
rows (suc n) i = i ∷ rows n (suc i)

module _ {Value S P R : Type 0} (params : ℕ → Result Value (List P))
    (call_row : S → List P → Result Value (R × S)) (f : List P → R) (Inv : S → Type 0)
    (step : (s s' : S) (ps : List P) (r : R)
      → Inv s
      → call_row s ps ≡ ok (r, s')
      → (r ≡ f ps) × Inv s') where
  next_row :
      (n i : ℕ) (ps : List P) (pss : List (List P)) (r : R) (rest rs : List R)
      → params i ≡ ok ps
      → collect params (rows n (suc i)) ≡ ok pss
      → r ≡ f ps
      → rest ≡ map f pss
      → r ∷ rest ≡ rs
      → (pss : List (List P)) × (collect params (rows (suc n) i) ≡ ok pss) × (rs ≡ map f pss)
  unfolding ◌>>=◌
  next_row n i ps pss r rest rs got all same eq e = (ps ∷ pss, rw (got, all) refl, sym e ∙ cc)

  -- If each call gives what `f` gives, so do the calls for the rows.
  pub call_rows_ok :
      (n i : ℕ) (s : S) (rs : List R)
      → Inv s
      → call_rows params call_row s n i ≡ ok rs
      → (pss : List (List P)) × (collect params (rows n i) ≡ ok pss) × (rs ≡ map f pss)
  unfolding call_rows
  call_rows_ok zero i s rs inv e = ([], refl, sym (ok_injective e))
  call_rows_ok (suc n) i s rs inv e =
      let (ps, got, e1) = bind_ok e in
      let ((r, s'), called, e2) = bind_ok e1 in
      let (rest, more, e3) = bind_ok e2 in
      let (same, inv') = step s s' ps r inv called in
      let (pss, all, eq) = call_rows_ok n (suc i) s' rest inv' more in
      next_row n i ps pss r rest rs got all same eq (ok_injective e3)

module _ {Store Value : Type 0} (mp : MessagePack Value) (f : List Value → Value) where
  -- The function of the module, given its parameters as a message, gives the message of `f`.
  abbrev pub Implements : Instance Store → Type 0
  Implements self =
      (store store' : Store) (p out : ℕ) (params : List Value) (size : ℤ)
      → Holds mp self.memory store p (mp.of_array params) size
      → self.udf store (pos p) ≡ given (pos out, store')
      → (size' : ℤ) × Holds mp self.memory store' out (f params) size'

  Implements-Same :
      (self self' : Instance Store) → Same mp self self' → Implements self → Implements self'
  Implements-Same self self' (m, u, a, d) impl store store' p out params size h e =
      let (size', h') =
        impl store store' p out params size
          (subst (λ m. Holds mp m store p (mp.of_array params) size) m h)
          (sym (ap (λ u. u store (pos p)) u) ∙ e) in
      (size', subst⁻¹ (λ m. Holds mp m store' out (f params) size') m h')

  -- Laws and the function, which a call keeps.
  abbrev pub Serves : Instance Store → Type 0
  Serves self = MemoryLaws self.memory × Implements self

  module _
      (decodes : (v : Value) (b : List ℕ)
        → mp.serialize v ≡ given b
        → mp.from_slice b ≡ given v) where
    answered :
        (self self1 : Instance Store) (params : List Value) (ptr q size out_size : ℤ) (p : ℕ)
        (store2 : Store) (v : Value)
        → Serves self
        → Same mp self self1
        → ptr ≡ pos p
        → Holds mp self1.memory self1.store p (mp.of_array params) size
        → self1.udf self1.store ptr ≡ given (q, store2)
        → read_udf_output mp (record self1 { store = store2 }) q ≡ ok (v, out_size)
        → v ≡ f params
    unfolding read_udf_output
    answered self self1 params ptr q size out_size p store2 v (laws, impl) same at h e r =
        let (out, out_pos, _) = bind_ok r in
        let there = to_usize_pos q out (unwrap_ok out_pos) in
        let asked =
          sym (ap (λ i. self1.udf self1.store i) at) ∙ e ∙ ap (λ i. given (i, store2)) there in
        let (size', holds) =
          Implements-Same self self1 same impl self1.store store2 p out params size h asked in
        let read =
          read_udf_output-Holds mp decodes (record self1 { store = store2 }) out (f params) size'
            holds in
        ap (λ x. x.0)
          (ok_injective (
            subst (λ i. ok (v, out_size) ≡ read_udf_output mp (record self1 { store = store2 }) i)
              there (sym r)
            ∙ read))

    Serves-Same : (self self' : Instance Store) → Same mp self self' → Serves self → Serves self'
    Serves-Same self self' same (laws, impl) =
        (subst⁻¹ MemoryLaws same.0 laws, Implements-Same self self' same impl)

    -- A call that answers gives what the function gives.
    pub call-Serves :
        (self self' : Instance Store) (params : List Value) (v : Value)
        → Serves self
        → call mp self params ≡ ok (v, self')
        → (v ≡ f params) × Serves self'
    unfolding call
    call-Serves self self' params v serves e =
        let (((ptr, size), self1), wrote, e1) = bind_ok e in
        let ((q, store2), called, e2) = bind_ok e1 in
        let ((out, out_size), back, e3) = bind_ok e2 in
        let (store3, _, e4) = bind_ok e3 in
        let (store4, _, e5) = bind_ok e4 in
        let (p, at, same, holds) =
          write_udf_input-Holds mp self serves.0 (mp.of_array params) ptr size self1 wrote in
        let given_back =
          answered self self1 params ptr q size out_size p store2 out serves same at holds
            (or_error_ok invoking_udf called) back in
        (
          sym (ap (λ x. x.0) (ok_injective e5)) ∙ given_back,
          subst Serves (ap (λ x. x.1) (ok_injective e5))
              (Serves-Same self (record self1 { store = store4 }) same serves),
        )
