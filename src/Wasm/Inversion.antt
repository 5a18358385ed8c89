-- ===== src/Wasm/Inversion.antt =====
-- What follows when a chain of results gives a value.
use seafowl.Prelude.{◌≡◌, refl, String, Option, none, some}
use seafowl.Wasm.Scalar.{map_err}
use seafowl.Wasm.Values.{
  UdfError, Given, given, broken, Result, ok, err, panic, ◌>>=◌, or_error, or_missing, unwrap,
}

module _ {Value : Type 0} where
  pub bind_ok :
      {A B : Type 0} {m : Result Value A} {f : A → Result Value B} {b : B}
      → m >>= f ≡ ok b
      → (a : A) × (m ≡ ok a) × (f a ≡ ok b)
  unfolding ◌>>=◌
  bind_ok {A} {B} {m} {f} {b} e = go m e
    where
      go : (r : Result Value A) → r >>= f ≡ ok b → (a : A) × (r ≡ ok a) × (f a ≡ ok b)
      go (ok a) e = (a, refl, e)
      go (err x) e = absurd cc
      go panic e = absurd cc

  pub or_error_ok :
      {A : Type 0} {g : Given A} (f : String → UdfError Value) {a : A}
      → or_error g f ≡ ok a
      → g ≡ given a
  or_error_ok {A} {g} f {a} e = go g e
    where
      go : (g : Given A) → or_error g f ≡ ok a → g ≡ given a
      go (given x) e = cc
      go (broken x) e = absurd cc

  pub unwrap_ok :
      {A : Type 0} {o : Option A} {a : A} → ◌≡◌ {A = Result Value A} (unwrap o) (ok a) → o ≡ some a
  unwrap_ok {A} {o} {a} e = go o e
    where
      go : (o : Option A) → ◌≡◌ {A = Result Value A} (unwrap o) (ok a) → o ≡ some a
      go none e = absurd cc
      go (some x) e = cc

  pub ok_injective : {A : Type 0} {a b : A} → ◌≡◌ {A = Result Value A} (ok a) (ok b) → a ≡ b
  ok_injective e = cc

  pub map_err_ok :
      {A : Type 0} {r : Result Value A} (f : UdfError Value → UdfError Value) {a : A}
      → map_err f r ≡ ok a
      → r ≡ ok a
  map_err_ok {A} {r} f {a} e = go r e
    where
      go : (r : Result Value A) → map_err f r ≡ ok a → r ≡ ok a
      go (ok x) e = e
      go (err x) e = absurd cc
      go panic e = absurd cc

  pub or_missing_ok :
      {A : Type 0} {o : Option A} (x : UdfError Value) {a : A} → or_missing o x ≡ ok a → o ≡ some a
  or_missing_ok {A} {o} x {a} e = go o e
    where
      go : (o : Option A) → or_missing o x ≡ ok a → o ≡ some a
      go none e = absurd cc
      go (some y) e = cc
