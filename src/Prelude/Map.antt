-- ===== src/Prelude/Map.antt =====
-- Insertion-ordered maps, as association lists, over keys with a Boolean equality.
use Prim.Native.Nat.{ℕ, ◌+◌}
use Prim.Native.String.{String}
use mathlib.Core.Bool.{Bool, true, false, ◌||◌}
use mathlib.Core.List.{List, [], ◌∷◌, ◌++◌}
use mathlib.Core.Logic.{◌↔◌}
use mathlib.Core.Option.{Option, none, some}
use mathlib.Core.Path.{◌≡◌, refl}
use native.Mathlib.Omega.{arith}
use text.Mathlib.Text.{◌==◌ as str_eq}
use text.Mathlib.TextEquality.{eq_iff}
use seafowl.Prelude.Tests.{◌==◌, ==_iff, if◌then◌else◌}

pub record Eq (K : Type 0) : Type 0 where
  pub eq : K → K → Bool
  pub eq_iff : (a b : K) → (eq a b ≡ true) ↔ (a ≡ b)

instance abbrev pub nat_eq : Eq ℕ
nat_eq = record { eq = ◌==◌; eq_iff = ==_iff }

instance abbrev pub string_eq : Eq String
string_eq = record { eq = str_eq; eq_iff = eq_iff }

module _ {K : Type 0} ⦃e : Eq K⦄ where
  unfoldable pub member : K → List K → Bool
  member k [] = false
  member k (j ∷ js) = e.eq k j || member k js

  -- `HashSet::insert`
  unfoldable pub insert_member : K → List K → List K
  insert_member k js = if member k js then js else k ∷ js

  -- `HashSet::remove`
  unfoldable pub remove_member : K → List K → List K
  remove_member k [] = []
  remove_member k (j ∷ js) = let rest = remove_member k js in if e.eq k j then rest else j ∷ rest

  pub member-insert :
      (k j : K) (js : List K) → member j (insert_member k js) ≡ (e.eq j k || member j js)
  unfolding member insert_member
  member-insert k j js = ground (arith, e.eq_iff j k)

  pub member-remove :
      (k j : K) (js : List K)
      → member j (remove_member k js) ≡ (if e.eq k j then false else member j js)
  unfolding member remove_member
  member-remove k j [] = ground arith
  member-remove k j (i ∷ js) =
      ground (arith, member-remove k j js, e.eq_iff k i, e.eq_iff k j, e.eq_iff j i)

module _ {K V : Type 0} ⦃e : Eq K⦄ where
  unfoldable pub lookup : K → List (K × V) → Option V
  lookup k [] = none
  lookup k ((j, v) ∷ l) = if e.eq k j then some v else lookup k l

  -- `get_mut` and a change of the value; nothing if the key is missing
  unfoldable pub update : K → (V → V) → List (K × V) → List (K × V)
  update k f [] = []
  update k f ((j, v) ∷ l) = (if e.eq k j then (j, f v) else (j, v)) ∷ update k f l

  -- `insert`: in place, or at the end
  unfoldable pub insert : K → V → List (K × V) → List (K × V)
  insert k v [] = (k, v) ∷ []
  insert k v ((j, w) ∷ l) = if e.eq k j then (k, v) ∷ l else (j, w) ∷ insert k v l

  -- `shift_remove`
  unfoldable pub remove : K → List (K × V) → List (K × V)
  remove k [] = []
  remove k ((j, w) ∷ l) = if e.eq k j then l else (j, w) ∷ remove k l

  -- No key twice.
  abbrev pub Unique : List (K × V) → Type 0
  Unique [] = Unit
  Unique ((k, v) ∷ l) = (lookup k l ≡ none) × Unique l

  pub lookup-update :
      (k j : K) (f : V → V) (l : List (K × V))
      → lookup j (update k f l) ≡ elim (lookup j l) as (λ _. Option V) [
        | none ↦ none
        | some v ↦ some (if e.eq k j then f v else v)
      ]
  unfolding lookup update
  lookup-update k j f [] = refl
  lookup-update k j f ((i, v) ∷ l) =
      ground (arith, lookup-update k j f l, e.eq_iff k i, e.eq_iff k j, e.eq_iff j i)

  pub lookup-insert :
      (k j : K) (v : V) (l : List (K × V))
      → lookup j (insert k v l) ≡ (if e.eq j k then some v else lookup j l)
  unfolding lookup insert
  lookup-insert k j v [] = refl
  lookup-insert k j v ((i, w) ∷ l) =
      ground (arith, lookup-insert k j v l, e.eq_iff k i, e.eq_iff j k, e.eq_iff j i)

  pub lookup-snoc :
      (k j : K) (v : V) (l : List (K × V))
      → lookup j (l ++ (k, v) ∷ []) ≡ elim (lookup j l) as (λ _. Option V) [
        | none ↦ if e.eq j k then some v else none
        | some w ↦ some w
      ]
  unfolding lookup
  lookup-snoc k j v [] = refl
  lookup-snoc k j v ((i, w) ∷ l) = ground (arith, lookup-snoc k j v l)

  pub lookup-remove :
      (k j : K) (l : List (K × V))
      → Unique l
      → lookup j (remove k l) ≡ (if e.eq k j then none else lookup j l)
  unfolding lookup remove
  lookup-remove k j [] u = ground arith
  lookup-remove k j ((i, w) ∷ l) u =
      ground (arith, lookup-remove k j l u.1, e.eq_iff k i, e.eq_iff k j, e.eq_iff j i, u.0)

  pub update-Unique : (k : K) (f : V → V) (l : List (K × V)) → Unique l → Unique (update k f l)
  unfolding update
  update-Unique k f [] u = tt
  update-Unique k f ((i, w) ∷ l) u = ground (arith, update-Unique k f l u.1, lookup-update k i f l)

  pub snoc-Unique :
      (k : K) (v : V) (l : List (K × V)) → lookup k l ≡ none → Unique l → Unique (l ++ (k, v) ∷ [])
  unfolding lookup
  snoc-Unique k v [] n u = (refl, tt)
  snoc-Unique k v ((i, w) ∷ l) n u =
      ground (arith, snoc-Unique k v l, lookup-snoc k i v l, e.eq_iff k i, e.eq_iff i k)

  pub insert-Unique : (k : K) (v : V) (l : List (K × V)) → Unique l → Unique (insert k v l)
  unfolding insert lookup
  insert-Unique k v [] u = (refl, tt)
  insert-Unique k v ((i, w) ∷ l) u =
      ground (arith, insert-Unique k v l u.1, lookup-insert k i v l, e.eq_iff k i, e.eq_iff i k)

  pub remove-Unique : (k : K) (l : List (K × V)) → Unique l → Unique (remove k l)
  unfolding remove
  remove-Unique k [] u = tt
  remove-Unique k ((i, w) ∷ l) u = ground (arith, remove-Unique k l u.1, lookup-remove k i l u.1)

  -- The sum of a measure over the values.
  unfoldable pub total : (V → ℕ) → List (K × V) → ℕ
  total f [] = 0
  total f ((k, v) ∷ l) = f v + total f l

  pub total-remove :
      (f : V → ℕ) (k : K) (v : V) (l : List (K × V))
      → lookup k l ≡ some v
      → total f (remove k l) + f v ≡ total f l
  unfolding total remove lookup
  total-remove f k v [] h = cc
  total-remove f k v ((i, w) ∷ l) h = ground (arith, total-remove f k v l)

  pub total-snoc :
      (f : V → ℕ) (k : K) (v : V) (l : List (K × V)) → total f (l ++ (k, v) ∷ []) ≡ total f l + f v
  unfolding total
  total-snoc f k v [] = omega arith
  total-snoc f k v ((i, w) ∷ l) = omega (arith, total-snoc f k v l)

  pub total-insert :
      (f : V → ℕ) (k : K) (v w : V) (l : List (K × V))
      → lookup k l ≡ some w
      → total f (insert k v l) + f w ≡ total f l + f v
  unfolding total insert lookup
  total-insert f k v w [] h = cc
  total-insert f k v w ((i, x) ∷ l) h = ground (arith, total-insert f k v w l)

  pub total-insert_new :
      (f : V → ℕ) (k : K) (v : V) (l : List (K × V))
      → lookup k l ≡ none
      → total f (insert k v l) ≡ total f l + f v
  unfolding total insert lookup
  total-insert_new f k v [] h = omega arith
  total-insert_new f k v ((i, x) ∷ l) h = ground (arith, total-insert_new f k v l)
