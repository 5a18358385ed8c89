-- ===== src/Options.antt =====
-- object_store_factory/src: options of object stores. A hash map is an association list; the keys
-- that the object_store crate knows, and the texts of the keys, are an interface.
pub mod Keys
pub mod Aws
pub mod Google
pub mod Local
pub mod Factory
mod Tests
use seafowl.Prelude.{
  String, Bool, true, false, not, Option, none, some, List, [], ◌∷◌, str_eq, if◌then◌else◌, ◌≡◌,
}
use seafowl.Prelude.Map.{Eq, string_eq, lookup, insert, remove}

abbrev pub Map : Type 0
Map = List (String × String)

-- `object_store::Error`, by where it comes from, and a panic.
pub data StoreError : Type 0 where
  unknown_key : String → StoreError
  missing_data_dir unsupported_object_store unsupported_url_scheme build_failed : StoreError

pub data Outcome (A : Type 0) : Type 0 where
  ok : A → Outcome A
  err : StoreError → Outcome A
  panic : Outcome A

infixl 5 ◌>>=◌
abbrev pub ◌>>=◌ : {A B : Type 0} → Outcome A → (A → Outcome B) → Outcome B
ok a >>= f = f a
err e >>= f = err e
panic >>= f = panic

-- `Option::unwrap`
abbrev pub unwrap : {A : Type 0} → Option A → Outcome A
unwrap none = panic
unwrap (some a) = ok a

-- `bool::to_string`
abbrev pub bool_text : Bool → String
bool_text true = "true"
bool_text false = "false"

-- `.map(|s| s != "false").unwrap_or(true)`
abbrev pub is_not_false : Option String → Bool
is_not_false none = true
is_not_false (some s) = not (str_eq s "false")

-- `.map(|s| s == "true").unwrap_or(false)`
abbrev pub is_true : Option String → Bool
is_true none = false
is_true (some s) = str_eq s "true"

-- `if let Some(v) = .. { map.insert(key, v) }`
unfoldable pub insert_some : {K V : Type 0} ⦃e : Eq K⦄ → K → Option V → List (K × V) → List (K × V)
insert_some key none m = m
insert_some key (some v) m = insert key v m

-- A loop that parses each key, and stops at the first that is not known.
unfoldable pub map_options :
    {C : Type 0} ⦃e : Eq C⦄
    → (String → Option C)
    → Map
    → List (C × String)
    → Outcome (List (C × String))
map_options from_str [] mapped = ok mapped
map_options from_str ((key, v) ∷ options) mapped = elim (from_str key) [
  | none ↦ err (unknown_key key)
  | some config_key ↦ map_options from_str options (insert config_key v mapped)
]

-- The options that are read, key by key, or how it ends without them.
abbrev pub Reads :
    {C : Type 0} ⦃e : Eq C⦄ → Outcome (List (C × String)) → Outcome (C → Option String) → Type 0
Reads {C} (ok m) (ok f) = (k : C) → lookup k m ≡ f k
Reads (err e) (err d) = e ≡ d
Reads panic panic = Unit
Reads _ _ = ⊥
