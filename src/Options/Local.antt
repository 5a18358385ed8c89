-- ===== src/Options/Local.antt =====
-- object_store_factory/src/local.rs.
use seafowl.Prelude.{◌≡◌, refl, ap, String, Bool, true, false, Option, none, some, []}
use seafowl.Prelude.Map.{string_eq, lookup, insert}
use seafowl.Options.{Map, missing_data_dir, Outcome, ok, err, ◌>>=◌, bool_text, is_true}

pub record LocalConfig : Type 0 where
  pub data_dir : String
  pub disable_hardlinks : Bool

abbrev pub data_dir_of : Option String → Outcome String
data_dir_of none = err missing_data_dir
data_dir_of (some s) = ok s

unfoldable pub from_hashmap : Map → Outcome LocalConfig
from_hashmap m = data_dir_of (lookup "data_dir" m) >>= λ data_dir.
    ok (record { data_dir = data_dir; disable_hardlinks = is_true (lookup "disable_hardlinks" m) })

unfoldable pub to_hashmap : LocalConfig → Map
to_hashmap c =
    insert "disable_hardlinks" (bool_text c.disable_hardlinks) (insert "data_dir" c.data_dir [])

is_true-bool_text : (b : Bool) → is_true (some (bool_text b)) ≡ b
is_true-bool_text true = refl
is_true-bool_text false = refl

-- A local config that is written to a map is read back from it.
pub from_hashmap-to_hashmap : (c : LocalConfig) → from_hashmap (to_hashmap c) ≡ ok c
unfolding from_hashmap to_hashmap lookup insert
from_hashmap-to_hashmap c =
    ap (λ b. ok (record { data_dir = c.data_dir; disable_hardlinks = b }))
      (is_true-bool_text c.disable_hardlinks)
