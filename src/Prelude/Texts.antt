-- ===== src/Prelude/Texts.antt =====
-- Rust's operations on texts, character by character.
use Prim.Native.Nat.{ℕ, zero, suc}
use Prim.Native.Char.{Char, code}
use Prim.Native.String.{String, [], ◌∷◌}
use mathlib.Core.Bool.{Bool}
use mathlib.Core.Option.{Option, none, some}
use package.seafowl.Prelude.Tests.{◌==◌, if◌then◌else◌}

abbrev pub char_eq : Char → Char → Bool
char_eq c d = code c == code d

-- `chars().count()`
abbrev pub char_count : String → ℕ
char_count [] = 0
char_count (c ∷ s) = suc (char_count s)

-- `s.strip_prefix(p)`
unfoldable pub strip_prefix : String → String → Option String
strip_prefix s [] = some s
strip_prefix [] (d ∷ p) = none
strip_prefix (c ∷ s) (d ∷ p) = if char_eq c d then strip_prefix s p else none

-- `trim_start_matches`, in `fuel` rounds.
unfoldable pub strip_all : ℕ → String → String → String
unfolding strip_prefix
strip_all zero p s = s
strip_all (suc fuel) p s = elim (strip_prefix s p) [ none ↦ s | some rest ↦ strip_all fuel p rest ]

-- Each round takes a character at least, so one for each character is enough.
unfoldable pub trim_start_matches : String → String → String
unfolding strip_all
trim_start_matches p s = strip_all (char_count s) p s

-- `split(c).next()`
unfoldable pub before_char : Char → String → String
before_char d [] = []
before_char d (c ∷ s) = if char_eq c d then [] else c ∷ before_char d s

-- `split(c).last()`, where what is read since the last separator is `s`.
unfoldable pub last_part : Char → String → String → String
last_part d s [] = s
last_part d s (c ∷ rest) = if char_eq c d then last_part d rest rest else last_part d s rest

unfoldable pub after_last : Char → String → String
unfolding last_part
after_last d s = last_part d s s
