-- ===== src/Cache/Key.antt =====
-- object_store/cache.rs, `CacheKey` and `CacheValue`, and the file name of a key.
mod Decimal
pub mod Names
pub mod Windows
pub mod Chunks
use seafowl.Prelude.{
  ℕ, ◌+◌, ◌-◌, String, ◌≡◌, Bool, true, Option, List, [], ◌∷◌, ◌++◌, length, take, drop, All, ◌≢◌,
}
use Decimal.{decimal}

abbrev pub Bytes : Type 0
Bytes = List ℕ

-- A path below the cache's base directory, as character codes.
abbrev pub FilePath : Type 0
FilePath = List ℕ

-- A byte range of one object; `end` is exclusive.
pub record CacheKey : Type 0 where
  pub path : String
  pub start : ℕ
  pub end : ℕ

pub data CacheValue : Type 0 where
  file : FilePath → ℕ → CacheValue
  memory : Bytes → CacheValue

unfoldable pub size : CacheValue → ℕ
size (file path n) = n
size (memory bytes) = length bytes

-- The bytes from `s` up to `e`, cut at the end of the object.
abbrev pub slice : ℕ → ℕ → Bytes → Bytes
slice s e bytes = take (e - s) (drop s bytes)

-- `str_to_hex_hash`: hexadecimal digits, so no dash. A hash of 256 bits has collisions; it is only
-- taken that there is none among the known objects, which are those that the cache is asked for.
pub record Hasher : Type 0 where
  pub hash : String → List ℕ
  pub hash_digits : (p : String) → All (λ c. c ≢ b'-') (hash p)
  pub known : String → Bool
  pub hash_injective : (p q : String) → known p ≡ true → known q ≡ true → hash p ≡ hash q → p ≡ q

unfoldable pub as_filename : Hasher → CacheKey → FilePath
unfolding decimal
as_filename h k = h.hash k.path ++ (b'-' ∷ (decimal k.start ++ (b'-' ∷ decimal k.end)))
