-- ===== src/Cache/Key/Names.antt =====
-- object_store/cache.rs, `CacheKey::as_filename`: which keys share a file.
use seafowl.Prelude.{◌≡◌, true, arith}
use seafowl.Cache.Key.{CacheKey, Hasher, as_filename}
use seafowl.Cache.Key.Decimal.{decimal, decimal-injective, decimal-digits, split_at_dash}

-- Two keys with the same file name have the same start, the same end, and objects with the same hash.
pub as_filename_parts :
    (h : Hasher) (k j : CacheKey)
    → as_filename h k ≡ as_filename h j
    → (h.hash k.path ≡ h.hash j.path) × (k.start ≡ j.start) × (k.end ≡ j.end)
unfolding as_filename
as_filename_parts h k j e =
    let (paths, rest) =
      split_at_dash (h.hash k.path) (h.hash j.path) _ _ (h.hash_digits k.path)
        (h.hash_digits j.path) e in
    let (starts, ends) =
      split_at_dash (decimal k.start) (decimal j.start) _ _ (decimal-digits k.start)
        (decimal-digits j.start) rest in
    (paths, decimal-injective k.start j.start starts, decimal-injective k.end j.end ends)

-- So no two keys of known objects share a file.
pub as_filename-injective :
    (h : Hasher) (k j : CacheKey)
    → h.known k.path ≡ true
    → h.known j.path ≡ true
    → as_filename h k ≡ as_filename h j
    → k ≡ j
as_filename-injective h k j a b e =
    let (paths, starts, ends) = as_filename_parts h k j e in
    ground (arith, h.hash_injective k.path j.path a b paths, starts, ends)
