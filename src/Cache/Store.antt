-- ===== src/Cache/Store.antt =====
-- object_store/cache.rs, the state of `CachingObjectStore` and the effects on it.
-- The state holds the entries of the moka cache, the files below the base directory, the spawned
-- write tasks that have not finished, the count of requests to the inner store, and the counters.
use seafowl.Prelude.{
  ℕ, ◌≡◌, String, ◌⊎◌, Bool, true, false, Option, some, List, [], ◌∷◌, if◌then◌else◌, ◌==◌, ◌&&◌,
}
use seafowl.Cache.Key.{Bytes, FilePath, CacheKey, CacheValue, slice}

-- A panic is the outcome of a failed check of the language or of `unwrap`.
pub data Outcome (A : Type 0) : Type 0 where
  ok : A → Outcome A
  err : String → Outcome A
  panic : Outcome A

-- What the inner store answers to a request.
pub data Response : Type 0 where
  received : Bytes → Response
  failed : String → Response

-- `CachingObjectStoreMetrics`, the counters.
pub record Metrics : Type 0 where
  pub get_range_calls : ℕ
  pub get_range_bytes : ℕ
  pub cache_miss_bytes : ℕ
  pub cache_file_missing_errors : ℕ
  pub cache_file_write_errors : ℕ
  pub double_write_errors : ℕ
  pub deletion_errors : ℕ
  pub cache_disk_read : ℕ
  pub cache_disk_write : ℕ
  pub cache_memory_read : ℕ
  pub cache_evicted : ℕ

abbrev pub no_metrics : Metrics
no_metrics = record {
  get_range_calls = 0;
  get_range_bytes = 0;
  cache_miss_bytes = 0;
  cache_file_missing_errors = 0;
  cache_file_write_errors = 0;
  double_write_errors = 0;
  deletion_errors = 0;
  cache_disk_read = 0;
  cache_disk_write = 0;
  cache_memory_read = 0;
  cache_evicted = 0;
}

-- The moka cache. It may drop an entry at any time, and answers only with what was put in.
pub record Moka : Type 1 where
  pub Entries : Type 0
  pub get : Entries → CacheKey → Option CacheValue
  -- `entry_by_ref(key).or_insert(value)`, and whether the entry is fresh
  pub or_insert : Entries → CacheKey → CacheValue → Entries × Bool
  pub insert : Entries → CacheKey → CacheValue → Entries
  pub invalidate : Entries → CacheKey → Entries
  pub evict : Entries → CacheKey → Entries
  pub run_pending_tasks : Entries → Entries
  pub get-or_insert :
      (c : Entries) (k : CacheKey) (v : CacheValue) (j : CacheKey) (w : CacheValue)
      → get (or_insert c k v).0 j ≡ some w
      → (get c j ≡ some w) ⊎ ((j ≡ k) × (w ≡ v))
  pub get-insert :
      (c : Entries) (k : CacheKey) (v : CacheValue) (j : CacheKey) (w : CacheValue)
      → get (insert c k v) j ≡ some w
      → (get c j ≡ some w) ⊎ ((j ≡ k) × (w ≡ v))
  pub get-invalidate :
      (c : Entries) (k j : CacheKey) (w : CacheValue)
      → get (invalidate c k) j ≡ some w
      → get c j ≡ some w
  pub get-evict :
      (c : Entries) (k j : CacheKey) (w : CacheValue)
      → get (evict c k) j ≡ some w
      → get c j ≡ some w
  pub get-run_pending_tasks :
      (c : Entries) (j : CacheKey) (w : CacheValue)
      → get (run_pending_tasks c) j ≡ some w
      → get c j ≡ some w

-- The wrapped store over objects that do not change. The first argument of `fetch` counts the
-- requests made so far, so that each one may fail or not; what it returns is the range.
pub record Inner : Type 0 where
  pub content : String → Bytes
  pub fetch : ℕ → String → ℕ → ℕ → Response
  pub fetch-slice :
      (n : ℕ) (p : String) (s e : ℕ) (bytes : Bytes)
      → fetch n p s e ≡ received bytes
      → bytes ≡ slice s e (content p)

pub record State (E : Type 0) : Type 0 where
  pub cache : E
  pub files : FilePath → Option Bytes
  pub pending : List (CacheKey × Bytes)
  pub requests : ℕ
  pub metrics : Metrics

-- Code that changes the state and may fail.
abbrev pub Run : Type 0 → Type 0 → Type 0
Run E A = State E → Outcome A × State E

abbrev pub continue : {E A B : Type 0} → Outcome A → (A → Run E B) → Run E B
continue (ok a) f st = f a st
continue (err m) f st = (err m, st)
continue panic f st = (panic, st)

infixl 5 ◌>>=◌ ◌>>◌
abbrev pub ◌>>=◌ : {E A B : Type 0} → Run E A → (A → Run E B) → Run E B
◌>>=◌ m f st = let (r, st') = m st in continue r f st'

abbrev pub ◌>>◌ : {E A B : Type 0} → Run E A → Run E B → Run E B
m >> n = m >>= λ _. n

abbrev pub pure : {E A : Type 0} → A → Run E A
pure a st = (ok a, st)

abbrev pub path_eq : FilePath → FilePath → Bool
path_eq [] [] = true
path_eq (x ∷ xs) (y ∷ ys) = x == y && path_eq xs ys
path_eq _ _ = false

-- The directory after a write or a removal.
unfoldable pub set_file :
    (FilePath → Option Bytes) → FilePath → Option Bytes → FilePath → Option Bytes
set_file files p content q = if path_eq p q then content else files q
