-- ===== src/Cache/Fetch.antt =====
-- object_store/cache.rs, `CacheFileManager` and the methods of `CachingObjectStore`.
-- Between two chunks of one request other tasks run: spawned writes end, and the moka cache drops
-- entries and calls the eviction listener. What they do is an argument, one `Turn` for each chunk.
pub mod Sound
pub mod Loop
pub mod Range
pub mod PastEnd
use seafowl.Prelude.{
  ℕ, zero, suc, ◌+◌, ◌-◌, ◌*◌, ◌/◌, ◌≡◌, String, Bool, true, false, not, ◌&&◌, ◌||◌, ◌==◌, Option,
  none, some, List, [], ◌∷◌, ◌++◌, length, take, drop, ltb, if◌then◌else◌,
}
use seafowl.Cache.Key.{
  Bytes, FilePath, CacheKey, CacheValue, file, memory, size, Hasher, as_filename,
}
use seafowl.Cache.Store.{
  Outcome, ok, err, panic, Response, received, failed, Metrics, Moka, Inner, State, Run, continue,
  ◌>>=◌, ◌>>◌, pure, set_file,
}

-- `moka::notification::RemovalCause`.
pub data RemovalCause : Type 0 where
  expired explicit replaced too_large : RemovalCause

-- How `tokio::fs::write` ends: with an error it may have left a file, empty or cut off.
pub data DiskWrite : Type 0 where
  write_done : DiskWrite
  write_failed : String → Option Bytes → DiskWrite

pub data Event : Type 0 where
  -- the task at this place among the spawned ones ends, and so does its disk write
  persisted : ℕ → DiskWrite → Event
  -- the moka cache removed a value and calls the listener
  removed : CacheKey → CacheValue → RemovalCause → Event

pub record Turn : Type 0 where
  pub events : List Event
  -- whether a file that is there can be read
  pub readable : Bool

abbrev pub log : {E : Type 0} → (Metrics → Metrics) → State E → State E
log f st = record st { metrics = f st.metrics }

module _ {E : Type 0} where
  -- `tokio::fs::write`; how it ends is an argument.
  unfoldable pub disk_write : FilePath → Bytes → DiskWrite → Run E FilePath
  disk_write path bytes write_done st = (
    ok path,
    log (λ x. record x { cache_disk_write = x.cache_disk_write + length bytes })
        (record st { files = set_file st.files path (some bytes) }),
  )
  disk_write path bytes (write_failed e left) st =
      (err e, record st { files = set_file st.files path left })

  unfoldable pub write_file : FilePath → Bytes → DiskWrite → Run E FilePath
  write_file path bytes disk st = elim (st.files path) [
    | some _ ↦ (ok path, log (λ x. record x { double_write_errors = x.double_write_errors + 1 }) st)
    | none ↦ disk_write path bytes disk st
  ]

  unfoldable pub read_file : FilePath → Bool → Run E Bytes
  read_file path readable st = elim (st.files path) [
    | none ↦ (err "not found", st)
    | some bytes ↦
        if readable
        then (
          ok bytes,
          log (λ x. record x { cache_disk_read = x.cache_disk_read + length bytes }) st,
        )
        else (err "unreadable", st)
  ]

  -- `remove_file`, and the count of its failures.
  unfoldable pub remove_file : FilePath → State E → State E
  remove_file path st = elim (st.files path) [
    | some _ ↦ record st { files = set_file st.files path none }
    | none ↦ log (λ x. record x { deletion_errors = x.deletion_errors + 1 }) st
  ]

  unfoldable pub count_evicted : RemovalCause → ℕ → State E → State E
  count_evicted replaced n st = st
  count_evicted _ n st = log (λ x. record x { cache_evicted = x.cache_evicted + n }) st

  -- The listener: it deletes the file of a removed entry.
  unfoldable pub on_evict : CacheValue → RemovalCause → State E → State E
  on_evict (memory bytes) cause st = count_evicted cause (length bytes) st
  on_evict (file path n) cause st = remove_file path (count_evicted cause n st)

-- A spawned task, taken out of the list of those that have not finished.
abbrev pub pick : {A : Type 0} → ℕ → List A → Option (A × List A)
pick n [] = none
pick zero (x ∷ xs) = some (x, xs)
pick (suc n) (x ∷ xs) = elim (pick n xs) [ none ↦ none | some (y, ys) ↦ some (y, x ∷ ys) ]

module _ (h : Hasher) (mk : Moka) (inner : Inner) (min_fetch_size : ℕ) where
  open mk use {Entries, get, or_insert, insert, invalidate, evict, run_pending_tasks}

  abbrev pub Store : Type 0
  Store = State Entries

  abbrev pub Action : Type 0 → Type 0
  Action A = Run Entries A

  unfoldable pub get_range_inner : String → ℕ → ℕ → Action Bytes
  get_range_inner location s e st =
      let result = inner.fetch st.requests location s e in
      let asked = record st { requests = st.requests + 1 } in
      elim result [
        | received bytes ↦ (
          ok bytes,
          log (λ x. record x { cache_miss_bytes = x.cache_miss_bytes + length bytes }) asked,
        )
        | failed e ↦ (err e, asked)
      ]

  -- The match on the result of the write.
  unfoldable pub record_write : CacheKey → ℕ → Outcome FilePath → Store → Store
  record_write key n (ok path) st = record st { cache = insert st.cache key (file path n) }
  record_write key n _ st =
      log (λ x. record x { cache_file_write_errors = x.cache_file_write_errors + 1 })
        (record st { cache = invalidate st.cache key })

  -- The task that `cache_chunk_data` spawns, run to its end.
  unfoldable pub persist : CacheKey → Bytes → DiskWrite → Store → Store
  persist key bytes disk st =
      let ready = record st { cache = run_pending_tasks st.cache } in
      let (written, after) = write_file (as_filename h key) bytes disk ready in
      record_write key (length bytes) written after

  unfoldable pub cache_chunk_data : CacheKey → Bytes → Action (Unit {0})
  cache_chunk_data key bytes st =
      let (cache, is_fresh) = or_insert st.cache key (memory bytes) in
      let stored = record st { cache = cache } in
      (ok tt, if is_fresh then record stored { pending = (key, bytes) ∷ st.pending } else stored)

  unfoldable pub run_event : Event → Store → Store
  run_event (persisted n disk) st = elim (pick n st.pending) [
    | none ↦ st
    | some ((key, bytes), rest) ↦ persist key bytes disk (record st { pending = rest })
  ]
  run_event (removed key value cause) st =
      on_evict value cause
        (elim cause [ replaced ↦ st | _ ↦ record st { cache = evict st.cache key } ])

  unfoldable pub run_events : List Event → Store → Store
  run_events [] st = st
  run_events (x ∷ xs) st = run_events xs (run_event x st)

  -- A file that cannot be read: the chunk is downloaded and cached again.
  unfoldable pub download_again : CacheKey → Action (Option Bytes)
  download_again key = do
    bytes ← get_range_inner key.path key.start key.end
    cache_chunk_data key bytes
    pure (some bytes)

  -- The match on the result of reading a file.
  unfoldable pub file_data : CacheKey → Outcome Bytes → Action (Option Bytes)
  file_data key (ok bytes) st = (ok (some bytes), st)
  file_data key _ st =
      download_again key
        (log (λ x. record x { cache_file_missing_errors = x.cache_file_missing_errors + 1 }) st)

  -- The match on what the cache holds for a chunk: its bytes, if they are at hand.
  unfoldable pub chunk_data : Bool → CacheKey → Option CacheValue → Action (Option Bytes)
  chunk_data readable key none st = (ok none, st)
  chunk_data readable key (some (memory bytes)) st = (
    ok (some bytes),
    log (λ x. record x { cache_memory_read = x.cache_memory_read + length bytes }) st,
  )
  chunk_data readable key (some (file path n)) st =
      let (found, after) = read_file path readable st in file_data key found after

  -- The loop that hands the bytes of a batch out to its chunks.
  unfoldable pub split_batch : List CacheKey → Bytes → Action (Unit {0})
  split_batch [] bytes = pure tt
  split_batch (key ∷ keys) bytes =
      let short = ltb (length bytes) min_fetch_size in
      cache_chunk_data key (if short then bytes else take min_fetch_size bytes)
      >> split_batch keys (if short then bytes else drop min_fetch_size bytes)

  abbrev pub last_end : CacheKey → List CacheKey → ℕ
  last_end k [] = k.end
  last_end k (j ∷ js) = last_end j js

  -- Fetches the outstanding batch, if there is one, and caches its chunks.
  unfoldable pub fetch_batch : String → List CacheKey → Bytes → Action Bytes
  fetch_batch location [] result = pure result
  fetch_batch location (first ∷ rest) result = do
    bytes ← get_range_inner location first.start (last_end first rest)
    split_batch (first ∷ rest) bytes
    pure (result ++ bytes)

  abbrev pub chunk_key : String → ℕ → CacheKey
  chunk_key location chunk = record {
    path = location;
    start = chunk * min_fetch_size;
    end = (chunk + 1) * min_fetch_size;
  }

  -- The end of a round: `found` is `chunk_data`, and `is_last` tells the last chunk.
  unfoldable pub finish_chunk :
      String → Bool → Option Bytes → List CacheKey → Bytes → Action (List CacheKey × Bytes)
  finish_chunk location is_last (some bytes) batch result = do
    fetched ← fetch_batch location batch result
    pure ([], fetched ++ bytes)
  finish_chunk location true none batch result = do
    fetched ← fetch_batch location batch result
    pure ([], fetched)
  finish_chunk location false none batch result = pure (batch, result)

  -- One round of the loop over the chunks.
  unfoldable pub chunk_round :
      Turn → String → ℕ → Bool → List CacheKey → Bytes → Action (List CacheKey × Bytes)
  chunk_round turn location chunk is_last batch result st =
      let key = chunk_key location chunk in
      let now = run_events turn.events st in
      let held = get now.cache key in
      let batch' : List CacheKey = elim held [ none ↦ batch ++ (key ∷ []) | some _ ↦ batch ] in
      (do
        found ← chunk_data turn.readable key held
        finish_chunk location is_last found batch' result)
        now

  -- The loop, over the rounds that are left; `chunk + left` is one past the last chunk.
  unfoldable pub chunk_loop : (ℕ → Turn) → String → ℕ → ℕ → List CacheKey → Bytes → Action Bytes
  chunk_loop turns location zero chunk batch result = pure result
  chunk_loop turns location (suc left) chunk batch result = do
    (batch', result') ← chunk_round (turns chunk) location chunk (left == 0) batch result
    chunk_loop turns location left (chunk + 1) batch' result'

  unfoldable pub get_chunk_range : (ℕ → Turn) → String → ℕ → ℕ → Action Bytes
  get_chunk_range turns location start_chunk end_chunk =
      chunk_loop turns location (end_chunk + 1 - start_chunk) start_chunk [] []

  -- `Bytes::advance` past the end panics.
  abbrev pub advance : Bytes → ℕ → Outcome Bytes
  advance bytes n = if ltb (length bytes) n then panic else ok (drop n bytes)

  -- The body of `get_range` after its checks.
  unfoldable pub request_range : (ℕ → Turn) → String → ℕ → ℕ → Action Bytes
  request_range turns location s e =
      let start_chunk = s / min_fetch_size in
      get_chunk_range turns location start_chunk ((e - 1) / min_fetch_size) >>= λ bytes st.
      continue (advance bytes (s - start_chunk * min_fetch_size)) (λ rest. pure (take (e - s) rest))
        st

  -- A zero chunk size divides by zero, and an end below the start or at 0 underflows.
  unfoldable pub get_range : (ℕ → Turn) → String → ℕ → ℕ → Action Bytes
  get_range turns location s e st =
      if ltb e s || e == 0 || min_fetch_size == 0
      then (panic, st)
      else request_range turns location s e (
          log
            (λ x. record x {
              get_range_calls = x.get_range_calls + 1;
              get_range_bytes = x.get_range_bytes + (e - s);
            })
            st)
