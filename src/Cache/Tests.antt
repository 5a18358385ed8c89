-- ===== src/Cache/Tests.antt =====
-- The cache at concrete inputs: a small cache without eviction, one object of twenty bytes, and
-- chunks of eight bytes.
use Prim.Native.Char.{code}
use mathlib.Core.Path.{ap₂}
use text.Mathlib.TextEquality.{Char-path}
use seafowl.Prelude.{
  ℕ, zero, suc, ◌+◌, ◌≡◌, ◌≢◌, refl, String, ◌⊎◌, inl, inr, Bool, true, false, ◌&&◌, Option, none,
  some, List, [], ◌∷◌, All, arith, length, ◌==◌, str_eq, str_eq_iff, if◌then◌else◌, Bool-cases,
}
use seafowl.Cache.Key.{Bytes, CacheKey, CacheValue, memory, slice, Hasher, as_filename}
use seafowl.Cache.Key.Names.{as_filename_parts}
use seafowl.Cache.Store.{Outcome, ok, received, Moka, Inner, State, no_metrics, set_file}
use seafowl.Cache.Fetch
use seafowl.Cache.Fetch.{
  DiskWrite, write_done, write_failed, Turn, Event, persisted, removed, RemovalCause, expired,
  get_range, run_events, split_batch, persist,
}
use seafowl.Cache.Fetch.Sound.{Ensures, IsSound, Fails, Clean, run_events-IsSound}
use seafowl.Cache.Fetch.Range.{get_range-Ensures}
use seafowl.Cache.Fetch.PastEnd.{split_batch_unsound}

abbrev letters : String → List ℕ
letters String.[] = []
letters (String.◌∷◌ c s) = (code c + 100) ∷ letters s

letters-digits : (p : String) → All (λ c. c ≢ b'-') (letters p)
letters-digits String.[] = tt
letters-digits (String.◌∷◌ c s) = (omega arith, letters-digits s)

letters-injective : (p q : String) → letters p ≡ letters q → p ≡ q
letters-injective String.[] String.[] e = refl
letters-injective String.[] (String.◌∷◌ d t) e = cc
letters-injective (String.◌∷◌ c s) String.[] e = cc
letters-injective (String.◌∷◌ c s) (String.◌∷◌ d t) e =
    ap₂ String.◌∷◌ (Char-path c d (ground arith)) (letters-injective s t (ground arith))

abbrev hasher : Hasher
hasher = record {
  hash = letters;
  hash_digits = letters-digits;
  known = λ p. true;
  hash_injective = λ p q _ _. letters-injective p q;
}

abbrev key_eq : CacheKey → CacheKey → Bool
key_eq k j = str_eq k.path j.path && k.start == j.start && k.end == j.end

key_eq_sound : (k j : CacheKey) → key_eq k j ≡ true → k ≡ j
key_eq_sound k j h = ground (arith, str_eq_iff k.path j.path)

abbrev Map : Type 0
Map = CacheKey → Option CacheValue

abbrev put : Map → CacheKey → Option CacheValue → Map
put c k v j = if key_eq j k then v else c j

put-cases :
    (c : Map) (k : CacheKey) (v : CacheValue) (j : CacheKey) (w : CacheValue)
    → put c k (some v) j ≡ some w
    → (c j ≡ some w) ⊎ ((j ≡ k) × (w ≡ v))
put-cases c k v j w e = elim (Bool-cases (key_eq j k)) [
  | inl same ↦ inr (key_eq_sound j k same, ground arith)
  | inr other ↦ inl (ground arith)
]

abbrev or_put : Map → Option CacheValue → CacheKey → CacheValue → Map × Bool
or_put c none k v = (put c k (some v), true)
or_put c (some x) k v = (c, false)

or_put-cases :
    (c : Map) (held : Option CacheValue) (k : CacheKey) (v : CacheValue) (j : CacheKey)
    (w : CacheValue)
    → (or_put c held k v).0 j ≡ some w
    → (c j ≡ some w) ⊎ ((j ≡ k) × (w ≡ v))
or_put-cases c none k v j w e = put-cases c k v j w e
or_put-cases c (some x) k v j w e = inl e

drop-cases : (c : Map) (k j : CacheKey) (w : CacheValue) → put c k none j ≡ some w → c j ≡ some w
drop-cases c k j w e = ground arith

abbrev moka : Moka
moka = record {
  Entries = Map;
  get = λ c k. c k;
  or_insert = λ c k v. or_put c (c k) k v;
  insert = λ c k v. put c k (some v);
  invalidate = λ c k. put c k none;
  evict = λ c k. put c k none;
  run_pending_tasks = λ c. c;
  get-or_insert = λ c k v. or_put-cases c (c k) k v;
  get-insert = put-cases;
  get-invalidate = drop-cases;
  get-evict = drop-cases;
  get-run_pending_tasks = λ c j w e. e;
}

abbrev bytes_from : ℕ → ℕ → Bytes
bytes_from zero i = []
bytes_from (suc n) i = i ∷ bytes_from n (i + 1)

abbrev twenty : Bytes
twenty = bytes_from 20 0

received_slice :
    (s e : ℕ) (bytes : Bytes)
    → received (slice s e twenty) ≡ received bytes
    → bytes ≡ slice s e twenty
received_slice s e bytes h = cc

abbrev inner : Inner
inner = record {
  content = λ p. twenty;
  fetch = λ n p s e. received (slice s e twenty);
  fetch-slice = λ n p s e. received_slice s e;
}

abbrev empty : State Map
empty = record {
  cache = λ k. none;
  files = λ p. none;
  pending = [];
  requests = 0;
  metrics = no_metrics;
}

empty-IsSound : IsSound hasher moka inner empty
empty-IsSound = record { cached = λ k v e. cc; stored = λ k bytes known e. cc; waiting = tt }

-- One spawned write ends before the second chunk is read.
abbrev turns : ℕ → Turn
turns c = record { events = if c == 1 then persisted 0 write_done ∷ [] else []; readable = true }

turns-Clean : (c : ℕ) → All (Clean hasher moka inner) (turns c).events
turns-Clean c = elim (Bool-cases (c == 1)) [ inl y ↦ rw y (tt, tt) | inr n ↦ rw n tt ]

abbrev run : Outcome Bytes × State Map
run = get_range hasher moka inner 8 turns "t" 3 12 empty

program : Unit {0}
unfolding get_range Fetch.request_range Fetch.get_chunk_range Fetch.chunk_loop Fetch.chunk_round
    Fetch.chunk_data Fetch.file_data Fetch.download_again Fetch.finish_chunk Fetch.fetch_batch
    split_batch Fetch.get_range_inner Fetch.cache_chunk_data run_events Fetch.run_event persist
    Fetch.record_write Fetch.write_file Fetch.disk_write Fetch.read_file as_filename set_file
program = tt

run_bytes : (run.0 ≡ ok (3 ∷ 4 ∷ 5 ∷ 6 ∷ 7 ∷ 8 ∷ 9 ∷ 10 ∷ 11 ∷ [])) × (run.1.requests ≡ 1)
unfolding program
run_bytes = (refl, refl)

-- A request past the end, and a second one that is answered from the cache: it has bytes too many.
abbrev again : Outcome Bytes × State Map
again =
    get_range hasher moka inner 16 turns "t" 0 64
      (get_range hasher moka inner 16 turns "t" 0 64 empty).1

again_bytes : elim again.0 as (λ _. ℕ) [ ok bytes ↦ length bytes | _ ↦ 0 ] ≡ 28
unfolding program
again_bytes = refl

get_range-Ensures_example :
    Ensures
      (Fails inner)
      (IsSound hasher moka inner)
      (λ x. x ≡ slice 3 12 twenty)
      (get_range hasher moka inner 8 turns "t" 3 12 empty)
get_range-Ensures_example =
    get_range-Ensures hasher moka inner 8 turns "t" 3 12 empty refl turns-Clean (omega arith)
      (omega arith) (omega arith) (omega arith) empty-IsSound

abbrev first : CacheKey
first = record { path = "t"; start = 0; end = 8 }

run_events-IsSound_example :
    IsSound hasher moka inner
      (run_events hasher moka inner 8 (removed first (memory (1 ∷ [])) expired ∷ []) empty)
run_events-IsSound_example =
    run_events-IsSound hasher moka inner 8 (removed first (memory (1 ∷ [])) expired ∷ []) empty
      (tt, tt) empty-IsSound

as_filename_parts_example :
    (letters "t" ≡ letters "t") × (first.start ≡ first.start) × (first.end ≡ first.end)
as_filename_parts_example = as_filename_parts hasher first first refl

abbrev beyond : CacheKey
beyond = record { path = "t"; start = 24; end = 32 }

split_batch_unsound_example :
    ¬ IsSound hasher moka inner
      (split_batch hasher moka inner 8 (first ∷ beyond ∷ []) (1 ∷ []) empty).1
unfolding program
split_batch_unsound_example =
    split_batch_unsound hasher moka inner 8 first beyond (1 ∷ []) empty refl (omega arith)
      (omega arith) refl

-- The first write fails and leaves one byte. The chunk is fetched again, its write finds the file and is
-- counted as done, and the next request gets that byte for the chunk.
abbrev leaves_file : ℕ → Turn
leaves_file c = record {
  events = persisted 0 (write_failed "full" (some (0 ∷ []))) ∷ [];
  readable = true;
}

abbrev first_chunk : (ℕ → Turn) → State Map → Outcome Bytes × State Map
first_chunk turns' st = get_range hasher moka inner 8 turns' "t" 0 8 st

abbrev shortened : Outcome Bytes × State Map
shortened =
    let fetched = (first_chunk turns empty).1 in
    let broken = (first_chunk leaves_file fetched).1 in first_chunk leaves_file broken

shortened_bytes : shortened.0 ≡ ok (0 ∷ [])
unfolding program
shortened_bytes = refl
