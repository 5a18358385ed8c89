-- ===== src/Cache/Fetch/Sound.antt =====
-- Every byte that the cache holds is a byte of the object: the invariant, kept by every effect.
use seafowl.Prelude.{
  ℕ, zero, suc, ◌≡◌, refl, ap, ◌∙◌, sym, String, ◌⊎◌, inl, inr, true, Option, none, some, List, [],
  ◌∷◌, All, length, arith, Bool-cases, Option-cases,
}
use mathlib.Core.Option.{some-injective}
use mathlib.Core.Path.{subst}
use seafowl.Cache.Key.{
  Bytes, FilePath, CacheKey, CacheValue, file, memory, slice, Hasher, as_filename,
}
use seafowl.Cache.Key.Names.{as_filename-injective}
use seafowl.Cache.Store.{
  Outcome, ok, err, panic, Response, received, failed, Metrics, Moka, Inner, State, Run, continue,
  set_file, path_eq,
}
use seafowl.Cache.Fetch.{
  DiskWrite, write_done, write_failed, Event, persisted, removed, RemovalCause, replaced,
  disk_write, write_file, remove_file, count_evicted, on_evict, pick, get_range_inner, persist,
  record_write, cache_chunk_data, run_event, run_events,
}

-- The inner store fails a request.
abbrev pub Fails : Inner → Type 0
Fails inner =
    (n : ℕ) × (p : String) × (s : ℕ) × (e : ℕ) × (x : String) × (inner.fetch n p s e ≡ failed x)

-- The state after a step has the property `P`; a value that it returns has `Q`; an error has the
-- cause `F`; and it does not panic.
abbrev pub Ensures :
    {E A : Type 0} → Type 0 → (State E → Type 0) → (A → Type 0) → Outcome A × State E → Type 0
Ensures F P Q (ok a, st) = P st × Q a
Ensures F P Q (err e, st) = P st × F
Ensures F P Q (panic, st) = ⊥

pub Ensures-bind :
    {E A B : Type 0} (F : Type 0) (P : State E → Type 0) (Q : A → Type 0) (R : B → Type 0)
    (m : Outcome A × State E) (f : A → Run E B)
    → Ensures F P Q m
    → ((a : A) (st : State E) → P st → Q a → Ensures F P R (f a st))
    → Ensures F P R (continue m.0 f m.1)
Ensures-bind F P Q R (ok a, st) f h k = k a st h.0 h.1
Ensures-bind F P Q R (err e, st) f h k = h
Ensures-bind F P Q R (panic, st) f h k = h

path_eq_sound : (p q : FilePath) → path_eq p q ≡ true → p ≡ q
path_eq_sound [] [] h = refl
path_eq_sound [] (y ∷ ys) h = cc
path_eq_sound (x ∷ xs) [] h = cc
path_eq_sound (x ∷ xs) (y ∷ ys) h = ground (arith, path_eq_sound xs ys)

Response-cases :
    (r : Response) → ((bytes : Bytes) × (r ≡ received bytes)) ⊎ ((e : String) × (r ≡ failed e))
Response-cases (received bytes) = inl (bytes, refl)
Response-cases (failed e) = inr (e, refl)

-- The task that is taken out has what all of them have, and so do those that stay.
pick-All :
    {A : Type 0} (P : A → Type 0) (n : ℕ) (l : List A)
    → All P l
    → (x : A) (rest : List A) → pick n l ≡ some (x, rest)
    → P x × All P rest
pick-All P n [] a x rest e = cc
pick-All {A} P zero (y ∷ l) a x rest e =
    subst (λ (z : A × List A). P z.0 × All P z.1) (some-injective _ _ e) a
pick-All {A} P (suc n) (y ∷ l) a x rest e = elim (Option-cases (pick n l)) [
  | inl none' ↦ cc (rw none' at e)
  | inr ((z, zs), found) ↦
      let (pz, pzs) = pick-All P n l a.1 z zs found in
      subst (λ (w : A × List A). P w.0 × All P w.1) (some-injective _ _ (rw found at e))
        (pz, (a.0, pzs))
]

set_file-cases :
    (files : FilePath → Option Bytes) (p q : FilePath) (new : Option Bytes) (bytes : Bytes)
    → set_file files p new q ≡ some bytes
    → (files q ≡ some bytes) ⊎ ((p ≡ q) × (new ≡ some bytes))
unfolding set_file
set_file-cases files p q new bytes e = elim (Bool-cases (path_eq p q)) [
  | inl same ↦ inr (path_eq_sound p q same, rw (same, set_file) at e)
  | inr other ↦ inl (rw (other, set_file) at e)
]

module _ (h : Hasher) (mk : Moka) (inner : Inner) where
  -- The bytes that a key stands for.
  abbrev pub contents : CacheKey → Bytes
  contents k = slice k.start k.end (inner.content k.path)

  -- What a value in the cache must be, under its key.
  abbrev pub Holds : CacheKey → CacheValue → Type 0
  Holds k (memory bytes) = bytes ≡ contents k
  Holds k (file path n) = path ≡ as_filename h k

  -- The object of the key is one of those that the cache is asked for.
  abbrev pub Known : CacheKey → Type 0
  Known k = h.known k.path ≡ true

  abbrev pub Waiting : CacheKey × Bytes → Type 0
  Waiting (k, bytes) = Known k × (bytes ≡ contents k)

  -- A disk write that fails leaves no file behind.
  abbrev pub CleanWrite : DiskWrite → Type 0
  CleanWrite write_done = Unit
  CleanWrite (write_failed e none) = Unit
  CleanWrite (write_failed e (some bytes)) = ⊥

  abbrev pub Clean : Event → Type 0
  Clean (persisted n disk) = CleanWrite disk
  Clean (removed key value cause) = Unit

  pub record IsSound (st : State mk.Entries) : Type 0 where
    pub cached : (k : CacheKey) (v : CacheValue) → mk.get st.cache k ≡ some v → Holds k v
    pub stored :
        (k : CacheKey) (bytes : Bytes)
        → Known k
        → st.files (as_filename h k) ≡ some bytes
        → bytes ≡ contents k
    pub waiting : All Waiting st.pending

  pub log-IsSound :
      (x : Metrics) (st : State mk.Entries) → IsSound st → IsSound (record st { metrics = x })
  log-IsSound x st s = record { cached = s.cached; stored = s.stored; waiting = s.waiting }

  -- A request to the inner store returns the bytes of its range, and changes no data.
  pub get_range_inner-Ensures :
      (location : String) (s e m : ℕ) (st : State mk.Entries)
      → IsSound st
      → Ensures
          (Fails inner)
          IsSound
          (λ bytes. bytes ≡ slice s e (inner.content location))
          (get_range_inner h mk inner m location s e st)
  unfolding get_range_inner
  get_range_inner-Ensures location s e m st sound =
      elim (Response-cases (inner.fetch st.requests location s e)) [
        | inl (bytes, r) ↦
            rw (r, get_range_inner)
              (
                record { cached = sound.cached; stored = sound.stored; waiting = sound.waiting },
                inner.fetch-slice st.requests location s e bytes r,
              )
        | inr (x, r) ↦
            rw (r, get_range_inner)
              (
                record { cached = sound.cached; stored = sound.stored; waiting = sound.waiting },
                (st.requests, location, s, e, x, r),
              )
      ]

  -- A new set of entries, each of them an old one or right.
  entries-IsSound :
      (st : State mk.Entries) (c : mk.Entries)
      → IsSound st
      → ((k : CacheKey) (v : CacheValue)
          → mk.get c k ≡ some v
          → (mk.get st.cache k ≡ some v) ⊎ Holds k v)
      → IsSound (record st { cache = c })
  entries-IsSound st c s old = record {
    cached = λ k v e. elim (old k v e) [ inl was ↦ s.cached k v was | inr right ↦ right ];
    stored = s.stored;
    waiting = s.waiting;
  }

  put_value :
      (key : CacheKey) (value : CacheValue)
      → Holds key value
      → (k : CacheKey) (v : CacheValue) → (k ≡ key) × (v ≡ value)
      → Holds k v
  put_value key value right k v (ek, ev) = rw (ek, ev) right

  pub cache_chunk_data-Ensures :
      (key : CacheKey) (bytes : Bytes) (m : ℕ) (st : State mk.Entries)
      → Known key
      → bytes ≡ contents key
      → IsSound st
      → Ensures (Fails inner) IsSound (λ _. Unit {0}) (cache_chunk_data h mk inner m key bytes st)
  unfolding cache_chunk_data
  cache_chunk_data-Ensures key bytes m st known e s =
      let c = (mk.or_insert st.cache key (memory bytes)).0 in
      let stored : IsSound (record st { cache = c }) = entries-IsSound st c s (λ k v got.
        elim (mk.get-or_insert st.cache key (memory bytes) k v got) [
          | inl was ↦ inl was
          | inr new ↦ inr (put_value key (memory bytes) e k v new)
        ]) in
      elim (Bool-cases (mk.or_insert st.cache key (memory bytes)).1) [
        | inl fresh ↦
            rw (fresh, cache_chunk_data)
              (
                record {
                  cached = stored.cached;
                  stored = stored.stored;
                  waiting = ((known, e), stored.waiting);
                },
                tt,
              )
        | inr stale ↦ rw (stale, cache_chunk_data) (stored, tt)
      ]

  -- A new directory, each file of it an old one or right.
  files-IsSound :
      (st : State mk.Entries) (files : FilePath → Option Bytes)
      → IsSound st
      → ((k : CacheKey) (bytes : Bytes)
          → Known k
          → files (as_filename h k) ≡ some bytes
          → (st.files (as_filename h k) ≡ some bytes) ⊎ (bytes ≡ contents k))
      → IsSound (record st { files = files })
  files-IsSound st files s old = record {
    cached = s.cached;
    stored = λ k bytes known e. elim (old k bytes known e) [
      | inl was ↦ s.stored k bytes known was
      | inr right ↦ right
    ];
    waiting = s.waiting;
  }

  -- Writing the bytes of a key into its file: another key with that file is the same key.
  written-IsSound :
      (key : CacheKey) (bytes : Bytes) (st : State mk.Entries)
      → Known key
      → bytes ≡ contents key
      → IsSound st
      → IsSound (record st { files = set_file st.files (as_filename h key) (some bytes) })
  written-IsSound key bytes st mine e s = files-IsSound st _ s λ k d known got.
      elim (set_file-cases st.files (as_filename h key) (as_filename h k) (some bytes) d got) [
        | inl was ↦ inl was
        | inr (same, new) ↦ inr (
            sym (some-injective _ _ new)
            ∙ e
            ∙ ap contents (as_filename-injective h key k mine known same))
      ]

  insert-IsSound :
      (key : CacheKey) (v : CacheValue) (st : State mk.Entries)
      → Holds key v
      → IsSound st
      → IsSound (record st { cache = mk.insert st.cache key v })
  insert-IsSound key v st right s = entries-IsSound st (mk.insert st.cache key v) s λ k w got.
      elim (mk.get-insert st.cache key v k w got) [
        | inl was ↦ inl was
        | inr new ↦ inr (put_value key v right k w new)
      ]

  invalidate-IsSound :
      (key : CacheKey) (st : State mk.Entries)
      → IsSound st
      → IsSound (record st { cache = mk.invalidate st.cache key })
  invalidate-IsSound key st s =
      entries-IsSound st (mk.invalidate st.cache key) s
        λ k w got. inl (mk.get-invalidate st.cache key k w got)

  evict-IsSound :
      (key : CacheKey) (st : State mk.Entries)
      → IsSound st
      → IsSound (record st { cache = mk.evict st.cache key })
  evict-IsSound key st s =
      entries-IsSound st (mk.evict st.cache key) s
        λ k w got. inl (mk.get-evict st.cache key k w got)

  record_write-IsSound :
      (key : CacheKey) (n m : ℕ) (r : Outcome FilePath × State mk.Entries)
      → Ensures (Unit {0}) IsSound (λ path. path ≡ as_filename h key) r
      → IsSound (record_write h mk inner m key n r.0 r.1)
  unfolding record_write
  record_write-IsSound key n m (ok path, st) p = insert-IsSound key (file path n) st p.1 p.0
  record_write-IsSound key n m (err x, st) s = log-IsSound _ _ (invalidate-IsSound key st s.0)
  record_write-IsSound key n m (panic, st) s = absurd s

  no_file_left : (bytes : Bytes) → none ≡ some bytes → ⊥
  no_file_left bytes e = cc

  -- A file that goes away takes nothing wrong with it.
  removal-IsSound :
      (path : FilePath) (st : State mk.Entries)
      → IsSound st
      → IsSound (record st { files = set_file st.files path none })
  removal-IsSound path st s = files-IsSound st _ s λ k d known got.
      elim (set_file-cases st.files path (as_filename h k) none d got) [
        | inl was ↦ inl was
        | inr (_, no_file) ↦ absurd (no_file_left d no_file)
      ]

  disk_write-Ensures :
      (key : CacheKey) (bytes : Bytes) (disk : DiskWrite) (st : State mk.Entries)
      → CleanWrite disk
      → Known key
      → bytes ≡ contents key
      → IsSound st
      → Ensures
          (Unit {0})
          IsSound
          (λ path. path ≡ as_filename h key)
          (disk_write (as_filename h key) bytes disk st)
  unfolding disk_write
  disk_write-Ensures key bytes write_done st clean known e s =
      (log-IsSound _ _ (written-IsSound key bytes st known e s), refl)
  disk_write-Ensures key bytes (write_failed x none) st clean known e s =
      (removal-IsSound (as_filename h key) st s, tt)
  disk_write-Ensures key bytes (write_failed x (some left)) st clean known e s = absurd clean

  write_file-Ensures :
      (key : CacheKey) (bytes : Bytes) (disk : DiskWrite) (st : State mk.Entries)
      → CleanWrite disk
      → Known key
      → bytes ≡ contents key
      → IsSound st
      → Ensures
          (Unit {0})
          IsSound
          (λ path. path ≡ as_filename h key)
          (write_file (as_filename h key) bytes disk st)
  unfolding write_file
  write_file-Ensures key bytes disk st clean known e s =
      elim (Option-cases (st.files (as_filename h key))) [
        | inr (old, there) ↦ rw (there, write_file) (log-IsSound _ st s, refl)
        | inl free ↦ rw (free, write_file) (disk_write-Ensures key bytes disk st clean known e s)
      ]

  -- The write task keeps the invariant, unless it leaves a broken file.
  pub persist-IsSound :
      (key : CacheKey) (bytes : Bytes) (disk : DiskWrite) (m : ℕ) (st : State mk.Entries)
      → CleanWrite disk
      → Known key
      → bytes ≡ contents key
      → IsSound st
      → IsSound (persist h mk inner m key bytes disk st)
  unfolding persist
  persist-IsSound key bytes disk m st clean known e s =
      let ready : State mk.Entries = record st { cache = mk.run_pending_tasks st.cache } in
      let start : IsSound ready =
        entries-IsSound st _ s (λ k w got. inl (mk.get-run_pending_tasks st.cache k w got)) in
      record_write-IsSound key (length bytes) m _
        (write_file-Ensures key bytes disk ready clean known e start)

  remove_file-IsSound :
      (path : FilePath) (st : State mk.Entries) → IsSound st → IsSound (remove_file path st)
  unfolding remove_file
  remove_file-IsSound path st s = elim (Option-cases (st.files path)) [
    | inl gone ↦ rw (gone, remove_file) (log-IsSound _ st s)
    | inr (bytes, there) ↦ rw (there, remove_file) (removal-IsSound path st s)
  ]

  count_evicted-IsSound :
      (cause : RemovalCause) (n : ℕ) (st : State mk.Entries)
      → IsSound st
      → IsSound (count_evicted cause n st)
  unfolding count_evicted
  count_evicted-IsSound replaced n st s = s
  count_evicted-IsSound _ n st s = log-IsSound _ st s

  on_evict-IsSound :
      (value : CacheValue) (cause : RemovalCause) (st : State mk.Entries)
      → IsSound st
      → IsSound (on_evict value cause st)
  unfolding on_evict
  on_evict-IsSound (memory bytes) cause st s = count_evicted-IsSound cause _ st s
  on_evict-IsSound (file path n) cause st s =
      remove_file-IsSound path _ (count_evicted-IsSound cause n st s)

  -- The invariant stays, unless a write leaves a broken file.
  run_event-IsSound :
      (m : ℕ) (x : Event) (st : State mk.Entries)
      → Clean x
      → IsSound st
      → IsSound (run_event h mk inner m x st)
  unfolding run_event
  run_event-IsSound m (persisted n disk) st clean s = elim (Option-cases (pick n st.pending)) [
    | inl gone ↦ rw (gone, run_event) s
    | inr (((key, bytes), rest), found) ↦
        let (right, others) = pick-All Waiting n st.pending s.waiting (key, bytes) rest found in
        rw (found, run_event)
          (persist-IsSound key bytes disk m (record st { pending = rest }) clean right.0 right.1
            (record { cached = s.cached; stored = s.stored; waiting = others }))
  ]
  run_event-IsSound m (removed key value replaced) st clean s = on_evict-IsSound value replaced st s
  run_event-IsSound m (removed key value cause) st clean s =
      on_evict-IsSound value cause _ (evict-IsSound key st s)

  -- Whatever spawned tasks end, each as one step, and whatever entries the cache drops, in any order, a
  -- sound cache stays sound, as long as no disk write that fails leaves a file behind: each entry
  -- that is in memory, each file of a known object and each waiting write has the bytes of its key,
  -- and each entry on disk names the file of its key.
  pub run_events-IsSound :
      (m : ℕ) (xs : List Event) (st : State mk.Entries)
      → All Clean xs
      → IsSound st
      → IsSound (run_events h mk inner m xs st)
  unfolding run_events
  run_events-IsSound m [] st clean s = s
  run_events-IsSound m (x ∷ xs) st clean s =
      run_events-IsSound m xs (run_event h mk inner m x st) clean.1
        (run_event-IsSound m x st clean.0 s)
