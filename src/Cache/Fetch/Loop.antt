-- ===== src/Cache/Fetch/Loop.antt =====
-- The loop of `get_chunk_range`: it returns the bytes of its chunks and keeps the cache sound.
use seafowl.Prelude.{
  ℕ, zero, suc, ◌+◌, ◌-◌, ◌*◌, ◌≤◌, ◌<◌, ◌≡◌, refl, sym, ap, ◌∙◌, String, inl, inr, Bool, true,
  false, Option, none, some, List, [], ◌∷◌, ◌++◌, All, length, take, drop, arith, ltb,
  if◌then◌else◌, ltb→lt, ◌==◌, ==_iff, Bool-cases, Option-cases,
}
use mathlib.Core.Path.{ap₂}
use seafowl.Cache.Key.{
  Bytes, FilePath, CacheKey, CacheValue, file, memory, slice, Hasher, as_filename,
}
use seafowl.Cache.Key.Windows.{slice-append, length-slice, take-slice, drop-slice}
use seafowl.Cache.Store.{Outcome, ok, err, panic, Moka, Inner, State, ◌>>◌, pure}
use seafowl.Cache.Fetch.{
  Turn, run_events, read_file, get_range_inner, download_again, file_data, cache_chunk_data,
  chunk_data, split_batch, last_end, fetch_batch, chunk_key, finish_chunk, chunk_round, chunk_loop,
  get_chunk_range,
}
use seafowl.Cache.Fetch.Sound.{
  Ensures, Ensures-bind, contents, Holds, Known, Clean, IsSound, Fails, log-IsSound,
  get_range_inner-Ensures, cache_chunk_data-Ensures, run_events-IsSound,
}

module _ (h : Hasher) (mk : Moka) (inner : Inner) (m : ℕ) where
  abbrev pub Sound : State mk.Entries → Type 0
  Sound = IsSound h mk inner

  abbrev pub Failure : Type 0
  Failure = Fails inner

  abbrev Returned : CacheKey → Option Bytes → Type 0
  Returned k o = (bytes : Bytes) × (o ≡ some bytes) × (bytes ≡ contents h mk inner k)

  download_again-Ensures :
      (k : CacheKey) (st : State mk.Entries)
      → Known h mk inner k
      → Sound st
      → Ensures Failure Sound (Returned k) (download_again h mk inner m k st)
  unfolding download_again
  download_again-Ensures k st known s =
      Ensures-bind Failure Sound (λ bytes. bytes ≡ contents h mk inner k) (Returned k)
        (get_range_inner h mk inner m k.path k.start k.end st)
        (λ bytes. cache_chunk_data h mk inner m k bytes >> pure (some bytes))
        (get_range_inner-Ensures h mk inner k.path k.start k.end m st s)
        (λ bytes st' s' e.
          Ensures-bind Failure Sound (λ _. Unit {0}) (Returned k)
            (cache_chunk_data h mk inner m k bytes st') (λ _. pure (some bytes))
            (cache_chunk_data-Ensures h mk inner k bytes m st' known e s')
            (λ _ st'' s'' _. (s'', (bytes, refl, e))))

  file_data-Ensures :
      (k : CacheKey) (r : Outcome Bytes × State mk.Entries)
      → Known h mk inner k
      → Ensures (Unit {0}) Sound (λ bytes. bytes ≡ contents h mk inner k) r
      → Ensures Failure Sound (Returned k) (file_data h mk inner m k r.0 r.1)
  unfolding file_data
  file_data-Ensures k (ok bytes, st) known p = (p.0, (bytes, refl, p.1))
  file_data-Ensures k (err x, st) known s =
      download_again-Ensures k _ known (log-IsSound h mk inner _ st s.0)
  file_data-Ensures k (panic, st) known s = absurd s

  read_file-Ensures :
      (k : CacheKey) (path : FilePath) (readable : Bool) (st : State mk.Entries)
      → Known h mk inner k
      → path ≡ as_filename h k
      → Sound st
      → Ensures
          (Unit {0})
          Sound
          (λ bytes. bytes ≡ contents h mk inner k)
          (read_file path readable st)
  unfolding read_file
  read_file-Ensures k path readable st known e s = elim (Option-cases (st.files path)) [
    | inl gone ↦ rw (gone, read_file) (s, tt)
    | inr (bytes, there) ↦
        rw (there, read_file)
          (readable_case readable (log-IsSound h mk inner _ st s)
            (s.stored k bytes known (ap st.files (sym e) ∙ there)))
  ]
    where
      readable_case :
          {bytes : Bytes} {after : State mk.Entries} (b : Bool)
          → Sound after
          → bytes ≡ contents h mk inner k
          → Ensures
              (Unit {0})
              Sound
              (λ bytes'. bytes' ≡ contents h mk inner k)
              (if b then (ok bytes, after) else (err "unreadable", st))
      readable_case true sound right = (sound, right)
      readable_case false sound right = (s, tt)

  -- A chunk that the cache holds comes back with the bytes of its key.
  chunk_data-Ensures :
      (readable : Bool) (k : CacheKey) (v : CacheValue) (st : State mk.Entries)
      → Known h mk inner k
      → Holds h mk inner k v
      → Sound st
      → Ensures Failure Sound (Returned k) (chunk_data h mk inner m readable k (some v) st)
  unfolding chunk_data
  chunk_data-Ensures readable k (memory bytes) st known e s =
      (log-IsSound h mk inner _ st s, (bytes, refl, e))
  chunk_data-Ensures readable k (file path n) st known e s =
      file_data-Ensures k (read_file path readable st) known
        (read_file-Ensures k path readable st known e s)

  mul_mono : (x y : ℕ) → x ≤ y → x * m ≤ y * m
  mul_mono x y le = grind arith

  module _ (location : String) (known : h.known location ≡ true) where
    abbrev pub object : Bytes
    object = inner.content location

    abbrev key : ℕ → CacheKey
    key = chunk_key h mk inner m location

    -- `n` neighbouring chunks from chunk `b` on.
    abbrev chunk_keys : ℕ → ℕ → List CacheKey
    chunk_keys b zero = []
    chunk_keys b (suc n) = key b ∷ chunk_keys (b + 1) n

    chunk_keys-snoc : (b n c : ℕ) → b + n ≡ c → chunk_keys b n ++ key c ∷ [] ≡ chunk_keys b (suc n)
    chunk_keys-snoc b zero c e = let e' : c ≡ b = omega arith in ap (λ i. key i ∷ []) e'
    chunk_keys-snoc b (suc n) c e = ap (◌∷◌ (key b)) (chunk_keys-snoc (b + 1) n c (omega arith))

    last_end-chunk_keys :
        (b n e : ℕ) → b + suc n ≡ e → last_end h mk inner m (key b) (chunk_keys (b + 1) n) ≡ e * m
    last_end-chunk_keys b zero e k = let e' : b + 1 ≡ e = omega arith in ap (λ i. i * m) e'
    last_end-chunk_keys b (suc n) e k = last_end-chunk_keys (b + 1) n e (omega arith)

    cached_then :
        (b : ℕ) (data' rest : Bytes) (keys : List CacheKey) (st : State mk.Entries)
        → data' ≡ contents h mk inner (key b)
        → Sound st
        → ((st' : State mk.Entries)
            → Sound st'
            → Ensures Failure Sound (λ _. Unit {0}) (split_batch h mk inner m keys rest st'))
        → Ensures Failure Sound
            (λ _. Unit {0})
            ((cache_chunk_data h mk inner m (key b) data' >> split_batch h mk inner m keys rest) st)
    cached_then b data' rest keys st e s next =
        Ensures-bind Failure Sound (λ _. Unit {0}) (λ _. Unit {0})
          (cache_chunk_data h mk inner m (key b) data' st) (λ _. split_batch h mk inner m keys rest)
          (cache_chunk_data-Ensures h mk inner (key b) data' m st known e s)
          (λ _ st' s' _. next st' s')

    -- A batch that is shorter than a chunk has one chunk.
    short_is_last :
        (n b e : ℕ) (bytes : Bytes)
        → length bytes < m
        → e ≡ (b + suc n) * m
        → (b + suc n) * m < length object + m
        → bytes ≡ slice (b * m) e object
        → n ≡ 0
    short_is_last zero b e bytes short last near right = refl
    short_is_last (suc n) b e bytes short last near right =
        absurd (omega (arith, length-slice (b * m) e object, ap (λ (t : Bytes). length t) right))

    -- A batch that starts inside the object is handed out chunk by chunk.
    split_batch-Ensures :
        (n b e : ℕ) (bytes : Bytes) (st : State mk.Entries)
        → e ≡ (b + n) * m
        → (b + n) * m < length object + m
        → bytes ≡ slice (b * m) e object
        → Sound st
        → Ensures Failure Sound (λ _. Unit {0}) (split_batch h mk inner m (chunk_keys b n) bytes st)
    unfolding split_batch
    split_batch-Ensures zero b e bytes st last near right s = (s, tt)
    split_batch-Ensures (suc n) b e bytes st last near right s =
        elim (Bool-cases (ltb (length bytes) m)) [
          | inl short ↦
              let one : n ≡ 0 = short_is_last n b e bytes (ltb→lt _ _ short) last near right in
              rw (short, one)
                (cached_then b bytes bytes [] st
                  (right ∙ ap (λ t. slice (b * m) t object) (last ∙ ap (λ i. (b + suc i) * m) one))
                  s (λ st' s'. (s', tt)))
          | inr full ↦ rw full (
              cached_then b (take m bytes) (drop m bytes) (chunk_keys (b + 1) n) st
                (ap (take m) right
                  ∙ take-slice m (b * m) ((b + 1) * m) e object (omega arith) (omega arith))
                s
                (λ st' s'.
                  split_batch-Ensures n (b + 1) e (drop m bytes) st' (omega arith) (omega arith)
                    (ap (drop m) right
                      ∙ drop-slice m (b * m) ((b + 1) * m) e object (omega arith) (omega arith))
                    s'))
        ]

    -- After the batch is fetched the result reaches up to its end.
    fetch_batch-Ensures :
        (a n b e : ℕ) (result : Bytes) (st : State mk.Entries)
        → a ≤ b
        → e ≡ b + n
        → e * m < length object + m
        → result ≡ slice (a * m) (b * m) object
        → Sound st
        → Ensures Failure Sound
            (λ bytes. bytes ≡ slice (a * m) (e * m) object)
            (fetch_batch h mk inner m location (chunk_keys b n) result st)
    unfolding fetch_batch
    fetch_batch-Ensures a zero b e result st le last near right s =
        (s, right ∙ ap (λ t. slice (a * m) (t * m) object) (omega arith))
    fetch_batch-Ensures a (suc n) b e result st le last near right s =
        rw (last_end-chunk_keys b n e (omega arith)) (
          Ensures-bind Failure Sound (λ bytes. bytes ≡ slice (b * m) (e * m) object)
            (λ bytes. bytes ≡ slice (a * m) (e * m) object)
            (get_range_inner h mk inner m location (b * m) (e * m) st)
            (λ bytes.
              split_batch h mk inner m (chunk_keys b (suc n)) bytes >> pure (result ++ bytes))
            (get_range_inner-Ensures h mk inner location (b * m) (e * m) m st s)
            (λ bytes st' s' fetched.
              Ensures-bind Failure Sound (λ _. Unit {0})
                (λ bytes'. bytes' ≡ slice (a * m) (e * m) object)
                (split_batch h mk inner m (chunk_keys b (suc n)) bytes st')
                (λ _. pure (result ++ bytes))
                (split_batch-Ensures (suc n) b (e * m) bytes st' (ap (λ i. i * m) last)
                  (rw (← last) near) fetched s')
                (λ _ st'' s'' _. (
                  s'',
                  ap₂ (λ x y. x ++ y) right fetched
                      ∙ slice-append (a * m) (b * m) (e * m) object (mul_mono a b le)
                          (mul_mono b e (omega arith)),
                ))))

    -- Where the loop stands before chunk `c`: what it has, and the batch that it owes.
    abbrev IsAt : ℕ → ℕ → List CacheKey × Bytes → Type 0
    IsAt a c (batch, result) =
        (b : ℕ) × (n : ℕ) × (a ≤ b)
        × (c ≡ b + n)
        × (batch ≡ chunk_keys b n)
        × (result ≡ slice (a * m) (b * m) object)

    -- The same, and nothing is owed after the last chunk.
    abbrev IsAfter : ℕ → ℕ → Bool → List CacheKey × Bytes → Type 0
    IsAfter a c is_last x = IsAt a (c + 1) x × (is_last ≡ true → x.0 ≡ [])

    -- The object reaches into chunk `c`.
    abbrev pub Reaches : ℕ → Type 0
    Reaches c = c * m < length object

    -- A chunk that was at hand is put behind the batch before it.
    append_chunk-Ensures :
        (a c : ℕ) (is_last : Bool) (bytes batch_bytes : Bytes) (st : State mk.Entries)
        → a ≤ c
        → bytes ≡ slice (c * m) ((c + 1) * m) object
        → batch_bytes ≡ slice (a * m) (c * m) object
        → Sound st
        → Ensures Failure Sound (IsAfter a c is_last) (ok ([], batch_bytes ++ bytes), st)
    append_chunk-Ensures a c is_last bytes batch_bytes st le e right s = (
      s,
      (
        (
          c + 1,
          0,
          omega arith,
          omega arith,
          refl,
          ap₂ (λ x y. x ++ y) right e
              ∙ slice-append (a * m) (c * m) ((c + 1) * m) object (mul_mono a c le)
                  (mul_mono c (c + 1) (omega arith)),
        ),
        λ _. refl,
      ),
    )

    found_chunk-Ensures :
        (a c : ℕ) (is_last : Bool) (bytes : Bytes) (batch : List CacheKey) (result : Bytes)
        (st : State mk.Entries)
        → IsAt a c (batch, result)
        → bytes ≡ slice (c * m) ((c + 1) * m) object
        → Reaches c
        → Sound st
        → Ensures Failure Sound
            (IsAfter a c is_last)
            (finish_chunk h mk inner m location is_last (some bytes) batch result st)
    unfolding finish_chunk
    found_chunk-Ensures a c is_last bytes batch result st (b, n, le, at', owes, right) e near s =
        rw owes (
          Ensures-bind Failure Sound (λ x. x ≡ slice (a * m) (c * m) object) (IsAfter a c is_last)
            (fetch_batch h mk inner m location (chunk_keys b n) result st)
            (λ x. pure ([], x ++ bytes))
            (fetch_batch-Ensures a n b c result st le at' (omega arith) right s)
            (λ x st' s' fetched.
              append_chunk-Ensures a c is_last bytes x st' (omega arith) e fetched s'))

    missing_chunk-Ensures :
        (a c : ℕ) (is_last : Bool) (batch : List CacheKey) (result : Bytes) (st : State mk.Entries)
        → IsAt a c (batch, result)
        → Reaches c
        → Sound st
        → Ensures Failure Sound
            (IsAfter a c is_last)
            (finish_chunk h mk inner m location is_last none (batch ++ key c ∷ []) result st)
    unfolding finish_chunk
    missing_chunk-Ensures a c false batch result st (b, n, le, at', owes, right) near s = (
      s,
      (
        (
          b,
          suc n,
          le,
          omega arith,
          ap (λ x. x ++ key c ∷ []) owes ∙ chunk_keys-snoc b n c (omega arith),
          right,
        ),
        λ h. cc,
      ),
    )
    missing_chunk-Ensures a c true batch result st (b, n, le, at', owes, right) near s =
        rw (owes, chunk_keys-snoc b n c (omega arith))
          (Ensures-bind Failure Sound (λ x. x ≡ slice (a * m) ((c + 1) * m) object)
            (IsAfter a c true) (fetch_batch h mk inner m location (chunk_keys b (suc n)) result st)
            (λ x. pure ([], x))
            (fetch_batch-Ensures a (suc n) b (c + 1) result st le (omega arith) (omega arith) right
              s)
            (λ x st' s' fetched.
              (s', ((c + 1, 0, omega arith, omega arith, refl, fetched), λ _. refl))))

    chunk_round-Ensures :
        (turn : Turn) (a c : ℕ) (is_last : Bool) (batch : List CacheKey) (result : Bytes)
        (st : State mk.Entries)
        → All (Clean h mk inner) turn.events
        → IsAt a c (batch, result)
        → Reaches c
        → Sound st
        → Ensures Failure Sound
            (IsAfter a c is_last)
            (chunk_round h mk inner m turn location c is_last batch result st)
    unfolding chunk_round chunk_data finish_chunk
    chunk_round-Ensures turn a c is_last batch result st clean at' near s =
        let now = run_events h mk inner m turn.events st in
        let s' : Sound now = run_events-IsSound h mk inner m turn.events st clean s in
        elim (Option-cases (mk.get now.cache (key c))) [
          | inl missing ↦
              rw (missing, chunk_data)
                (missing_chunk-Ensures a c is_last batch result now at' near s')
          | inr (v, held) ↦ rw held (
              Ensures-bind Failure Sound (Returned (key c)) (IsAfter a c is_last)
                (chunk_data h mk inner m turn.readable (key c) (some v) now)
                (λ found. finish_chunk h mk inner m location is_last found batch result)
                (chunk_data-Ensures turn.readable (key c) v now known (s'.cached (key c) v held) s')
                (λ found st' s'' (bytes, is_some, e).
                  rw is_some
                    (found_chunk-Ensures a c is_last bytes batch result st' at' e near s'')))
        ]

    chunk_keys-nil : (b n : ℕ) → chunk_keys b n ≡ [] → n ≡ 0
    chunk_keys-nil b zero e = refl
    chunk_keys-nil b (suc n) e = cc

    slice_self : (a : ℕ) → [] ≡ slice a a object
    slice_self a = let e : 0 ≡ a - a = omega arith in ap (λ n. take n (drop a object)) e

    -- From the rounds that are left to the bytes of all chunks, up to the chunk `last`.
    chunk_loop-Ensures :
        (turns : ℕ → Turn) (left a c last : ℕ) (batch : List CacheKey) (result : Bytes)
        (st : State mk.Entries)
        → ((i : ℕ) → All (Clean h mk inner) (turns i).events)
        → IsAt a c (batch, result)
        → (left ≡ 0 → batch ≡ [])
        → last + 1 ≡ c + left
        → Reaches last
        → Sound st
        → Ensures Failure Sound
            (λ bytes. bytes ≡ slice (a * m) ((last + 1) * m) object)
            (chunk_loop h mk inner m turns location left c batch result st)
    unfolding chunk_loop
    chunk_loop-Ensures turns zero a c last batch result st clean (b, n, le, at', owes, right)
          none_owed end near s =
        let none_left : n ≡ 0 = chunk_keys-nil b n (sym owes ∙ none_owed refl) in
        (s, right ∙ ap (λ t. slice (a * m) (t * m) object) (omega arith))
    chunk_loop-Ensures turns (suc left) a c last batch result st clean at' none_owed end near s =
        let here : c * m ≤ last * m = mul_mono c last (omega arith) in
        Ensures-bind Failure Sound (IsAfter a c (left == 0))
          (λ bytes. bytes ≡ slice (a * m) ((last + 1) * m) object)
          (chunk_round h mk inner m (turns c) location c (left == 0) batch result st)
          (λ x. chunk_loop h mk inner m turns location left (c + 1) x.0 x.1)
          (chunk_round-Ensures (turns c) a c (left == 0) batch result st (clean c) at' (omega arith)
            s)
          (λ (batch', result') st' s' (next, owed).
            chunk_loop-Ensures turns left a (c + 1) last batch' result' st' clean next
              (λ z. owed ((==_iff left 0).1 z)) (omega arith) near s')

    -- `get_chunk_range` returns the bytes of its chunks, cut at the end of the object, if the last
    -- one starts inside the object.
    pub get_chunk_range-Ensures :
        (turns : ℕ → Turn) (first last : ℕ) (st : State mk.Entries)
        → ((i : ℕ) → All (Clean h mk inner) (turns i).events)
        → first ≤ last + 1
        → Reaches last
        → Sound st
        → Ensures Failure Sound
            (λ bytes. bytes ≡ slice (first * m) ((last + 1) * m) object)
            (get_chunk_range h mk inner m turns location first last st)
    unfolding get_chunk_range
    get_chunk_range-Ensures turns first last st clean le near s =
        chunk_loop-Ensures turns (last + 1 - first) first first last [] [] st clean
          (first, 0, omega arith, omega arith, refl, slice_self (first * m)) (λ _. refl)
          (omega arith) near s
