-- ===== src/Cache/Fetch/PastEnd.antt =====
-- cache.rs, `get_chunk_range` beyond the end of an object: the remainder of a short batch is given
-- to every chunk that is left, since `batch_data.clone()` does not consume it.
use seafowl.Prelude.{ℕ, ◌<◌, ◌≡◌, ap, ◌∙◌, true, [], ◌∷◌, arith, length, lt→ltb}
use seafowl.Cache.Key.{Bytes, CacheKey, memory, Hasher}
use seafowl.Cache.Store.{Moka, Inner, State}
use seafowl.Cache.Fetch.{cache_chunk_data, split_batch}
use seafowl.Cache.Fetch.Sound.{contents, IsSound}

module _ (h : Hasher) (mk : Moka) (inner : Inner) (m : ℕ) where
  pending-split_batch :
      (k j : CacheKey) (bytes : Bytes) (st : State mk.Entries)
      → (mk.or_insert (cache_chunk_data h mk inner m k bytes st).1.cache j (memory bytes)).1 ≡ true
      → length bytes < m
      → (split_batch h mk inner m (k ∷ j ∷ []) bytes st).1.pending
        ≡ (j, bytes) ∷ (cache_chunk_data h mk inner m k bytes st).1.pending
  unfolding split_batch cache_chunk_data
  pending-split_batch k j bytes st fresh short =
      let is_short = lt→ltb (length bytes) m short in rw (is_short, is_short, fresh)

  -- A nonempty remainder that is shorter than a chunk, handed to two chunks of which the second is
  -- past the end of the object and new to the cache, leaves the cache unsound.
  pub split_batch_unsound :
      (k j : CacheKey) (bytes : Bytes) (st : State mk.Entries)
      → (mk.or_insert (cache_chunk_data h mk inner m k bytes st).1.cache j (memory bytes)).1 ≡ true
      → length bytes < m
      → 0 < length bytes
      → contents h mk inner j ≡ []
      → ¬ IsSound h mk inner (split_batch h mk inner m (k ∷ j ∷ []) bytes st).1
  split_batch_unsound k j bytes st fresh short some_left past sound =
      let waiting = rw (pending-split_batch k j bytes st fresh short) at sound.waiting in
      absurd (omega (arith, ap (λ (t : Bytes). length t) (waiting.0.1 ∙ past)))
