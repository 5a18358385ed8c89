-- ===== src/Sync/Writer/Flush/Loop.antt =====
-- frontend/flight/sync/writer.rs, `flush` and `flush_ready`: the loop over the tables that are due
-- ends, each round with one collection less.
use seafowl.Prelude.{
  ℕ, zero, suc, ◌+◌, ◌<◌, ◌≡◌, refl, ap, ◌∙◌, String, inl, inr, Bool, true, false, Option, none,
  some, List, [], ◌∷◌, arith, str_eq, str_eq_refl, length, if◌then◌else◌, Bool-cases, leb, leb→le,
}
use mathlib.Core.Path.{subst}
use seafowl.Prelude.Map.{nat_eq, string_eq, lookup, remove, total}
use seafowl.Sync.Writer.{
  Batches, Outcome, ok, err, panic, SyncConf, SyncError, DataSyncItem, DataSyncCollection,
  SeafowlDataSyncWriter,
}
use seafowl.Sync.Writer.Flush.{
  Storage, Commit, advance_durable, remove_sync, after_commit, apply_flush, flush_table,
  flush_entry, ensure_table, flush_syncs, find_full, oldest_is_due, first_url, flush_ready,
  flush_loop,
}
use seafowl.Sync.Writer.Invariant.{collection_size, IsValid}
use seafowl.Sync.Writer.Flush.Valid.{Panics, Safe, Outcome-cases, flush_syncs-IsValid}

module _ {V : Type 0} where
  length-remove :
      (url : String) (c : V) (l : List (String × V))
      → lookup url l ≡ some c
      → length (remove url l) + 1 ≡ length l
  unfolding lookup remove
  length-remove url c [] e = cc
  length-remove url c ((u, d) ∷ l) e = ground (arith, length-remove url c l)

err_not_ok : {A : Type 0} {e : SyncError} {a : A} → err e ≡ ok a → ⊥
err_not_ok h = cc

panic_not_ok : {A : Type 0} {a : A} → panic ≡ ok a → ⊥
panic_not_ok h = cc

module _ (b : Batches) where
  abbrev Writer : Type 0
  Writer = SeafowlDataSyncWriter b

  abbrev Syncs : Type 0
  Syncs = List (String × DataSyncCollection b)

  -- A URL with a collection.
  abbrev IsHeld : Syncs → String → Type 0
  IsHeld syncs url = (c : DataSyncCollection b) × (lookup url syncs ≡ some c)

  first-IsHeld :
      (url : String) (c : DataSyncCollection b) (syncs : Syncs) → IsHeld ((url, c) ∷ syncs) url
  unfolding lookup
  first-IsHeld url c syncs = (c, rw (str_eq_refl url) refl)

  cons-IsHeld :
      (u url : String) (d : DataSyncCollection b) (syncs : Syncs)
      → IsHeld syncs url
      → IsHeld ((u, d) ∷ syncs) url
  unfolding lookup
  cons-IsHeld u url d syncs (c, found) = elim (Bool-cases (str_eq url u)) [
    | inl same ↦ (d, rw same refl)
    | inr other ↦ (c, rw other found)
  ]

  find_full-IsHeld :
      (n : ℕ) (syncs : Syncs) (url : String) → find_full b n syncs ≡ some url → IsHeld syncs url
  unfolding find_full
  find_full-IsHeld n [] url e = cc
  find_full-IsHeld n ((u, d) ∷ syncs) url e = elim (Bool-cases (leb n (length d.syncs))) [
    | inl full ↦ let same : u ≡ url = ground (arith, full) in rw (← same) (first-IsHeld u d syncs)
    | inr rest ↦ cons-IsHeld u url d syncs (find_full-IsHeld n syncs url (rw rest at e))
  ]

  -- What `flush_ready` can answer.
  abbrev Ready : Syncs → Outcome (Option String) → Type 0
  Ready syncs (ok none) = Unit
  Ready syncs (ok (some url)) = IsHeld syncs url
  Ready syncs (err e) = ⊥
  Ready syncs panic = ⊥

  found-Ready :
      (n : ℕ) (syncs : Syncs) (found : Option String)
      → find_full b n syncs ≡ found
      → Ready syncs (ok found)
  found-Ready n syncs none e = tt
  found-Ready n syncs (some url) e = find_full-IsHeld n syncs url e

  Ready-cons :
      (first_due full : Bool) (n : ℕ) (u : String) (d : DataSyncCollection b) (syncs : Syncs)
      → Ready ((u, d) ∷ syncs) (
          if first_due
          then ok (some u)
          else if full
          then ok (some u)
          else ok (find_full b n ((u, d) ∷ syncs)))
  Ready-cons true full n u d syncs = first-IsHeld u d syncs
  Ready-cons false true n u d syncs = first-IsHeld u d syncs
  Ready-cons false false n u d syncs = found-Ready n ((u, d) ∷ syncs) _ refl

  Ready-nil :
      (n : ℕ) (bytes size : ℕ)
      → size < bytes
      → Ready [] (if leb bytes size then panic else ok (find_full b n []))
  unfolding find_full
  Ready-nil n bytes size h = elim (Bool-cases (leb bytes size)) [
    | inl full ↦ absurd (omega (arith, leb→le bytes size full))
    | inr fits ↦ rw fits tt
  ]

  -- With a limit on the memory, `flush_ready` names a table that has a collection, if any.
  flush_ready-Ready :
      (conf : SyncConf) (now : ℕ) (w : Writer) (syncs : Syncs)
      → w.syncs ≡ syncs
      → 0 < conf.max_in_memory_bytes
      → IsValid b w
      → Ready syncs (flush_ready b conf now w)
  unfolding flush_ready oldest_is_due first_url total
  flush_ready-Ready conf now w [] e limit v =
      let sized : w.size ≡ total {K = String} (collection_size b) [] =
        v.sized ∙ ap (total (collection_size b)) e in
      rw e (Ready-nil conf.max_syncs_per_url conf.max_in_memory_bytes w.size (omega (arith, sized)))
  flush_ready-Ready conf now w ((u, d) ∷ syncs) e limit v =
      rw e (Ready-cons _ (leb conf.max_in_memory_bytes w.size) conf.max_syncs_per_url u d syncs)

  after_commit-length :
      (url : String) (c : DataSyncCollection b) (syncs : List (DataSyncItem b)) (w : Writer)
      → lookup url w.syncs ≡ some c
      → length (after_commit b url syncs w).syncs + 1 ≡ length w.syncs
  unfolding after_commit advance_durable remove_sync
  after_commit-length url c syncs w found =
      rw (found, remove_sync) (length-remove url c w.syncs found)

  apply_flush-length :
      (storage : Storage) (url : String) (c : DataSyncCollection b) (syncs : List (DataSyncItem b))
      (commit : Outcome (Commit b)) (answer : Option (Commit b)) (w : Writer)
      → lookup url w.syncs ≡ some c
      → (apply_flush b storage url syncs commit w).0 ≡ ok answer
      → length (apply_flush b storage url syncs commit w).1.syncs + 1 ≡ length w.syncs
  unfolding apply_flush remove_sync
  apply_flush-length storage url c syncs (ok ([], commit)) answer w found e =
      rw (found, remove_sync) (length-remove url c w.syncs found)
  apply_flush-length storage url c syncs (ok (s ∷ left, commit)) answer w found e =
      elim (Outcome-cases storage.commits) [
        | inl (u, done) ↦ rw done (after_commit-length url c syncs w found)
        | inr (inl (x, failed)) ↦ absurd (err_not_ok (rw failed at e))
        | inr (inr crash) ↦ absurd (panic_not_ok (rw crash at e))
      ]
  apply_flush-length storage url c syncs (err x) answer w found e = cc
  apply_flush-length storage url c syncs panic answer w found e = cc

  flush_table-length :
      (storage : Storage) (url : String) (c : DataSyncCollection b) (answer : Option (Commit b))
      (w : Writer)
      → lookup url w.syncs ≡ some c
      → (flush_table b storage url c.syncs w).0 ≡ ok answer
      → length (flush_table b storage url c.syncs w).1.syncs + 1 ≡ length w.syncs
  unfolding flush_table
  flush_table-length storage url c answer w found e =
      elim (Outcome-cases storage.last_sync_commit) [
        | inl (last, read) ↦
            rw (read, flush_table)
              (apply_flush-length storage url c c.syncs _ answer w found
                (rw (read, flush_table) at e))
        | inr (inl (x, failed)) ↦ absurd (err_not_ok (rw (failed, flush_table) at e))
        | inr (inr crash) ↦ absurd (panic_not_ok (rw (crash, flush_table) at e))
      ]

  flush_entry-length :
      (storage : Storage) (url : String) (c : DataSyncCollection b) (r : Outcome (Unit {0}))
      (answer : Option (Commit b)) (w : Writer)
      → lookup url w.syncs ≡ some c
      → (flush_entry b storage url c.syncs r w).0 ≡ ok answer
      → length (flush_entry b storage url c.syncs r w).1.syncs + 1 ≡ length w.syncs
  unfolding flush_entry
  flush_entry-length storage url c (ok x) answer w found e =
      flush_table-length storage url c answer w found e
  flush_entry-length storage url c (err x) answer w found e = cc
  flush_entry-length storage url c panic answer w found e = cc

  flush_syncs-length :
      (storage : Storage) (url : String) (c : DataSyncCollection b) (answer : Option (Commit b))
      (w : Writer)
      → lookup url w.syncs ≡ some c
      → (flush_syncs b storage url w).0 ≡ ok answer
      → length (flush_syncs b storage url w).1.syncs + 1 ≡ length w.syncs
  unfolding flush_syncs
  flush_syncs-length storage url c answer w found e =
      rw (found, flush_syncs)
        (flush_entry-length storage url c (ensure_table b storage c.syncs) answer w found
          (rw (found, flush_syncs) at e))

  -- A panic of the loop is one of the work on a table.
  abbrev pub SafeAt : (String → Storage) → Outcome (Unit {0}) → Type 0
  SafeAt storage (ok x) = Unit
  SafeAt storage (err e) = Unit
  SafeAt storage panic = (url : String) × Panics (storage url)

  -- How a run of the loop may end.
  pub record Ended (storage : String → Storage) (conf : SyncConf) (now : ℕ)
      (r : Option (Outcome (Unit {0}) × Writer)) : Type 0 where
    pub result : Outcome (Unit {0})
    pub writer : Writer
    pub returned : r ≡ some (result, writer)
    pub safe : SafeAt storage result
    pub valid : IsValid b writer
    pub nothing_due : result ≡ ok tt → flush_ready b conf now writer ≡ ok none

  module _ (storage : String → Storage) (conf : SyncConf) (now : ℕ) where
    -- One round, given that the loop ends from every smaller state.
    round-Ended :
        (fuel : ℕ) (w : Writer) (url : String) (c : DataSyncCollection b)
        (r : Outcome (Option (Commit b)))
        → lookup url w.syncs ≡ some c
        → (flush_syncs b (storage url) url w).0 ≡ r
        → IsValid b w
        → flush_ready b conf now w ≡ ok (some url)
        → ((w' : Writer)
            → IsValid b w'
            → length w'.syncs + 1 ≡ length w.syncs
            → Ended storage conf now (flush_loop b fuel storage conf now w'))
        → Ended storage conf now (flush_loop b (suc fuel) storage conf now w)
    unfolding flush_loop
    round-Ended fuel w url c (ok answer) found e v due rec =
        rw (due, flush_loop, e)
          (rec (flush_syncs b (storage url) url w).1 (flush_syncs-IsValid b (storage url) url w v).1
            (flush_syncs-length (storage url) url c answer w found e))
    round-Ended fuel w url c (err x) found e v due rec =
        rw (due, flush_loop, e)
          (record {
            result = err x;
            writer = (flush_syncs b (storage url) url w).1;
            returned = refl;
            safe = tt;
            valid = (flush_syncs-IsValid b (storage url) url w v).1;
            nothing_due = λ h. cc;
          })
    round-Ended fuel w url c panic found e v due rec =
        let p : Panics (storage url) =
          subst (Safe (storage url)) e (flush_syncs-IsValid b (storage url) url w v).0 in
        rw (due, flush_loop, e)
          (record {
            result = panic;
            writer = (flush_syncs b (storage url) url w).1;
            returned = refl;
            safe = (url, p);
            valid = (flush_syncs-IsValid b (storage url) url w v).1;
            nothing_due = λ h. cc;
          })

    step-Ended :
        (fuel : ℕ) (w : Writer) (r : Outcome (Option String))
        → flush_ready b conf now w ≡ r
        → Ready w.syncs r
        → IsValid b w
        → ((w' : Writer)
            → IsValid b w'
            → length w'.syncs + 1 ≡ length w.syncs
            → Ended storage conf now (flush_loop b fuel storage conf now w'))
        → Ended storage conf now (flush_loop b (suc fuel) storage conf now w)
    unfolding flush_loop
    step-Ended fuel w (ok none) e ready v rec =
        rw (e, flush_loop)
          (record {
            result = ok tt;
            writer = w;
            returned = refl;
            safe = tt;
            valid = v;
            nothing_due = λ h. e;
          })
    step-Ended fuel w (ok (some url)) e (c, found) v rec =
        round-Ended fuel w url c _ found refl v e rec
    step-Ended fuel w (err x) e ready v rec = absurd ready
    step-Ended fuel w panic e ready v rec = absurd ready

    -- With a limit on the memory and more fuel than there are collections, the loop of `flush` comes
    -- to an end, in a valid state, however the work on the tables ends; it ends in a panic only if
    -- some of that work panics. If it ends without an error, no collection is due in the end.
    pub flush_loop-Ended :
        (fuel : ℕ) (w : Writer)
        → 0 < conf.max_in_memory_bytes
        → IsValid b w
        → length w.syncs < fuel
        → Ended storage conf now (flush_loop b fuel storage conf now w)
    flush_loop-Ended zero w limit v h = absurd (omega (arith, h))
    flush_loop-Ended (suc fuel) w limit v h =
        step-Ended fuel w _ refl (flush_ready-Ready conf now w w.syncs refl limit v) v
          (λ w' v' shorter. flush_loop-Ended fuel w' limit v' (omega (arith, h, shorter)))
