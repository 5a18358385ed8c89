-- ===== src/Sync/Prune/Files.antt =====
-- The loops over the files and the syncs.
use seafowl.Prelude.{
  ℕ, zero, suc, ◌+◌, ◌<◌, ◌≡◌, refl, ap, sym, ◌∙◌, Bool, true, false, Option, none, some, List, [],
  ◌∷◌, get_elem?, length, if◌then◌else◌, arith, All,
}
use mathlib.Core.Path.{subst}
use seafowl.Sync.Schema.{ColumnRole}
use seafowl.Sync.Prune.{
  ok, ◌>>=◌, Kernels, DataSync, Values, column_loop, is_needed, file_loop, sync_loop,
}
use seafowl.Sync.Prune.Maps.{Ensures, bind-Ensures, Ensures_mono}
use seafowl.Sync.Prune.Found.{Ready, Held, Begun, Finds, column_loop-Finds}

-- No file is left out that was in, and there are as many.
pub record IsGrown (before after : List Bool) : Type 0 where
  pub same_length : length after ≡ length before
  pub kept : (j : ℕ) → get_elem? before j ≡ some true → get_elem? after j ≡ some true

module _ {V : Type 0} (kernels : Kernels V) (mins maxs : Values V) where
  -- If a row of the sync can be in a file, the file is in.
  abbrev pub HitsAt : ColumnRole → DataSync V → ℕ → Option Bool → Type 0
  HitsAt role sync ind used =
      (r : ℕ)
      → Begun kernels mins maxs ind sync (sync.pk_columns role) none
      → All (Held kernels mins maxs ind sync r) (sync.pk_columns role)
      → used ≡ some true

  -- So it is with `count` files from `ind` on.
  abbrev pub Hits : ColumnRole → ℕ → ℕ → DataSync V → List Bool → Type 0
  Hits role ind count sync out = (j : ℕ) → j < count → HitsAt role sync (ind + j) (get_elem? out j)

  file_Ensures :
      (role : ColumnRole) (sync : DataSync V) (ind : ℕ) (used : Bool)
      → All (Ready kernels mins maxs ind sync) (sync.pk_columns role)
      → Ensures
          (if used
            then ok true
            else (column_loop kernels mins maxs ind sync (sync.pk_columns role) none none >>= λ m.
                ok (is_needed kernels m)))
          (λ out. (used ≡ true → out ≡ true) × HitsAt role sync ind (some out))
  file_Ensures role sync ind true ready = (λ _. refl, λ r b h. refl)
  file_Ensures role sync ind false ready =
      bind-Ensures (column_loop kernels mins maxs ind sync (sync.pk_columns role) none none)
        (λ m. ok (is_needed kernels m))
        (Finds kernels mins maxs ind sync (sync.pk_columns role) none none) _
        (column_loop-Finds kernels mins maxs ind sync (sync.pk_columns role) none none ready)
        (λ m f. (λ h. absurd cc, λ r b h. ap some (f r tt b h)))

  pub file_loop-Hits :
      (role : ColumnRole) (sync : DataSync V) (ind : ℕ) (pm : List Bool)
      → ((j : ℕ)
          → j < length pm
          → All (Ready kernels mins maxs (ind + j) sync) (sync.pk_columns role))
      → Ensures
          (file_loop kernels mins maxs role sync ind pm)
          (λ out. IsGrown pm out × Hits role ind (length pm) sync out)
  unfolding file_loop
  file_loop-Hits role sync ind [] ready =
      (record { same_length = refl; kept = λ j h. h }, λ j lt. absurd (omega arith))
  file_loop-Hits role sync ind (used ∷ pm) ready =
      let zero_add : ind + 0 ≡ ind = omega arith in
      bind-Ensures _
        (λ used'. file_loop kernels mins maxs role sync (suc ind) pm >>= λ rest. ok (used' ∷ rest))
        _ _
        (file_Ensures role sync ind used (
          subst (λ i. All (Ready kernels mins maxs i sync) (sync.pk_columns role)) zero_add
            (ready 0 (omega arith))))
        (λ used' (keep, hit).
          bind-Ensures (file_loop kernels mins maxs role sync (suc ind) pm)
            (λ rest. ok (used' ∷ rest)) _ _
            (file_loop-Hits role sync (suc ind) pm (λ j lt.
              let shift : ind + suc j ≡ suc ind + j = omega arith in
              subst (λ i. All (Ready kernels mins maxs i sync) (sync.pk_columns role)) shift
                (ready (suc j) (omega arith))))
            (λ rest (grown, hits). (
              record {
                same_length = ap suc grown.same_length;
                kept = both used' rest keep grown.kept;
              },
              at used' rest hit hits,
            )))
    where
      both :
          (used' : Bool) (rest : List Bool)
          → (used ≡ true → used' ≡ true)
          → ((j : ℕ) → get_elem? pm j ≡ some true → get_elem? rest j ≡ some true)
          → (j : ℕ) → get_elem? (used ∷ pm) j ≡ some true
          → get_elem? (used' ∷ rest) j ≡ some true
      both used' rest f g zero h = let t : used ≡ true = cc in ap some (f t)
      both used' rest f g (suc j) h = g j h

      at :
          (used' : Bool) (rest : List Bool)
          → HitsAt role sync ind (some used')
          → Hits role (suc ind) (length pm) sync rest
          → (j : ℕ) → j < suc (length pm)
          → HitsAt role sync (ind + j) (get_elem? (used' ∷ rest) j)
      at used' rest hit hits zero lt =
          let z : ind ≡ ind + 0 = omega arith in subst (λ i. HitsAt role sync i (some used')) z hit
      at used' rest hit hits (suc j) lt =
          let z : suc ind + j ≡ ind + suc j = omega arith in
          subst (λ i. HitsAt role sync i (get_elem? rest j)) z (hits j (omega arith))

  pub sync_loop-Hits :
      (role : ColumnRole) (syncs : List (DataSync V)) (pm : List Bool)
      → All
          (λ sync.
            (j : ℕ) → j < length pm → All (Ready kernels mins maxs j sync) (sync.pk_columns role))
          syncs
      → Ensures (sync_loop kernels mins maxs role syncs pm) (λ out.
        IsGrown pm out
        × All (λ sync. (j : ℕ) → j < length pm → HitsAt role sync j (get_elem? out j)) syncs)
  unfolding sync_loop
  sync_loop-Hits role [] pm ready = (record { same_length = refl; kept = λ j h. h }, tt)
  sync_loop-Hits role (sync ∷ syncs) pm (here, ready) =
      bind-Ensures (file_loop kernels mins maxs role sync 0 pm)
        (sync_loop kernels mins maxs role syncs) _ _
        (file_loop-Hits role sync 0 pm (λ j lt.
          let z : j ≡ 0 + j = omega arith in
          subst (λ i. All (Ready kernels mins maxs i sync) (sync.pk_columns role)) z (here j lt)))
        (λ mid (grown, hits).
          let len = grown.same_length in
          Ensures_mono (sync_loop kernels mins maxs role syncs mid) _ _
            (λ out (more, rest). (
              record {
                same_length = more.same_length ∙ len;
                kept = λ j h. more.kept j (grown.kept j h);
              },
              (
                λ j lt r b h.
                    let z : 0 + j ≡ j = omega arith in
                    more.kept j
                      (subst (λ i. HitsAt role sync i (get_elem? mid j)) z (hits j lt) r b h),
                subst (λ n. All (λ s. (j : ℕ) → j < n → HitsAt role s j (get_elem? out j)) syncs)
                    len rest,
              ),
            ))
            (sync_loop-Hits role syncs mid (
              subst
                (λ n.
                  All (λ s. (j : ℕ) → j < n → All (Ready kernels mins maxs j s) (s.pk_columns role))
                    syncs)
                (sym len) ready)))
