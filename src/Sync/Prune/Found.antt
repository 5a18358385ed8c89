-- ===== src/Sync/Prune/Found.antt =====
-- The loop over the key columns: it does not panic, and it finds each row that is in the file.
use seafowl.Prelude.{
  ℕ, ◌≡◌, ap, sym, ◌∙◌, Bool, true, Option, none, some, List, [], ◌∷◌, get_elem?, All,
}
use seafowl.Prelude.Map.{string_eq, lookup}
use seafowl.Sync.Prune.{
  Outcome, ◌>>=◌, rank, Array, Kernels, PkColumn, DataSync, Values, at_file, scope, in_file, merge,
  column_loop, is_needed,
}
use seafowl.Sync.Prune.Maps.{Ensures, bind-Ensures, Ensures_mono}
use seafowl.Sync.Prune.Answers.{
  PossibleAt, At, Present, Within, in_file-Possible, merge-Possible, Aligned, Scoped, scope-Scoped,
  is_needed-PossibleAt,
}

module _ {V : Type 0} (kernels : Kernels V) where
  module _ (mins maxs : Values V) (ind : ℕ) (sync : DataSync V) where
    -- The batch has the column, and the file has statistics of it.
    abbrev pub Ready : PkColumn → Type 0
    Ready col =
        ((array : Array V) × (sync.column_by_name col.field_name ≡ some array))
        × Present (at_file ind (lookup col.name mins)) (at_file ind (lookup col.name maxs))

    -- Row `r` has a value in the column which can be in the file.
    abbrev pub Held : ℕ → PkColumn → Type 0
    Held r col =
        (array : Array V) × (v : V) × (sync.column_by_name col.field_name ≡ some array)
        × (get_elem? array r ≡ some (some v))
        × Within kernels (at_file ind (lookup col.name mins)) (at_file ind (lookup col.name maxs)) v

    abbrev pub Begun : List PkColumn → Option (Array Bool) → Type 0
    Begun [] none = ⊥
    Begun _ _ = Unit

    -- Each row that can be in the file by all its columns makes the file needed.
    abbrev pub Finds :
        List PkColumn → Option (List Bool) → Option (Array Bool) → Option (Array Bool) → Type 0
    Finds cols nn pm result =
        (r : ℕ)
        → Aligned kernels nn pm r
        → Begun cols pm
        → All (Held r) cols
        → is_needed kernels result ≡ true

    Begun-some : (cols : List PkColumn) (p : Array Bool) → Begun cols (some p)
    Begun-some [] p = tt
    Begun-some (col ∷ cols) p = tt

    Later : List PkColumn → Type 0
    Later cols =
        (m : List Bool) (pm : Option (Array Bool))
        → Ensures (column_loop kernels mins maxs ind sync cols (some m) pm) (Finds cols (some m) pm)

    Held-at :
        (r : ℕ) (col : PkColumn) (array : Array V)
        → sync.column_by_name col.field_name ≡ some array
        → Held r col
        → (v : V) × (get_elem? array r ≡ some (some v))
          × Within kernels
              (at_file ind (lookup col.name mins))
              (at_file ind (lookup col.name maxs))
              v
    Held-at r col array has (other, v, has', at, w) =
        let same : other ≡ array = cc in (v, ap (λ a. get_elem? a r) (sym same) ∙ at, w)

    after_scope :
        (col : PkColumn) (cols : List PkColumn) (nn : Option (List Bool)) (pm : Option (Array Bool))
        (array : Array V)
        → sync.column_by_name col.field_name ≡ some array
        → Present (at_file ind (lookup col.name mins)) (at_file ind (lookup col.name maxs))
        → Later cols
        → (xs : Array V) (m : List Bool) → Scoped kernels nn array (xs, m)
        → Ensures
            (elim xs as (λ _. Outcome (Option (Array Bool))) [
              | [] ↦ column_loop kernels mins maxs ind sync cols (some m) pm
              | y ∷ ys ↦
                  in_file kernels
                    (y ∷ ys)
                    (at_file ind (lookup col.name mins))
                    (at_file ind (lookup col.name maxs))
                  >>= λ next. merge kernels pm next >>= λ merged.
                      column_loop kernels mins maxs ind sync cols (some m) (some merged)
            ])
            (Finds (col ∷ cols) nn pm)
    unfolding Scoped Later
    after_scope col cols nn pm array has present later [] m sc =
        Ensures_mono (column_loop kernels mins maxs ind sync cols (some m) pm)
          (Finds cols (some m) pm) (Finds (col ∷ cols) nn pm)
          (λ result f r al begun (h, held).
            let (v, at, w) = Held-at r col array has h in
            let place = (sc r v pm at al).1 in absurd cc)
          (later m pm)
    after_scope col cols nn pm array has present later (y ∷ ys) m sc =
        let a = at_file ind (lookup col.name mins) in
        let b = at_file ind (lookup col.name maxs) in
        bind-Ensures (in_file kernels (y ∷ ys) a b)
          (λ next. merge kernels pm next >>= λ merged.
            column_loop kernels mins maxs ind sync cols (some m) (some merged))
          (λ zs.
            (i : ℕ) (v : V)
            → get_elem? (y ∷ ys) i ≡ some (some v)
            → Within kernels a b v
            → PossibleAt zs i)
          (Finds (col ∷ cols) nn pm) (in_file-Possible kernels (y ∷ ys) a b present)
          (λ next hn.
            bind-Ensures (merge kernels pm next)
              (λ merged. column_loop kernels mins maxs ind sync cols (some m) (some merged))
              (λ zs. (i : ℕ) → At pm i → PossibleAt next i → PossibleAt zs i)
              (Finds (col ∷ cols) nn pm) (merge-Possible kernels pm next)
              (λ merged hm.
                Ensures_mono (column_loop kernels mins maxs ind sync cols (some m) (some merged))
                  (Finds cols (some m) (some merged)) (Finds (col ∷ cols) nn pm)
                  (λ result f r al begun (h, held).
                    let (v, at, w) = Held-at r col array has h in
                    let ((kept, before), place) = sc r v pm at al in
                    f r (kept, hm (rank m r) before (hn (rank m r) v place w))
                      (Begun-some cols merged) held)
                  (later m (some merged))))

    pub column_loop-Finds :
        (cols : List PkColumn) (nn : Option (List Bool)) (pm : Option (Array Bool))
        → All Ready cols
        → Ensures (column_loop kernels mins maxs ind sync cols nn pm) (Finds cols nn pm)
    unfolding column_loop Later
    column_loop-Finds [] nn none ready = λ r al begun held. absurd begun
    column_loop-Finds [] none (some p) ready = λ r al begun held. absurd al
    column_loop-Finds [] (some m) (some p) ready =
        λ r al begun held. is_needed-PossibleAt kernels p (rank m r) al.1
    column_loop-Finds (col ∷ cols) nn pm (((array, has), present), ready) = rw has (
        bind-Ensures (scope kernels nn array) _ (Scoped kernels nn array) (Finds (col ∷ cols) nn pm)
          (scope-Scoped kernels nn array)
          (λ (xs, m) sc.
            after_scope col cols nn pm array has present
              (λ m' pm'. column_loop-Finds cols (some m') pm' ready) xs m sc))
