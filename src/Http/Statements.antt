-- ===== src/Http/Statements.antt =====
-- The order of the statements of a query, and the plans that a loop over them makes.
use seafowl.Prelude.{
  suc, ◌≡◌, inl, inr, refl, ap, sym, ◌∙◌, String, Bool, true, false, Bool-cases, not, ◌||◌, Option,
  none, some, List, [], ◌∷◌, ◌++◌, map, append_assoc, append-nil, length, ◌==◌, ltb, if◌then◌else◌,
  arith,
}
use seafowl.Http.Errors.{invalid_multi_statement}
use seafowl.Http.Context.{
  DfStatement, LogicalPlan, planned, History, Answer, good, bad, crashes, Outcome, ok, err, panic,
  callee_panic, ◌>>=◌, of_answer, bind_outcome, SeafowlContext, create_physical_plan,
}
use seafowl.Http.Query.{
  is_statement_read_only, count_reads, last, is_empty, check_last, run_statements,
}

-- At most one statement reads, and it is the last one.
abbrev pub Ordered : List DfStatement → Type 0
Ordered [] = ⊥
Ordered (s ∷ []) = Unit
Ordered (s ∷ t ∷ ss) = (is_statement_read_only s ≡ false) × Ordered (t ∷ ss)

abbrev last_reads : Option DfStatement → Bool
last_reads none = false
last_reads (some s) = is_statement_read_only s

no_reads : (ss : List DfStatement) → count_reads ss ≡ 0 → last_reads (last ss) ≡ false
unfolding count_reads
no_reads [] h = refl
no_reads (s ∷ []) h = ground arith
no_reads (s ∷ t ∷ ss) h = ground (arith, no_reads (t ∷ ss))

-- What `check_last` computes.
abbrev one_read : List DfStatement → Bool
one_read ss =
    if ltb 1 (count_reads ss)
    then false
    else if count_reads ss == 1
    then last_reads (last ss)
    else true

one_read-Ordered : (ss : List DfStatement) → is_empty ss ≡ false → one_read ss ≡ true → Ordered ss
unfolding count_reads
one_read-Ordered [] e h = absurd cc
one_read-Ordered (s ∷ []) e h = tt
one_read-Ordered (s ∷ t ∷ ss) e h = elim (Bool-cases (is_statement_read_only s)) [
  | inl y ↦ absurd (ground (arith, no_reads (t ∷ ss)))
  | inr n ↦ (n, one_read-Ordered (t ∷ ss) refl (ground arith))
]

Ordered-one_read : (ss : List DfStatement) → Ordered ss → one_read ss ≡ true
unfolding count_reads
Ordered-one_read [] h = absurd h
Ordered-one_read (s ∷ []) h = ground arith
Ordered-one_read (s ∷ t ∷ ss) (n, h) = ground (arith, Ordered-one_read (t ∷ ss) h)

-- The check passes or refuses the request, and passes just the ordered statements.
abbrev pub Checked : List DfStatement → History → Outcome (Unit {0}) × History → Type 0
Checked ss h (ok _, h') = Ordered ss × (h' ≡ h)
Checked ss h (err e, h') = (e ≡ invalid_multi_statement) × (Ordered ss → ⊥) × (h' ≡ h)
Checked ss h (panic, h') = ⊥
Checked ss h (callee_panic, h') = ⊥

last_exists : (ss : List DfStatement) → is_empty ss ≡ false → (s : DfStatement) × (last ss ≡ some s)
last_exists [] e = absurd cc
last_exists (s ∷ []) e = (s, refl)
last_exists (s ∷ t ∷ ss) e = last_exists (t ∷ ss) refl

pub check_last-Checked :
    (ss : List DfStatement) (h : History) → is_empty ss ≡ false → Checked ss h (check_last ss h)
unfolding check_last
check_last-Checked ss h e = elim (Bool-cases (ltb 1 (count_reads ss))) [
  | inl y ↦ rw y (refl, (λ o. let b = Ordered-one_read ss o in absurd (ground arith)), refl)
  | inr n ↦ elim (Bool-cases (count_reads ss == 1)) [
    | inl y ↦
        let (s, at) = last_exists ss e in
        elim (Bool-cases (is_statement_read_only s)) [
          | inl r ↦
              let b : one_read ss ≡ true = rw (n, y, at) r in
              rw (n, y, at, r) (one_read-Ordered ss e b, refl)
          | inr r ↦
              let b : one_read ss ≡ false = rw (n, y, at) r in
              rw (n, y, at, r) (refl, (λ o. let c = Ordered-one_read ss o in absurd cc), refl)
        ]
    | inr z ↦
        let b : one_read ss ≡ true = rw (n, z) refl in rw (n, z) (one_read-Ordered ss e b, refl)
  ]
]

module _ {Plan : Type 0} (ctx : SeafowlContext Plan) (db : String) where
  -- Each plan is that of its statement, in the order of the statements, after the plans before it.
  abbrev pub PlansOf : History → List DfStatement → List LogicalPlan → Type 0
  PlansOf h ss [] = Unit
  PlansOf h [] (p ∷ ps) = ⊥
  PlansOf h (s ∷ ss) (p ∷ ps) =
      (ctx.logical_plan db h s ≡ good p) × PlansOf (h ++ planned p ∷ []) ss ps

  abbrev pub has_plan : Option Plan → Bool
  has_plan none = false
  has_plan (some p) = true

  abbrev pub Ended :
      List DfStatement → Option Plan → List LogicalPlan → Outcome (Option Plan) → Type 0
  Ended ss out ps (ok o) =
      (length ps ≡ length ss) × (not (is_empty ss) || has_plan out ≡ true → has_plan o ≡ true)
  Ended ss out ps (err e) = Unit
  Ended ss out ps panic = ⊥
  Ended ss out ps callee_panic = Unit

  abbrev pub Ran :
      History → List DfStatement → Option Plan → Outcome (Option Plan) × History → Type 0
  Ran h ss out r =
      (ps : List LogicalPlan) × (r.1 ≡ h ++ map planned ps) × PlansOf h ss ps × Ended ss out ps r.0

  pub run_statements-Ran :
      (ss : List DfStatement) (out : Option Plan) (h : History)
      → Ran h ss out (run_statements ctx db ss out h)
  unfolding run_statements
  run_statements-Ran [] out h = ([], sym (append-nil h), tt, (refl, λ e. e))
  run_statements-Ran (s ∷ ss) out h =
      plan_step (λ o g. run_statements-Ran ss o g) (ctx.logical_plan db h s) refl
    where
      continue :
          (p : LogicalPlan) (o : Outcome (Option Plan)) (h' : History) (plan : Plan)
          → ctx.logical_plan db h s ≡ good p
          → Ran (h ++ planned p ∷ []) ss (some plan) (o, h')
          → Ran h (s ∷ ss) out (o, h')
      continue p (ok o) h' plan e (ps, run, plans, (len, has)) = (
        p ∷ ps,
        run ∙ append_assoc h (planned p ∷ []) (map planned ps),
        (e, plans),
        (ap suc len, λ _. has (or_true (not (is_empty ss)))),
      )
        where
          or_true : (b : Bool) → b || true ≡ true
          or_true true = refl
          or_true false = refl
      continue p (err x) h' plan e (ps, run, plans, _) =
          (p ∷ ps, run ∙ append_assoc h (planned p ∷ []) (map planned ps), (e, plans), tt)
      continue p panic h' plan e (ps, run, plans, f) = absurd f
      continue p callee_panic h' plan e (ps, run, plans, _) =
          (p ∷ ps, run ∙ append_assoc h (planned p ∷ []) (map planned ps), (e, plans), tt)

      physical_step :
          ((o : Option Plan) (g : History) → Ran g ss o (run_statements ctx db ss o g))
          → (p : LogicalPlan) → ctx.logical_plan db h s ≡ good p
          → (a : Answer Plan) → ctx.physical_plan db h p ≡ a
          → Ran h (s ∷ ss) out (
              bind_outcome
                (of_answer a)
                (h ++ planned p ∷ [])
                (λ plan. run_statements ctx db ss (some plan)))
      physical_step ih p e (good plan) a =
          let r = run_statements ctx db ss (some plan) (h ++ planned p ∷ []) in
          continue p r.0 r.1 plan e (ih (some plan) (h ++ planned p ∷ []))
      physical_step ih p e (bad x) a = (p ∷ [], refl, (e, tt), tt)
      physical_step ih p e crashes a = (p ∷ [], refl, (e, tt), tt)

      plan_step :
          ((o : Option Plan) (g : History) → Ran g ss o (run_statements ctx db ss o g))
          → (a : Answer LogicalPlan) → ctx.logical_plan db h s ≡ a
          → Ran h (s ∷ ss) out (
              bind_outcome (of_answer a) h (λ logical.
                create_physical_plan ctx db logical >>= λ plan.
                run_statements ctx db ss (some plan)))
      plan_step ih (good p) e = physical_step ih p e (ctx.physical_plan db h p) refl
      plan_step ih (bad x) e = ([], sym (append-nil h), tt, tt)
      plan_step ih crashes e = ([], sym (append-nil h), tt, tt)
