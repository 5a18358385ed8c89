-- ===== src/Http/Safety.antt =====
-- What a request may change: the handlers.
use seafowl.Prelude.{
  ℕ, ◌≡◌, ◌⊎◌, inl, inr, refl, sym, ◌∙◌, String, true, false, Bool-cases, Option, none, some, List,
  [], ◌++◌, map, append-nil, length,
}
use mathlib.Core.Path.{subst⁻¹}
use seafowl.Auth as Auth
use seafowl.Http.Errors.{ApiError, write_forbidden, empty_multi_statement}
use seafowl.Http.Context.{
  DfStatement, LogicalPlan, planned, History, Answer, good, bad, crashes, Outcome, Fails, Ends,
  map-Ends, ok, err, panic, callee_panic, Run, ◌>>=◌, expect, bind_outcome, SeafowlContext,
}
use seafowl.Http.Query.{
  Response, count_reads, is_empty, wanted_action, check_last, run_statements, finish_query,
  plan_to_response, scoped, uncached_read_write_query,
}
use seafowl.Http.Statements.{
  Ordered, Checked, check_last-Checked, PlansOf, has_plan, Ran, run_statements-Ran,
}

module _ {Plan : Type 0} (ctx : SeafowlContext Plan) where
  -- What a query did: nothing, or plans of its statements in their order, which are in order
  -- themselves and which the user is allowed. An answer means that each statement was planned.
  abbrev pub Did :
      String
      → Auth.UserContext
      → String
      → History
      → Outcome (Response Plan)
      → List LogicalPlan
      → Type 0
  Did db user text h r ps =
      (ss : List DfStatement) × (ctx.parse_query text ≡ good ss)
      × PlansOf ctx (scoped ctx db) h ss ps
      × Ordered ss
      × (Auth.user_can user (wanted_action ss) ≡ true)
      × Ends r (λ response. length ps ≡ length ss)

  abbrev pub Queried :
      String → Auth.UserContext → String → History → Outcome (Response Plan) × History → Type 0
  Queried db user text h r =
      (ps : List LogicalPlan) × (r.1 ≡ h ++ map planned ps)
      × ((ps ≡ []) × Fails r.0 ⊎ Did db user text h r.0 ps)

  finish_query_lem :
      (n : ℕ) (plan : Plan) (h : History)
      → Ends (finish_query ctx n plan h).0 (λ r. Unit {0}) × ((finish_query ctx n plan h).1 ≡ h)
  unfolding finish_query plan_to_response
  finish_query_lem n plan h = go (ctx.execute_stream plan) refl
    where
      go :
          (a : Answer (Unit {0}))
          → ctx.execute_stream plan ≡ a
          → Ends (finish_query ctx n plan h).0 (λ r. Unit {0}) × ((finish_query ctx n plan h).1 ≡ h)
      go (good x) e = rw e (tt, refl)
      go (bad x) e = rw e (tt, refl)
      go crashes e = rw e (tt, refl)

  abbrev finish : List DfStatement → Option Plan → Run (Response Plan)
  finish ss plan_to_output =
      expect plan_to_output >>= λ plan. finish_query ctx (count_reads ss) plan

  -- The statements, once they are allowed and in order.
  run_allowed :
      (db : String) (user : Auth.UserContext) (text : String) (ss : List DfStatement) (h : History)
      → ctx.parse_query text ≡ good ss
      → is_empty ss ≡ false
      → Ordered ss
      → Auth.user_can user (wanted_action ss) ≡ true
      → Queried db user text h ((run_statements ctx (scoped ctx db) ss none >>= finish ss) h)
  run_allowed db user text ss h parsed ne ordered can =
      let r = run_statements ctx (scoped ctx db) ss none h in
      go r.0 r.1 (run_statements-Ran ctx (scoped ctx db) ss none h)
    where
      done :
          (o : Option Plan) (h' : History) (ps : List LogicalPlan)
          → has_plan ctx (scoped ctx db) o ≡ true
          → h' ≡ h ++ map planned ps
          → PlansOf ctx (scoped ctx db) h ss ps
          → length ps ≡ length ss
          → Queried db user text h (finish ss o h')
      done none h' ps has run plans len = absurd cc
      done (some plan) h' ps has run plans len =
          let (ends, same) = finish_query_lem (count_reads ss) plan h' in
          (
            ps,
            same ∙ run,
            inr (
              ss,
              parsed,
              plans,
              ordered,
              can,
              map-Ends (finish_query ctx (count_reads ss) plan h').0 (λ _ _. len) ends,
            ),
          )

      go :
          (o : Outcome (Option Plan)) (h' : History)
          → Ran ctx (scoped ctx db) h ss none (o, h')
          → Queried db user text h (bind_outcome o h' (finish ss))
      go (ok o) h' (ps, run, plans, (len, has)) = done o h' ps (has (rw ne refl)) run plans len
      go (err e) h' (ps, run, plans, _) = (ps, run, inr (ss, parsed, plans, ordered, can, tt))
      go panic h' (ps, run, plans, f) = absurd f
      go callee_panic h' (ps, run, plans, _) = (ps, run, inr (ss, parsed, plans, ordered, can, tt))

  unchanged :
      (db : String) (user : Auth.UserContext) (text : String) (h : History) (e : ApiError)
      → Queried db user text h (err e, h)
  unchanged db user text h e = ([], sym (append-nil h), inl (refl, tt))

  -- No unwrap of a query's own fails; it panics only if the context or a library that it calls does.
  -- It leaves the history as it is and fails, or its text parses to statements of which at most the
  -- last one reads, the user is allowed what they want, and the plans that are made are those of the
  -- first statements, in their order; if it answers, of all of them.
  pub uncached_read_write_query-Queried :
      (db : String) (user : Auth.UserContext) (text : String) (h : History)
      → Queried db user text h (uncached_read_write_query ctx db user text h)
  unfolding uncached_read_write_query
  uncached_read_write_query-Queried db user text h = parsed (ctx.parse_query text) refl
    where
      ordered :
          (ss : List DfStatement)
          → ctx.parse_query text ≡ good ss
          → is_empty ss ≡ false
          → Auth.user_can user (wanted_action ss) ≡ true
          → (c : Outcome (Unit {0})) (h' : History) → Checked ss h (c, h')
          → Queried db user text h (
              let m = bind_outcome c h' (λ _. run_statements ctx (scoped ctx db) ss none) in
              bind_outcome m.0 m.1 (finish ss))
      ordered ss p ne can (ok u) h' (o, same) = rw same (run_allowed db user text ss h p ne o can)
      ordered ss p ne can (err e) h' (x, no_order, same) = rw same (unchanged db user text h e)
      ordered ss p ne can panic h' f = absurd f
      ordered ss p ne can callee_panic h' f = absurd f

      parsed :
          (a : Answer (List DfStatement))
          → ctx.parse_query text ≡ a
          → Queried db user text h (uncached_read_write_query ctx db user text h)
      parsed (bad e) p =
          subst⁻¹ (Queried db user text h) {y = (err e, h)} (rw p refl) (unchanged db user text h e)
      parsed crashes p =
          subst⁻¹ (Queried db user text h) {y = (callee_panic, h)} (rw p refl)
            ([], sym (append-nil h), inl (refl, tt))
      parsed (good ss) p = elim (Bool-cases (is_empty ss)) [
        | inl y ↦
            subst⁻¹ (Queried db user text h) {y = (err empty_multi_statement, h)} (rw (p, y) refl)
              (unchanged db user text h empty_multi_statement)
        | inr ne ↦ elim (Bool-cases (Auth.user_can user (wanted_action ss))) [
          | inl can ↦ subst⁻¹ (Queried db user text h) (rw (p, ne, can) refl) (
              ordered ss p ne can (check_last ss h).0 (check_last ss h).1
                (check_last-Checked ss h ne))
          | inr no_can ↦
              subst⁻¹ (Queried db user text h) {y = (err write_forbidden, h)}
                (rw (p, ne, no_can) refl) (unchanged db user text h write_forbidden)
        ]
      ]
