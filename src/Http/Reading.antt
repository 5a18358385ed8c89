-- ===== src/Http/Reading.antt =====
-- What a cached query does.
use seafowl.Prelude.{
  ◌≡◌, ◌⊎◌, inl, inr, refl, ap, ◌∙◌, String, true, false, Bool-cases, Option, none, some, List, [],
  ◌∷◌, ◌++◌, str_eq, str_eq_iff,
}
use mathlib.Core.Path.{subst⁻¹}
use seafowl.Prelude.Texts.{before_char}
use seafowl.Http.Errors.{ApiError, hash_mismatch, not_read_only_query}
use seafowl.Http.Context.{
  DfStatement, PlanKind, dml, ddl, analyze, extension, copy_to, other_plan, LogicalPlan, planned,
  History, Answer, good, bad, crashes, Outcome, Fails, Ends, ok, err, panic, callee_panic, ◌>>=◌,
  ◌>>◌, pure, lift, require, of_answer, bind_outcome, SeafowlContext,
  create_logical_plan_from_statement,
}
use seafowl.Http.Query.{Response, respond, message, plan_to_response, scoped}
use seafowl.Http.Cached.{
  is_read_only, same_tag, plan_to_etag, decoded_or_error, decode_query, only_statement,
  create_logical_plan, run_read, answer_plan, cached_read_query,
}

ok_injective : {A : Type 0} {a b : A} → ok a ≡ ok b → a ≡ b
ok_injective h = cc

-- A plan of none of the kinds that write or run: no DML, DDL, ANALYZE, extension or COPY.
abbrev pub Reads : PlanKind → Type 0
Reads dml = ⊥
Reads ddl = ⊥
Reads analyze = ⊥
Reads extension = ⊥
Reads copy_to = ⊥
Reads other_plan = Unit

is_read_only-Reads : (k : PlanKind) → is_read_only k ≡ true → Reads k
unfolding is_read_only
is_read_only-Reads dml e = absurd cc
is_read_only-Reads ddl e = absurd cc
is_read_only-Reads analyze e = absurd cc
is_read_only-Reads extension e = absurd cc
is_read_only-Reads copy_to e = absurd cc
is_read_only-Reads other_plan e = tt

module _ {Plan : Type 0} (ctx : SeafowlContext Plan) where
  -- The query is read from the path, or from elsewhere and its hash is in the path.
  abbrev pub Decoded : String → Option String → String → Type 0
  Decoded query_or_hash none q = ctx.percent_decode query_or_hash ≡ some q
  Decoded query_hash (some raw) q =
      (ctx.percent_decode raw ≡ some q) × (query_hash ≡ ctx.str_to_hex_hash q)

  -- The plan is handed on if the tag differs, and otherwise nothing is done.
  abbrev pub Answered :
      Option String → LogicalPlan → History → Outcome (Response Plan) × History → Type 0
  Answered if_none_match p h r =
      ((same_tag (plan_to_etag ctx p) if_none_match ≡ true)
        × (r ≡ (ok (respond 304 (message "NOT_MODIFIED")), h)))
      ⊎ ((same_tag (plan_to_etag ctx p) if_none_match ≡ false)
          × (r.1 ≡ h ++ planned p ∷ [])
          × Ends r.0
              (λ response. (response.status ≡ 200) × (response.etag ≡ some (plan_to_etag ctx p))))

  abbrev pub CachedRead :
      String
      → String
      → Option String
      → Option String
      → History
      → Outcome (Response Plan) × History
      → Type 0
  CachedRead db path raw if_none_match h r =
      (r.1 ≡ h) × Fails r.0
      ⊎ ((q : String) × (s : DfStatement) × (p : LogicalPlan) × Decoded (before_char "." path) raw q
          × (ctx.parse_query q ≡ good (s ∷ []))
          × (ctx.logical_plan (scoped ctx db) h s ≡ good p)
          × Reads p.kind
          × Answered if_none_match p h r)

  abbrev Handed : LogicalPlan → String → History → Outcome (Response Plan) × History → Type 0
  Handed p etag h r =
      (r.1 ≡ h ++ planned p ∷ [])
      × Ends r.0 (λ response. (response.status ≡ 200) × (response.etag ≡ some etag))

  run_read_lem :
      (db : String) (p : LogicalPlan) (etag : String) (h : History)
      → Handed p etag h (run_read ctx db p etag h)
  unfolding run_read plan_to_response
  run_read_lem db p etag h = physical (ctx.physical_plan db h p) refl
    where
      streamed :
          (plan : Plan)
          → ctx.physical_plan db h p ≡ good plan
          → (a : Answer (Unit {0})) → ctx.execute_stream plan ≡ a
          → Handed p etag h (run_read ctx db p etag h)
      streamed plan e (good u) f = rw (e, f) (refl, (refl, refl))
      streamed plan e (bad x) f = rw (e, f) (refl, tt)
      streamed plan e crashes f = rw (e, f) (refl, tt)

      physical :
          (a : Answer Plan)
          → ctx.physical_plan db h p ≡ a
          → Handed p etag h (run_read ctx db p etag h)
      physical (good plan) e = streamed plan e (ctx.execute_stream plan) refl
      physical (bad x) e = rw e (refl, tt)
      physical crashes e = rw e (refl, tt)

  answer_plan-Answered :
      (db : String) (if_none_match : Option String) (p : LogicalPlan) (h : History)
      → is_read_only p.kind ≡ true
      → Answered if_none_match p h (answer_plan ctx db if_none_match p h)
  unfolding answer_plan
  answer_plan-Answered db if_none_match p h reads =
      elim (Bool-cases (same_tag (plan_to_etag ctx p) if_none_match)) [
        | inl y ↦
            let run : answer_plan ctx db if_none_match p h
                ≡ (ok (respond 304 (message "NOT_MODIFIED")), h) =
              rw (reads, y) refl in
            inl (y, run)
        | inr n ↦
            let run : answer_plan ctx db if_none_match p h
                ≡ run_read ctx db p (plan_to_etag ctx p) h =
              rw (reads, n) refl in
            let (grown, ends) = run_read_lem db p (plan_to_etag ctx p) h in
            inr (
              n,
              ap (λ r. r.1) run ∙ grown,
              subst⁻¹
                  (λ o. Ends o (λ response.
                    (response.status ≡ 200) × (response.etag ≡ some (plan_to_etag ctx p))))
                  (ap (λ r. r.0) run) ends,
            )
      ]

  abbrev DecodeEnded : String → Option String → History → Outcome String × History → Type 0
  DecodeEnded path raw h (ok q, h') = Decoded path raw q × (h' ≡ h)
  DecodeEnded path raw h (err e, h') = h' ≡ h
  DecodeEnded path raw h (panic, h') = ⊥
  DecodeEnded path raw h (callee_panic, h') = ⊥

  decode_query_lem :
      (path : String) (raw : Option String) (h : History)
      → DecodeEnded path raw h (decode_query ctx path raw h)
  unfolding decode_query
  decode_query_lem path none h = go (ctx.percent_decode path) refl
    where
      go :
          (o : Option String)
          → ctx.percent_decode path ≡ o
          → DecodeEnded path none h (lift (decoded_or_error ctx o) h)
      go none e = refl
      go (some q) e = (e, refl)
  decode_query_lem path (some raw) h = go (ctx.percent_decode raw) refl
    where
      go :
          (o : Option String)
          → ctx.percent_decode raw ≡ o
          → DecodeEnded path (some raw) h (
              bind_outcome (decoded_or_error ctx o) h (λ q.
                require
                  (str_eq path (ctx.str_to_hex_hash q))
                  (hash_mismatch (ctx.str_to_hex_hash q) path)
                >> pure q))
      go none e = refl
      go (some q) e = elim (Bool-cases (str_eq path (ctx.str_to_hex_hash q))) [
        | inl y ↦ rw y ((e, (str_eq_iff path (ctx.str_to_hex_hash q)).0 y), refl)
        | inr n ↦ rw n refl
      ]

  abbrev PlanEnded : String → String → History → Outcome LogicalPlan × History → Type 0
  PlanEnded db q h (ok p, h') =
      (s : DfStatement) × (ctx.parse_query q ≡ good (s ∷ []))
      × (ctx.logical_plan db h s ≡ good p)
      × (h' ≡ h)
  PlanEnded db q h (err e, h') = h' ≡ h
  PlanEnded db q h (panic, h') = ⊥
  PlanEnded db q h (callee_panic, h') = h' ≡ h

  create_logical_plan_lem :
      (db q : String) (h : History) → PlanEnded db q h (create_logical_plan ctx db q h)
  unfolding create_logical_plan
  create_logical_plan_lem db q h = go (ctx.parse_query q) refl
    where
      one :
          (s : DfStatement)
          → ctx.parse_query q ≡ good (s ∷ [])
          → (a : Answer LogicalPlan) → ctx.logical_plan db h s ≡ a
          → PlanEnded db q h (of_answer a, h)
      one s e (good p) f = (s, e, f, refl)
      one s e (bad x) f = refl
      one s e crashes f = refl

      go :
          (a : Answer (List DfStatement))
          → ctx.parse_query q ≡ a
          → PlanEnded db q h (
              bind_outcome
                (of_answer a)
                h
                (λ ss. lift (only_statement ctx ss) >>= create_logical_plan_from_statement ctx db))
      go (bad x) e = refl
      go crashes e = refl
      go (good []) e = refl
      go (good (s ∷ [])) e = one s e (ctx.logical_plan db h s) refl
      go (good (s ∷ t ∷ ss)) e = refl

  -- No unwrap of a cached query's own fails; it panics only if the context or a library that it calls
  -- does. It fails and leaves the history as it is, or it finds one statement in a query that is in
  -- the path, or whose hash is, and whose plan is no DML, DDL, ANALYZE, extension or COPY: with
  -- the tag of the plan at hand nothing else is done, and otherwise that plan is run, and an answer
  -- has the tag.
  pub cached_read_query-CachedRead :
      (db path : String) (raw if_none_match : Option String) (h : History)
      → CachedRead db path raw if_none_match h (cached_read_query ctx db path raw if_none_match h)
  unfolding cached_read_query decode_query create_logical_plan answer_plan
  cached_read_query-CachedRead db path raw if_none_match h =
      let d = decode_query ctx (before_char "." path) raw h in
      decoded d.0 d.1 (decode_query_lem (before_char "." path) raw h)
    where
      Goal : Outcome (Response Plan) × History → Type 0
      Goal r = CachedRead db path raw if_none_match h r

      failed : (e : ApiError) (h' : History) → h' ≡ h → Goal (err e, h')
      failed e h' same = inl (same, tt)

      read :
          (q : String) (s : DfStatement) (p : LogicalPlan)
          → Decoded (before_char "." path) raw q
          → ctx.parse_query q ≡ good (s ∷ [])
          → ctx.logical_plan (scoped ctx db) h s ≡ good p
          → Goal (answer_plan ctx (scoped ctx db) if_none_match p h)
      read q s p dec parse plan = elim (Bool-cases (is_read_only p.kind)) [
        | inl y ↦ inr (
          q,
          s,
          p,
          dec,
          parse,
          plan,
          is_read_only-Reads p.kind y,
          answer_plan-Answered (scoped ctx db) if_none_match p h y,
        )
        | inr n ↦ subst⁻¹ Goal (rw n refl) (failed not_read_only_query h refl)
      ]

      plans :
          (q : String)
          → Decoded (before_char "." path) raw q
          → (o : Outcome LogicalPlan) (h' : History) → PlanEnded (scoped ctx db) q h (o, h')
          → Goal (bind_outcome o h' (answer_plan ctx (scoped ctx db) if_none_match))
      plans q dec (ok p) h' (s, parse, plan, same) =
          subst⁻¹ (λ g. Goal (answer_plan ctx (scoped ctx db) if_none_match p g)) same
            (read q s p dec parse plan)
      plans q dec (err e) h' same = failed e h' same
      plans q dec panic h' f = absurd f
      plans q dec callee_panic h' same = inl (same, tt)

      decoded :
          (o : Outcome String) (h' : History)
          → DecodeEnded (before_char "." path) raw h (o, h')
          → Goal (
              bind_outcome o h' (λ q.
                create_logical_plan ctx (scoped ctx db) q
                >>= answer_plan ctx (scoped ctx db) if_none_match))
      decoded (ok q) h' (dec, same) =
          subst⁻¹
            (λ g. Goal (
              (create_logical_plan ctx (scoped ctx db) q
                  >>= answer_plan ctx (scoped ctx db) if_none_match)
                g))
            same
            (let c = create_logical_plan ctx (scoped ctx db) q h in
              plans q dec c.0 c.1 (create_logical_plan_lem (scoped ctx db) q h))
      decoded (err e) h' same = failed e h' same
      decoded panic h' f = absurd f
      decoded callee_panic h' f = absurd f
