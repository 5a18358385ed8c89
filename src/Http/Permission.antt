-- ===== src/Http/Permission.antt =====
-- What a request may change: the handlers, by what their user may do.
use seafowl.Prelude.{
  ◌≤◌, ◌≡◌, ◌⊎◌, inl, inr, refl, ap, sym, ◌∙◌, String, true, Bool-cases, Option, List, [], ◌∷◌,
  ◌++◌, map, append-nil, length, ◌==◌, ==_iff, arith,
}
use mathlib.Core.Path.{subst}
use seafowl.Auth as Auth
use seafowl.Http.Context.{
  query, explain, show_tables, other_statement, DfStatement, statement, other_df_statement,
  LogicalPlan, Event, planned, appended, History, good, Outcome, Fails, SeafowlContext,
}
use seafowl.Http.Query.{
  Response, is_statement_read_only, count_reads, wanted_action, scoped, uncached_read_write_query,
}
use seafowl.Http.Cached.{cached_read_query}
use seafowl.Http.Upload.{Given, Part, UploadTools, upload}
use seafowl.Http.Statements.{Ordered, PlansOf}
use seafowl.Http.Safety.{Did, uncached_read_write_query-Queried}
use seafowl.Http.Reading.{Reads, CachedRead, cached_read_query-CachedRead}
use seafowl.Http.Appending.{Appended, upload-Appended}

-- A query, an EXPLAIN or a SHOW TABLES.
abbrev pub IsRead : DfStatement → Type 0
IsRead (statement (query n)) = Unit
IsRead (statement (explain n)) = Unit
IsRead (statement (show_tables n)) = Unit
IsRead (statement (other_statement n)) = ⊥
IsRead (other_df_statement n) = ⊥

is_statement_read_only-IsRead : (s : DfStatement) → is_statement_read_only s ≡ true → IsRead s
unfolding is_statement_read_only
is_statement_read_only-IsRead (statement (query n)) e = tt
is_statement_read_only-IsRead (statement (explain n)) e = tt
is_statement_read_only-IsRead (statement (show_tables n)) e = tt
is_statement_read_only-IsRead (statement (other_statement n)) e = absurd cc
is_statement_read_only-IsRead (other_df_statement n) e = absurd cc

module _ {Plan : Type 0} (ctx : SeafowlContext Plan) where
  -- The plan is of a kind that only reads, or it is the plan of a query, EXPLAIN or SHOW TABLES.
  abbrev pub OnlyReads : LogicalPlan → Type 0
  OnlyReads p =
      Reads p.kind
      ⊎ ((db : String) × (h : History) × (s : DfStatement) × (ctx.logical_plan db h s ≡ good p)
          × IsRead s)

  -- A user who may write may do anything; one who may read runs one plan that only reads.
  abbrev pub Fit : Auth.UserContext → List Event → Type 0
  Fit user es =
      (es ≡ [])
      ⊎ (Auth.user_can user Auth.Action.write ≡ true)
      ⊎ ((Auth.user_can user Auth.Action.read ≡ true)
          × ((p : LogicalPlan) × (es ≡ planned p ∷ []) × OnlyReads p))

  abbrev pub Does : Auth.UserContext → History → History → Type 0
  Does user h h' = (es : List Event) × (h' ≡ h ++ es) × Fit user es

  count_le : (ss : List DfStatement) → count_reads ss ≤ length ss
  unfolding count_reads
  count_le [] = omega arith
  count_le (s ∷ ss) = ground (arith, count_le ss)

  all_read :
      (ss : List DfStatement)
      → Ordered ss
      → count_reads ss ≡ length ss
      → (s : DfStatement) × (ss ≡ s ∷ []) × (is_statement_read_only s ≡ true)
  unfolding count_reads
  all_read [] o e = absurd o
  all_read (s ∷ []) o e = (s, refl, ground arith)
  all_read (s ∷ t ∷ ss) (n, o) e = absurd (ground (arith, count_le (t ∷ ss)))

  one_plan :
      (db : String) (h : History) (s : DfStatement) (ps : List LogicalPlan)
      → PlansOf ctx db h (s ∷ []) ps
      → IsRead s
      → (user : Auth.UserContext) → Auth.user_can user Auth.Action.read ≡ true
      → Fit user (map planned ps)
  one_plan db h s [] plans r user can = inl refl
  one_plan db h s (p ∷ []) (e, _) r user can = inr (inr (can, (p, refl, inr (db, h, s, e, r))))
  one_plan db h s (p ∷ q ∷ ps) (e, f) r user can = absurd f

  pub Queried-Does :
      (db : String) (user : Auth.UserContext) (text : String) (h : History)
      → Does user h (uncached_read_write_query ctx db user text h).1
  Queried-Does db user text h =
      let (ps, run, what) = uncached_read_write_query-Queried ctx db user text h in
      (map planned ps, run, fit ps what)
    where
      fit :
          (ps : List LogicalPlan)
          → (ps ≡ []) × Fails (uncached_read_write_query ctx db user text h).0
            ⊎ Did ctx db user text h (uncached_read_write_query ctx db user text h).0 ps
          → Fit user (map planned ps)
      fit ps (inl (e, _)) = inl (ap (map planned) e)
      fit ps (inr (ss, parsed, plans, ordered, can, _)) =
          elim (Bool-cases (count_reads ss == length ss)) [
            | inl y ↦
                let w : wanted_action ss ≡ Auth.Action.read = unfold wanted_action in (rw y refl) in
                let reads : Auth.user_can user Auth.Action.read ≡ true =
                  sym (ap (Auth.user_can user) w) ∙ can in
                let (s, single, r) =
                  all_read ss ordered ((==_iff (count_reads ss) (length ss)).0 y) in
                one_plan (scoped ctx db) h s ps
                  (subst (λ l. PlansOf ctx (scoped ctx db) h l ps) single plans)
                  (is_statement_read_only-IsRead s r) user reads
            | inr n ↦
                let w : wanted_action ss ≡ Auth.Action.write =
                  unfold wanted_action in (rw n refl) in
                inr (inl (sym (ap (Auth.user_can user) w) ∙ can))
          ]

  pub CachedRead-Does :
      (db path : String) (raw if_none_match : Option String) (h : History) (user : Auth.UserContext)
      → Auth.user_can user Auth.Action.read ≡ true
      → Does user h (cached_read_query ctx db path raw if_none_match h).1
  CachedRead-Does db path raw if_none_match h user can =
      go (cached_read_query-CachedRead ctx db path raw if_none_match h)
    where
      r : Outcome (Response Plan) × History
      r = cached_read_query ctx db path raw if_none_match h

      go :
          CachedRead ctx db path raw if_none_match h
            (cached_read_query ctx db path raw if_none_match h)
          → Does user h (cached_read_query ctx db path raw if_none_match h).1
      go (inl (same, _)) = ([], same ∙ sym (append-nil h), inl refl)
      go (inr (q, s, p, dec, parse, plan, reads, inl (tag, e))) =
          ([], ap (λ x. x.1) e ∙ sym (append-nil h), inl refl)
      go (inr (q, s, p, dec, parse, plan, reads, inr (tag, run, _))) =
          (planned p ∷ [], run, inr (inr (can, (p, refl, inl reads))))

  module _ (tools : UploadTools) where
    pub Appended-Does :
        (db schema_name table_name : String) (user : Auth.UserContext) (form : List (Given Part))
        (h : History)
        → Does user h (upload tools ctx db schema_name table_name user form h).1
    Appended-Does db schema_name table_name user form h =
        go (upload-Appended tools ctx db schema_name table_name user form h)
      where
        go :
            Appended tools ctx db schema_name table_name user h
              (upload tools ctx db schema_name table_name user form h)
            → Does user h (upload tools ctx db schema_name table_name user form h).1
        go (inl (same, _)) = ([], same ∙ sym (append-nil h), inl refl)
        go (inr (name, run, can, _, _)) =
            (appended (scoped ctx db) schema_name table_name name ∷ [], run, inr (inl can))
