-- ===== src/Http/Revalidation.antt =====
-- A cached query that is sent again with the tag of its answer.
use seafowl.Prelude.{
  ◌≡◌, inl, inr, refl, ap, sym, ◌∙◌, String, true, Option, none, some, [], ◌∷◌, str_eq_iff,
  str_eq_refl,
}
use mathlib.Core.Path.{subst}
use seafowl.Prelude.Texts.{before_char}
use seafowl.Http.Context.{
  DfStatement, PlanKind, dml, ddl, analyze, extension, copy_to, other_plan, LogicalPlan, History,
  good, Outcome, Fails, Ends, ok, err, panic, callee_panic, SeafowlContext,
}
use seafowl.Http.Query.{Response, respond, message, scoped}
use seafowl.Http.Cached.{
  is_read_only, same_tag, plan_to_etag, decode_query, create_logical_plan, answer_plan,
  cached_read_query,
}
use seafowl.Http.Reading.{Reads, Decoded, CachedRead, cached_read_query-CachedRead}

Reads-is_read_only : (k : PlanKind) → Reads k → is_read_only k ≡ true
unfolding is_read_only
Reads-is_read_only dml r = absurd r
Reads-is_read_only ddl r = absurd r
Reads-is_read_only analyze r = absurd r
Reads-is_read_only extension r = absurd r
Reads-is_read_only copy_to r = absurd r
Reads-is_read_only other_plan r = refl

module _ {Plan : Type 0} (ctx : SeafowlContext Plan) where
  decode_query-Decoded :
      (path : String) (raw : Option String) (q : String) (h : History)
      → Decoded ctx path raw q
      → decode_query ctx path raw h ≡ (ok q, h)
  unfolding decode_query
  decode_query-Decoded path none q h d = rw d refl
  decode_query-Decoded path (some r) q h (d, e) =
      rw (d, (str_eq_iff path (ctx.str_to_hex_hash q)).1 e) refl

  -- A plan whose tag is at hand is not run.
  not_modified :
      (db path : String) (raw : Option String) (h : History) (q : String) (s : DfStatement)
      (p : LogicalPlan)
      → Decoded ctx (before_char "." path) raw q
      → ctx.parse_query q ≡ good (s ∷ [])
      → ctx.logical_plan (scoped ctx db) h s ≡ good p
      → is_read_only p.kind ≡ true
      → cached_read_query ctx db path raw (some (plan_to_etag ctx p)) h
        ≡ (ok (respond 304 (message "NOT_MODIFIED")), h)
  unfolding cached_read_query create_logical_plan answer_plan
  not_modified db path raw h q s p d parse plan reads =
      rw
        (
          decode_query-Decoded (before_char "." path) raw q h d,
          parse,
          plan,
          reads,
          str_eq_refl (plan_to_etag ctx p),
        )
        refl

  -- Every statement that was planned is planned again, to a plan of that kind that visits tables of
  -- those versions.
  abbrev pub SameVersions : String → History → History → Type 0
  SameVersions db h g =
      (s : DfStatement) (p : LogicalPlan)
      → ctx.logical_plan db h s ≡ good p
      → (p' : LogicalPlan) × (ctx.logical_plan db g s ≡ good p')
        × (p'.kind ≡ p.kind)
        × (p'.visited ≡ p.visited)

  repeated :
      (db path : String) (raw : Option String) (h g : History) (q : String) (s : DfStatement)
      (p : LogicalPlan) (tag : String)
      → SameVersions (scoped ctx db) h g
      → Decoded ctx (before_char "." path) raw q
      → ctx.parse_query q ≡ good (s ∷ [])
      → ctx.logical_plan (scoped ctx db) h s ≡ good p
      → is_read_only p.kind ≡ true
      → plan_to_etag ctx p ≡ tag
      → cached_read_query ctx db path raw (some tag) g
        ≡ (ok (respond 304 (message "NOT_MODIFIED")), g)
  unfolding plan_to_etag
  repeated db path raw h g q s p tag versions d parse plan reads t =
      let (p', again, kind, visited) = versions s p plan in
      let tags : plan_to_etag ctx p' ≡ tag =
        ap (λ v. ctx.etag_of_bytes (seafowl.Http.Cached.collect_versions v [])) visited ∙ t in
      subst
        (λ t.
          cached_read_query ctx db path raw (some t) g
          ≡ (ok (respond 304 (message "NOT_MODIFIED")), g))
        tags (not_modified db path raw g q s p' d parse again (ap is_read_only kind ∙ reads))

  -- If a cached query was answered with a tag, and the tables have the same versions, then the same
  -- query with that tag is answered with 304, and nothing else is done.
  pub cached_read_query_revalidated :
      (db path : String) (raw if_none_match : Option String) (h g : History)
      (response : Response Plan) (tag : String)
      → (cached_read_query ctx db path raw if_none_match h).0 ≡ ok response
      → response.etag ≡ some tag
      → SameVersions (scoped ctx db) h g
      → cached_read_query ctx db path raw (some tag) g
        ≡ (ok (respond 304 (message "NOT_MODIFIED")), g)
  cached_read_query_revalidated db path raw if_none_match h g response tag answer tagged versions =
      go (cached_read_query-CachedRead ctx db path raw if_none_match h)
    where
      none_some : ◌≡◌ {A = Option String} none (some tag) → ⊥
      none_some e = cc

      fails : (o : Outcome (Response Plan)) → o ≡ ok response → Fails o → ⊥
      fails (ok r) e f = f
      fails (err x) e f = absurd cc
      fails panic e f = f
      fails callee_panic e f = absurd cc

      etag_of : Outcome (Response Plan) → Option String
      etag_of (ok r) = r.etag
      etag_of (err e) = none
      etag_of panic = none
      etag_of callee_panic = none

      untagged :
          (r : Outcome (Response Plan) × History)
          → r.0 ≡ ok response
          → r ≡ (ok (respond 304 (message "NOT_MODIFIED")), h)
          → ⊥
      untagged r a e = none_some (ap etag_of (sym (ap (λ x. x.0) e) ∙ a) ∙ tagged)

      same :
          (p : LogicalPlan) → response.etag ≡ some (plan_to_etag ctx p) → plan_to_etag ctx p ≡ tag
      same p e = go (sym e ∙ tagged)
        where
          go : some (plan_to_etag ctx p) ≡ some tag → plan_to_etag ctx p ≡ tag
          go e = cc

      go :
          CachedRead ctx db path raw if_none_match h
            (cached_read_query ctx db path raw if_none_match h)
          → cached_read_query ctx db path raw (some tag) g
            ≡ (ok (respond 304 (message "NOT_MODIFIED")), g)
      go (inl (kept, failed)) =
          absurd (fails (cached_read_query ctx db path raw if_none_match h).0 answer failed)
      go (inr (q, s, p, d, parse, plan, reads, inl (hit, e))) =
          absurd (untagged (cached_read_query ctx db path raw if_none_match h) answer e)
      go (inr (q, s, p, d, parse, plan, reads, inr (miss, run, ends))) =
          let (status, etag) =
            subst (λ o. Ends o (λ r. (r.status ≡ 200) × (r.etag ≡ some (plan_to_etag ctx p))))
              answer ends in
          repeated db path raw h g q s p tag versions d parse plan (Reads-is_read_only p.kind reads)
            (same p etag)
