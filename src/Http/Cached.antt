-- ===== src/Http/Cached.antt =====
-- `cached_read_query`.
use seafowl.Prelude.{
  String, Bool, true, false, Option, none, some, List, [], ◌∷◌, ◌++◌, str_eq, if◌then◌else◌,
}
use seafowl.Prelude.Texts.{before_char}
use seafowl.Http.Errors.{datafusion_error, hash_mismatch, not_read_only_query, query_decode_error}
use seafowl.Http.Context.{
  DfStatement, PlanKind, dml, ddl, analyze, extension, copy_to, other_plan, Bytes, LogicalPlan,
  Outcome, ok, err, Run, ◌>>=◌, ◌>>◌, pure, lift, require, of_answer, SeafowlContext,
  create_logical_plan_from_statement, create_physical_plan,
}
use seafowl.Http.Query.{Response, respond, message, plan_to_response, scoped}

-- `is_read_only` of context/logical.rs.
unfoldable pub is_read_only : PlanKind → Bool
is_read_only dml = false
is_read_only ddl = false
is_read_only analyze = false
is_read_only extension = false
is_read_only copy_to = false
is_read_only other_plan = true

-- What the visitor collects, which goes over the nodes of a plan.
unfoldable pub collect_versions : List (Option (Bytes × Bytes)) → Bytes → Bytes
collect_versions [] table_versions = table_versions
collect_versions (none ∷ nodes) table_versions = collect_versions nodes table_versions
collect_versions (some (uri, version) ∷ nodes) table_versions =
    collect_versions nodes ((table_versions ++ uri) ++ version)

-- `if let Some(tag) = if_none_match { if etag == tag {..} }`
abbrev pub same_tag : String → Option String → Bool
same_tag etag none = false
same_tag etag (some tag) = str_eq etag tag

module _ {Plan : Type 0} (ctx : SeafowlContext Plan) where
  -- `json!(..).to_string()` and its hash are `etag_of_bytes`.
  unfoldable pub plan_to_etag : LogicalPlan → String
  unfolding collect_versions
  plan_to_etag plan = ctx.etag_of_bytes (collect_versions plan.visited [])

  abbrev pub decoded_or_error : Option String → Outcome String
  decoded_or_error none = err query_decode_error
  decoded_or_error (some decoded) = ok decoded

  -- `percent_decode_str(..).decode_utf8()?`
  abbrev pub decode_utf8 : String → Run String
  decode_utf8 raw = lift (decoded_or_error (ctx.percent_decode raw))

  -- The query of a request: from its body or header, with its hash in the path, or from the path.
  unfoldable pub decode_query : String → Option String → Run String
  decode_query query_or_hash none = decode_utf8 query_or_hash
  decode_query query_hash (some raw_query) = decode_utf8 raw_query >>= λ decoded_query.
      require (str_eq query_hash (ctx.str_to_hex_hash decoded_query))
        (hash_mismatch (ctx.str_to_hex_hash decoded_query) query_hash)
      >> pure decoded_query

  abbrev pub only_statement : List DfStatement → Outcome DfStatement
  only_statement (s ∷ []) = ok s
  only_statement _ = err (
      datafusion_error
        (ctx.not_implemented "The context currently only supports a single SQL statement"))

  -- `SeafowlContext::create_logical_plan`
  unfoldable pub create_logical_plan : String → String → Run LogicalPlan
  create_logical_plan db sql = lift (of_answer (ctx.parse_query sql)) >>= λ statements.
      lift (only_statement statements) >>= create_logical_plan_from_statement ctx db

  unfoldable pub run_read : String → LogicalPlan → String → Run (Response Plan)
  unfolding plan_to_response
  run_read db plan etag = create_physical_plan ctx db plan >>= λ physical.
      plan_to_response ctx physical >>= λ response. pure (record response {
        has_query_time = true;
        etag = some etag;
        content_type = some (ctx.content_type_with_schema physical);
      })

  -- What is done with a plan.
  unfoldable pub answer_plan : String → Option String → LogicalPlan → Run (Response Plan)
  unfolding is_read_only plan_to_etag run_read
  answer_plan db if_none_match plan =
      require (is_read_only plan.kind) not_read_only_query
      >> (if same_tag (plan_to_etag plan) if_none_match
          then pure (respond 304 (message "NOT_MODIFIED"))
          else run_read db plan (plan_to_etag plan))

  unfoldable pub cached_read_query :
      String → String → Option String → Option String → Run (Response Plan)
  unfolding decode_query create_logical_plan answer_plan
  cached_read_query database_name query_or_hash maybe_raw_query if_none_match =
      decode_query (before_char "." query_or_hash) maybe_raw_query >>= λ decoded_query.
      create_logical_plan (scoped ctx database_name) decoded_query
      >>= answer_plan (scoped ctx database_name) if_none_match
