-- ===== src/Http/Query.antt =====
-- `uncached_read_write_query`, and how a header becomes a user.
use text.Mathlib.Text.{starts_with}
use seafowl.Prelude.{
  ℕ, suc, String, Bool, true, false, not, Option, none, some, List, [], ◌∷◌, length, ◌==◌, ltb,
  str_eq, if◌then◌else◌,
}
use seafowl.Prelude.Texts.{trim_start_matches}
use seafowl.Auth as Auth
use seafowl.Http.Errors.{
  of_auth, write_forbidden, invalid_authorization_header, invalid_multi_statement,
  empty_multi_statement,
}
use seafowl.Http.Context.{
  query, explain, show_tables, other_statement, DfStatement, statement, other_df_statement, Outcome,
  ok, err, panic, callee_panic, Run, ◌>>=◌, ◌>>◌, pure, lift, require, expect, of_answer,
  SeafowlContext, create_logical_plan_from_statement, create_physical_plan,
}

-- `is_statement_read_only` of context/logical.rs.
unfoldable pub is_statement_read_only : DfStatement → Bool
is_statement_read_only (statement (query n)) = true
is_statement_read_only (statement (explain n)) = true
is_statement_read_only (statement (show_tables n)) = true
is_statement_read_only (statement (other_statement n)) = false
is_statement_read_only (other_df_statement n) = false

pub data Body (Plan : Type 0) : Type 0 where
  message : String → Body Plan
  rows : Plan → Body Plan

pub record Response (Plan : Type 0) : Type 0 where
  pub status : ℕ
  pub content_type : Option String
  pub has_query_time : Bool
  pub etag : Option String
  pub cache_control : Option String
  pub vary : Option String
  pub body : Body Plan

abbrev pub respond : {Plan : Type 0} → ℕ → Body Plan → Response Plan
respond status body = record {
  status = status;
  content_type = none;
  has_query_time = false;
  etag = none;
  cache_control = none;
  vary = none;
  body = body;
}

-- `filter(..).count()`
unfoldable pub count_reads : List DfStatement → ℕ
unfolding is_statement_read_only
count_reads [] = 0
count_reads (s ∷ ss) = if is_statement_read_only s then suc (count_reads ss) else count_reads ss

abbrev pub last : {A : Type 0} → List A → Option A
last [] = none
last (x ∷ []) = some x
last (x ∷ y ∷ xs) = last (y ∷ xs)

abbrev pub is_empty : {A : Type 0} → List A → Bool
is_empty [] = true
is_empty (x ∷ xs) = false

-- The action that the statements want.
unfoldable pub wanted_action : List DfStatement → Auth.Action
unfolding count_reads
wanted_action statements =
    if count_reads statements == length statements then Auth.Action.read else Auth.Action.write

-- The test of a read that is not the last and only one; `||` and `&&` stop early, so `last` is read
-- only if there is one read.
unfoldable pub check_last : List DfStatement → Run (Unit {0})
unfolding count_reads is_statement_read_only
check_last statements =
    if ltb 1 (count_reads statements)
    then lift (err invalid_multi_statement)
    else if count_reads statements == 1
    then (expect (last statements) >>= λ s.
        require (is_statement_read_only s) invalid_multi_statement)
    else pure tt

module _ {Plan : Type 0} (ctx : SeafowlContext Plan) where
  -- `plan_to_response`; rows that fail later are part of the stream.
  unfoldable pub plan_to_response : Plan → Run (Response Plan)
  plan_to_response plan =
      lift (of_answer (ctx.execute_stream plan)) >> pure (respond 200 (rows plan))

  -- The loop over the statements.
  unfoldable pub run_statements : String → List DfStatement → Option Plan → Run (Option Plan)
  run_statements db [] plan_to_output = pure plan_to_output
  run_statements db (s ∷ ss) plan_to_output =
      create_logical_plan_from_statement ctx db s >>= λ logical.
      create_physical_plan ctx db logical >>= λ plan. run_statements db ss (some plan)

  -- The catalog of the session.
  abbrev pub scoped : String → String
  scoped database_name =
      if not (str_eq database_name ctx.default_catalog) then database_name else ctx.default_catalog

  unfoldable pub finish_query : ℕ → Plan → Run (Response Plan)
  unfolding plan_to_response
  finish_query reads plan = plan_to_response plan >>= λ response. pure (record response {
    content_type = if ltb 0 reads then some (ctx.content_type_with_schema plan) else none;
    has_query_time = true;
  })

  unfoldable pub uncached_read_write_query :
      String → Auth.UserContext → String → Run (Response Plan)
  unfolding run_statements wanted_action check_last count_reads finish_query
  uncached_read_write_query database_name user_context query_text =
      lift (of_answer (ctx.parse_query query_text)) >>= λ statements.
      require (not (is_empty statements)) empty_multi_statement
      >> require (Auth.user_can user_context (wanted_action statements)) write_forbidden
      >> check_last statements
      >> run_statements (scoped database_name) statements none
      >>= λ plan_to_output.
          expect plan_to_output >>= λ plan. finish_query (count_reads statements) plan

-- `header.map(..).transpose()`
unfoldable pub header_token : Option String → Outcome (Option String)
header_token none = ok none
header_token (some h) =
    if starts_with h "Bearer "
    then ok (some (trim_start_matches "Bearer " h))
    else err invalid_authorization_header

abbrev pub with_policy : Auth.AccessPolicy → Auth.Result Auth.Principal → Outcome Auth.UserContext
with_policy policy (Auth.ok p) = ok (record { principal = p; policy = policy })
with_policy policy (Auth.err e) = err (of_auth e)

abbrev pub user_of_token :
    (String → String) → Auth.AccessPolicy → Outcome (Option String) → Outcome Auth.UserContext
user_of_token hash policy (ok token) =
    with_policy policy (Auth.token_to_principal hash token policy)
user_of_token hash policy (err e) = err e
user_of_token hash policy panic = panic
user_of_token hash policy callee_panic = callee_panic

unfoldable pub header_to_user_context :
    (String → String) → Option String → Auth.AccessPolicy → Outcome Auth.UserContext
unfolding header_token
header_to_user_context hash header policy = user_of_token hash policy (header_token header)
