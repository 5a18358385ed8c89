-- ===== src/Http/Tests.antt =====
-- The theorems about the HTTP frontend at a small context: the query "r" reads, "w" writes, "wr" writes
-- and then reads, and "" has no statement; the hash of a text is the text.
use seafowl.Prelude.{
  ℕ, ◌≡◌, ◌≢◌, ◌⊎◌, refl, String, true, Option, none, some, List, [], ◌∷◌, ◌++◌, str_eq,
  if◌then◌else◌,
}
use seafowl.Auth as Auth
use seafowl.Http.Errors.{wrong_access_token, write_forbidden}
use seafowl.Http.Context.{
  ok, query, other_statement, DfStatement, statement, dml, other_plan, LogicalPlan, Event, planned,
  Answer, good, err, SeafowlContext,
}
use seafowl.Http.Query.{respond, message, rows, uncached_read_write_query, header_to_user_context}
use seafowl.Http.Cached.{cached_read_query}
use seafowl.Http.Upload.{given, UploadTools, Part, upload}
use seafowl.Http.Routes.{
  get, post, Request, HttpFrontend, from_config, reply, error_response, user_of, filters,
}
use seafowl.Http.Safety.{Queried, uncached_read_write_query-Queried}
use seafowl.Http.Reading.{CachedRead, cached_read_query-CachedRead}
use seafowl.Http.Appending.{Appended, upload-Appended}
use seafowl.Http.Revalidation.{cached_read_query_revalidated}
use seafowl.Http.Gate.{filters-Warranted}
use seafowl.Http.Tokens.{Warranted}
use seafowl.Http.Refusal.{BadRequest, filters_refused}

abbrev plan_of : DfStatement → LogicalPlan
plan_of (statement (query n)) = record { kind = other_plan; visited = [] }
plan_of s = record { kind = dml; visited = [] }

abbrev parse : String → Answer (List DfStatement)
parse text =
    if str_eq text "r"
    then good (statement (query 0) ∷ [])
    else if str_eq text "w"
    then good (statement (other_statement 0) ∷ [])
    else if str_eq text "wr"
    then good (statement (other_statement 0) ∷ statement (query 0) ∷ [])
    else good []

abbrev context : SeafowlContext ℕ
context = record {
  default_catalog = "default";
  parse_query = parse;
  logical_plan = λ db h s. good (plan_of s);
  physical_plan = λ db h p. good 7;
  execute_stream = λ p. good tt;
  content_type_with_schema = λ p. "application/json";
  str_to_hex_hash = λ s. s;
  etag_of_bytes = λ b. "tag";
  percent_decode = λ s. some s;
  not_implemented = λ s. s;
  file_to_table = λ db schema table kind file fields header h. good 1;
}

abbrev tools : UploadTools
tools = record {
  create_tmp_file = λ name. given tt;
  from_utf8 = λ b. given "true";
  schema_from_str = λ s. given s;
  write_all = λ file b. given (file ++ b);
  show_version = λ n. "1";
}

abbrev frontend : HttpFrontend
frontend = record {
  read_access = Auth.any;
  write_access = Auth.password "pw";
  cache_control = "max-age=43200, public";
}

abbrev writer : Auth.UserContext
writer = record { principal = Auth.writer; policy = from_config frontend }

abbrev anyone : Auth.UserContext
anyone = record { principal = Auth.anonymous; policy = from_config frontend }

abbrev form : List (seafowl.Http.Upload.Given Part)
form = given (record { name = "data"; filename = some "a.csv"; pieces = given (1 ∷ []) ∷ [] }) ∷ []

-- A query that is sent without a token, and one with a wrong token.
abbrev reading : Request
reading = record {
  method = post;
  path = "q" ∷ [];
  authorization = none;
  query_header = none;
  if_none_match = none;
  json_query = some "r";
  json_rejection = "";
  form = none;
}

abbrev intruding : Request
intruding = record reading { authorization = some "Bearer no"; json_query = some "w" }

no_writes : uncached_read_write_query context "default" anyone "w" [] ≡ (err write_forbidden, [])
unfolding uncached_read_write_query Auth.user_can
no_writes = refl

both_run :
    (uncached_read_write_query context "default" writer "wr" []).1
    ≡ planned (plan_of (statement (other_statement 0)))
      ∷ planned (plan_of (statement (query 0)))
      ∷ []
unfolding uncached_read_write_query Auth.user_can
both_run = refl

uncached_read_write_query-Queried_example :
    Queried context "default" writer "wr" []
      (uncached_read_write_query context "default" writer "wr" [])
uncached_read_write_query-Queried_example =
    uncached_read_write_query-Queried context "default" writer "wr" []

cached_read_query-CachedRead_example :
    CachedRead context "default" "r.csv" none
      (some "old")
      []
      (cached_read_query context "default" "r.csv" none (some "old") [])
cached_read_query-CachedRead_example =
    cached_read_query-CachedRead context "default" "r.csv" none (some "old") []

upload-Appended_example :
    Appended tools context "default" "public" "t" writer []
      (upload tools context "default" "public" "t" writer form [])
upload-Appended_example = upload-Appended tools context "default" "public" "t" writer form []

filters-Warranted_example :
    (es : List Event) × ((filters context tools (λ s. s) none frontend reading []).1 ≡ [] ++ es)
    × Warranted (λ s. s) (from_config frontend) context none es
filters-Warranted_example = filters-Warranted context tools (λ s. s) none frontend reading []

filters_refused_example :
    (filters context tools (λ s. s) none frontend intruding []
      ≡ (reply (error_response context tools (λ s. s) none frontend wrong_access_token), []))
    × BadRequest (λ s. s) (from_config frontend) (λ s. s) wrong_access_token
unfolding header_to_user_context seafowl.Http.Routes.match_uncached Auth.token_to_principal
    seafowl.Prelude.Texts.trim_start_matches
filters_refused_example =
    filters_refused context tools (λ s. s) none frontend intruding wrong_access_token [] refl refl

cached_read_query_revalidated_example :
    cached_read_query context "default" "r.csv" none
      (some "tag")
      (planned (plan_of (statement (query 0))) ∷ [])
    ≡ (ok (respond 304 (message "NOT_MODIFIED")), planned (plan_of (statement (query 0))) ∷ [])
unfolding cached_read_query seafowl.Prelude.Texts.before_char
cached_read_query_revalidated_example =
    cached_read_query_revalidated context "default" "r.csv" none none []
      (planned (plan_of (statement (query 0))) ∷ [])
      (record (respond 200 (rows 7)) {
        content_type = some "application/json";
        has_query_time = true;
        etag = some "tag";
      })
      "tag" refl refl (λ s p e. (p, e, refl, refl))
