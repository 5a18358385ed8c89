-- ===== src/Http/Routes.antt =====
-- The routes of `filters`, the authorisation of the cached endpoint, and rejections.
use seafowl.Prelude.{
  String, Bool, true, false, not, ◌&&◌, ◌||◌, Option, none, some, List, [], ◌∷◌, str_eq,
  if◌then◌else◌,
}
use seafowl.Auth as Auth
use seafowl.Http.Errors.{
  ApiError, status_code_body, read_only_endpoint_disabled, read_forbidden, query_parsing_error,
}
use seafowl.Http.Context.{History, Outcome, ok, err, panic, callee_panic, SeafowlContext}
use seafowl.Http.Query.{
  Response, respond, message, header_to_user_context, uncached_read_write_query,
}
use seafowl.Http.Cached.{cached_read_query}
use seafowl.Http.Upload.{Part, Given, UploadTools, upload, health_endpoint}

pub data Method : Type 0 where
  get post other_method : Method

-- A request, with its body read as JSON for a query, or why that fails, and
-- as a form, if it is one that is not too long.
pub record Request : Type 0 where
  pub method : Method
  pub path : List String
  pub authorization : Option String
  pub query_header : Option String
  pub if_none_match : Option String
  pub json_query : Option String
  pub json_rejection : String
  pub form : Option (List (Given Part))

pub record HttpFrontend : Type 0 where
  pub read_access : Auth.AccessSettings
  pub write_access : Auth.AccessSettings
  pub cache_control : String

-- `AccessPolicy::from_config`
abbrev pub from_config : HttpFrontend → Auth.AccessPolicy
from_config config = record { read = config.read_access; write = config.write_access }

abbrev pub is_get : Method → Bool
is_get get = true
is_get _ = false

abbrev pub is_post : Method → Bool
is_post post = true
is_post _ = false

abbrev pub default_db : String
default_db = "default"

-- `path!(String / "q" / String)` or `path!("q" / String)`
unfoldable pub match_cached : List String → Option (String × String)
match_cached (a ∷ b ∷ c ∷ []) = if str_eq b "q" then some (a, c) else none
match_cached (a ∷ b ∷ []) = if str_eq a "q" then some (default_db, b) else none
match_cached _ = none

-- `path!(String / "q")` or `path!("q")`
unfoldable pub match_uncached : List String → Option String
match_uncached (a ∷ b ∷ []) = if str_eq b "q" then some a else none
match_uncached (a ∷ []) = if str_eq a "q" then some default_db else none
match_uncached _ = none

-- `path!(String / "upload" / String / String)` or `path!("upload" / String / String)`
unfoldable pub match_upload : List String → Option (String × String × String)
match_upload (a ∷ b ∷ c ∷ d ∷ []) = if str_eq b "upload" then some (a, c, d) else none
match_upload (a ∷ b ∷ c ∷ []) = if str_eq a "upload" then some (default_db, b, c) else none
match_upload _ = none

unfoldable pub match_health : List String → Bool
match_health (a ∷ []) = str_eq a "healthz" || str_eq a "readyz"
match_health _ = false

-- A filter replies, or it rejects the request, perhaps with an error of ours.
pub data Reply (A : Type 0) : Type 0 where
  reply : A → Reply A
  reject : Option ApiError → Reply A
  crashed : Reply A

abbrev pub Routed : Type 0 → Type 0
Routed A = History → Reply A × History

-- `find` of combined rejections.
abbrev pub first_error : Option ApiError → Option ApiError → Option ApiError
first_error (some e) f = some e
first_error none f = f

abbrev pub reject_also : {A : Type 0} → Option ApiError → Reply A → Reply A
reject_also e (reply a) = reply a
reject_also e (reject f) = reject (first_error e f)
reject_also e crashed = crashed

abbrev pub or_next : {A : Type 0} → Reply A → History → Routed A → Reply A × History
or_next (reply a) h next = (reply a, h)
or_next (reject e) h next = let r = next h in (reject_also e r.0, r.1)
or_next crashed h next = (crashed, h)

-- `or`
infixl 6 ◌or◌
abbrev pub ◌or◌ : {A : Type 0} → Routed A → Routed A → Routed A
◌or◌ first next h = let r = first h in or_next r.0 r.1 next

abbrev pub nothing : {A : Type 0} → Routed A
nothing h = (reject none, h)

-- `.and(with_auth(..))`, and what follows it.
abbrev pub with_user :
    {A : Type 0} → Outcome Auth.UserContext → (Auth.UserContext → Routed A) → Routed A
with_user (ok u) f = f u
with_user (err e) f = λ h. (reject (some e), h)
with_user panic f = λ h. (crashed, h)
with_user callee_panic f = λ h. (crashed, h)

-- Whether the cached endpoint is off, and whether the user may read.
unfoldable pub cached_read_query_authz : Auth.AccessPolicy → Auth.UserContext → Option ApiError
cached_read_query_authz policy user = elim policy.read [
  | Auth.off ↦ some read_only_endpoint_disabled
  | _ ↦ if Auth.user_can user Auth.Action.read then none else some read_forbidden
]

-- `or` of the JSON body and the header.
abbrev pub raw_query : Request → Option String
raw_query req = elim req.json_query [ none ↦ req.query_header | some q ↦ some q ]

module _ {Plan : Type 0} (ctx : SeafowlContext Plan) (tools : UploadTools) (debug : String → String)
    (flight : Option Bool) (config : HttpFrontend) where
  -- `ApiError::response`
  unfoldable pub error_response : ApiError → Response Plan
  unfolding status_code_body
  error_response e = let r = status_code_body debug e in respond r.0 (message r.1)

  -- `.then(handler).map(into_response)`; `f` is what is added to a response that is no error.
  abbrev pub into_response :
      (Response Plan → Response Plan)
      → Outcome (Response Plan) × History
      → Reply (Response Plan) × History
  into_response f (ok r, h) = (reply (f r), h)
  into_response f (err e, h) = (reply (error_response e), h)
  into_response f (panic, h) = (crashed, h)
  into_response f (callee_panic, h) = (crashed, h)

  abbrev pub user_of : Request → Outcome Auth.UserContext
  user_of req = header_to_user_context ctx.str_to_hex_hash req.authorization (from_config config)

  abbrev pub cached_reply : Request → String × String → Option ApiError → Routed (Response Plan)
  cached_reply req target (some e) h = (reject (some e), h)
  cached_reply req (db, query_or_hash) none h =
      into_response (λ r. record r { cache_control = some config.cache_control })
        (cached_read_query ctx db query_or_hash (raw_query req) req.if_none_match h)

  unfoldable pub cached_read_query_route : Request → Routed (Response Plan)
  unfolding match_cached cached_read_query_authz header_to_user_context cached_read_query
  cached_read_query_route req =
      if not (is_get req.method) then nothing else elim (match_cached req.path) [
        | none ↦ nothing
        | some target ↦
            with_user (user_of req)
              (λ user. cached_reply req target (cached_read_query_authz (from_config config) user))
      ]

  abbrev pub uncached_reply : Request → String → Auth.UserContext → Routed (Response Plan)
  uncached_reply req db user h = elim req.json_query [
    | none ↦ (reject (some (query_parsing_error req.json_rejection)), h)
    | some query_text ↦ into_response (λ r. r) (uncached_read_write_query ctx db user query_text h)
  ]

  unfoldable pub uncached_read_write_query_route : Request → Routed (Response Plan)
  unfolding match_uncached header_to_user_context uncached_read_write_query
  uncached_read_write_query_route req =
      if not (is_post req.method) then nothing else elim (match_uncached req.path) [
        | none ↦ nothing
        | some db ↦ with_user (user_of req) (uncached_reply req db)
      ]

  abbrev pub upload_reply :
      Request → String × String × String → Auth.UserContext → Routed (Response Plan)
  upload_reply req (db, schema_name, table_name) user h = elim req.form [
    | none ↦ (reject none, h)
    | some form ↦ into_response (λ r. r) (upload tools ctx db schema_name table_name user form h)
  ]

  unfoldable pub upload_route : Request → Routed (Response Plan)
  unfolding match_upload header_to_user_context upload
  upload_route req = if not (is_post req.method) then nothing else elim (match_upload req.path) [
    | none ↦ nothing
    | some target ↦ with_user (user_of req) (upload_reply req target)
  ]

  unfoldable pub health_route : Request → Routed (Response Plan)
  unfolding match_health health_endpoint
  health_route req =
      if is_get req.method && match_health req.path
      then (λ h. into_response (λ r. r) (health_endpoint flight h))
      else nothing

  abbrev pub vary : String
  vary = "Authorization, Content-Type, Origin, X-Seafowl-Query"

  -- `handle_rejection`: a rejection with none of our errors is left to warp.
  abbrev pub handle_rejection : Reply (Response Plan) × History → Reply (Response Plan) × History
  handle_rejection (reply r, h) = (reply (record r { vary = some vary }), h)
  handle_rejection (reject (some e), h) = (reply (error_response e), h)
  handle_rejection (reject none, h) = (reject none, h)
  handle_rejection (crashed, h) = (crashed, h)

  -- `filters`
  unfoldable pub filters : Request → Routed (Response Plan)
  unfolding cached_read_query_route uncached_read_write_query_route upload_route health_route
  filters req h = handle_rejection (
      (cached_read_query_route req
          or uncached_read_write_query_route req
          or upload_route req
          or health_route req)
        h)
