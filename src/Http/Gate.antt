-- ===== src/Http/Gate.antt =====
-- What a request may change: all routes, by the token of the request.
use seafowl.Prelude.{
  ◌≡◌, inl, refl, sym, String, Bool, true, false, not, ◌&&◌, Option, none, some, List, [], ◌++◌,
  append-nil, if◌then◌else◌, arith,
}
use mathlib.Core.Path.{subst⁻¹}
use seafowl.Auth as Auth
use seafowl.Http.Errors.{ApiError, query_parsing_error}
use seafowl.Http.Context.{Event, History, Outcome, ok, err, panic, callee_panic, SeafowlContext}
use seafowl.Http.Query.{Response, uncached_read_write_query}
use seafowl.Http.Cached.{cached_read_query}
use seafowl.Http.Upload.{Given, Part, UploadTools, upload, health_endpoint}
use seafowl.Http.Routes.{
  Request, HttpFrontend, from_config, match_cached, match_uncached, match_upload, match_health,
  Reply, reply, reject, crashed, Routed, or_next, ◌or◌, nothing, with_user, cached_read_query_authz,
  raw_query, into_response, user_of, cached_reply, cached_read_query_route, uncached_reply,
  uncached_read_write_query_route, upload_reply, upload_route, health_route, handle_rejection,
  filters, is_get, is_post,
}
use seafowl.Http.Permission.{Does, Queried-Does, CachedRead-Does, Appended-Does}
use seafowl.Http.Tokens.{Warranted, Fit-Warranted}

module _ {Plan : Type 0} (ctx : SeafowlContext Plan) (tools : UploadTools) (debug : String → String)
    (flight : Option Bool) (config : HttpFrontend) (req : Request) where
  -- A filter that rejects a request has done nothing.
  abbrev Idle : Reply (Response Plan) → History → History → Type 0
  Idle (reply r) h h' = Unit
  Idle (reject e) h h' = h' ≡ h
  Idle crashed h h' = Unit

  abbrev Did : History → History → Type 0
  Did h h' =
      (es : List Event) × (h' ≡ h ++ es)
      × Warranted ctx.str_to_hex_hash (from_config config) ctx req.authorization es

  abbrev Kept : History → Reply (Response Plan) × History → Type 0
  Kept h r = Idle r.0 h r.1 × Did h r.1

  same : (h : History) → Did h h
  same h = ([], sym (append-nil h), inl refl)

  Idle-Kept : (h : History) (e : Option ApiError) → Kept h (reject e, h)
  Idle-Kept h e = (refl, same h)

  into_response-Kept :
      (user : Auth.UserContext) (f : Response Plan → Response Plan) (h : History)
      (r : Outcome (Response Plan) × History)
      → user_of ctx tools debug flight config req ≡ ok user
      → Does ctx user h r.1
      → Kept h (into_response ctx tools debug flight config f r)
  into_response-Kept user f h (ok x, h') u (es, run, fit) = (
    tt,
    (
      es,
      run,
      Fit-Warranted ctx.str_to_hex_hash (from_config config) ctx req.authorization user es u fit,
    ),
  )
  into_response-Kept user f h (err x, h') u (es, run, fit) = (
    tt,
    (
      es,
      run,
      Fit-Warranted ctx.str_to_hex_hash (from_config config) ctx req.authorization user es u fit,
    ),
  )
  into_response-Kept user f h (panic, h') u (es, run, fit) = (
    tt,
    (
      es,
      run,
      Fit-Warranted ctx.str_to_hex_hash (from_config config) ctx req.authorization user es u fit,
    ),
  )
  into_response-Kept user f h (callee_panic, h') u (es, run, fit) = (
    tt,
    (
      es,
      run,
      Fit-Warranted ctx.str_to_hex_hash (from_config config) ctx req.authorization user es u fit,
    ),
  )

  with_user-Kept :
      (f : Auth.UserContext → Routed (Response Plan)) (h : History)
      → ((user : Auth.UserContext)
          → user_of ctx tools debug flight config req ≡ ok user
          → Kept h (f user h))
      → (u : Outcome Auth.UserContext) → user_of ctx tools debug flight config req ≡ u
      → Kept h (with_user u f h)
  with_user-Kept f h k (ok user) u = k user u
  with_user-Kept f h k (err e) u = Idle-Kept h (some e)
  with_user-Kept f h k panic u = (tt, same h)
  with_user-Kept f h k callee_panic u = (tt, same h)

  or-Kept :
      (first next : Routed (Response Plan)) (h : History)
      → Kept h (first h)
      → Kept h (next h)
      → Kept h ((first or next) h)
  or-Kept first next h k l = go (first h).0 (first h).1 k
    where
      also :
          (e : Option ApiError) (r : Reply (Response Plan) × History)
          → Kept h r
          → Kept h (seafowl.Http.Routes.reject_also e r.0, r.1)
      also e (reply x, h') k = k
      also e (reject x, h') k = k
      also e (crashed, h') k = k

      go : (r : Reply (Response Plan)) (h' : History) → Kept h (r, h') → Kept h (or_next r h' next)
      go (reply x) h' k = k
      go (reject e) h' (i, d) =
          subst⁻¹ (λ g. Kept h (or_next (reject e) g next)) i (also e (next h) l)
      go crashed h' k = k

  allowed_read :
      (policy : Auth.AccessPolicy) (user : Auth.UserContext)
      → cached_read_query_authz policy user ≡ none
      → Auth.user_can user Auth.Action.read ≡ true
  unfolding cached_read_query_authz
  allowed_read policy user e = ground arith

  cached_reply-Kept :
      (target : String × String) (user : Auth.UserContext) (h : History)
      → user_of ctx tools debug flight config req ≡ ok user
      → Kept h (
          cached_reply ctx tools debug flight config req target
            (cached_read_query_authz (from_config config) user)
            h)
  cached_reply-Kept target user h u = go (cached_read_query_authz (from_config config) user) refl
    where
      go :
          (a : Option ApiError)
          → cached_read_query_authz (from_config config) user ≡ a
          → Kept h (cached_reply ctx tools debug flight config req target a h)
      go (some e) a = Idle-Kept h (some e)
      go none a =
          into_response-Kept user (λ r. record r { cache_control = some config.cache_control }) h
            (cached_read_query ctx target.0 target.1 (raw_query req) req.if_none_match h) u
            (CachedRead-Does ctx target.0 target.1 (raw_query req) req.if_none_match h user
              (allowed_read (from_config config) user a))

  uncached_reply-Kept :
      (db : String) (user : Auth.UserContext) (h : History)
      → user_of ctx tools debug flight config req ≡ ok user
      → Kept h (uncached_reply ctx tools debug flight config req db user h)
  uncached_reply-Kept db user h u = go req.json_query refl
    where
      go :
          (q : Option String)
          → req.json_query ≡ q
          → Kept h (uncached_reply ctx tools debug flight config req db user h)
      go none e = rw e (Idle-Kept h (some (query_parsing_error req.json_rejection)))
      go (some text) e = rw e (
          into_response-Kept user (λ r. r) h (uncached_read_write_query ctx db user text h) u
            (Queried-Does ctx db user text h))

  upload_reply-Kept :
      (target : String × String × String) (user : Auth.UserContext) (h : History)
      → user_of ctx tools debug flight config req ≡ ok user
      → Kept h (upload_reply ctx tools debug flight config req target user h)
  upload_reply-Kept (db, schema_name, table_name) user h u = go req.form refl
    where
      go :
          (f : Option (List (Given Part)))
          → req.form ≡ f
          → Kept h
              (upload_reply ctx tools debug flight config req (db, schema_name, table_name) user h)
      go none e = rw e (Idle-Kept h none)
      go (some form) e = rw e (
          into_response-Kept user (λ r. r) h
            (upload tools ctx db schema_name table_name user form h) u
            (Appended-Does ctx tools db schema_name table_name user form h))

  abbrev routed :
      {T : Type 0}
      → Bool
      → Option T
      → (T → Auth.UserContext → Routed (Response Plan))
      → Routed (Response Plan)
  routed b m f = if b then nothing else elim m [
    | none ↦ nothing
    | some target ↦ with_user (user_of ctx tools debug flight config req) (f target)
  ]

  routed-Kept :
      {T : Type 0} (b : Bool) (m : Option T) (f : T → Auth.UserContext → Routed (Response Plan))
      (h : History)
      → ((target : T) (user : Auth.UserContext)
          → user_of ctx tools debug flight config req ≡ ok user
          → Kept h (f target user h))
      → Kept h (routed b m f h)
  routed-Kept true m f h k = Idle-Kept h none
  routed-Kept false none f h k = Idle-Kept h none
  routed-Kept false (some target) f h k =
      with_user-Kept (f target) h (k target) (user_of ctx tools debug flight config req) refl

  cached_route-Kept :
      (h : History) → Kept h (cached_read_query_route ctx tools debug flight config req h)
  unfolding cached_read_query_route
  cached_route-Kept h =
      routed-Kept (not (is_get req.method)) (match_cached req.path)
        (λ target user.
          cached_reply ctx tools debug flight config req target
            (cached_read_query_authz (from_config config) user))
        h (λ target user u. cached_reply-Kept target user h u)

  uncached_route-Kept :
      (h : History) → Kept h (uncached_read_write_query_route ctx tools debug flight config req h)
  unfolding uncached_read_write_query_route
  uncached_route-Kept h =
      routed-Kept (not (is_post req.method)) (match_uncached req.path)
        (uncached_reply ctx tools debug flight config req) h
        (λ db user u. uncached_reply-Kept db user h u)

  upload_route-Kept : (h : History) → Kept h (upload_route ctx tools debug flight config req h)
  unfolding upload_route
  upload_route-Kept h =
      routed-Kept (not (is_post req.method)) (match_upload req.path)
        (upload_reply ctx tools debug flight config req) h
        (λ target user u. upload_reply-Kept target user h u)

  health_route-Kept : (h : History) → Kept h (health_route ctx tools debug flight config req h)
  unfolding health_route health_endpoint
  health_route-Kept h = go (is_get req.method && match_health req.path)
    where
      healthy :
          (f : Option Bool)
          → Kept h (into_response ctx tools debug flight config (λ r. r) (health_endpoint f h))
      healthy (some false) = (tt, same h)
      healthy (some true) = (tt, same h)
      healthy none = (tt, same h)

      go :
          (b : Bool)
          → Kept h (
              (if b
                  then (λ g.
                      into_response ctx tools debug flight config
                        (λ r. r)
                        (health_endpoint flight g))
                  else nothing)
                h)
      go true = healthy flight
      go false = Idle-Kept h none

  -- A request leaves the history as it is, or its header has a token that may write, or one that
  -- may read and then one plan is made, which is of no kind that writes (no DML, DDL, ANALYZE,
  -- extension or COPY) or is the plan of a query, an EXPLAIN or a SHOW TABLES; so says the
  -- policy of the configuration.
  pub filters-Warranted :
      (h : History)
      → (es : List Event) × ((filters ctx tools debug flight config req h).1 ≡ h ++ es)
        × Warranted ctx.str_to_hex_hash (from_config config) ctx req.authorization es
  unfolding filters
  filters-Warranted h =
      handled
        ((cached_read_query_route ctx tools debug flight config req
            or uncached_read_write_query_route ctx tools debug flight config req
            or upload_route ctx tools debug flight config req
            or health_route ctx tools debug flight config req)
          h)
        (or-Kept
          (cached_read_query_route ctx tools debug flight config req
            or uncached_read_write_query_route ctx tools debug flight config req
            or upload_route ctx tools debug flight config req)
          (health_route ctx tools debug flight config req) h
          (or-Kept
            (cached_read_query_route ctx tools debug flight config req
              or uncached_read_write_query_route ctx tools debug flight config req)
            (upload_route ctx tools debug flight config req) h
            (or-Kept (cached_read_query_route ctx tools debug flight config req)
              (uncached_read_write_query_route ctx tools debug flight config req) h
              (cached_route-Kept h) (uncached_route-Kept h))
            (upload_route-Kept h))
          (health_route-Kept h))
    where
      handled :
          (r : Reply (Response Plan) × History)
          → Kept h r
          → Did h (handle_rejection ctx tools debug flight config r).1
      handled (reply x, h') (i, d) = d
      handled (reject (some e), h') (i, d) = d
      handled (reject none, h') (i, d) = d
      handled (crashed, h') (i, d) = d
