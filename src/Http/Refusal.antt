-- ===== src/Http/Refusal.antt =====
-- How a request is refused whose header gives no user.
use seafowl.Prelude.{
  ◌≡◌, ◌⊎◌, inl, inr, refl, ◌∙◌, Bool-cases, String, Bool, true, false, not, ◌&&◌, ◌||◌, Option,
  none, some, List, [], ◌∷◌, if◌then◌else◌, arith,
}
use mathlib.Core.Path.{subst}
use text.Mathlib.Text.{starts_with}
use seafowl.Auth as Auth
use seafowl.Http.Errors.{ApiError, of_auth, invalid_authorization_header, status_code_body}
use seafowl.Http.Context.{History, Outcome, ok, err, panic, callee_panic, SeafowlContext}
use seafowl.Http.Query.{Response, header_token, header_to_user_context, user_of_token, with_policy}
use seafowl.Http.Upload.{UploadTools}
use seafowl.Http.Routes.{
  Method, get, post, other_method, Request, HttpFrontend, from_config, match_cached, match_uncached,
  match_upload, match_health, Reply, reply, reject, Routed, ◌or◌, nothing, with_user,
  error_response, user_of, cached_reply, cached_read_query_authz, cached_read_query_route,
  uncached_reply, uncached_read_write_query_route, upload_reply, upload_route, health_route,
  handle_rejection, filters, is_get, is_post,
}

abbrev is_some : {A : Type 0} → Option A → Bool
is_some none = false
is_some (some a) = true

-- The request is one for a route that asks who the user is.
abbrev pub guarded : Method → List String → Bool
guarded method path =
    ((is_get method && is_some (match_cached path))
      || (is_post method && is_some (match_uncached path)))
    || (is_post method && is_some (match_upload path))

not_health :
    (method : Method) (path : List String)
    → guarded method path ≡ true
    → is_get method && match_health path ≡ false
unfolding match_cached match_uncached match_upload match_health
not_health get [] g = refl
not_health get (a ∷ []) g = absurd cc
not_health get (a ∷ b ∷ path) g = refl
not_health post path g = refl
not_health other_method path g = refl

err_injective : {A : Type 0} {a b : ApiError} → ◌≡◌ {A = Outcome A} (err a) (err b) → a ≡ b
err_injective h = cc

module _ (hash : String → String) (policy : Auth.AccessPolicy) (debug : String → String) where
  abbrev pub BadRequest : ApiError → Type 0
  BadRequest e = ((status_code_body debug e).0 ≡ 400) ⊎ ((status_code_body debug e).0 ≡ 401)

  of_auth_status : (e : Auth.ApiError) → BadRequest (of_auth e)
  unfolding status_code_body
  of_auth_status Auth.need_access_token = inr refl
  of_auth_status Auth.useless_access_token = inl refl
  of_auth_status Auth.wrong_access_token = inr refl

  with_policy_status :
      (r : Auth.Result Auth.Principal) (e : ApiError) → with_policy policy r ≡ err e → BadRequest e
  with_policy_status (Auth.ok p) e q = absurd cc
  with_policy_status (Auth.err x) e q = subst BadRequest (err_injective q) (of_auth_status x)

  token_status :
      (header : Option String) (e : ApiError) (t : Outcome (Option String))
      → header_token header ≡ t
      → user_of_token hash policy t ≡ err e
      → BadRequest e
  unfolding header_token status_code_body
  token_status header e (ok tok) t q =
      with_policy_status (Auth.token_to_principal hash tok policy) e q
  token_status none e (err x) t q = absurd cc
  token_status (some s) e (err x) t q = elim (Bool-cases (starts_with s "Bearer ")) [
    | inl y ↦ absurd (ground (arith, y, t))
    | inr n ↦
        let same : invalid_authorization_header ≡ x =
          err_injective {A = Option String} (ground (arith, n, t)) in
        subst BadRequest (same ∙ err_injective q) (inr refl)
  ]
  token_status header e panic t q = absurd cc
  token_status header e callee_panic t q = absurd cc

  header_to_user_context_status :
      (header : Option String) (e : ApiError)
      → header_to_user_context hash header policy ≡ err e
      → BadRequest e
  unfolding header_to_user_context
  header_to_user_context_status header e q = token_status header e (header_token header) refl q

module _ {Plan : Type 0} (ctx : SeafowlContext Plan) (tools : UploadTools) (debug : String → String)
    (flight : Option Bool) (config : HttpFrontend) (req : Request) where
  abbrev Refuses : ApiError → History → Bool → Reply (Response Plan) × History → Type 0
  Refuses e h b r = r ≡ (reject (if b then some e else none), h)

  or-Refuses :
      (e : ApiError) (h : History) (a b : Bool) (first next : Routed (Response Plan))
      → Refuses e h a (first h)
      → Refuses e h b (next h)
      → Refuses e h (a || b) ((first or next) h)
  or-Refuses e h true b first next f n = rw (f, n) refl
  or-Refuses e h false b first next f n = rw (f, n) refl

  with_user-Refuses :
      {T : Type 0} (e : ApiError) (h : History) (asked : Bool) (m : Option T)
      (f : T → Auth.UserContext → Routed (Response Plan))
      → user_of ctx tools debug flight config req ≡ err e
      → Refuses e h (asked && is_some m) (
          (if not asked then nothing else elim m [
            | none ↦ nothing
            | some target ↦ with_user (user_of ctx tools debug flight config req) (f target)
          ])
            h)
  with_user-Refuses e h false m f u = refl
  with_user-Refuses e h true none f u = refl
  with_user-Refuses e h true (some t) f u = rw u refl

  handled :
      (e : ApiError) (h : History) (b : Bool) (r : Reply (Response Plan) × History)
      → b ≡ true
      → Refuses e h b r
      → handle_rejection ctx tools debug flight config r
        ≡ (reply (error_response ctx tools debug flight config e), h)
  handled e h true r b s = rw s refl
  handled e h false r b s = absurd cc

  abbrev cached_route : Routed (Response Plan)
  cached_route = cached_read_query_route ctx tools debug flight config req

  abbrev uncached_route : Routed (Response Plan)
  uncached_route = uncached_read_write_query_route ctx tools debug flight config req

  abbrev upload : Routed (Response Plan)
  upload = upload_route ctx tools debug flight config req

  abbrev health : Routed (Response Plan)
  health = health_route ctx tools debug flight config req

  guarded-Refuses :
      (e : ApiError) (h : History)
      → user_of ctx tools debug flight config req ≡ err e
      → Refuses e h (guarded req.method req.path) ((cached_route or uncached_route or upload) h)
  unfolding cached_read_query_route uncached_read_write_query_route upload_route
  guarded-Refuses e h u =
      let cached =
        with_user-Refuses e h (is_get req.method) (match_cached req.path)
          (λ target user.
            cached_reply ctx tools debug flight config req target
              (cached_read_query_authz (from_config config) user))
          u in
      let uncached =
        with_user-Refuses e h (is_post req.method) (match_uncached req.path)
          (uncached_reply ctx tools debug flight config req) u in
      let uploads =
        with_user-Refuses e h (is_post req.method) (match_upload req.path)
          (upload_reply ctx tools debug flight config req) u in
      let b = is_get req.method && is_some (match_cached req.path) in
      let c = is_post req.method && is_some (match_uncached req.path) in
      let d = is_post req.method && is_some (match_upload req.path) in
      or-Refuses e h (b || c) d (cached_route or uncached_route) upload
        (or-Refuses e h b c cached_route uncached_route cached uncached) uploads

  health-Refuses :
      (e : ApiError) (h : History)
      → guarded req.method req.path ≡ true
      → Refuses e h false (health h)
  unfolding health_route
  health-Refuses e h g = rw (not_health req.method req.path g) refl

  -- When the header of a request for one of the three routes that ask for a user gives an error, that
  -- error is the reply, with status 400 or 401, and nothing happens.
  pub filters_refused :
      (e : ApiError) (h : History)
      → guarded req.method req.path ≡ true
      → user_of ctx tools debug flight config req ≡ err e
      → (filters ctx tools debug flight config req h
          ≡ (reply (error_response ctx tools debug flight config e), h))
        × BadRequest ctx.str_to_hex_hash (from_config config) debug e
  unfolding filters
  filters_refused e h g u = (
    handled e h (guarded req.method req.path || false)
        ((cached_route or uncached_route or upload or health) h) (rw g refl)
        (or-Refuses e h (guarded req.method req.path) false
          (cached_route or uncached_route or upload) health (guarded-Refuses e h u)
          (health-Refuses e h g)),
    header_to_user_context_status ctx.str_to_hex_hash (from_config config) debug req.authorization e
        u,
  )
