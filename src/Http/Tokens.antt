-- ===== src/Http/Tokens.antt =====
-- What the token of a request lets it do.
use seafowl.Prelude.{◌≡◌, ◌⊎◌, inl, inr, refl, String, true, Option, List, [], ◌∷◌}
use mathlib.Core.Path.{subst, subst⁻¹}
use seafowl.Auth as Auth
use seafowl.Auth.Access.{Allowed, Opens, write-Allowed, read-Allowed}
use seafowl.Http.Context.{
  LogicalPlan, Event, planned, Outcome, ok, err, panic, callee_panic, SeafowlContext,
}
use seafowl.Http.Query.{header_token, header_to_user_context, user_of_token, with_policy}
use seafowl.Http.Permission.{OnlyReads, Fit}

-- A token that lets a request write, and one that lets it read.
abbrev pub MayWrite : (String → String) → Auth.AccessPolicy → Option String → Type 0
MayWrite hash policy tok = (policy.write ≡ Auth.any) ⊎ Opens hash tok policy.write

abbrev pub MayRead : (String → String) → Auth.AccessPolicy → Option String → Type 0
MayRead hash policy tok =
    (policy.read ≡ Auth.any) ⊎ Opens hash tok policy.read ⊎ Opens hash tok policy.write

module _ (hash : String → String) (policy : Auth.AccessPolicy) where
  -- The user of a request is the principal of its token, under the policy.
  abbrev OfToken : Option String → Auth.UserContext → Type 0
  OfToken header user =
      (tok : Option String) × (header_token header ≡ ok tok)
      × (user.policy ≡ policy)
      × (Auth.token_to_principal hash tok policy ≡ Auth.ok user.principal)

  with_policy-OfToken :
      (header tok : Option String) (user : Auth.UserContext)
      → header_token header ≡ ok tok
      → (r : Auth.Result Auth.Principal) → Auth.token_to_principal hash tok policy ≡ r
      → with_policy policy r ≡ ok user
      → OfToken header user
  with_policy-OfToken header tok user t (Auth.ok p) e u = (tok, t, cc, cc)
  with_policy-OfToken header tok user t (Auth.err x) e u = absurd cc

  header_to_user_context-OfToken :
      (header : Option String) (user : Auth.UserContext)
      → header_to_user_context hash header policy ≡ ok user
      → OfToken header user
  unfolding header_to_user_context
  header_to_user_context-OfToken header user e = go (header_token header) refl e
    where
      go :
          (t : Outcome (Option String))
          → header_token header ≡ t
          → user_of_token hash policy t ≡ ok user
          → OfToken header user
      go (ok tok) t u =
          with_policy-OfToken header tok user t (Auth.token_to_principal hash tok policy) refl u
      go (err x) t u = absurd cc
      go panic t u = absurd cc
      go callee_panic t u = absurd cc

  allowed :
      (tok : Option String) (user : Auth.UserContext) (a : Auth.Action)
      → user.policy ≡ policy
      → Auth.token_to_principal hash tok policy ≡ Auth.ok user.principal
      → Auth.user_can user a ≡ true
      → Allowed (Auth.token_to_principal hash tok policy) policy a
  allowed tok user a p e can =
      subst⁻¹ (λ r. Allowed r policy a) e
        (subst (λ q. Auth.user_can (record { principal = user.principal; policy = q }) a ≡ true) p
          can)

  -- What the token of a request lets it do: anything if it may write, and one plan that only reads if it
  -- may read.
  abbrev pub Warranted : {Plan : Type 0} → SeafowlContext Plan → Option String → List Event → Type 0
  Warranted ctx header es =
      (es ≡ [])
      ⊎ (tok : Option String) × (header_token header ≡ ok tok)
        × (MayWrite hash policy tok
            ⊎ MayRead hash policy tok
              × ((p : LogicalPlan) × (es ≡ planned p ∷ []) × OnlyReads ctx p))

  pub Fit-Warranted :
      {Plan : Type 0} (ctx : SeafowlContext Plan) (header : Option String) (user : Auth.UserContext)
      (es : List Event)
      → header_to_user_context hash header policy ≡ ok user
      → Fit ctx user es
      → Warranted ctx header es
  Fit-Warranted ctx header user es u (inl e) = inl e
  Fit-Warranted ctx header user es u (inr (inl can)) =
      let (tok, t, p, e) = header_to_user_context-OfToken header user u in
      inr (tok, t, inl (write-Allowed hash tok policy (allowed tok user Auth.Action.write p e can)))
  Fit-Warranted ctx header user es u (inr (inr (can, one))) =
      let (tok, t, p, e) = header_to_user_context-OfToken header user u in
      inr (
        tok,
        t,
        inr (read-Allowed hash tok policy (allowed tok user Auth.Action.read p e can), one),
      )
