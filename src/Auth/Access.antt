-- ===== src/Auth/Access.antt =====
-- auth.rs, from a token to an action: what a request with a given token may read and write.
use seafowl.Prelude.{
  String, ◌≡◌, ◌⊎◌, ◌≢◌, str_eq_refl, str_eq_iff, refl, true, Option, none, some, arith, inl, inr,
}
use seafowl.Auth.{
  AccessPolicy, AccessSettings, Principal, Result, Action, any, ok, err, writer, reader,
  need_access_token, wrong_access_token, user_can, token_to_principal, with_read_disabled,
  with_write_password,
}
use seafowl.Auth.Tokens.{Unlocks, token_to_principal-writer_iff, token_to_principal-reader_iff}

-- The context that a request gets is allowed the action; an error allows nothing.
abbrev pub Allowed : Result Principal → AccessPolicy → Action → Type 0
Allowed (ok p) policy action = user_can (record { principal = p; policy = policy }) action ≡ true
Allowed (err e) policy action = ⊥

-- The token is the password of the setting.
abbrev pub Opens : (String → String) → Option String → AccessSettings → Type 0
Opens hash tok s = (t : String) × (tok ≡ some t) × Unlocks hash t s

can_write :
    (p : Principal) (policy : AccessPolicy)
    → user_can (record { principal = p; policy = policy }) Action.write ≡ true
    → (p ≡ writer) ⊎ (policy.write ≡ any)
unfolding user_can
can_write p policy h = ground arith

can_read :
    (p : Principal) (policy : AccessPolicy)
    → user_can (record { principal = p; policy = policy }) Action.read ≡ true
    → (p ≡ writer) ⊎ (p ≡ reader) ⊎ (policy.read ≡ any)
unfolding user_can
can_read p policy h = ground arith

module _ (hash : String → String) (tok : Option String) (policy : AccessPolicy) where
  write_result :
      (r : Result Principal)
      → token_to_principal hash tok policy ≡ r
      → Allowed r policy Action.write
      → (policy.write ≡ any) ⊎ Opens hash tok policy.write
  write_result (ok p) e h = elim (can_write p policy h) [
    | inl w ↦ inr ((token_to_principal-writer_iff hash tok policy).0 (ground arith))
    | inr a ↦ inl a
  ]
  write_result (err x) e h = absurd h

  -- A request may write only if writes are open to all or its token is the password for writes.
  pub write-Allowed :
      Allowed (token_to_principal hash tok policy) policy Action.write
      → (policy.write ≡ any) ⊎ Opens hash tok policy.write
  write-Allowed h = write_result (token_to_principal hash tok policy) refl h

  read_result :
      (r : Result Principal)
      → token_to_principal hash tok policy ≡ r
      → Allowed r policy Action.read
      → (policy.read ≡ any) ⊎ Opens hash tok policy.read ⊎ Opens hash tok policy.write
  read_result (ok p) e h = elim (can_read p policy h) [
    | inl w ↦ inr (inr ((token_to_principal-writer_iff hash tok policy).0 (ground arith)))
    | inr (inl r) ↦
        let (t, found, opened, _) =
          (token_to_principal-reader_iff hash tok policy).0 (ground arith) in
        inr (inl (t, found, opened))
    | inr (inr a) ↦ inl a
  ]
  read_result (err x) e h = absurd h

  -- A request may read only if reads are open to all or its token is one of the two passwords.
  pub read-Allowed :
      Allowed (token_to_principal hash tok policy) policy Action.read
      → (policy.read ≡ any) ⊎ Opens hash tok policy.read ⊎ Opens hash tok policy.write
  read-Allowed h = read_result (token_to_principal hash tok policy) refl h

-- With reads off and a password for writes, that password admits a writer, a request without a
-- token is refused, and so is a token with another hash.
pub locked_down :
    (hash : String → String) (policy : AccessPolicy) (pw t : String)
    → let p = with_write_password hash (with_read_disabled policy) pw in
      (token_to_principal hash (some pw) p ≡ ok writer)
      × (token_to_principal hash none p ≡ err need_access_token)
      × (hash t ≢ hash pw → token_to_principal hash (some t) p ≡ err wrong_access_token)
unfolding with_write_password with_read_disabled token_to_principal
locked_down hash policy pw t = (
  ground (arith, str_eq_refl (hash pw)),
  refl,
  λ ne. ground (arith, str_eq_iff (hash t) (hash pw)),
)
