-- ===== src/Auth/Tokens.antt =====
-- auth.rs, `token_to_principal`: which principal a token gives, and which error.
use seafowl.Prelude.{
  String, ◌≡◌, ◌↔◌, ◌≢◌, refl, true, false, Option, none, some, arith, str_eq_iff, str_eq_refl,
}
use seafowl.Auth.{
  AccessPolicy, AccessSettings, any, off, password, ok, err, writer, reader, need_access_token,
  useless_access_token, hash_matches, dispatch_token, token_to_principal,
}

-- The setting is a password, and the token is that password.
abbrev pub Unlocks : (String → String) → String → AccessSettings → Type 0
Unlocks hash t s = s ≡ password (hash t)

-- The setting asks for a password.
abbrev pub IsPassword : AccessSettings → Type 0
IsPassword any = ⊥
IsPassword off = ⊥
IsPassword (password h) = Unit

module _ (hash : String → String) where
  hash_matches_sound :
      (t : String) (s : AccessSettings) → hash_matches hash t s ≡ true → Unlocks hash t s
  unfolding hash_matches
  hash_matches_sound t any h = cc
  hash_matches_sound t off h = cc
  hash_matches_sound t (password k) h = ground (arith, str_eq_iff (hash t) k)

  hash_matches_complete :
      (t : String) (s : AccessSettings) → Unlocks hash t s → hash_matches hash t s ≡ true
  unfolding hash_matches
  hash_matches_complete t any h = cc
  hash_matches_complete t off h = cc
  hash_matches_complete t (password k) h = ground (arith, str_eq_iff (hash t) k)

  pub hash_matches_iff :
      (t : String) (s : AccessSettings) → (hash_matches hash t s ≡ true) ↔ Unlocks hash t s
  hash_matches_iff t s = (hash_matches_sound t s, hash_matches_complete t s)

  dispatch-writer :
      (tok : Option String) (w r : AccessSettings)
      → dispatch_token hash tok w r ≡ ok writer
      → (t : String) × (tok ≡ some t) × Unlocks hash t w
  unfolding dispatch_token hash_matches
  dispatch-writer none any r h = cc
  dispatch-writer none off r h = ground arith
  dispatch-writer none (password k) r h = ground arith
  dispatch-writer (some t) (password k) r h = (t, refl, ground (arith, str_eq_iff (hash t) k))
  dispatch-writer (some t) w r h = absurd (ground arith)

  dispatch-reader :
      (tok : Option String) (w r : AccessSettings)
      → dispatch_token hash tok w r ≡ ok reader
      → (t : String) × (tok ≡ some t) × Unlocks hash t r × (hash_matches hash t w ≡ false)
  unfolding dispatch_token hash_matches
  dispatch-reader none any r h = cc
  dispatch-reader none off r h = absurd (ground arith)
  dispatch-reader none (password k) r h = absurd (ground arith)
  dispatch-reader (some t) (password k) (password j) h =
      (t, refl, ground (arith, str_eq_iff (hash t) j), ground arith)
  dispatch-reader (some t) any (password j) h =
      (t, refl, ground (arith, str_eq_iff (hash t) j), refl)
  dispatch-reader (some t) off (password j) h =
      (t, refl, ground (arith, str_eq_iff (hash t) j), refl)
  dispatch-reader (some t) w r h = absurd (ground arith)

  reader_when_unlocked :
      (t : String) (w : AccessSettings)
      → (hash_matches hash t w ≡ true → ⊥)
      → dispatch_token hash (some t) w (password (hash t)) ≡ ok reader
  unfolding dispatch_token hash_matches
  reader_when_unlocked t any h = ground (arith, str_eq_refl (hash t))
  reader_when_unlocked t off h = ground (arith, str_eq_refl (hash t))
  reader_when_unlocked t (password k) h = ground (arith, str_eq_refl (hash t))

  -- A token makes a writer exactly when writing asks for a password and the token is that
  -- password, whatever the setting for reads.
  pub token_to_principal-writer_iff :
      (tok : Option String) (policy : AccessPolicy)
      → (token_to_principal hash tok policy ≡ ok writer)
        ↔ ((t : String) × (tok ≡ some t) × Unlocks hash t policy.write)
  unfolding token_to_principal hash_matches
  token_to_principal-writer_iff tok policy = (
    dispatch-writer tok policy.write policy.read,
    λ p. rw (p.1, p.2) (ground (arith, str_eq_refl (hash p.0))),
  )

  -- A token makes a reader exactly when it is the password for reads and is not the password for
  -- writes.
  pub token_to_principal-reader_iff :
      (tok : Option String) (policy : AccessPolicy)
      → (token_to_principal hash tok policy ≡ ok reader) ↔ (
          (t : String) × (tok ≡ some t)
          × Unlocks hash t policy.read
          × (¬ Unlocks hash t policy.write))
  unfolding token_to_principal
  token_to_principal-reader_iff tok policy = (forth, back)
    where
      forth :
          token_to_principal hash tok policy ≡ ok reader
          → (t : String) × (tok ≡ some t)
            × Unlocks hash t policy.read
            × (¬ Unlocks hash t policy.write)
      forth h =
          let (t, e, r, w) = dispatch-reader tok policy.write policy.read h in
          (t, e, r, λ u. cc (hash_matches_complete t policy.write u))

      back :
          ((t : String) × (tok ≡ some t)
            × Unlocks hash t policy.read
            × (¬ Unlocks hash t policy.write))
          → token_to_principal hash tok policy ≡ ok reader
      back p =
          rw (p.1, p.2)
            (reader_when_unlocked p.0 policy.write
              (λ m. p.3 (hash_matches_sound p.0 policy.write m)))

  dispatch-errors :
      (tok : Option String) (w r : AccessSettings)
      → ((dispatch_token hash tok w r ≡ err need_access_token)
          ↔ ((tok ≡ none) × (w ≢ any) × (r ≢ any)))
        × ((dispatch_token hash tok w r ≡ err useless_access_token)
            ↔ ((tok ≢ none) × (¬ IsPassword w) × (¬ IsPassword r)))
  unfolding dispatch_token
  dispatch-errors none any r = ground arith
  dispatch-errors none off any = ground arith
  dispatch-errors none off off = ground arith
  dispatch-errors none off (password j) = ground arith
  dispatch-errors none (password k) any = ground arith
  dispatch-errors none (password k) r = ground arith
  dispatch-errors (some t) any any = ground arith
  dispatch-errors (some t) any off = ground arith
  dispatch-errors (some t) any (password j) = ground arith
  dispatch-errors (some t) off any = ground arith
  dispatch-errors (some t) off off = ground arith
  dispatch-errors (some t) off (password j) = ground arith
  dispatch-errors (some t) (password k) r = ground arith

  -- A missing token is an error exactly when neither setting is `any`; a token is useless exactly
  -- when neither setting is a password.
  pub token_to_principal-errors :
      (tok : Option String) (policy : AccessPolicy)
      → ((token_to_principal hash tok policy ≡ err need_access_token)
          ↔ ((tok ≡ none) × (policy.write ≢ any) × (policy.read ≢ any)))
        × ((token_to_principal hash tok policy ≡ err useless_access_token)
            ↔ ((tok ≢ none) × (¬ IsPassword policy.write) × (¬ IsPassword policy.read)))
  unfolding token_to_principal
  token_to_principal-errors tok policy = dispatch-errors tok policy.write policy.read
