-- ===== src/Options/Google/RoundTrip.antt =====
-- google.rs: the options of a config, read back by their keys.
use seafowl.Prelude.{
  ◌≡◌, refl, ◌∙◌, String, false, Bool-cases, inl, inr, Option, none, some, [], if◌then◌else◌,
  str_eq, str_eq_iff, arith,
}
use seafowl.Prelude.Map.{string_eq, lookup, insert, lookup-insert}
use seafowl.Options.{Map, unknown_key, Outcome, ok, err, insert_some, map_options, Reads}
use seafowl.Options.Keys.{
  IsOptions, insert_some-IsOptions, insert-IsOptions, map_options-lookup, or_else-none, as_ref-eq,
  lookup-insert_some, or_else,
}
use seafowl.Options.Google.{
  GcsConfig, GoogleConfigKey, service_account, application_credentials, bucket, other_key,
  google_key_eq, GoogleKeys, to_hashmap, map_options_into_google_config_keys,
}

-- The setting of a config that a key names.
unfoldable pub setting : GcsConfig → GoogleConfigKey → Option String
setting c bucket = some c.bucket
setting c application_credentials = c.google_application_credentials
setting c _ = none

abbrev pub Settings : Type 0
Settings = GoogleConfigKey → Option String

abbrev pub read_at : Option String → Settings → Outcome Settings
read_at none f = ok f
read_at (some p) f = err (unknown_key "prefix")

-- What the options of a config are read as: a prefix is refused.
abbrev pub read : GcsConfig → Outcome Settings
read c = read_at c.prefix (setting c)

module _ (keys : GoogleKeys) where
  unprefixed : GcsConfig → Map
  unfolding insert_some
  unprefixed c =
      insert_some (keys.as_ref application_credentials) c.google_application_credentials
        (insert (keys.as_ref bucket) c.bucket [])

  unprefixed-IsOptions :
      (c : GcsConfig) → IsOptions keys.as_ref keys.from_str keys.from_str-as_ref (unprefixed c)
  unfolding unprefixed
  unprefixed-IsOptions c =
      insert_some-IsOptions keys.as_ref keys.from_str keys.from_str-as_ref application_credentials
        c.google_application_credentials (insert (keys.as_ref bucket) c.bucket [])
        (insert-IsOptions keys.as_ref keys.from_str keys.from_str-as_ref bucket c.bucket []
          (record { unique = tt; known = tt }))

  lookup-unprefixed :
      (c : GcsConfig) (k : GoogleConfigKey)
      → lookup (keys.as_ref k) (unprefixed c) ≡ (
          if google_key_eq.eq k application_credentials
          then or_else keys.as_ref keys.from_str keys.from_str-as_ref
              c.google_application_credentials
              (if google_key_eq.eq k bucket then some c.bucket else none)
          else (if google_key_eq.eq k bucket then some c.bucket else none))
  unfolding unprefixed lookup
  lookup-unprefixed c k =
      rw
        (
          lookup-insert_some keys.as_ref keys.from_str keys.from_str-as_ref k
              application_credentials,
          lookup-insert (keys.as_ref bucket) (keys.as_ref k),
          as_ref-eq keys.as_ref keys.from_str keys.from_str-as_ref k bucket,
        )
        refl

  unprefixed-setting :
      (c : GcsConfig) (k : GoogleConfigKey) → lookup (keys.as_ref k) (unprefixed c) ≡ setting c k
  unfolding setting
  unprefixed-setting c service_account = rw (lookup-unprefixed c service_account) refl
  unprefixed-setting c application_credentials =
      rw (lookup-unprefixed c application_credentials) (
        or_else-none keys.as_ref keys.from_str keys.from_str-as_ref
          c.google_application_credentials)
  unprefixed-setting c bucket = rw (lookup-unprefixed c bucket) refl
  unprefixed-setting c (other_key n) =
      let x : google_key_eq.eq (other_key n) application_credentials ≡ false = ground arith in
      let y : google_key_eq.eq (other_key n) bucket ≡ false = ground arith in
      rw (lookup-unprefixed c (other_key n), x, y) refl

  unprefixed-Reads :
      (c : GcsConfig) → Reads (map_options keys.from_str (unprefixed c) []) (ok (setting c))
  unfolding lookup
  unprefixed-Reads c =
      let o = unprefixed-IsOptions c in
      let (m, run, found) =
        map_options-lookup keys.as_ref keys.from_str keys.from_str-as_ref (unprefixed c) [] o.unique
          o.known in
      rw run (λ k.
        found k
        ∙ (or_else-none keys.as_ref keys.from_str keys.from_str-as_ref
              (lookup (keys.as_ref k) (unprefixed c))
            ∙ unprefixed-setting c k))

  unknown-as_ref :
      (s : String)
      → keys.from_str s ≡ none
      → (k : GoogleConfigKey) → str_eq s (keys.as_ref k) ≡ false
  unknown-as_ref s unknown k = elim (Bool-cases (str_eq s (keys.as_ref k))) [
    | inl y ↦
        absurd
          (let same = (str_eq_iff s (keys.as_ref k)).0 y in let law = keys.from_str-as_ref k in cc)
    | inr n ↦ n
  ]

  as_ref-unknown :
      (s : String)
      → keys.from_str s ≡ none
      → (k : GoogleConfigKey) → str_eq (keys.as_ref k) s ≡ false
  as_ref-unknown s unknown k = elim (Bool-cases (str_eq (keys.as_ref k) s)) [
    | inl y ↦
        absurd
          (let same = (str_eq_iff (keys.as_ref k) s).0 y in let law = keys.from_str-as_ref k in cc)
    | inr n ↦ n
  ]

  refused_with :
      (b p : String) (credentials : Option String)
      → keys.from_str "prefix" ≡ none
      → map_options keys.from_str
          (insert_some
            (keys.as_ref application_credentials)
            credentials
            (insert "prefix" p (insert (keys.as_ref bucket) b [])))
          []
        ≡ err (unknown_key "prefix")
  unfolding map_options insert_some insert
  refused_with b p none unknown =
      rw
        (
          unknown-as_ref "prefix" unknown bucket,
          map_options,
          keys.from_str-as_ref bucket,
          map_options,
          unknown,
        )
        refl
  refused_with b p (some v) unknown =
      let far : str_eq (keys.as_ref application_credentials) (keys.as_ref bucket) ≡ false =
        as_ref-eq keys.as_ref keys.from_str keys.from_str-as_ref application_credentials bucket in
      rw
        (
          unknown-as_ref "prefix" unknown bucket,
          far,
          keys.from_str-as_ref bucket,
          as_ref-unknown "prefix" unknown application_credentials,
          map_options,
          unknown,
        )
        refl

  read-Reads :
      (c : GcsConfig) (o : Option String)
      → keys.from_str "prefix" ≡ none
      → Reads
          (map_options keys.from_str
            (insert_some
              (keys.as_ref application_credentials)
              c.google_application_credentials
              (insert_some "prefix" o (insert (keys.as_ref bucket) c.bucket [])))
            [])
          (read_at o (setting c))
  unfolding insert_some unprefixed
  read-Reads c none unknown = unprefixed-Reads c
  read-Reads c (some p) unknown =
      rw (refused_with c.bucket p c.google_application_credentials unknown) refl

  -- Where `prefix` is no key of the crate, parsing the options that a Google config with a prefix
  -- writes is refused for that key. Without a prefix it succeeds, and each key is then mapped to the
  -- setting of the config that it names, and to nothing if it names none.
  pub map_options-to_hashmap_google :
      (c : GcsConfig)
      → keys.from_str "prefix" ≡ none
      → Reads (map_options_into_google_config_keys keys (to_hashmap keys c)) (read c)
  unfolding map_options_into_google_config_keys to_hashmap
  map_options-to_hashmap_google c unknown = read-Reads c c.prefix unknown
