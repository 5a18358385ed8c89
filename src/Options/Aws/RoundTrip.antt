-- ===== src/Options/Aws/RoundTrip.antt =====
-- aws.rs: the options of a config, read back by their keys.
use seafowl.Prelude.{
  ℕ, ◌<◌, ◌≡◌, ◌∙◌, String, false, Option, none, some, [], ◌==◌, arith, if◌then◌else◌,
}
use seafowl.Prelude.Map.{string_eq, lookup, insert, lookup-insert}
use seafowl.Options.{Map, ok, bool_text, insert_some, Reads}
use seafowl.Options.Keys.{
  or_else, as_ref-eq, map_options-lookup, or_else-none, lookup-insert_some, IsOptions,
  insert_some-IsOptions, insert-IsOptions,
}
use seafowl.Options.Aws.{
  S3Config, AmazonS3ConfigKey, region, access_key_id, secret_access_key, token, endpoint,
  allow_http, skip_signature, bucket, conditional_put, other_key, to_index, s3_key_eq, S3Options,
  S3Keys, to_hashmap, map_options_into_amazon_s3_config_keys,
}

-- The setting of a config that a key names.
unfoldable pub setting : S3Config → AmazonS3ConfigKey → Option String
setting c region = c.region
setting c access_key_id = c.access_key_id
setting c secret_access_key = c.secret_access_key
setting c token = c.session_token
setting c endpoint = c.endpoint
setting c allow_http = some (bool_text c.allow_http)
setting c skip_signature = some (bool_text c.skip_signature)
setting c bucket = none
setting c conditional_put = none
setting c (other_key n) = none

other_key_new : (n i : ℕ) → i < 9 → (to_index (other_key n) == i) ≡ false
other_key_new n i h = ground arith

module _ (keys : S3Keys) where
  lookup_inserted :
      (k r : AmazonS3ConfigKey) (o : Option String) (m : Map)
      → lookup (keys.as_ref k) (insert_some (keys.as_ref r) o m) ≡ (
          if s3_key_eq.eq k r
          then or_else keys.as_ref keys.from_str keys.from_str-as_ref o (lookup (keys.as_ref k) m)
          else lookup (keys.as_ref k) m)
  lookup_inserted = lookup-insert_some keys.as_ref keys.from_str keys.from_str-as_ref

  known_insert :
      (r : AmazonS3ConfigKey) (v : String) (m : Map)
      → IsOptions keys.as_ref keys.from_str keys.from_str-as_ref m
      → IsOptions keys.as_ref keys.from_str keys.from_str-as_ref (insert (keys.as_ref r) v m)
  known_insert = insert-IsOptions keys.as_ref keys.from_str keys.from_str-as_ref

  known_insert_some :
      (r : AmazonS3ConfigKey) (o : Option String) (m : Map)
      → IsOptions keys.as_ref keys.from_str keys.from_str-as_ref m
      → IsOptions keys.as_ref keys.from_str keys.from_str-as_ref (insert_some (keys.as_ref r) o m)
  known_insert_some = insert_some-IsOptions keys.as_ref keys.from_str keys.from_str-as_ref

  to_hashmap-IsOptions :
      (c : S3Config) → IsOptions keys.as_ref keys.from_str keys.from_str-as_ref (to_hashmap keys c)
  unfolding to_hashmap
  to_hashmap-IsOptions c =
      let m1 = insert_some (keys.as_ref region) c.region [] in
      let m2 = insert_some (keys.as_ref access_key_id) c.access_key_id m1 in
      let m3 = insert_some (keys.as_ref secret_access_key) c.secret_access_key m2 in
      let m4 = insert_some (keys.as_ref token) c.session_token m3 in
      let m5 = insert_some (keys.as_ref endpoint) c.endpoint m4 in
      let m6 = insert (keys.as_ref allow_http) (bool_text c.allow_http) m5 in
      let h1 = known_insert_some region c.region [] (record { unique = tt; known = tt }) in
      let h2 = known_insert_some access_key_id c.access_key_id m1 h1 in
      let h3 = known_insert_some secret_access_key c.secret_access_key m2 h2 in
      let h4 = known_insert_some token c.session_token m3 h3 in
      let h5 = known_insert_some endpoint c.endpoint m4 h4 in
      known_insert skip_signature (bool_text c.skip_signature) m6
        (known_insert allow_http (bool_text c.allow_http) m5 h5)

  lookup_known :
      (k r : AmazonS3ConfigKey) (v : String) (m : Map)
      → lookup (keys.as_ref k) (insert (keys.as_ref r) v m)
        ≡ (if s3_key_eq.eq k r then some v else lookup (keys.as_ref k) m)
  lookup_known k r v m = rw (
    lookup-insert (keys.as_ref r) (keys.as_ref k) v m,
    as_ref-eq keys.as_ref keys.from_str keys.from_str-as_ref k r,
  )

  lookup-to_hashmap :
      (c : S3Config) (k : AmazonS3ConfigKey)
      → lookup (keys.as_ref k) (to_hashmap keys c) ≡ setting c k
  unfolding to_hashmap setting lookup
  lookup-to_hashmap c (other_key n) =
      let off = other_key_new n in
      simp (
        lookup_known,
        lookup_inserted,
        off 0 (omega arith),
        off 1 (omega arith),
        off 2 (omega arith),
        off 3 (omega arith),
        off 4 (omega arith),
        off 5 (omega arith),
        off 6 (omega arith),
      )
  lookup-to_hashmap c _ =
      simp
        (lookup_known, lookup_inserted, or_else-none keys.as_ref keys.from_str keys.from_str-as_ref)

  pub parsed :
      (c : S3Config)
      → (m : S3Options) × (map_options_into_amazon_s3_config_keys keys (to_hashmap keys c) ≡ ok m)
        × ((k : AmazonS3ConfigKey) → lookup k m ≡ setting c k)
  unfolding map_options_into_amazon_s3_config_keys lookup
  parsed c =
      let h = to_hashmap-IsOptions c in
      let (m, run, found) =
        map_options-lookup keys.as_ref keys.from_str keys.from_str-as_ref (to_hashmap keys c) []
          h.unique h.known in
      (
        m,
        run,
        λ k.
            found k
            ∙ (or_else-none keys.as_ref keys.from_str keys.from_str-as_ref
                  (lookup (keys.as_ref k) (to_hashmap keys c))
                ∙ lookup-to_hashmap c k),
      )

  -- Parsing the options that an S3 config writes succeeds, and each key is then mapped to the setting
  -- of the config that it names, and to nothing if it names none.
  pub map_options-to_hashmap :
      (c : S3Config)
      → Reads (map_options_into_amazon_s3_config_keys keys (to_hashmap keys c)) (ok (setting c))
  map_options-to_hashmap c = let (m, run, found) = parsed c in rw run found
