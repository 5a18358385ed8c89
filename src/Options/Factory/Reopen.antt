-- ===== src/Options/Factory/Reopen.antt =====
-- lib.rs: the options that a location hands out, and the store that is opened with them.
use seafowl.Prelude.{◌≡◌, refl, ap, sym, String, none, some, []}
use mathlib.Core.Path.{subst}
use seafowl.Prelude.Map.{lookup}
use seafowl.Options.{Map, StoreError, unknown_key, Outcome, ok, err, panic, ◌>>=◌, unwrap, Reads}
use seafowl.Options.Aws.{
  AmazonS3ConfigKey, s3_key_eq, S3Config, S3Options, map_options_into_amazon_s3_config_keys,
  add_amazon_s3_specific_options, add_amazon_s3_environment_variables, build_amazon_s3,
  add_variables,
}
use seafowl.Options.Aws.Region.{Settings, opened, add_amazon_s3_specific_options_lem}
use seafowl.Options.Google.{
  GcsConfig, google_key_eq, GoogleOptions, map_options_into_google_config_keys,
  build_google_cloud_storage,
}
use seafowl.Options.Google.RoundTrip.{read_at, setting, map_options-to_hashmap_google}
use seafowl.Options.Factory.{
  amazon_s3, google_cloud_storage, amazon_s3_scheme, google_cloud_storage_scheme, Crates,
  StorageLocationInfo, build_storage_location_info, build_object_store_from_opts, build_for_scheme,
  bucket_to_url, bucket_to_gs_url,
}

Reads-err : (r : Outcome GoogleOptions) (d : StoreError) → Reads r (err d) → r ≡ err d
Reads-err (ok m) d h = absurd h
Reads-err (err e) d h = ap err h
Reads-err panic d h = absurd h

module _ {Store : Type 0} (crates : Crates Store) where
  -- The store is the one that the crate opens with the settings, or it ends as the settings do.
  abbrev pub Opens : String → Outcome Store → Outcome Settings → Type 0
  Opens url r (ok f) =
      (m : S3Options) × (r ≡ crates.parse_s3_url url m)
      × ((k : AmazonS3ConfigKey) → lookup k m ≡ f k)
  Opens url r (err e) = r ≡ err e
  Opens url r panic = r ≡ panic

  options_of_location :
      (r : Outcome Store) (options : Map) (url : String) (info : StorageLocationInfo Store)
      → (r >>= λ store. ok (record { object_store = store; options = options; url = url }))
        ≡ ok info
      → info.options ≡ options
  options_of_location (ok store) options url info h = sym (ap (λ x. options_or x options) h)
    where
      options_or : Outcome (StorageLocationInfo Store) → Map → Map
      options_or (ok i) d = i.options
      options_or _ d = d
  options_of_location (err e) options url info h = absurd cc
  options_of_location panic options url info h = absurd cc

  Reads-Opens :
      (url : String) (r : Outcome S3Options) (o : Outcome Settings)
      → Reads r o
      → Opens url
          (r >>= λ m. crates.parse_s3_url url (
            add_amazon_s3_environment_variables crates.s3_keys crates.to_ascii_lowercase
              crates.to_uppercase [] m))
          o
  unfolding add_amazon_s3_environment_variables add_variables lookup
  Reads-Opens url (ok m) (ok f) h = (m, refl, h)
  Reads-Opens url (err e) (err d) h = ap err h
  Reads-Opens url panic panic h = refl
  Reads-Opens url (ok m) (err d) h = absurd h
  Reads-Opens url (ok m) panic h = absurd h
  Reads-Opens url (err e) (ok f) h = absurd h
  Reads-Opens url (err e) panic h = absurd h
  Reads-Opens url panic (ok f) h = absurd h
  Reads-Opens url panic (err d) h = absurd h

  -- If a storage location of an S3 config is built and the environment has no variables, a store that
  -- is built for an S3 URL from the options of that location is opened with the settings of the config
  -- and the put mode. If the config has no endpoint the region is the one that is detected for the
  -- URL, and it is a panic if none is.
  pub reopen_s3 :
      (c : S3Config) (info : StorageLocationInfo Store) (url : String)
      → build_storage_location_info crates (amazon_s3 c) ≡ ok info
      → crates.parse_scheme url ≡ some amazon_s3_scheme
      → Opens url
          (build_object_store_from_opts crates [] url info.options)
          (opened (crates.detect_region url) crates.etag_match c)
  unfolding build_storage_location_info build_object_store_from_opts build_for_scheme
  reopen_s3 c info url built scheme =
      let kept =
        options_of_location (build_amazon_s3 c >>= crates.build_s3)
          (seafowl.Options.Aws.to_hashmap crates.s3_keys c) (bucket_to_url c) info built in
      rw (scheme, kept)
        (Reads-Opens url
          (map_options_into_amazon_s3_config_keys crates.s3_keys
              (seafowl.Options.Aws.to_hashmap crates.s3_keys c)
            >>= add_amazon_s3_specific_options crates.s3_keys (crates.detect_region url)
                crates.etag_match)
          (opened (crates.detect_region url) crates.etag_match c)
          (add_amazon_s3_specific_options_lem crates.s3_keys c (crates.detect_region url)
            crates.etag_match))

  -- If a storage location of a Google config that has a prefix is built, and `prefix` is no key of
  -- the crate, a store for a Google URL is never built from the options of that location: that key is
  -- refused, whatever the environment.
  pub reopen_google_refused :
      (c : GcsConfig) (p : String) (info : StorageLocationInfo Store) (url : String) (vars : Map)
      → c.prefix ≡ some p
      → crates.google_keys.from_str "prefix" ≡ none
      → build_storage_location_info crates (google_cloud_storage c) ≡ ok info
      → crates.parse_scheme url ≡ some google_cloud_storage_scheme
      → build_object_store_from_opts crates vars url info.options ≡ err (unknown_key "prefix")
  unfolding build_storage_location_info build_object_store_from_opts build_for_scheme
  reopen_google_refused c p info url vars prefixed unknown built scheme =
      let kept =
        options_of_location (crates.build_google (build_google_cloud_storage c))
          (seafowl.Options.Google.to_hashmap crates.google_keys c) (bucket_to_gs_url c) info
          built in
      let options =
        map_options_into_google_config_keys crates.google_keys
          (seafowl.Options.Google.to_hashmap crates.google_keys c) in
      let refused : options ≡ err (unknown_key "prefix") =
        Reads-err options (unknown_key "prefix") (
          subst (λ o. Reads options (read_at o (setting c))) prefixed
            (map_options-to_hashmap_google crates.google_keys c unknown)) in
      rw (scheme, kept, build_for_scheme, refused) refl
