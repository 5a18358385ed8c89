-- ===== src/Options/Factory.antt =====
-- object_store_factory/src/lib.rs and memory.rs.
pub mod Reopen
use Prim.Native.String.{◌++◌ as append}
use seafowl.Prelude.{◌≡◌, String, Bool, true, false, Option, none, some, [], str_eq, if◌then◌else◌}
use seafowl.Options.{
  Map, unsupported_object_store, unsupported_url_scheme, Outcome, ok, err, panic, ◌>>=◌, unwrap,
}
use seafowl.Options.Aws.{
  S3Config, S3Options, S3Keys, AmazonS3Builder, build_amazon_s3,
  map_options_into_amazon_s3_config_keys, add_amazon_s3_specific_options,
  add_amazon_s3_environment_variables,
}
use seafowl.Options.Google.{
  GcsConfig, GoogleOptions, GoogleKeys, GoogleCloudStorageBuilder, build_google_cloud_storage,
  map_options_into_google_config_keys, add_google_cloud_storage_environment_variables,
}
use seafowl.Options.Local.{LocalConfig}

pub data ObjectStoreConfig : Type 0 where
  local : LocalConfig → ObjectStoreConfig
  memory : ObjectStoreConfig
  amazon_s3 : S3Config → ObjectStoreConfig
  google_cloud_storage : GcsConfig → ObjectStoreConfig

-- `ObjectStoreScheme`, of which the source names four.
pub data ObjectStoreScheme : Type 0 where
  local_scheme memory_scheme amazon_s3_scheme google_cloud_storage_scheme other_scheme :
      ObjectStoreScheme

-- What the crates `object_store` and `url` do.
pub record Crates (Store : Type 0) : Type 0 where
  pub s3_keys : S3Keys
  pub google_keys : GoogleKeys
  pub build_s3 : AmazonS3Builder → Outcome Store
  pub build_google : GoogleCloudStorageBuilder → Outcome Store
  pub local_file_system : String → Outcome Store
  pub in_memory : Store
  pub prefix_store : Store → String → Store
  pub parse_scheme : String → Option ObjectStoreScheme
  pub url_path : String → String
  pub parse_s3_url : String → S3Options → Outcome Store
  pub parse_google_url : String → GoogleOptions → Outcome Store
  pub detect_region : String → Option String
  pub etag_match : String
  pub to_ascii_lowercase : String → String
  pub to_uppercase : String → String

pub record StorageLocationInfo (Store : Type 0) : Type 0 where
  pub object_store : Store
  pub options : Map
  pub url : String

abbrev pub bucket_to_url : S3Config → String
bucket_to_url c = append "s3://" c.bucket

abbrev pub bucket_to_gs_url : GcsConfig → String
bucket_to_gs_url c = append "gs://" c.bucket

-- `from` is `Path::from`.
abbrev pub path_of : {P : Type 0} → (String → P) → Option String → Option P
path_of from none = none
path_of from (some prefix) = some (from prefix)

unfoldable pub get_base_url : {P : Type 0} → (String → P) → ObjectStoreConfig → Option P
get_base_url from (amazon_s3 c) = path_of from c.prefix
get_base_url from (google_cloud_storage c) = path_of from c.prefix
get_base_url from _ = none

unfoldable pub get_allow_http : ObjectStoreConfig → Outcome Bool
get_allow_http (amazon_s3 c) = ok c.allow_http
get_allow_http _ = err unsupported_object_store

module _ {Store : Type 0} (crates : Crates Store) where
  unfoldable pub config_to_hashmap : ObjectStoreConfig → Map
  config_to_hashmap (local c) = seafowl.Options.Local.to_hashmap c
  config_to_hashmap (amazon_s3 c) = seafowl.Options.Aws.to_hashmap crates.s3_keys c
  config_to_hashmap (google_cloud_storage c) =
      seafowl.Options.Google.to_hashmap crates.google_keys c
  config_to_hashmap memory = []

  unfoldable pub build_object_store : ObjectStoreConfig → Outcome Store
  unfolding build_amazon_s3 build_google_cloud_storage
  build_object_store memory = ok crates.in_memory
  build_object_store (local c) = crates.local_file_system c.data_dir
  build_object_store (amazon_s3 c) = build_amazon_s3 c >>= crates.build_s3
  build_object_store (google_cloud_storage c) = crates.build_google (build_google_cloud_storage c)

  -- `unimplemented!` is a panic.
  unfoldable pub build_storage_location_info :
      ObjectStoreConfig → Outcome (StorageLocationInfo Store)
  build_storage_location_info (amazon_s3 c) = build_amazon_s3 c >>= crates.build_s3 >>= λ store.
      ok (record {
        object_store = store;
        options = seafowl.Options.Aws.to_hashmap crates.s3_keys c;
        url = bucket_to_url c;
      })
  build_storage_location_info (google_cloud_storage c) =
      crates.build_google (build_google_cloud_storage c) >>= λ store. ok (record {
        object_store = store;
        options = seafowl.Options.Google.to_hashmap crates.google_keys c;
        url = bucket_to_gs_url c;
      })
  build_storage_location_info _ = panic

  -- `vars` is the environment.
  unfoldable pub build_for_scheme : Map → String → Map → ObjectStoreScheme → Outcome Store
  build_for_scheme vars url options memory_scheme = ok (
      if str_eq (crates.url_path url) ""
      then crates.in_memory
      else crates.prefix_store crates.in_memory (crates.url_path url))
  build_for_scheme vars url options local_scheme = crates.local_file_system (crates.url_path url)
  build_for_scheme vars url options amazon_s3_scheme =
      map_options_into_amazon_s3_config_keys crates.s3_keys options
      >>= add_amazon_s3_specific_options crates.s3_keys (crates.detect_region url) crates.etag_match
      >>= λ s3_options. crates.parse_s3_url url (
          add_amazon_s3_environment_variables crates.s3_keys crates.to_ascii_lowercase
            crates.to_uppercase vars s3_options)
  build_for_scheme vars url options google_cloud_storage_scheme =
      map_options_into_google_config_keys crates.google_keys options >>= λ gcs_options.
      crates.parse_google_url url (
        add_google_cloud_storage_environment_variables crates.google_keys crates.to_ascii_lowercase
          vars gcs_options)
  build_for_scheme vars url options other_scheme = err unsupported_url_scheme

  unfoldable pub build_object_store_from_opts : Map → String → Map → Outcome Store
  unfolding build_for_scheme
  build_object_store_from_opts vars url options =
      unwrap (crates.parse_scheme url) >>= build_for_scheme vars url options

  unfoldable pub build_storage_location_info_from_opts :
      Map → String → Map → Outcome (StorageLocationInfo Store)
  unfolding build_object_store_from_opts
  build_storage_location_info_from_opts vars url options =
      build_object_store_from_opts vars url options >>= λ store.
      ok (record { object_store = store; options = options; url = url })
