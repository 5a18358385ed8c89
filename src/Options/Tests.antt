-- ===== src/Options/Tests.antt =====
-- The theorems about object_store_factory at concrete configs. The keys have the texts of the crate,
-- and the keys that the source does not name are counted.
use Prim.Native.Nat.{ℕ}
use Prim.Native.String.{[], ◌∷◌}
use text.Mathlib.Text.{starts_with}
use seafowl.Prelude.{
  zero, suc, ◌≡◌, ◌⊎◌, refl, ap, String, true, false, Option, none, some, [], ◌↔◌, str_eq,
  if◌then◌else◌,
}
use seafowl.Prelude.Map.{}
use seafowl.Options.{Map, Outcome, ok, err, panic, unknown_key, ◌>>=◌, Reads}
use seafowl.Options.Aws.{
  S3Config, default, S3Keys, S3Options, AmazonS3ConfigKey, to_hashmap,
  map_options_into_amazon_s3_config_keys, add_amazon_s3_specific_options, build_amazon_s3,
  conditional_put, s3_key_eq,
}
use seafowl.Options.Google.{GcsConfig, GoogleKeys, GoogleConfigKey}
use seafowl.Options.Aws.RoundTrip.{setting, map_options-to_hashmap}
use seafowl.Options.Aws.Region.{opened}
use seafowl.Options.Aws.Credentials.{build_amazon_s3_panics}
use seafowl.Options.Factory.{
  amazon_s3_scheme, google_cloud_storage_scheme, other_scheme, Crates, ObjectStoreScheme,
  build_storage_location_info, build_object_store_from_opts,
}
use seafowl.Options.Factory.Reopen.{Opens, reopen_s3, reopen_google_refused}
use seafowl.Options.Local.{LocalConfig, from_hashmap-to_hashmap}

abbrev ticks : ℕ → String
ticks zero = ""
ticks (suc n) = "+" ∷ ticks n

unfoldable ticks_of : String → ℕ
ticks_of [] = 0
ticks_of (c ∷ s) = suc (ticks_of s)

ticks_of-ticks : (n : ℕ) → ticks_of (ticks n) ≡ n
unfolding ticks_of
ticks_of-ticks zero = refl
ticks_of-ticks (suc n) = ap suc (ticks_of-ticks n)

abbrev s3_text : AmazonS3ConfigKey → String
s3_text seafowl.Options.Aws.region = "aws_region"
s3_text seafowl.Options.Aws.access_key_id = "aws_access_key_id"
s3_text seafowl.Options.Aws.secret_access_key = "aws_secret_access_key"
s3_text seafowl.Options.Aws.token = "aws_session_token"
s3_text seafowl.Options.Aws.endpoint = "aws_endpoint"
s3_text seafowl.Options.Aws.allow_http = "allow_http"
s3_text seafowl.Options.Aws.skip_signature = "aws_skip_signature"
s3_text seafowl.Options.Aws.bucket = "aws_bucket"
s3_text seafowl.Options.Aws.conditional_put = "aws_conditional_put"
s3_text (seafowl.Options.Aws.other_key n) = "#" ∷ ticks n

abbrev s3_named : String → Option AmazonS3ConfigKey
s3_named s =
    if str_eq s "aws_region"
    then some seafowl.Options.Aws.region
    else if str_eq s "aws_access_key_id"
    then some seafowl.Options.Aws.access_key_id
    else if str_eq s "aws_secret_access_key"
    then some seafowl.Options.Aws.secret_access_key
    else if str_eq s "aws_session_token"
    then some seafowl.Options.Aws.token
    else if str_eq s "aws_endpoint"
    then some seafowl.Options.Aws.endpoint
    else if str_eq s "allow_http"
    then some seafowl.Options.Aws.allow_http
    else if str_eq s "aws_skip_signature"
    then some seafowl.Options.Aws.skip_signature
    else if str_eq s "aws_bucket"
    then some seafowl.Options.Aws.bucket
    else if str_eq s "aws_conditional_put"
    then some seafowl.Options.Aws.conditional_put
    else none

unfoldable s3_key : String → Option AmazonS3ConfigKey
unfolding ticks_of
s3_key [] = none
s3_key (c ∷ s) =
    if str_eq (c ∷ "") "#"
    then some (seafowl.Options.Aws.other_key (ticks_of s))
    else s3_named (c ∷ s)

s3_key-s3_text : (k : AmazonS3ConfigKey) → s3_key (s3_text k) ≡ some k
unfolding s3_key
s3_key-s3_text (seafowl.Options.Aws.other_key n) =
    ap (λ m. some (seafowl.Options.Aws.other_key m)) (ticks_of-ticks n)
s3_key-s3_text _ = refl

abbrev google_text : GoogleConfigKey → String
google_text seafowl.Options.Google.service_account = "google_service_account"
google_text seafowl.Options.Google.application_credentials = "google_application_credentials"
google_text seafowl.Options.Google.bucket = "google_bucket"
google_text (seafowl.Options.Google.other_key n) = "#" ∷ ticks n

abbrev google_named : String → Option GoogleConfigKey
google_named s =
    if str_eq s "google_service_account"
    then some seafowl.Options.Google.service_account
    else if str_eq s "google_application_credentials"
    then some seafowl.Options.Google.application_credentials
    else if str_eq s "google_bucket"
    then some seafowl.Options.Google.bucket
    else none

unfoldable google_key : String → Option GoogleConfigKey
unfolding ticks_of
google_key [] = none
google_key (c ∷ s) =
    if str_eq (c ∷ "") "#"
    then some (seafowl.Options.Google.other_key (ticks_of s))
    else google_named (c ∷ s)

google_key-google_text : (k : GoogleConfigKey) → google_key (google_text k) ≡ some k
unfolding google_key
google_key-google_text (seafowl.Options.Google.other_key n) =
    ap (λ m. some (seafowl.Options.Google.other_key m)) (ticks_of-ticks n)
google_key-google_text _ = refl

abbrev s3_keys : S3Keys
s3_keys = record { as_ref = s3_text; from_str = s3_key; from_str-as_ref = s3_key-s3_text }

abbrev google_keys : GoogleKeys
google_keys = record {
  as_ref = google_text;
  from_str = google_key;
  from_str-as_ref = google_key-google_text;
}

abbrev scheme_of : String → Option ObjectStoreScheme
scheme_of url =
    if starts_with url "s3:"
    then some amazon_s3_scheme
    else if starts_with url "gs:"
    then some google_cloud_storage_scheme
    else some other_scheme

-- A store is the text that it was opened with.
abbrev crates : Crates String
crates = record {
  s3_keys = s3_keys;
  google_keys = google_keys;
  build_s3 = λ b. ok b.bucket_name;
  build_google = λ b. ok b.bucket_name;
  local_file_system = λ path. ok path;
  in_memory = "memory";
  prefix_store = λ store prefix. prefix;
  parse_scheme = scheme_of;
  url_path = λ url. "";
  parse_s3_url = λ url options. ok url;
  parse_google_url = λ url options. ok url;
  detect_region = λ url. some "eu-west-1";
  etag_match = "etag";
  to_ascii_lowercase = λ s. s;
  to_uppercase = λ s. s;
}

abbrev s3_config : S3Config
s3_config = record default {
  region = some "us-east-2";
  access_key_id = some "id";
  bucket = "lake";
  allow_http = false;
}

abbrev gcs_config : GcsConfig
gcs_config = record {
  bucket = "lake";
  prefix = some "data";
  google_application_credentials = some "/creds.json";
}

map_options-to_hashmap_example :
    Reads
      (map_options_into_amazon_s3_config_keys s3_keys (to_hashmap s3_keys s3_config))
      (ok (setting s3_config))
map_options-to_hashmap_example = map_options-to_hashmap s3_keys s3_config

build_amazon_s3_panics_example :
    (build_amazon_s3 (record s3_config { skip_signature = false }) ≡ panic)
    ↔ (((s3_config.access_key_id ≡ none) ⊎ (s3_config.secret_access_key ≡ none)) × (false ≡ false))
build_amazon_s3_panics_example =
    build_amazon_s3_panics (record s3_config { skip_signature = false })

reopen_s3_example :
    Opens crates "s3://lake/"
      (build_object_store_from_opts crates [] "s3://lake/" (to_hashmap s3_keys s3_config))
      (opened (some "eu-west-1") "etag" s3_config)
unfolding build_storage_location_info build_amazon_s3
reopen_s3_example =
    reopen_s3 crates s3_config
      (record { object_store = "lake"; options = to_hashmap s3_keys s3_config; url = "s3://lake" })
      "s3://lake/" refl refl

reopen_google_refused_example :
    build_object_store_from_opts crates [] "gs://lake/"
      (seafowl.Options.Google.to_hashmap google_keys gcs_config)
    ≡ err (unknown_key "prefix")
unfolding build_storage_location_info google_key seafowl.Options.Google.build_google_cloud_storage
reopen_google_refused_example =
    reopen_google_refused crates gcs_config "data"
      (record {
        object_store = "lake";
        options = seafowl.Options.Google.to_hashmap google_keys gcs_config;
        url = "gs://lake";
      })
      "gs://lake/" [] refl refl refl refl

abbrev local_config : LocalConfig
local_config = record { data_dir = "/var/data"; disable_hardlinks = true }

from_hashmap-to_hashmap_example :
    seafowl.Options.Local.from_hashmap (seafowl.Options.Local.to_hashmap local_config)
    ≡ ok local_config
from_hashmap-to_hashmap_example = from_hashmap-to_hashmap local_config
