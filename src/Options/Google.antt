-- ===== src/Options/Google.antt =====
-- object_store_factory/src/google.rs.
pub mod RoundTrip
use Prim.Native.Nat.{ℕ}
use seafowl.Prelude.{
  zero, suc, ◌≡◌, ◌↔◌, refl, ap, sym, ◌∙◌, String, Bool, true, Option, none, some, List, [], ◌∷◌,
  ◌==◌, ==_iff, if◌then◌else◌,
}
use text.Mathlib.Text.{starts_with}
use seafowl.Prelude.Map.{Eq, string_eq, lookup, insert, remove}
use seafowl.Options.{Map, Outcome, ok, ◌>>=◌, unwrap, insert_some, map_options}

pub record GcsConfig : Type 0 where
  pub bucket : String
  pub prefix : Option String
  pub google_application_credentials : Option String

unfoldable pub from_hashmap : Map → Outcome GcsConfig
from_hashmap m = unwrap (lookup "bucket" m) >>= λ bucket. ok (record {
  bucket = bucket;
  prefix = lookup "prefix" m;
  google_application_credentials = lookup "google_application_credentials" m;
})

unfoldable pub from_bucket_and_options : String → Map → GcsConfig × Map
from_bucket_and_options bucket m = (
  record {
    bucket = bucket;
    prefix = none;
    google_application_credentials = lookup "format.google_application_credentials" m;
  },
  remove "format.google_application_credentials" m,
)

-- `GoogleConfigKey`: the keys that the source names, and the others.
pub data GoogleConfigKey : Type 0 where
  service_account application_credentials bucket : GoogleConfigKey
  other_key : ℕ → GoogleConfigKey

abbrev pub to_index : GoogleConfigKey → ℕ
to_index service_account = 0
to_index application_credentials = 1
to_index bucket = 2
to_index (other_key n) = suc (suc (suc n))

abbrev from_index : ℕ → GoogleConfigKey
from_index zero = service_account
from_index (suc zero) = application_credentials
from_index (suc (suc zero)) = bucket
from_index (suc (suc (suc n))) = other_key n

from_index-to_index : (k : GoogleConfigKey) → from_index (to_index k) ≡ k
from_index-to_index service_account = refl
from_index-to_index _ = refl

pub google_key_iff : (a b : GoogleConfigKey) → ((to_index a == to_index b) ≡ true) ↔ (a ≡ b)
google_key_iff a b = (
  λ h.
      sym (from_index-to_index a)
      ∙ (ap from_index ((==_iff (to_index a) (to_index b)).0 h) ∙ from_index-to_index b),
  λ h. (==_iff (to_index a) (to_index b)).1 (ap to_index h),
)

instance abbrev pub google_key_eq : Eq GoogleConfigKey
google_key_eq = record { eq = λ a b. to_index a == to_index b; eq_iff = google_key_iff }

abbrev pub GoogleOptions : Type 0
GoogleOptions = List (GoogleConfigKey × String)

-- The texts of the keys: what `as_ref` gives, `from_str` reads.
pub record GoogleKeys : Type 0 where
  pub as_ref : GoogleConfigKey → String
  pub from_str : String → Option GoogleConfigKey
  pub from_str-as_ref : (k : GoogleConfigKey) → from_str (as_ref k) ≡ some k

-- What `build_google_cloud_storage` sets on the builder.
pub record GoogleCloudStorageBuilder : Type 0 where
  pub bucket_name : String
  pub service_account_path : Option String

unfoldable pub build_google_cloud_storage : GcsConfig → GoogleCloudStorageBuilder
build_google_cloud_storage c = record {
  bucket_name = c.bucket;
  service_account_path = c.google_application_credentials;
}

abbrev insert_parsed : Option GoogleConfigKey → String → GoogleOptions → GoogleOptions
insert_parsed none v m = m
insert_parsed (some k) v m = insert k v m

module _ (keys : GoogleKeys) where
  unfoldable pub to_hashmap : GcsConfig → Map
  unfolding insert_some
  to_hashmap c =
      let m1 = insert (keys.as_ref bucket) c.bucket [] in
      let m2 = insert_some "prefix" c.prefix m1 in
      insert_some (keys.as_ref application_credentials) c.google_application_credentials m2

  unfoldable pub map_options_into_google_config_keys : Map → Outcome GoogleOptions
  unfolding map_options
  map_options_into_google_config_keys options = map_options keys.from_str options []

  -- The loop over the environment; `lower` is `to_ascii_lowercase`.
  unfoldable pub add_variables : (String → String) → Map → GoogleOptions → GoogleOptions
  add_variables lower [] m = m
  add_variables lower ((key, v) ∷ vars) m =
      add_variables lower vars
        (if starts_with key "GOOGLE_" then insert_parsed (keys.from_str (lower key)) v m else m)

  -- Variables that are no Unicode are left out.
  unfoldable pub add_google_cloud_storage_environment_variables :
      (String → String) → Map → GoogleOptions → GoogleOptions
  unfolding add_variables insert_some
  add_google_cloud_storage_environment_variables lower vars m =
      add_variables lower vars (insert_some service_account (lookup "SERVICE_ACCOUNT" vars) m)
