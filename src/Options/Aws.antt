-- ===== src/Options/Aws.antt =====
-- object_store_factory/src/aws.rs.
pub mod RoundTrip
pub mod Region
pub mod Credentials
use Prim.Native.Nat.{ℕ}
use seafowl.Prelude.{
  zero, suc, ◌+◌, ◌≡◌, ◌↔◌, refl, ap, sym, ◌∙◌, String, Bool, true, false, not, ◌&&◌, Option, none,
  some, List, [], ◌∷◌, ◌++◌, ◌==◌, ==_iff, arith, str_eq, if◌then◌else◌,
}
use text.Mathlib.Text.{starts_with}
use seafowl.Prelude.Map.{Eq, string_eq, lookup, insert, remove}
use seafowl.Options.{
  Map, Outcome, ok, err, panic, ◌>>=◌, unwrap, bool_text, is_not_false, insert_some, map_options,
}

pub record S3Config : Type 0 where
  pub region : Option String
  pub access_key_id : Option String
  pub secret_access_key : Option String
  pub session_token : Option String
  pub endpoint : Option String
  pub bucket : String
  pub prefix : Option String
  pub allow_http : Bool
  pub skip_signature : Bool

abbrev pub default : S3Config
default = record {
  region = none;
  access_key_id = none;
  secret_access_key = none;
  session_token = none;
  endpoint = none;
  bucket = "";
  prefix = none;
  allow_http = true;
  skip_signature = true;
}

unfoldable pub from_hashmap : Map → Outcome S3Config
from_hashmap m = unwrap (lookup "bucket" m) >>= λ bucket. ok (record {
  region = lookup "region" m;
  access_key_id = lookup "access_key_id" m;
  secret_access_key = lookup "secret_access_key" m;
  session_token = lookup "session_token" m;
  endpoint = lookup "endpoint" m;
  bucket = bucket;
  prefix = lookup "prefix" m;
  allow_http = is_not_false (lookup "allow_http" m);
  skip_signature = is_not_false (lookup "skip_signature" m);
})

-- The config, and the map that is left. The keys differ, so that a removal does not touch the
-- options that are read after it.
unfoldable pub from_bucket_and_options : String → Map → S3Config × Map
from_bucket_and_options bucket m =
    let m1 = remove "format.region" m in
    let m2 = remove "format.access_key_id" m1 in
    let m3 = remove "format.secret_access_key" m2 in
    let m4 = remove "format.session_token" m3 in
    let m5 = remove "format.endpoint" m4 in
    let m6 = remove "format.allow_http" m5 in
    (
      record {
        region = lookup "format.region" m;
        access_key_id = lookup "format.access_key_id" m1;
        secret_access_key = lookup "format.secret_access_key" m2;
        session_token = lookup "format.session_token" m3;
        endpoint = lookup "format.endpoint" m4;
        bucket = bucket;
        prefix = none;
        allow_http = is_not_false (lookup "format.allow_http" m5);
        skip_signature = is_not_false (lookup "format.skip_signature" m6);
      },
      remove "format.skip_signature" m6,
    )

-- `AmazonS3ConfigKey`: the keys that the source names, and the others.
pub data AmazonS3ConfigKey : Type 0 where
  region access_key_id secret_access_key token endpoint allow_http skip_signature bucket
        conditional_put :
      AmazonS3ConfigKey
  other_key : ℕ → AmazonS3ConfigKey

abbrev pub to_index : AmazonS3ConfigKey → ℕ
to_index region = 0
to_index access_key_id = 1
to_index secret_access_key = 2
to_index token = 3
to_index endpoint = 4
to_index allow_http = 5
to_index skip_signature = 6
to_index bucket = 7
to_index conditional_put = 8
to_index (other_key n) = suc (suc (suc (suc (suc (suc (suc (suc (suc n))))))))

abbrev from_index : ℕ → AmazonS3ConfigKey
from_index zero = region
from_index (suc zero) = access_key_id
from_index (suc (suc zero)) = secret_access_key
from_index (suc (suc (suc zero))) = token
from_index (suc (suc (suc (suc zero)))) = endpoint
from_index (suc (suc (suc (suc (suc zero))))) = allow_http
from_index (suc (suc (suc (suc (suc (suc zero)))))) = skip_signature
from_index (suc (suc (suc (suc (suc (suc (suc zero))))))) = bucket
from_index (suc (suc (suc (suc (suc (suc (suc (suc zero)))))))) = conditional_put
from_index (suc (suc (suc (suc (suc (suc (suc (suc (suc n))))))))) = other_key n

from_index-to_index : (k : AmazonS3ConfigKey) → from_index (to_index k) ≡ k
from_index-to_index region = refl
from_index-to_index _ = refl

pub s3_key_iff : (a b : AmazonS3ConfigKey) → ((to_index a == to_index b) ≡ true) ↔ (a ≡ b)
s3_key_iff a b = (
  λ h.
      sym (from_index-to_index a)
      ∙ (ap from_index ((==_iff (to_index a) (to_index b)).0 h) ∙ from_index-to_index b),
  λ h. (==_iff (to_index a) (to_index b)).1 (ap to_index h),
)

instance abbrev pub s3_key_eq : Eq AmazonS3ConfigKey
s3_key_eq = record { eq = λ a b. to_index a == to_index b; eq_iff = s3_key_iff }

abbrev pub S3Options : Type 0
S3Options = List (AmazonS3ConfigKey × String)

-- The texts of the keys: what `as_ref` gives, `from_str` reads.
pub record S3Keys : Type 0 where
  pub as_ref : AmazonS3ConfigKey → String
  pub from_str : String → Option AmazonS3ConfigKey
  pub from_str-as_ref : (k : AmazonS3ConfigKey) → from_str (as_ref k) ≡ some k

-- What `build_amazon_s3` sets on the builder; the put mode, always `ETagMatch`, is left out.
pub record AmazonS3Builder : Type 0 where
  pub region : String
  pub bucket_name : String
  pub allow_http : Bool
  pub endpoint : Option String
  pub credentials : Option (String × String)
  pub token : Option String
  pub skip_signature : Bool

abbrev pub or_default : Option String → String
or_default none = ""
or_default (some s) = s

abbrev pub unsigned : S3Config → Outcome AmazonS3Builder
unsigned c =
    if c.skip_signature
    then ok (record {
      region = or_default c.region;
      bucket_name = c.bucket;
      allow_http = c.allow_http;
      endpoint = c.endpoint;
      credentials = none;
      token = none;
      skip_signature = true;
    })
    else panic

abbrev pub signed : S3Config → Option String → Option String → Outcome AmazonS3Builder
signed c (some id) (some secret) = ok (record {
  region = or_default c.region;
  bucket_name = c.bucket;
  allow_http = c.allow_http;
  endpoint = c.endpoint;
  credentials = some (id, secret);
  token = c.session_token;
  skip_signature = false;
})
signed c _ _ = unsigned c

-- The builder that is built; a builder starts with no credentials and with signatures.
unfoldable pub build_amazon_s3 : S3Config → Outcome AmazonS3Builder
build_amazon_s3 c = signed c c.access_key_id c.secret_access_key

abbrev pub insert_parsed : Option AmazonS3ConfigKey → String → S3Options → S3Options
insert_parsed none v m = m
insert_parsed (some k) v m = insert k v m

abbrev pub is_some : Option String → Bool
is_some none = false
is_some (some v) = true

module _ (keys : S3Keys) where
  unfoldable pub to_hashmap : S3Config → Map
  unfolding insert_some
  to_hashmap c =
      let m1 = insert_some (keys.as_ref region) c.region [] in
      let m2 = insert_some (keys.as_ref access_key_id) c.access_key_id m1 in
      let m3 = insert_some (keys.as_ref secret_access_key) c.secret_access_key m2 in
      let m4 = insert_some (keys.as_ref token) c.session_token m3 in
      let m5 = insert_some (keys.as_ref endpoint) c.endpoint m4 in
      let m6 = insert (keys.as_ref allow_http) (bool_text c.allow_http) m5 in
      insert (keys.as_ref skip_signature) (bool_text c.skip_signature) m6

  unfoldable pub map_options_into_amazon_s3_config_keys : Map → Outcome S3Options
  unfolding map_options
  map_options_into_amazon_s3_config_keys options = map_options keys.from_str options []

  abbrev pub contains_key : AmazonS3ConfigKey → S3Options → Bool
  contains_key k m = is_some (lookup k m)

  -- `entry(ConditionalPut).or_insert_with(..)`; `etag` is the text of `ETagMatch`.
  unfoldable pub with_conditional_put : String → S3Options → S3Options
  with_conditional_put etag m =
      if contains_key conditional_put m then m else insert conditional_put etag m

  -- `detected` is what `detect_region` answers, nothing if it fails.
  unfoldable pub add_amazon_s3_specific_options :
      Option String → String → S3Options → Outcome S3Options
  unfolding with_conditional_put
  add_amazon_s3_specific_options detected etag m =
      if not (contains_key bucket m) && not (contains_key endpoint m)
      then (unwrap detected >>= λ found. ok (with_conditional_put etag (insert region found m)))
      else ok (with_conditional_put etag m)

  -- The loop over the environment; `lower` is `to_ascii_lowercase`.
  unfoldable pub add_variables : (String → String) → Map → S3Options → S3Options
  add_variables lower [] m = m
  add_variables lower ((key, v) ∷ vars) m =
      add_variables lower vars
        (if starts_with key "AWS_" then insert_parsed (keys.from_str (lower key)) v m else m)

  -- `upper` is `to_uppercase`; variables that are no Unicode are left out.
  unfoldable pub add_amazon_s3_environment_variables :
      (String → String) → (String → String) → Map → S3Options → S3Options
  unfolding add_variables
  add_amazon_s3_environment_variables lower upper vars m =
      let added = add_variables lower vars m in
      elim (lookup (upper (keys.as_ref allow_http)) vars) [
        | none ↦ added
        | some v ↦ if str_eq v "true" then insert allow_http "true" added else added
      ]
