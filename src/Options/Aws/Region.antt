-- ===== src/Options/Aws/Region.antt =====
-- aws.rs: the options that are added to those of a config.
use seafowl.Prelude.{◌≡◌, refl, ap, ◌∙◌, String, true, false, Option, none, some, if◌then◌else◌}
use seafowl.Prelude.Map.{lookup, insert, lookup-insert}
use seafowl.Options.{Outcome, ok, panic, ◌>>=◌, Reads}
use seafowl.Options.Aws.{
  S3Config, AmazonS3ConfigKey, region, endpoint, bucket, conditional_put, s3_key_eq, S3Options,
  S3Keys, to_hashmap, map_options_into_amazon_s3_config_keys, with_conditional_put, contains_key,
  is_some, add_amazon_s3_specific_options,
}
use seafowl.Options.Aws.RoundTrip.{setting, parsed}

abbrev pub Settings : Type 0
Settings = AmazonS3ConfigKey → Option String

abbrev pub replace : AmazonS3ConfigKey → String → Settings → Settings
replace key v f k = if s3_key_eq.eq k key then some v else f k

abbrev pub opened_at : Option String → Option String → String → Settings → Outcome Settings
opened_at (some e) detected etag f = ok (replace conditional_put etag f)
opened_at none none etag f = panic
opened_at none (some found) etag f = ok (replace conditional_put etag (replace region found f))

-- The settings that a store is opened with. With an endpoint they are those of the config, and
-- without one the region is the one that is detected.
abbrev pub opened : Option String → String → S3Config → Outcome Settings
opened detected etag c = opened_at c.endpoint detected etag (setting c)

module _ (keys : S3Keys) where
  with_conditional_put-Reads :
      (etag : String) (m : S3Options) (f : Settings)
      → ((k : AmazonS3ConfigKey) → lookup k m ≡ f k)
      → f conditional_put ≡ none
      → (k : AmazonS3ConfigKey)
      → lookup k (with_conditional_put keys etag m) ≡ replace conditional_put etag f k
  unfolding with_conditional_put
  with_conditional_put-Reads etag m f found free k =
      let absent : contains_key keys conditional_put m ≡ false =
        ap is_some (found conditional_put ∙ free) in
      rw absent (rw (lookup-insert conditional_put k etag m, found k) refl)

  add-Reads :
      (etag : String) (m : S3Options) (f : Settings)
      → ((k : AmazonS3ConfigKey) → lookup k m ≡ f k)
      → f bucket ≡ none
      → f conditional_put ≡ none
      → (o detected : Option String) → f endpoint ≡ o
      → Reads (add_amazon_s3_specific_options keys detected etag m) (opened_at o detected etag f)
  unfolding add_amazon_s3_specific_options
  add-Reads etag m f found hb hp (some e) detected h =
      let b : contains_key keys bucket m ≡ false = ap is_some (found bucket ∙ hb) in
      let p : contains_key keys endpoint m ≡ true = ap is_some (found endpoint ∙ h) in
      rw (b, p) (with_conditional_put-Reads etag m f found hp)
  add-Reads etag m f found hb hp none none h =
      let b : contains_key keys bucket m ≡ false = ap is_some (found bucket ∙ hb) in
      let p : contains_key keys endpoint m ≡ false = ap is_some (found endpoint ∙ h) in rw (b, p) tt
  add-Reads etag m f found hb hp none (some r) h =
      let b : contains_key keys bucket m ≡ false = ap is_some (found bucket ∙ hb) in
      let p : contains_key keys endpoint m ≡ false = ap is_some (found endpoint ∙ h) in
      rw (b, p)
        (with_conditional_put-Reads etag (insert region r m) (replace region r f)
          (λ k. rw (lookup-insert region k r m, found k) refl) hp)

  -- What the options of an S3 config become before a store is opened with them: the put mode is set,
  -- and with an endpoint the settings are otherwise those of the config, whatever is detected.
  -- Without an endpoint the region is the one that is detected, also where the config has a region,
  -- and it is a panic if none is detected.
  pub add_amazon_s3_specific_options_lem :
      (c : S3Config) (detected : Option String) (etag : String)
      → Reads
          (map_options_into_amazon_s3_config_keys keys (to_hashmap keys c)
            >>= add_amazon_s3_specific_options keys detected etag)
          (opened detected etag c)
  unfolding add_amazon_s3_specific_options setting
  add_amazon_s3_specific_options_lem c detected etag =
      let (m, run, found) = parsed keys c in
      rw run (add-Reads etag m (setting c) found refl refl c.endpoint detected refl)
