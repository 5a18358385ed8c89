-- ===== src/Options/Aws/Credentials.antt =====
-- aws.rs: the credentials of the builder.
use seafowl.Prelude.{◌≡◌, ◌↔◌, refl, String, false, Bool-cases, inl, inr, Option, none, some, ◌⊎◌}
use seafowl.Options.{panic}
use seafowl.Options.Aws.{S3Config, unsigned, signed, build_amazon_s3}

unsigned_panics : (c : S3Config) → (unsigned c ≡ panic) ↔ (c.skip_signature ≡ false)
unsigned_panics c = elim (Bool-cases c.skip_signature) [
  | inl y ↦ rw y (λ h. absurd cc, λ h. absurd cc)
  | inr n ↦ rw n (λ h. refl, λ h. refl)
]

signed_panics :
    (c : S3Config) (id secret : Option String)
    → (signed c id secret ≡ panic) ↔ (((id ≡ none) ⊎ (secret ≡ none)) × (c.skip_signature ≡ false))
signed_panics c none secret =
    (λ h. (inl refl, (unsigned_panics c).0 h), λ h. (unsigned_panics c).1 h.1)
signed_panics c (some id) none =
    (λ h. (inr refl, (unsigned_panics c).0 h), λ h. (unsigned_panics c).1 h.1)
signed_panics c (some id) (some secret) =
    (λ h. absurd cc, λ (h, _). elim h [ inl x ↦ absurd cc | inr y ↦ absurd cc ])

-- Building an S3 store panics just if the access key or the secret key is missing and the
-- signature is not skipped.
pub build_amazon_s3_panics :
    (c : S3Config)
    → (build_amazon_s3 c ≡ panic)
      ↔ (((c.access_key_id ≡ none) ⊎ (c.secret_access_key ≡ none)) × (c.skip_signature ≡ false))
unfolding build_amazon_s3
build_amazon_s3_panics c = signed_panics c c.access_key_id c.secret_access_key
