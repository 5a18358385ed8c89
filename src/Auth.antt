-- ===== src/Auth.antt =====
-- src/auth.rs: who a request acts for, and what that principal may do.
pub mod Tokens
pub mod Access
mod Tests
use seafowl.Prelude.{String, Bool, true, false, Option, none, some, str_eq, if◌then◌else◌}

pub data Principal : Type 0 where
  anonymous writer reader : Principal

pub data Resource : Type 0 where
  database : Resource

pub data Action : Type 0 where
  read write : Action

-- `AccessSettings` of config/schema.rs.
pub data AccessSettings : Type 0 where
  any off : AccessSettings
  password : String → AccessSettings

-- The three errors of `ApiError` that the authorisation raises.
pub data ApiError : Type 0 where
  need_access_token useless_access_token wrong_access_token : ApiError

pub data Result {ℓ} (A : Type ℓ) : Type ℓ where
  ok : A → Result A
  err : ApiError → Result A

pub record AccessPolicy : Type 0 where
  pub read : AccessSettings
  pub write : AccessSettings

abbrev pub free_for_all : AccessPolicy
free_for_all = record { read = any; write = any }

unfoldable pub can_perform_action : Principal → Action → Resource → AccessPolicy → Bool
can_perform_action writer action r policy = true
can_perform_action reader Action.read r policy = true
can_perform_action p Action.read r policy = elim policy.read [ any ↦ true | _ ↦ false ]
can_perform_action p Action.write r policy = elim policy.write [ any ↦ true | _ ↦ false ]

pub record UserContext : Type 0 where
  pub principal : Principal
  pub policy : AccessPolicy

-- `UserContext::can_perform_action`.
unfoldable pub user_can : UserContext → Action → Bool
unfolding can_perform_action
user_can c action = can_perform_action c.principal action database c.policy

unfoldable pub with_read_disabled : AccessPolicy → AccessPolicy
with_read_disabled p = record { read = off; write = p.write }

unfoldable pub with_write_disabled : AccessPolicy → AccessPolicy
with_write_disabled p = record { read = p.read; write = off }

-- `str_to_hex_hash` is SHA-256 in hexadecimal.
module _ (str_to_hex_hash : String → String) where
  -- The settings side of the two password guards.
  unfoldable pub hash_matches : String → AccessSettings → Bool
  hash_matches t (password sha256_hash) = str_eq (str_to_hex_hash t) sha256_hash
  hash_matches t _ = false

  -- The last three arms of the match: the two password guards, the write password first.
  unfoldable pub check_password : String → AccessSettings → AccessSettings → Result Principal
  unfolding hash_matches
  check_password t w r =
      if hash_matches t w
      then ok writer
      else if hash_matches t r
      then ok reader
      else err wrong_access_token

  -- The match, over the token and the settings for write and read, in that order.
  unfoldable pub dispatch_token : Option String → AccessSettings → AccessSettings → Result Principal
  unfolding check_password
  dispatch_token none any _ = ok anonymous
  dispatch_token none _ any = ok anonymous
  dispatch_token none _ _ = err need_access_token
  dispatch_token (some t) (password h) r = check_password t (password h) r
  dispatch_token (some t) w (password h) = check_password t w (password h)
  dispatch_token (some t) _ _ = err useless_access_token

  unfoldable pub token_to_principal : Option String → AccessPolicy → Result Principal
  unfolding dispatch_token
  token_to_principal token policy = dispatch_token token policy.write policy.read

  unfoldable pub with_read_password : AccessPolicy → String → AccessPolicy
  with_read_password p pw = record { read = password (str_to_hex_hash pw); write = p.write }

  unfoldable pub with_write_password : AccessPolicy → String → AccessPolicy
  with_write_password p pw = record { read = p.read; write = password (str_to_hex_hash pw) }
