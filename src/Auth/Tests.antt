-- ===== src/Auth/Tests.antt =====
-- The theorems about auth.rs at concrete policies; the hash of these tests is the identity.
use seafowl.Prelude.{String, ◌≡◌, ◌↔◌, ◌⊎◌, ◌≢◌, refl, Option, none, some}
use seafowl.Auth.{
  AccessPolicy, any, password, ok, err, writer, reader, free_for_all, need_access_token,
  useless_access_token, wrong_access_token, token_to_principal, with_read_disabled,
  with_write_password, user_can,
}
use seafowl.Auth.Tokens.{
  Unlocks, IsPassword, token_to_principal-writer_iff, token_to_principal-reader_iff,
  token_to_principal-errors,
}
use seafowl.Auth.Access.{Opens, write-Allowed, read-Allowed, locked_down}

abbrev hash : String → String
hash s = s

abbrev both : AccessPolicy
both = record { read = password "r"; write = password "w" }

reads : token_to_principal hash (some "r") both ≡ ok reader
unfolding token_to_principal
reads = refl

writes : token_to_principal hash (some "w") both ≡ ok writer
unfolding token_to_principal
writes = refl

token_to_principal-writer_iff_example :
    (token_to_principal hash (some "w") both ≡ ok writer)
    ↔ ((t : String) × (some "w" ≡ some t) × Unlocks hash t both.write)
token_to_principal-writer_iff_example = token_to_principal-writer_iff hash (some "w") both

token_to_principal-reader_iff_example : (token_to_principal hash (some "r") both ≡ ok reader) ↔ (
    (t : String) × (some "r" ≡ some t) × Unlocks hash t both.read × (¬ Unlocks hash t both.write))
token_to_principal-reader_iff_example = token_to_principal-reader_iff hash (some "r") both

token_to_principal-errors_example :
    ((token_to_principal hash none both ≡ err need_access_token)
      ↔ (◌≡◌ {A = Option String} none none × (both.write ≢ any) × (both.read ≢ any)))
    × ((token_to_principal hash none both ≡ err useless_access_token) ↔ (
        ◌≢◌ {A = Option String} none none × (¬ IsPassword both.write) × (¬ IsPassword both.read)))
token_to_principal-errors_example = token_to_principal-errors hash none both

write-Allowed_example : (both.write ≡ any) ⊎ Opens hash (some "w") both.write
unfolding token_to_principal user_can
write-Allowed_example = write-Allowed hash (some "w") both refl

read-Allowed_example :
    (both.read ≡ any) ⊎ Opens hash (some "r") both.read ⊎ Opens hash (some "r") both.write
unfolding token_to_principal user_can
read-Allowed_example = read-Allowed hash (some "r") both refl

locked_down_example :
    let p = with_write_password hash (with_read_disabled free_for_all) "w" in
    (token_to_principal hash (some "w") p ≡ ok writer)
    × (token_to_principal hash none p ≡ err need_access_token)
    × (hash "r" ≢ hash "w" → token_to_principal hash (some "r") p ≡ err wrong_access_token)
locked_down_example = locked_down hash free_for_all "w" "r"
