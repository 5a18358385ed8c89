-- ===== src/Http/Upload.antt =====
-- `upload`, `load_part` and `health_endpoint`.
use seafowl.Prelude.{
  ℕ, String, Bool, true, false, not, ◌||◌, Option, none, some, List, [], ◌∷◌, ◌++◌, str_eq,
  if◌then◌else◌,
}
use Prim.Native.String.{◌++◌ as append}
use text.Mathlib.Text.{starts_with}
use seafowl.Prelude.Texts.{after_last}
use seafowl.Auth as Auth
use seafowl.Http.Errors.{
  ApiError, datafusion_error, io_error, write_forbidden, upload_missing_file,
  upload_schema_deserialization_error, upload_schema_parse_error, upload_body_load_error,
  upload_has_header_parse_error, upload_unsupported_file_format,
}
use seafowl.Http.Context.{
  Bytes, appended, Outcome, ok, err, Run, ◌>>=◌, ◌>>◌, pure, lift, require, of_answer,
  SeafowlContext,
}
use seafowl.Http.Query.{Response, respond, message, scoped}

-- What a library gives, or the text of its error.
pub data Given (A : Type 0) : Type 0 where
  given : A → Given A
  broken : String → Given A

-- A part of a form: each piece of its data arrives, or fails.
pub record Part : Type 0 where
  pub name : String
  pub filename : Option String
  pub pieces : List (Given Bytes)

-- The libraries that an upload uses: UTF-8, JSON schemas, the temporary file, and numbers in texts.
pub record UploadTools : Type 0 where
  pub create_tmp_file : String → Given (Unit {0})
  pub from_utf8 : Bytes → Given String
  pub schema_from_str : String → Given String
  pub write_all : Bytes → Bytes → Given Bytes
  pub show_version : ℕ → String

pub record Upload : Type 0 where
  pub has_header : Bool
  pub schema : Option String
  pub filename : String
  pub ref_temp_file : Bytes

abbrev pub new_upload : Upload
new_upload = record { has_header = true; schema = none; filename = ""; ref_temp_file = [] }

-- `map_err(f)?`, or the conversion of `?`.
abbrev pub or_error : {A : Type 0} → Given A → (String → ApiError) → Outcome A
or_error (given a) f = ok a
or_error (broken e) f = err (f e)

-- `ok_or(e)?`
abbrev pub or_missing : {A : Type 0} → Option A → ApiError → Outcome A
or_missing none e = err e
or_missing (some a) e = ok a

unfoldable pub load_pieces : List (Given Bytes) → Bytes → Run Bytes
load_pieces [] bytes = pure bytes
load_pieces (piece ∷ pieces) bytes =
    lift (or_error piece upload_body_load_error) >>= λ b. load_pieces pieces (bytes ++ b)

unfoldable pub load_part : Part → Run Bytes
unfolding load_pieces
load_part part = load_pieces part.pieces []

module _ (tools : UploadTools) where
  unfoldable pub write_pieces : List (Given Bytes) → Bytes → Run Bytes
  write_pieces [] file = pure file
  write_pieces (piece ∷ pieces) file = lift (or_error piece upload_body_load_error) >>= λ b.
      lift (or_error (tools.write_all file b) io_error) >>= write_pieces pieces

  unfoldable pub load_has_header : Part → Upload → Run Upload
  unfolding load_part
  load_has_header part up = load_part part >>= λ value_bytes.
      lift (or_error (tools.from_utf8 value_bytes) (λ _. upload_has_header_parse_error))
      >>= λ value. pure (record up { has_header = starts_with value "true" })

  unfoldable pub load_schema : Part → Upload → Run Upload
  unfolding load_part
  load_schema part up = load_part part >>= λ value_bytes.
      lift (or_error (tools.from_utf8 value_bytes) upload_schema_deserialization_error) >>= λ value.
      lift (or_error (tools.schema_from_str value) upload_schema_parse_error) >>= λ schema.
      pure (record up { schema = some schema })

  unfoldable pub load_file : Part → Upload → Run Upload
  unfolding write_pieces
  load_file part up = lift (or_missing part.filename upload_missing_file) >>= λ filename.
      write_pieces part.pieces up.ref_temp_file >>= λ file.
      pure (record up { filename = filename; ref_temp_file = file })

  unfoldable pub take_part : Part → Upload → Run Upload
  unfolding load_has_header load_schema load_file
  take_part part up =
      if str_eq part.name "has_header"
      then load_has_header part up
      else if str_eq part.name "schema"
      then load_schema part up
      else if str_eq part.name "data" || str_eq part.name "file"
      then load_file part up
      else pure up

  -- The loop over the parts, each of which arrives or fails.
  unfoldable pub take_parts : List (Given Part) → Upload → Run Upload
  unfolding take_part
  take_parts [] up = pure up
  take_parts (maybe_part ∷ form) up = lift (or_error maybe_part upload_body_load_error) >>= λ part.
      take_part part up >>= take_parts form

  -- The name of the temporary file, which starts empty.
  abbrev pub target_file : String → String → String → String
  target_file database_name schema_name table_name =
      append "Creating a target file to append to "
        (append database_name (append "." (append schema_name (append "." table_name))))

  module _ {Plan : Type 0} (ctx : SeafowlContext Plan) where
    -- `file_to_table`, which appends the file.
    unfoldable pub file_to_table : String → String → String → Upload → Run ℕ
    file_to_table db schema_name table_name up h = (
      of_answer (
          ctx.file_to_table db schema_name table_name (after_last "." up.filename) up.ref_temp_file
            up.schema up.has_header h),
      h ++ appended db schema_name table_name up.filename ∷ [],
    )

    abbrev pub appended_reply : String → Upload → ℕ → Response Plan
    appended_reply table_name up version = respond 200 (
        message (
          append up.filename (
            append " appended to table "
              (append table_name (append " version " (append (tools.show_version version) "\n"))))))

    -- `split` gives a part at least, so an extension is never missing.
    unfoldable pub append_upload : String → String → String → Upload → Run (Response Plan)
    unfolding file_to_table
    append_upload db schema_name table_name up =
        require (not (str_eq up.filename "")) upload_missing_file
        >> require
            (str_eq (after_last "." up.filename) "csv"
              || str_eq (after_last "." up.filename) "parquet")
            (upload_unsupported_file_format up.filename)
        >> file_to_table db schema_name table_name up
        >>= λ version. pure (appended_reply table_name up version)

    unfoldable pub upload :
        String → String → String → Auth.UserContext → List (Given Part) → Run (Response Plan)
    unfolding take_parts append_upload
    upload database_name schema_name table_name user_context form =
        require (Auth.user_can user_context Auth.Action.write) write_forbidden
        >> lift (
            or_error (tools.create_tmp_file (target_file database_name schema_name table_name))
              datafusion_error)
        >> take_parts form new_upload
        >>= append_upload (scoped ctx database_name) schema_name table_name

-- `health_endpoint`: whether a client reaches the Flight frontend, if there is one.
unfoldable pub health_endpoint : {Plan : Type 0} → Option Bool → Run (Response Plan)
health_endpoint (some false) = pure (respond 503 (message "not_ready"))
health_endpoint (some true) = pure (respond 200 (message "ready"))
health_endpoint none = pure (respond 200 (message "ready"))
