-- ===== src/Http/Quiet.antt =====
-- The steps of an upload that only read its form.
use seafowl.Prelude.{
  ◌≡◌, ◌≢◌, refl, ◌∙◌, String, Bool, true, false, ◌||◌, Option, none, some, List, [], ◌∷◌, ◌++◌,
  if◌then◌else◌, str_eq,
}
use text.Mathlib.Text.{starts_with}
use seafowl.Http.Errors.{
  ApiError, io_error, upload_body_load_error, upload_schema_parse_error,
  upload_schema_deserialization_error, upload_missing_file, upload_has_header_parse_error,
}
use seafowl.Http.Context.{
  Bytes, History, Outcome, ok, err, panic, callee_panic, Run, ◌>>=◌, pure, lift, require,
  bind_outcome,
}
use seafowl.Http.Upload.{
  Part, Given, given, broken, UploadTools, Upload, or_error, or_missing, load_pieces, load_part,
  write_pieces, load_has_header, load_schema, load_file, take_part, take_parts,
}

-- A step that adds nothing to the history and none of whose own unwraps fails.
abbrev pub Quiet : {A : Type 0} → Run A → Type 0
Quiet m = (h : History) → ((m h).1 ≡ h) × ((m h).0 ≢ panic)

pure-Quiet : {A : Type 0} (a : A) → Quiet (pure a)
pure-Quiet a h = (refl, λ q. absurd cc)

require-Quiet : (b : Bool) (e : ApiError) → Quiet (require b e)
require-Quiet true e h = (refl, λ q. absurd cc)
require-Quiet false e h = (refl, λ q. absurd cc)

pub or_error-Quiet :
    {A : Type 0} (a : Given A) (f : String → ApiError) → Quiet (lift (or_error a f))
or_error-Quiet (given a) f h = (refl, λ q. absurd cc)
or_error-Quiet (broken e) f h = (refl, λ q. absurd cc)

or_missing-Quiet : {A : Type 0} (a : Option A) (e : ApiError) → Quiet (lift (or_missing a e))
or_missing-Quiet none e h = (refl, λ q. absurd cc)
or_missing-Quiet (some a) e h = (refl, λ q. absurd cc)

pub bind-Quiet :
    {A B : Type 0} (m : Run A) (f : A → Run B) → Quiet m → ((a : A) → Quiet (f a)) → Quiet (m >>= f)
bind-Quiet {A} {B} m f q g h = go (m h).0 (m h).1 (q h).0 (q h).1
  where
    go :
        (o : Outcome A) (h' : History)
        → h' ≡ h
        → o ≢ panic
        → ((bind_outcome o h' f).1 ≡ h) × ((bind_outcome o h' f).0 ≢ panic)
    go (ok a) h' e ne = let (same, safe) = g a h' in (same ∙ e, safe)
    go (err x) h' e ne = (e, λ z. absurd cc)
    go panic h' e ne = absurd (ne refl)
    go callee_panic h' e ne = (e, λ z. absurd cc)

load_pieces-Quiet : (pieces : List (Given Bytes)) (bytes : Bytes) → Quiet (load_pieces pieces bytes)
unfolding load_pieces
load_pieces-Quiet [] bytes = pure-Quiet bytes
load_pieces-Quiet (p ∷ pieces) bytes =
    bind-Quiet (lift (or_error p upload_body_load_error)) (λ b. load_pieces pieces (bytes ++ b))
      (or_error-Quiet p upload_body_load_error) (λ b. load_pieces-Quiet pieces (bytes ++ b))

module _ (tools : UploadTools) where
  write_pieces-Quiet :
      (pieces : List (Given Bytes)) (file : Bytes) → Quiet (write_pieces tools pieces file)
  unfolding write_pieces
  write_pieces-Quiet [] file = pure-Quiet file
  write_pieces-Quiet (p ∷ pieces) file =
      bind-Quiet (lift (or_error p upload_body_load_error))
        (λ b. lift (or_error (tools.write_all file b) io_error) >>= write_pieces tools pieces)
        (or_error-Quiet p upload_body_load_error)
        (λ b.
          bind-Quiet (lift (or_error (tools.write_all file b) io_error)) (write_pieces tools pieces)
            (or_error-Quiet (tools.write_all file b) io_error) (λ f. write_pieces-Quiet pieces f))

  load_has_header-Quiet : (part : Part) (up : Upload) → Quiet (load_has_header tools part up)
  unfolding load_has_header load_part
  load_has_header-Quiet part up =
      bind-Quiet (load_part part)
        (λ b. lift (or_error (tools.from_utf8 b) (λ _. upload_has_header_parse_error)) >>= λ v.
          pure (record up { has_header = starts_with v "true" }))
        (load_pieces-Quiet part.pieces [])
        (λ b.
          bind-Quiet (lift (or_error (tools.from_utf8 b) (λ _. upload_has_header_parse_error)))
            (λ v. pure (record up { has_header = starts_with v "true" }))
            (or_error-Quiet (tools.from_utf8 b) (λ _. upload_has_header_parse_error))
            (λ v. pure-Quiet (record up { has_header = starts_with v "true" })))

  load_schema-Quiet : (part : Part) (up : Upload) → Quiet (load_schema tools part up)
  unfolding load_schema load_part
  load_schema-Quiet part up =
      let keep = λ (schema : String). pure (record up { schema = some schema }) in
      let read = λ (v : String).
        lift (or_error (tools.schema_from_str v) upload_schema_parse_error) >>= keep in
      bind-Quiet (load_part part)
        (λ b. lift (or_error (tools.from_utf8 b) upload_schema_deserialization_error) >>= read)
        (load_pieces-Quiet part.pieces [])
        (λ b.
          bind-Quiet (lift (or_error (tools.from_utf8 b) upload_schema_deserialization_error)) read
            (or_error-Quiet (tools.from_utf8 b) upload_schema_deserialization_error)
            (λ v.
              bind-Quiet (lift (or_error (tools.schema_from_str v) upload_schema_parse_error)) keep
                (or_error-Quiet (tools.schema_from_str v) upload_schema_parse_error)
                (λ schema. pure-Quiet (record up { schema = some schema }))))

  load_file-Quiet : (part : Part) (up : Upload) → Quiet (load_file tools part up)
  unfolding load_file
  load_file-Quiet part up =
      let keep = λ (name : String) (file : Bytes).
        pure (record up { filename = name; ref_temp_file = file }) in
      bind-Quiet (lift (or_missing part.filename upload_missing_file))
        (λ name. write_pieces tools part.pieces up.ref_temp_file >>= keep name)
        (or_missing-Quiet part.filename upload_missing_file)
        (λ name.
          bind-Quiet (write_pieces tools part.pieces up.ref_temp_file) (keep name)
            (write_pieces-Quiet part.pieces up.ref_temp_file)
            (λ file. pure-Quiet (record up { filename = name; ref_temp_file = file })))

  if-Quiet : {A : Type 0} (b : Bool) (m n : Run A) → Quiet m → Quiet n → Quiet (if b then m else n)
  if-Quiet true m n p q = p
  if-Quiet false m n p q = q

  take_part-Quiet : (part : Part) (up : Upload) → Quiet (take_part tools part up)
  unfolding take_part
  take_part-Quiet part up =
      let rest =
        if str_eq part.name "data" || str_eq part.name "file"
        then load_file tools part up
        else pure up in
      let other = if str_eq part.name "schema" then load_schema tools part up else rest in
      if-Quiet (str_eq part.name "has_header") (load_has_header tools part up) other
        (load_has_header-Quiet part up)
        (if-Quiet (str_eq part.name "schema") (load_schema tools part up) rest
          (load_schema-Quiet part up)
          (if-Quiet (str_eq part.name "data" || str_eq part.name "file") (load_file tools part up)
            (pure up) (load_file-Quiet part up) (pure-Quiet up)))

  pub take_parts-Quiet : (form : List (Given Part)) (up : Upload) → Quiet (take_parts tools form up)
  unfolding take_parts
  take_parts-Quiet [] up = pure-Quiet up
  take_parts-Quiet (p ∷ form) up =
      bind-Quiet (lift (or_error p upload_body_load_error))
        (λ part. take_part tools part up >>= take_parts tools form)
        (or_error-Quiet p upload_body_load_error)
        (λ part.
          bind-Quiet (take_part tools part up) (take_parts tools form) (take_part-Quiet part up)
            (λ u. take_parts-Quiet form u))
