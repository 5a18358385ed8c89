-- ===== src/Http/Appending.antt =====
-- What an upload does.
use seafowl.Prelude.{
  ℕ, ◌≡◌, ◌≢◌, ◌⊎◌, inl, inr, refl, String, Bool, true, false, Bool-cases, not, ◌||◌, List, [], ◌∷◌,
  ◌++◌, str_eq, str_eq_iff,
}
use mathlib.Core.Path.{subst⁻¹}
use seafowl.Prelude.Texts.{after_last}
use seafowl.Auth as Auth
use seafowl.Http.Errors.{
  ApiError, datafusion_error, upload_missing_file, upload_unsupported_file_format, write_forbidden,
}
use seafowl.Http.Context.{
  appended, History, Answer, good, bad, crashes, Outcome, Fails, Ends, ok, err, panic, callee_panic,
  ◌>>◌, pure, lift, of_answer, bind_outcome, SeafowlContext,
}
use seafowl.Http.Query.{Response, scoped}
use seafowl.Http.Upload.{
  Part, Given, target_file, UploadTools, Upload, new_upload, or_error, take_parts, append_upload,
  file_to_table, appended_reply, upload,
}
use seafowl.Http.Quiet.{bind-Quiet, or_error-Quiet, take_parts-Quiet}

module _ (tools : UploadTools) where
  module _ {Plan : Type 0} (ctx : SeafowlContext Plan) where
    -- An upload changes nothing, or it appends its file to the table of its path.
    abbrev pub Appended :
        String
        → String
        → String
        → Auth.UserContext
        → History
        → Outcome (Response Plan) × History
        → Type 0
    Appended db schema_name table_name user h r =
        (r.1 ≡ h) × Fails r.0
        ⊎ ((filename : String) × (r.1
              ≡ h ++ appended (scoped ctx db) schema_name table_name filename ∷ [])
            × (Auth.user_can user Auth.Action.write ≡ true)
            × ((after_last "." filename ≡ "csv") ⊎ (after_last "." filename ≡ "parquet"))
            × Ends r.0 (λ response. response.status ≡ 200))

    -- No unwrap of an upload's own fails; it panics only if what it calls does. It fails and leaves the
    -- history as it is, or the user may write, and its one effect is that a file with the extension
    -- csv or parquet is handed to the table of its path; an answer then has status 200.
    pub upload-Appended :
        (db schema_name table_name : String) (user : Auth.UserContext) (form : List (Given Part))
        (h : History)
        → Appended db schema_name table_name user h
            (upload tools ctx db schema_name table_name user form h)
    unfolding upload append_upload file_to_table
    upload-Appended db schema_name table_name user form h =
        elim (Bool-cases (Auth.user_can user Auth.Action.write)) [
          | inr n ↦
              subst⁻¹ (Appended db schema_name table_name user h) {y = (err write_forbidden, h)}
                (rw n refl) (failed write_forbidden h refl)
          | inl can ↦ subst⁻¹ (Appended db schema_name table_name user h) (rw can refl) (
              let m =
                lift (
                  or_error (tools.create_tmp_file (target_file tools db schema_name table_name))
                    datafusion_error)
                >> take_parts tools form new_upload in
              let q =
                bind-Quiet
                  (lift (
                    or_error (tools.create_tmp_file (target_file tools db schema_name table_name))
                      datafusion_error))
                  (λ _. take_parts tools form new_upload)
                  (or_error-Quiet
                    (tools.create_tmp_file (target_file tools db schema_name table_name))
                    datafusion_error)
                  (λ _. take_parts-Quiet tools form new_upload) h in
              taken can (m h).0 (m h).1 q.0 q.1)
        ]
      where
        failed :
            (e : ApiError) (h' : History)
            → h' ≡ h
            → Appended db schema_name table_name user h (err e, h')
        failed e h' same = inl (same, tt)

        ext_cases : (a b : Bool) → a || b ≡ true → (a ≡ true) ⊎ (b ≡ true)
        ext_cases true b e = inl refl
        ext_cases false b e = inr e

        fits : Upload → Bool
        fits up =
            str_eq (after_last "." up.filename) "csv"
            || str_eq (after_last "." up.filename) "parquet"

        csv_or_parquet :
            (name : String)
            → str_eq (after_last "." name) "csv" || str_eq (after_last "." name) "parquet" ≡ true
            → (after_last "." name ≡ "csv") ⊎ (after_last "." name ≡ "parquet")
        csv_or_parquet name e =
            elim (ext_cases (str_eq (after_last "." name) "csv")
              (str_eq (after_last "." name) "parquet") e) [
                | inl y ↦ inl ((str_eq_iff (after_last "." name) "csv").0 y)
                | inr y ↦ inr ((str_eq_iff (after_last "." name) "parquet").0 y)
              ]

        stored :
            (up : Upload)
            → Auth.user_can user Auth.Action.write ≡ true
            → fits up ≡ true
            → (a : Answer ℕ)
            → Appended db schema_name table_name user h (
                bind_outcome
                  (of_answer a)
                  (h ++ appended (scoped ctx db) schema_name table_name up.filename ∷ [])
                  (λ v. pure (appended_reply tools ctx table_name up v)))
        stored up can fit (good v) =
            inr (up.filename, refl, can, csv_or_parquet up.filename fit, refl)
        stored up can fit (bad x) = inr (up.filename, refl, can, csv_or_parquet up.filename fit, tt)
        stored up can fit crashes = inr (up.filename, refl, can, csv_or_parquet up.filename fit, tt)

        checked :
            (up : Upload)
            → Auth.user_can user Auth.Action.write ≡ true
            → Appended db schema_name table_name user h
                (append_upload tools ctx (scoped ctx db) schema_name table_name up h)
        checked up can = elim (Bool-cases (not (str_eq up.filename ""))) [
          | inr n ↦
              subst⁻¹ (Appended db schema_name table_name user h) {y = (err upload_missing_file, h)}
                (rw n refl) (failed upload_missing_file h refl)
          | inl named ↦ elim (Bool-cases (fits up)) [
            | inl fit ↦ subst⁻¹ (Appended db schema_name table_name user h) (rw (named, fit) refl) (
                stored up can fit (
                  ctx.file_to_table (scoped ctx db) schema_name table_name
                    (after_last "." up.filename) up.ref_temp_file up.schema up.has_header h))
            | inr n ↦
                subst⁻¹ (Appended db schema_name table_name user h)
                  {y = (err (upload_unsupported_file_format up.filename), h)} (rw (named, n) refl)
                  (failed (upload_unsupported_file_format up.filename) h refl)
          ]
        ]

        taken :
            Auth.user_can user Auth.Action.write ≡ true
            → (o : Outcome Upload) (h' : History) → h' ≡ h
            → o ≢ panic
            → Appended db schema_name table_name user h
                (bind_outcome o h' (append_upload tools ctx (scoped ctx db) schema_name table_name))
        taken can (ok up) h' same ne =
            subst⁻¹
              (λ g.
                Appended db schema_name table_name user h
                  (append_upload tools ctx (scoped ctx db) schema_name table_name up g))
              same (checked up can)
        taken can (err e) h' same ne = failed e h' same
        taken can panic h' same ne = absurd (ne refl)
        taken can callee_panic h' same ne = inl (same, tt)
