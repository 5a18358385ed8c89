-- ===== src/Http/Errors.antt =====
-- frontend/http_utils.rs: the errors and their responses.
use Prim.Native.String.{◌++◌ as append}
use seafowl.Prelude.{ℕ, String}
use seafowl.Auth as Auth

-- Errors of libraries are their texts.
pub data ApiError : Type 0 where
  datafusion_error io_error : String → ApiError
  hash_mismatch : String → String → ApiError
  not_read_only_query read_only_endpoint_disabled read_forbidden write_forbidden : ApiError
  need_access_token useless_access_token wrong_access_token invalid_authorization_header : ApiError
  invalid_multi_statement empty_multi_statement upload_missing_file upload_missing_filename :
      ApiError
  upload_missing_filename_extension upload_schema_deserialization_error upload_schema_parse_error :
      String → ApiError
  upload_file_load_error upload_body_load_error : String → ApiError
  upload_has_header_parse_error : ApiError
  upload_unsupported_file_format : String → ApiError
  query_decode_error : ApiError
  query_parsing_error : String → ApiError

-- The errors that the authorisation raises.
abbrev pub of_auth : Auth.ApiError → ApiError
of_auth Auth.need_access_token = need_access_token
of_auth Auth.useless_access_token = useless_access_token
of_auth Auth.wrong_access_token = wrong_access_token

-- `debug` is how Rust prints a text with quotes.
unfoldable pub status_code_body : (String → String) → ApiError → ℕ × String
status_code_body debug (datafusion_error e) = (400, e)
status_code_body debug (io_error e) = (500, e)
status_code_body debug (hash_mismatch expected got) = (
  400,
  append "Invalid hash: expected " (
      append (debug expected) (
        append ", got "
          (append (debug got) (append ". Resend your query with " (debug expected))))),
)
status_code_body debug not_read_only_query = (405, "NOT_READ_ONLY_QUERY")
status_code_body debug read_only_endpoint_disabled = (405, "READ_ONLY_ENDPOINT_DISABLED")
status_code_body debug read_forbidden = (403, "READ_FORBIDDEN")
status_code_body debug write_forbidden = (403, "WRITE_FORBIDDEN")
status_code_body debug need_access_token = (401, "NEED_ACCESS_TOKEN")
status_code_body debug useless_access_token = (400, "USELESS_ACCESS_TOKEN")
status_code_body debug wrong_access_token = (401, "INVALID_ACCESS_TOKEN")
status_code_body debug invalid_authorization_header = (401, "INVALID_AUTHORIZATION_HEADER")
status_code_body debug invalid_multi_statement =
    (400, "Only one read statement is allowed and it must be at the end of a multi-statement query")
status_code_body debug empty_multi_statement = (400, "Empty query received")
status_code_body debug upload_missing_file = (400, "No part containing file found in the request!")
status_code_body debug upload_missing_filename = (400, "No filename found in the request!")
status_code_body debug (upload_missing_filename_extension filename) =
    (400, append "File " (append filename " missing extension"))
status_code_body debug (upload_schema_deserialization_error e) =
    (400, append "Error deserializing the file schema: " e)
status_code_body debug (upload_schema_parse_error e) =
    (400, append "Error parsing the file schema: " e)
status_code_body debug (upload_body_load_error e) =
    (400, append "Error loading the upload body: " e)
status_code_body debug (upload_file_load_error e) =
    (400, append "Error loading the upload file: " e)
status_code_body debug upload_has_header_parse_error = (400, "Invalid has_header")
status_code_body debug (upload_unsupported_file_format filename) =
    (400, append "File " (append filename " not supported"))
status_code_body debug query_decode_error = (400, "QUERY_DECODE_ERROR")
status_code_body debug (query_parsing_error r) = (400, append "No query found in the request: " r)
