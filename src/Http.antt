-- ===== src/Http.antt =====
-- frontend/http.rs and frontend/http_utils.rs.
pub mod Errors
pub mod Context
pub mod Query
pub mod Cached
pub mod Upload
pub mod Routes
pub mod Statements
pub mod Safety
pub mod Reading
pub mod Quiet
pub mod Revalidation
pub mod Appending
pub mod Permission
pub mod Tokens
pub mod Gate
pub mod Refusal
mod Tests
