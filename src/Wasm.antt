-- ===== src/Wasm.antt =====
-- wasm_udf/wasm.rs and the types of wasm_udf/data_types.rs.
pub mod Types
pub mod Values
pub mod Encode
pub mod Decode
pub mod Instance
pub mod Scalar
pub mod Inversion
pub mod Protocol
pub mod Calls
pub mod Refines
pub mod Typed
pub mod Declared
pub mod RoundTrip
mod Cells
mod Tests
