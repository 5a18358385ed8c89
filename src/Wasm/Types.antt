-- ===== src/Wasm/Types.antt =====
-- The types of functions: those of a declaration, of Arrow and of WASM.
use seafowl.Prelude.{ℕ, Option, none, some}
use seafowl.Prelude.Integers.{ℤ}

pub data CreateFunctionDataType : Type 0 where
  i32 i64 f32 f64 : CreateFunctionDataType
  smallint int bigint char varchar text : CreateFunctionDataType
  decimal : ℕ → ℤ → CreateFunctionDataType
  float real double boolean date timestamp : CreateFunctionDataType

pub data CreateFunctionVolatility : Type 0 where
  immutable stable volatile : CreateFunctionVolatility

pub data CreateFunctionLanguage : Type 0 where
  wasm wasm_message_pack : CreateFunctionLanguage

-- `DataType` of Arrow; a timestamp has nanoseconds and no zone.
pub data DataType : Type 0 where
  int16 int32 int64 float32 float64 utf8 : DataType
  decimal128 : ℕ → ℤ → DataType
  bool date32 timestamp_ns : DataType

pub data ValType : Type 0 where
  wasm_i32 wasm_i64 wasm_f32 wasm_f64 : ValType

unfoldable pub sql_type_to_arrow_type : CreateFunctionDataType → DataType
sql_type_to_arrow_type i32 = int32
sql_type_to_arrow_type i64 = int64
sql_type_to_arrow_type f32 = float32
sql_type_to_arrow_type f64 = float64
sql_type_to_arrow_type smallint = int16
sql_type_to_arrow_type int = int32
sql_type_to_arrow_type bigint = int64
sql_type_to_arrow_type char = utf8
sql_type_to_arrow_type varchar = utf8
sql_type_to_arrow_type text = utf8
sql_type_to_arrow_type (decimal precision scale) = decimal128 precision scale
sql_type_to_arrow_type float = float32
sql_type_to_arrow_type real = float32
sql_type_to_arrow_type double = float64
sql_type_to_arrow_type boolean = bool
sql_type_to_arrow_type date = date32
sql_type_to_arrow_type timestamp = timestamp_ns

-- None is the error that the language `wasm` does not support the type.
unfoldable pub get_wasm_type : CreateFunctionDataType → Option ValType
get_wasm_type i32 = some wasm_i32
get_wasm_type i64 = some wasm_i64
get_wasm_type f32 = some wasm_f32
get_wasm_type f64 = some wasm_f64
get_wasm_type int = some wasm_i32
get_wasm_type bigint = some wasm_i64
get_wasm_type float = some wasm_f32
get_wasm_type real = some wasm_f32
get_wasm_type double = some wasm_f64
get_wasm_type _ = none
