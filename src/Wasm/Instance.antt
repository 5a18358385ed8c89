-- ===== src/Wasm/Instance.antt =====
-- `WasmMessagePackUDFInstance`: a call of a function of a WASM module, with its argument and its
-- result in the memory of the module.
use seafowl.Prelude.{ℕ, ◌+◌, String, Option, none, some, List, length, ltb, if◌then◌else◌}
use seafowl.Prelude.Integers.{ℤ, pos, negsuc, i32_of, to_bytes, of_bytes}
use seafowl.Wasm.Values.{
  no_export, linking, loading, instantiating, no_memory, reading_size, reading_output,
  decoding_output, serializing_input, negative_size, allocating, copying_size, copying_input,
  invoking_udf, deallocating_input, deallocating_output, Given, Result, ok, ◌>>=◌, or_error,
  or_missing, unwrap, MessagePack,
}

abbrev pub Bytes : Type 0
Bytes = List ℕ

-- The memory that a module exports: some bytes from an address, or bytes put there.
pub record Memory (Store : Type 0) : Type 0 where
  pub read : Store → ℕ → ℕ → Given Bytes
  pub write : Store → ℕ → Bytes → Given Store

-- wasmtime: a module is loaded and linked with WASI, and its exports are found by name and type.
pub record Wasmtime (Module Store : Type 0) : Type 0 where
  pub add_to_linker : Given (Unit {0})
  pub from_binary : Bytes → Given Module
  pub instantiate : Module → Given Store
  pub get_func_1 : Store → String → Given (Store → ℤ → Given (ℤ × Store))
  pub get_func_2 : Store → String → Given (Store → ℤ → ℤ → Given Store)
  pub get_memory : Store → String → Option (Memory Store)

pub record Instance (Store : Type 0) : Type 0 where
  pub store : Store
  pub alloc : Store → ℤ → Given (ℤ × Store)
  pub dealloc : Store → ℤ → ℤ → Given Store
  pub udf : Store → ℤ → Given (ℤ × Store)
  pub memory : Memory Store

abbrev pub size_byte_count : ℕ
size_byte_count = 4

-- `try_into().unwrap()` to a usize, and to an i32.
abbrev pub to_usize : ℤ → Option ℕ
to_usize (pos n) = some n
to_usize (negsuc n) = none

abbrev pub to_i32 : ℕ → Option ℤ
to_i32 n = if ltb n 2147483648 then some (pos n) else none

module _ {Module Store Value : Type 0} (wasmtime : Wasmtime Module Store) where
  -- `WasmMessagePackUDFInstance::new`
  unfoldable pub new_instance : Bytes → String → Result Value (Instance Store)
  new_instance module_bytes function_name = or_error wasmtime.add_to_linker linking >>= λ _.
      or_error (wasmtime.from_binary module_bytes) loading >>= λ module_.
      or_error (wasmtime.instantiate module_) instantiating >>= λ store.
      or_error (wasmtime.get_func_1 store "alloc") (no_export "alloc") >>= λ alloc.
      or_error (wasmtime.get_func_2 store "dealloc") (no_export "dealloc") >>= λ dealloc.
      or_error (wasmtime.get_func_1 store function_name) (no_export function_name) >>= λ udf.
      or_missing (wasmtime.get_memory store "memory") no_memory >>= λ memory.
      ok (record { store = store; alloc = alloc; dealloc = dealloc; udf = udf; memory = memory })

module _ {Store Value : Type 0} (mp : MessagePack Value) where
  -- The output and the size of its buffer, the size in front included.
  unfoldable pub read_udf_output : Instance Store → ℤ → Result Value (Value × ℤ)
  read_udf_output self udf_output_ptr = unwrap (to_usize udf_output_ptr) >>= λ ptr.
      or_error (self.memory.read self.store ptr size_byte_count) reading_size >>= λ size_buffer.
      (let size = i32_of (of_bytes size_buffer) in or_missing (to_usize size) (negative_size size))
      >>= λ size.
          or_error (self.memory.read self.store (ptr + size_byte_count) size) reading_output
          >>= λ output_buffer. or_error (mp.from_slice output_buffer) decoding_output >>= λ output.
              unwrap (to_i32 (size + size_byte_count)) >>= λ output_size. ok (output, output_size)

  -- The size is written as a usize, of eight bytes, of which the input overwrites the upper four.
  unfoldable pub write_udf_input : Instance Store → Value → Result Value ((ℤ × ℤ) × Instance Store)
  write_udf_input self input = or_error (mp.serialize input) serializing_input >>= λ udf_input_buf.
      unwrap (to_i32 (length udf_input_buf + size_byte_count)) >>= λ udf_input_size.
      or_error (self.alloc self.store udf_input_size) allocating >>= λ (udf_input_ptr, store).
      unwrap (to_usize udf_input_ptr) >>= λ ptr.
      or_error (self.memory.write store ptr (to_bytes 8 (length udf_input_buf))) copying_size
      >>= λ store.
          or_error (self.memory.write store (ptr + size_byte_count) udf_input_buf) copying_input
          >>= λ store. ok ((udf_input_ptr, udf_input_size), record self { store = store })

  unfoldable pub call : Instance Store → List Value → Result Value (Value × Instance Store)
  unfolding read_udf_output write_udf_input
  call self input =
      write_udf_input self (mp.of_array input) >>= λ ((udf_input_ptr, input_size), self).
      or_error (self.udf self.store udf_input_ptr) invoking_udf >>= λ (udf_output_ptr, store).
      (let self = record self { store = store } in
        read_udf_output self udf_output_ptr >>= λ (output, output_size).
        or_error (self.dealloc self.store udf_input_ptr input_size) deallocating_input >>= λ store.
        or_error (self.dealloc store udf_output_ptr output_size) deallocating_output >>= λ store.
        ok (output, record self { store = store }))
