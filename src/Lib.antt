-- ===== src/Lib.antt =====
-- Verification of parts of Seafowl, an analytical database over object storage.
--
-- Auth models src/auth.rs: an access policy (`AccessPolicy`), the principal that a request's token
-- stands for (`token_to_principal`), and what that principal may do (`can_perform_action`). The
-- hash of a password, `str_to_hex_hash`, is a parameter. Auth/Tokens has the theorems on tokens,
-- Auth/Access those on the two steps together.
--
-- Cache models the read path of src/object_store/cache.rs. Cache/Key has the keys and values of the
-- cache and the file names, Cache/Store the state of `CachingObjectStore` (the entries, the files,
-- the spawned tasks that have not finished, the counters) and the interfaces of the two parts that
-- are not in the repository: the moka cache, which may drop an entry whenever it likes, and the
-- inner object store, which may fail any request. Cache/Fetch has the operations, `write_file`,
-- `read_file`, `on_evict`, `get_range_inner`, `get_chunk_range`, `cache_chunk_data` and
-- `get_range`. Between two chunks of a request other tasks run, each as one step: which ones is an
-- argument, a `Turn` for each chunk. A disk write may fail, and may leave a broken file; the
-- theorems take it that none does, and that the hash has no collision among the objects asked for.
-- Cache/Fetch/Sound has the invariant, Cache/Fetch/Loop the loop over the chunks, Cache/Fetch/Range
-- the request, and Cache/Fetch/PastEnd what happens past the end of an object.
--
-- Sync models src/frontend/flight/sync/writer.rs, which keeps the changes that are replicated into
-- tables in memory until they are flushed. Sync/Writer has the state of `SeafowlDataSyncWriter` and
-- `enqueue_sync`; its index maps are association lists in insertion order (Prelude/Map). Record
-- batches, their sizes and `squash_batches` are the interface `Batches`. Sync/Writer/Flush has
-- `flush`, `flush_ready`, `flush_syncs`, `skip_syncs` and `advance_durable`; how the work on the
-- Delta table ends (an answer, an error or a panic) is an argument, a `Storage`, so the query plan
-- of a flush and the files it writes are not modelled. The loop of `flush` runs on fuel, and one
-- more than the number of collections is enough, since each round removes one.
-- Sync/Writer/Invariant has the bookkeeping that the operations keep, and the modules below
-- Sync/Writer/Flush the theorems on a flush.
--
-- Sync/Schema models src/frontend/flight/sync/schema.rs: the descriptors and fields of a message
-- (clade/proto/sync.proto has the roles), and `SyncSchema::try_new`. Sync/Squash models
-- `squash_batches` of src/frontend/flight/sync/utils.rs, which makes a chain of changes of one row a
-- single change: Sync/Squash has the loop over the rows, by row ids, and Sync/Squash/Batch what is
-- done before and after it. Sync/Squash/Meaning says what changes mean for a table from keys to
-- values, one after the other and all at once; Step, Round, Start and Final compare the two. Cells,
-- keys made of cells and the joining of batches are interfaces of arrow. Sync/Prune models
-- `get_prune_map` of that file, which finds the files of a table that a flush has to read; the
-- kernels of arrow are the interface `Kernels`. `construct_qualifier` is not modelled.
--
-- Pushdown models datafusion_remote_tables/src/filter_pushdown.rs, which turns a filter into SQL
-- for a remote source. Pushdown has expressions and the interface of DataFusion, and
-- Pushdown/Visitor the converters of the sources, `f_down`, `f_up` and `filter_expr_to_sql`, over a
-- stack of texts. Pushdown/Printer is a printer without a stack, which Pushdown/Walk compares;
-- Pushdown/Shipped has the errors, Pushdown/Quotes the quoting and Pushdown/Clashes filters that
-- are shipped alike.
--
-- Options models object_store_factory/src: Options/Aws, Options/Google and Options/Local have the
-- configs of the stores, the maps they are read from and written to, and how options are parsed and
-- completed, and Options/Factory the construction of stores (lib.rs). A hash map is an association
-- list. What the crates object_store and url do is the interface `Crates`, and the environment is an
-- argument. Options/Keys has the loops that both clouds share.
--
-- Http models src/frontend/http.rs and src/frontend/http_utils.rs, with is_read_only,
-- is_statement_read_only and create_logical_plan of src/context/logical.rs. A handler is a function
-- from the history of what was done (plans that were made, files that were handed to tables) to an
-- outcome and a history. Http/Errors has the errors and their responses, Http/Query the endpoint
-- for all queries and the header, Http/Cached the endpoint for cached reads, Http/Upload the
-- upload, and Http/Routes the routes and rejections of `filters`. The planner, the executor, the
-- parser of SQL and what the crates decode are the record `SeafowlContext` and the record
-- `UploadTools`. The parser, the planner, the executor and `file_to_table` may fail or panic; that
-- panic is told apart from a failed unwrap of the handler's own. Http/Safety, Http/Reading and
-- Http/Appending have the theorems on the handlers, Http/Revalidation those on tags, Http/Gate and
-- Http/Refusal those on all routes.
--
-- Wasm models src/wasm_udf/wasm.rs and the types of src/wasm_udf/data_types.rs. Wasm/Types has the
-- types and their tables, Wasm/Values the arrays, their nulls and errors, Wasm/Encode and
-- Wasm/Decode the coding of slots as MessagePack values, Wasm/Instance the call of a module's
-- function through its memory, and Wasm/Scalar the functions on columns and their creation.
-- wasmtime, rmpv and rmp_serde are the records `Wasmtime`, `PlainWasmtime` and `MessagePack`; what
-- they document is in `MemoryLaws` and `Faithful`. A float is its bits, and the bits of an i128
-- stand for it; sums wrap.
--
-- Numbers are natural numbers. The clock is an argument and does not run backwards; metrics of the
-- writer, logging and time measurements are left out. Not modelled are the catalog and its SQL, query
-- planning, the Flight and Postgres frontends and the configuration, which mostly call libraries, and
-- the object store over HTTP.
pub mod Prelude
pub mod Auth
pub mod Cache
pub mod Sync
pub mod Pushdown
pub mod Options
pub mod Http
pub mod Wasm
