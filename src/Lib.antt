-- ===== src/Lib.antt =====
-- The Rust extension duckdb-superhuman-docs, which attaches Superhuman Docs (Coda) documents to
-- DuckDB, as antt definitions.
--
-- The program's parts. DuckDB calls the exported functions (src/exports), which check pointers, call
-- the parts below and hand out memory.
--   * The memory that is shared with DuckDB (src/ffi/runtime.rs, src/ffi.rs): Memory.antt is a heap of
--     blocks with boxes, vectors and pointers; Memory/Utf8.antt and Memory/Strings.antt are
--     `RustExtString` over the bytes of a text; Memory/Owned.antt, Memory/Build.antt and
--     Memory/Vectors.antt say what it is to hold and to build a value in the heap. Ffi/Structs.antt
--     has the structs, Ffi/Blocks.antt what a block can be.
--   * Handles (src/json/ffi.rs): Json/Handles.antt, with Json/Handles/Lifetime.antt on what can be
--     read through them.
--   * The exported functions (src/exports): Exports.antt has `ffi_bool`, `write_out` and
--     `block_on_result`; Exports/Scan.antt, Exports/Values.antt, Exports/Client.antt,
--     Exports/Secrets.antt, Exports/Strings.antt, Exports/Extension.antt, Exports/Planning.antt and
--     Exports/Metadata.antt the functions; Exports/Session.antt is a client's loop over a scan.
--   * ATTACH (src/attach.rs, src/attach/host.rs, src/attach/resource.rs): options and secrets of the
--     host become a client configuration. Attach/Resource.antt reads prefixes, browser URLs and
--     resolved links, Attach/Options.antt the options' texts, and Attach/Resolve.antt is
--     `resolve_attach`. The host's callbacks and the environment are the parameter `Host`.
--   * The catalog (src/client/catalog.rs, src/json/catalog.rs): Client/Catalog.antt has the two loops
--     over pages, Json/Catalog/Tables.antt reads a page, Json/Catalog/Types.antt gives the DuckDB
--     types, and Json/Catalog/Naming.antt is `prepare_columns`.
--   * The scan (src/client/scan.rs, src/json/rows.rs): Client/Scan.antt is `ScanHandle` with
--     `request` and `next_batch`; Json/Rows.antt is `rows_from_json`.
--     Scan.antt is `scan_value` of src/scan.rs, which turns a cell into a value.
--   * The mutations (src/mutation.rs, src/mutation/payload.rs, src/mutation/status.rs):
--     Mutation/Payload.antt builds what is sent, Mutation/Status.antt polls for completion, and
--     Mutation/Rows.antt is `insert_rows`, `update_rows` and `delete_rows`.
--   * The service client (src/sdk.rs, src/sdk/transport.rs): Sdk/Calls.antt lists the calls that the
--     parts make, with the interface `SdkClient` that they use; Sdk/Execution.antt is
--     `SdkClient::execute` over the transport's state, and its `client` fills the interface.
--   * The browser's fetch (src/sdk/transport/fetch.rs): Sdk/Fetch.antt is the future and its callback
--     as a state machine, with one step for each use of a lock and the steps in any order.
--     Sdk/Transport.antt is what the native transport sends (src/sdk/transport.rs), and Platform.antt
--     the polling loop for Emscripten (src/platform.rs).
--   * Secrets (src/secret.rs): Secret.antt is `create_secret`.
--   * Records and values (src/model.rs, src/ffi.rs): Model.antt, Model/Capability.antt and Ffi.antt.
-- Base.antt and its children are the shared notation: texts as lists of code points, results with one
-- constructor for each message, decimal numbers, ASCII case. Json/Values.antt is `serde_json::Value`,
-- and Json/Access.antt its accessors.
--
-- State is passed explicitly: a computation `Exec W A` goes from a world `W` to a result and a world.
-- The world, the network, the clock, serde_json's parser and printer, and arithmetic on `f64` are
-- parameters (`Network`, `Clock`, `Polling`, `Serde`, `Sdk`), for code that is not in this repository.
--
-- Loops that end only by the service's answers (`next_batch`, `load_columns`, `load_catalog`,
-- `poll_mutation_status`) take fuel and return `none` when it runs out. For the pages of columns,
-- one unit for each request is enough, and for a batch of a scan one more than its requests; for the
-- polling of a mutation, on a clock that moves in its sleeps, one for each interval in the timeout
-- and one more. The search of
-- `prepare_columns` has fuel for one more name than there are earlier columns, which always suffices.
-- `usize` is 64 bits wide, and products and sums on it are written modulo 2^64.
--
-- An address of the heap names one allocation and is never used again; a call that Rust leaves
-- undefined is `none`, so that a theorem that such a call returns says that it is defined. What `none`
-- means else is fuel that ran out. The messages of errors in words are the parameter `display`, what
-- building the async runtime gave is the parameter `runtime`. A panic is the error that a slice out of
-- range gives; `ffi_bool` reports it as the source does where panics unwind. The build for release
-- aborts instead. Not modelled are the panic of `Vec::with_capacity` in `insert_payload` for a row count
-- whose rows do not fit the address space, and the wrap-around of the 32-bit suffix of
-- `prepare_columns`.
--
-- Not modelled: the C++ side, the async runtime, the locks of the HTTP transport, the
-- HTTP client, the reading of the messages that the host of ATTACH returns, and the SDK's own code,
-- which are other projects' or only pass calls on.
pub mod Base
pub mod Json
pub mod Model
pub mod Memory
pub mod Ffi
pub mod Sdk
pub mod Scan
pub mod Mutation
pub mod Client
pub mod Attach
pub mod Secret
pub mod Platform
pub mod Exports
pub mod Samples
