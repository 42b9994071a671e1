-- ===== src/Exports/Tests.antt =====
-- Memory in which there is a box, and the theorems about the exported functions at it.
use duckdb_superhuman_docs.Base.{
  ℕ, ◌+◌, ◌≡◌, refl, Text, [], ◌∷◌, ◌++◌, map, Bool, true, false, none, some, ok, err, Error, codes,
  ◌==◌, if◌then◌else◌, no_response, arith,
}
use duckdb_superhuman_docs.Model.{Column}
use duckdb_superhuman_docs.Samples.{sample_serde, sample_network, sample_config, World, world}
use duckdb_superhuman_docs.Memory.{Heap, null_ptr, block_ptr, set, static_ptr, slice_from_raw_parts}
use duckdb_superhuman_docs.Memory.Owned.{within, IsReleased}
use duckdb_superhuman_docs.Memory.Build.{IsBuilt}
use duckdb_superhuman_docs.Memory.Strings.{FfiString, empty_string, as_str, str_from_raw}
use duckdb_superhuman_docs.Ffi.Structs.{FfiCatalog, FfiSecret}
use duckdb_superhuman_docs.Ffi.Blocks.{Block, config_block, row_block, contents, table_block}
use duckdb_superhuman_docs.Json.Handles.Lifetime.{see_catalog, table_seen, row_seen}
use duckdb_superhuman_docs.Client.Scan.Drain.{drain-Rounds}
use duckdb_superhuman_docs.Client.Scan.Tests.{
  serde, start, handle, row, run, table, asked, scan_new_test,
}
use duckdb_superhuman_docs.Client.Catalog.Tests as Catalogs
use duckdb_superhuman_docs.Secret.Tests as Secrets
use duckdb_superhuman_docs.Scan.{scan_value}
use duckdb_superhuman_docs.Mutation.Status.{Clock}
use duckdb_superhuman_docs.Exports.{Body, ffi_bool, reported, returned, failed}
use duckdb_superhuman_docs.Exports.Strings.{rust_ext_free_error, ffi_bool-IsBuilt}
use duckdb_superhuman_docs.Exports.Scan.{
  ScanBlock, FfiScanRequest, scan_request, rust_ext_scan_open,
}
use duckdb_superhuman_docs.Exports.Session.{read_scan, read_rows}
use duckdb_superhuman_docs.Exports.Session.Opened.{IsUnchanged, open_scan-drain}
use duckdb_superhuman_docs.Memory.Utf8.{utf8_prefix, utf8_length, whole_chars}
use duckdb_superhuman_docs.Exports.Client.{
  rust_ext_client_load_catalog, rust_ext_free_catalog, load_catalog-IsBuilt,
}
use duckdb_superhuman_docs.Exports.Values.{ffi_scan_value, rust_ext_free_scan_value}
use duckdb_superhuman_docs.Exports.Values.Lifetime.{see_value, value_seen, ffi_scan_value-lem}
use duckdb_superhuman_docs.Exports.Secrets.{rust_ext_create_secret, rust_ext_free_secret}
use duckdb_superhuman_docs.Exports.Secrets.Lifetime.{see_secret, create_secret-IsBuilt}

-- the heap with one block
abbrev holding : {B : Type 0} → B → Heap B
holding content = record { next = 2; cell = λ x. if x == 1 then some content else none }

abbrev display : Error → Text
display e = codes "message"

-- the heap with a configuration and a table
abbrev attached : Heap (ScanBlock ℕ ℕ World)
attached = record {
  next = 3;
  cell = λ x.
      if x == 1
      then some (config_block sample_config)
      else if x == 2
      then some (table_block table)
      else none;
}

abbrev natural_order : FfiScanRequest
natural_order = record {
  filter = empty_string;
  order = record { ptr = static_ptr (codes "natural"); len = 7 };
  limit = 700;
}

asked_natural : scan_request natural_order attached ≡ some asked
unfolding scan_request as_str str_from_raw slice_from_raw_parts utf8_prefix utf8_length whole_chars
asked_natural = refl

open_scan-drain_example :
    (scan : Heap (ScanBlock ℕ ℕ World)) × (h' : Heap (ScanBlock ℕ ℕ World)) × (rust_ext_scan_open
        display sample_network
        (block_ptr 1)
        (block_ptr 2)
        natural_order
        (some null_ptr)
        none
        attached
        start
      ≡ returned (some (block_ptr 3)) none scan start)
    × (read_scan serde display 4 4 (block_ptr 3) scan start
        ≡ read_rows (map row_seen (row "r1" ∷ row "r3" ∷ [])) h' (world []))
    × IsUnchanged attached h'
open_scan-drain_example =
    open_scan-drain display sample_network 1 2 sample_config table natural_order asked
      (handle [] [] false false) none attached start refl refl asked_natural scan_new_test serde 4 4
      (handle [] [] true true) (world []) (row "r1" ∷ row "r3" ∷ [])
      (drain-Rounds serde 3 3 3 (handle [] [] false false) (handle [] [] true true) start (world [])
        (row "r1" ∷ row "r3" ∷ []) (omega arith) (omega arith) run)

abbrev clock : Clock World
clock = record { now = λ w. (w.time, w); sleep = λ n w. record w { time = w.time + n } }

abbrev configured : Heap (Block ℕ (Unit {0}))
configured = holding (config_block sample_config)

abbrev no_catalog : FfiCatalog
no_catalog = record { tables = (null_ptr, 0) }

load_catalog-IsBuilt_example :
    (catalog : FfiCatalog) × (h' : Heap (Block ℕ (Unit {0}))) × (rust_ext_client_load_catalog
        Catalogs.serde sample_network clock
        (ok tt)
        display
        2
        2
        (block_ptr 1)
        (some no_catalog)
        (some empty_string)
        configured
        (world ("tables" ∷ "page 1" ∷ "page 2" ∷ []))
      ≡ returned (some catalog) (some empty_string) h' (world []))
    × IsBuilt
        (see_catalog catalog)
        (rust_ext_free_catalog catalog)
        (map table_seen Catalogs.catalog)
        configured
        h'
load_catalog-IsBuilt_example =
    load_catalog-IsBuilt Catalogs.serde sample_network clock (ok tt) display 2 2 1 sample_config
      no_catalog (some empty_string) configured (world ("tables" ∷ "page 1" ∷ "page 2" ∷ []))
      (world []) Catalogs.catalog refl refl Catalogs.loading

abbrev empty_heap : Heap (Block ℕ (Unit {0}))
empty_heap = record { next = 1; cell = λ x. none }

abbrev no_secret : FfiSecret
no_secret = record { scope = (null_ptr, 0); entries = (null_ptr, 0); redact_keys = (null_ptr, 0) }

create_secret-IsBuilt_example :
    (built : FfiSecret) × (h' : Heap (Block ℕ (Unit {0}))) × (rust_ext_create_secret
        (sample_serde [])
        sample_network
        Secrets.env_var
        (ok tt)
        display
        (Secrets.asked ((codes "TOKEN_ENV", Secrets.input "VAR") ∷ []))
        (some no_secret)
        none
        empty_heap
        (world ("me" ∷ []))
      ≡ returned (some built) none h' (world []))
    × IsBuilt (see_secret built) (rust_ext_free_secret built) Secrets.expected empty_heap h'
create_secret-IsBuilt_example =
    create_secret-IsBuilt (sample_serde []) sample_network Secrets.env_var (ok tt) display
      (Secrets.asked ((codes "TOKEN_ENV", Secrets.input "VAR") ∷ [])) no_secret none empty_heap
      (world ("me" ∷ [])) (world []) Secrets.expected refl Secrets.created

-- A body without a response.
abbrev unanswered : Body (Block ℕ (Unit {0})) World ℕ
unanswered h w = some ((7, err no_response), h, w)

ffi_bool-IsBuilt_example :
    (message : FfiString) × (h'' : Heap (Block ℕ (Unit {0}))) × (ffi_bool display
        (codes "failed")
        (some empty_string)
        unanswered
        empty_heap
        (world [])
      ≡ failed 7 (some message) h'' (world []))
    × IsBuilt
        (as_str contents message)
        (rust_ext_free_error message)
        (codes "failed" ++ codes ": " ++ reported display no_response)
        empty_heap
        h''
ffi_bool-IsBuilt_example =
    ffi_bool-IsBuilt display (codes "failed") empty_string unanswered empty_heap empty_heap
      (world []) (world []) 7 no_response refl

abbrev with_row : Heap (Block ℕ (Unit {0}))
with_row = holding (row_block (row "r1"))

abbrev time_column : Column
time_column = record {
  id = codes "createdAt";
  name = codes "createdAt";
  format_type = [];
  duckdb_type = codes "TIMESTAMPTZ";
  duckdb_type_alias = [];
  is_array = false;
  capabilities = 19;
}

abbrev with_value : Heap (Block ℕ (Unit {0}))
with_value =
    let h = (ffi_scan_value serde time_column (block_ptr 1) (row "r1") with_row).1 in
    record h { cell = set 1 (some (row_block (row "r1"))) h.cell }

abbrev value_blocks : ℕ → Bool
value_blocks = within 2 (ffi_scan_value serde time_column (block_ptr 1) (row "r1") with_row).1.next

ffi_scan_value-lem_example :
    (see_value (ffi_scan_value serde time_column (block_ptr 1) (row "r1") with_row).0 with_value
      ≡ some (value_seen (scan_value serde time_column (row "r1"))))
    × IsReleased value_blocks
        (rust_ext_free_scan_value
          (ffi_scan_value serde time_column (block_ptr 1) (row "r1") with_row).0)
        with_value
ffi_scan_value-lem_example =
    ffi_scan_value-lem serde time_column (row "r1") 1 with_row with_value refl
      (λ x own. let other : (x == 1) ≡ false = ground arith in rw other refl)
