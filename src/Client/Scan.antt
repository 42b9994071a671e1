-- ===== src/Client/Scan.antt =====
-- src/client/scan.rs: a scan reads a table page by page, then asks once for what changed since, and
-- hands on the rows that are not deleted. The loop of `next_batch` takes fuel, one unit a request;
-- `none` means that it ran out.
pub mod Requests
pub mod Batches
pub mod Rows
pub mod Drain
pub mod Tests
use duckdb_superhuman_docs.Base.{
  ℕ, zero, suc, ◌%◌, ◌^◌, min, Text, List, [], Bool, true, false, Option, none, some, Result, ok,
  err, Error, Exec, bind, try, and_then, keep, is_empty, not, ◌&&◌, ◌||◌, text_eq, codes,
  if◌then◌else◌, ◌==◌, unsupported_sort,
}
use duckdb_superhuman_docs.Json.{Serde}
use duckdb_superhuman_docs.Json.Rows.{rows_from_json}
use duckdb_superhuman_docs.Model.{ClientConfig, Table, Row, RowsRequest, RowsResponse}
use duckdb_superhuman_docs.Sdk.{non_empty_string, sdk_client_new}
use duckdb_superhuman_docs.Sdk.Calls.{
  SdkClient, Network, ListRowsInput, list_rows as list_rows_call, RowsSortBy, created_at, natural,
  updated_at, rich,
}

rows_sort_by : Text → Result (Option RowsSortBy)
rows_sort_by value =
    if is_empty value
    then ok none
    else if text_eq value (codes "createdAt")
    then ok (some created_at)
    else if text_eq value (codes "natural")
    then ok (some natural)
    else if text_eq value (codes "updatedAt")
    then ok (some updated_at)
    else err (unsupported_sort value)

-- the `ListRowsInput` of `list_rows`; `limit as i32` keeps the low 32 bits
rows_input : Text → Text → RowsRequest → Option RowsSortBy → ListRowsInput
rows_input doc_id table_id request sort_by = record {
  doc_id = doc_id;
  table_id_or_name = table_id;
  query = non_empty_string request.query;
  sort_by = sort_by;
  use_column_names = some false;
  value_format = some rich;
  visible_only = some false;
  limit = some (request.limit % 2 ^ 32);
  page_token = non_empty_string request.page_token;
  sync_token = non_empty_string request.sync_token;
}

module _ {N F W : Type 0} (serde : Serde N F) (sdk : SdkClient W F) where
  pub list_rows : Text → Text → RowsRequest → Exec W (RowsResponse N)
  unfolding rows_sort_by rows_input
  list_rows doc_id table_id request = try (rows_sort_by request.sort_by) λ sort_by.
      bind (sdk.execute (list_rows_call (rows_input doc_id table_id request sort_by)))
        λ body w. (rows_from_json serde body, w)

-- `RustExtScanRequest`
pub record ScanRequest : Type 0 where
  pub filter : Text
  pub order : Text
  pub limit : ℕ

pub record ScanHandle (W F : Type 0) : Type 0 where
  pub sdk : SdkClient W F
  pub doc_id : Text
  pub table_id : Text
  pub query : Text
  pub sort_by : Text
  pub limit : ℕ
  pub next_page_token : Text
  pub next_sync_token : Text
  pub sync_check_done : Bool
  pub finished : Bool

-- `RustExtScanBatch`, with the rows that its handles own
pub record ScanBatch (N : Type 0) : Type 0 where
  pub rows : List (Row N)
  pub finished : Bool

module _ {W F : Type 0} where
  unfoldable pub scan_new :
      Network W F → ClientConfig → Table → ScanRequest → Result (ScanHandle W F)
  scan_new network config table request = and_then (sdk_client_new network config) λ sdk.
      ok (record {
        sdk = sdk;
        doc_id = config.resource;
        table_id = table.id;
        query = request.filter;
        sort_by = request.order;
        limit = if request.limit == 0 then 500 else min request.limit 500;
        next_page_token = [];
        next_sync_token = [];
        sync_check_done = false;
        finished = false;
      })

  -- the test under which the request carries the sync token
  abbrev pub sync_due : ScanHandle W F → Bool
  sync_due h =
      is_empty h.next_page_token && not (is_empty h.next_sync_token) && not h.sync_check_done

  -- `self.request()`
  unfoldable pub request : ScanHandle W F → RowsRequest × ScanHandle W F
  request h = (
    record {
      page_token = h.next_page_token;
      query = h.query;
      sort_by = h.sort_by;
      sync_token = if sync_due h then h.next_sync_token else [];
      limit = h.limit;
    },
    if sync_due h then record h { sync_check_done = true } else h,
  )

  -- what a response changes in the handle
  receive : {N : Type 0} → ScanHandle W F → RowsResponse N → ScanHandle W F
  receive h response =
      let page = response.next_page_token in
      let sync = response.next_sync_token in
      record h {
        next_page_token = page;
        next_sync_token = sync;
        finished = h.finished || (is_empty page && (is_empty sync || h.sync_check_done));
      }

visible : {N : Type 0} → List (Row N) → List (Row N)
visible rows = keep (λ row. not row.deleted) rows

-- The state of a call of `next_batch`: a result, the handle as it was left, and the world.
abbrev pub Scanned : Type 0 → Type 0 → Type 0 → Type 0
Scanned A W F = Result A × ScanHandle W F × W

module _ {N F W : Type 0} (serde : Serde N F) where
  respond : ScanHandle W F → Result (RowsResponse N) × W → Scanned (List (Row N)) W F
  respond h (err e, w) = (err e, h, w)
  respond h (ok response, w) = (ok (visible response.rows), receive h response, w)

  -- one round of the loop: a request, and the visible rows of its response
  pub round : ScanHandle W F → W → Scanned (List (Row N)) W F
  unfolding request respond
  round h w =
      let (asked, h') = request h in
      respond h' (list_rows serde h'.sdk h'.doc_id h'.table_id asked w)

  -- the end of a round: a batch is returned, or the loop goes on
  abbrev settle :
      Scanned (List (Row N)) W F
      → (ScanHandle W F → W → Option (Scanned (ScanBatch N) W F))
      → Option (Scanned (ScanBatch N) W F)
  settle (err e, h, w) next = some (err e, h, w)
  settle (ok rows, h, w) next =
      if not (is_empty rows) || h.finished
      then some (ok (record { rows = rows; finished = h.finished }), h, w)
      else next h w

  pub next_batch : ℕ → ScanHandle W F → W → Option (Scanned (ScanBatch N) W F)
  next_batch zero h w = none
  next_batch (suc fuel) h w =
      if h.finished
      then some (ok (record { rows = []; finished = true }), h, w)
      else settle (round h w) (next_batch fuel)
