-- ===== src/Client/Scan/Tests.antt =====
-- A scan of two pages and a sync check, and the theorems about scans at it.
use duckdb_superhuman_docs.Base.{
  ℕ, Text, List, [], ◌∷◌, String, some, ok, err, json_message, ◌≡◌, refl, codes, true, false, ◌≤◌,
  arith, Bool,
}
use duckdb_superhuman_docs.Json.{Value, Serde, bool}
use duckdb_superhuman_docs.Json.Rows.{rows_from_json}
use duckdb_superhuman_docs.Json.Access.{get_array, get_str, get_bool, get_object}
use duckdb_superhuman_docs.Sdk.{sdk_client_new}
use duckdb_superhuman_docs.Model.{Table, Row, RowsRequest}
use duckdb_superhuman_docs.Samples.{
  read_known, sample_serde, obj, arr, str, World, world, answer, sample_sdk, sample_network,
  sample_config,
}
use duckdb_superhuman_docs.Client.Scan.{
  ScanHandle, ScanRequest, scan_new, next_batch, round, list_rows, respond, receive, visible,
  request,
}
use duckdb_superhuman_docs.Client.Scan.Rows.{Rounds, over, more}
use duckdb_superhuman_docs.Client.Scan.Drain.{drain, drain-Rounds}
use duckdb_superhuman_docs.Client.Scan.Batches.{IsBatch, next_batch-IsBatch}
use duckdb_superhuman_docs.Client.Scan.Requests.{
  IsTokened, request-IsTokened, sync_count, sync_requests-le_one, Requests, no_request, one_request,
  IsOpened, scan_new-IsOpened,
}

abbrev known : List (String × Value ℕ)
known =
    (
      "one",
      obj (
          (
            "items",
            arr (
                obj (("id", str "r1") ∷ [])
                ∷ obj (("id", str "r2") ∷ ("deleted", bool true) ∷ [])
                ∷ []),
          )
          ∷ ("nextPageToken", str "p")
          ∷ []),
    )
    ∷ (
      "two",
      obj (("items", arr (obj (("id", str "r3") ∷ []) ∷ [])) ∷ ("nextSyncToken", str "s") ∷ []),
    )
    ∷ ("sync", obj (("items", arr []) ∷ []))
    ∷ []

abbrev pub serde : Serde ℕ ℕ
serde = sample_serde known

abbrev pub start : World
start = world ("one" ∷ "two" ∷ "sync" ∷ [])

abbrev pub table : Table
table = record { id = codes "grid"; name = codes "Tasks"; capabilities = 30 }

abbrev pub asked : ScanRequest
asked = record { filter = []; order = codes "natural"; limit = 700 }

abbrev pub handle : Text → Text → Bool → Bool → ScanHandle World ℕ
handle page sync checked finished = record {
  sdk = sample_sdk;
  doc_id = codes "doc";
  table_id = codes "grid";
  query = [];
  sort_by = codes "natural";
  limit = 500;
  next_page_token = page;
  next_sync_token = sync;
  sync_check_done = checked;
  finished = finished;
}

abbrev pub row : String → Row ℕ
row id = record { id = codes id; created_at = []; updated_at = []; deleted = false; cells = [] }

scanning : Unit {0}
unfolding next_batch round list_rows respond receive visible request rows_from_json read_known
    answer get_array get_str get_bool get_object
scanning = tt

pub scan_new_test :
    scan_new sample_network sample_config table asked ≡ ok (handle [] [] false false)
unfolding scan_new sdk_client_new
scan_new_test = refl

first_round :
    round serde (handle [] [] false false) start
    ≡ (ok (row "r1" ∷ []), handle (codes "p") [] false false, world ("two" ∷ "sync" ∷ []))
unfolding scanning
first_round = refl

second_round :
    round serde (handle (codes "p") [] false false) (world ("two" ∷ "sync" ∷ []))
    ≡ (ok (row "r3" ∷ []), handle [] (codes "s") false false, world ("sync" ∷ []))
unfolding scanning
second_round = refl

third_round :
    round serde (handle [] (codes "s") false false) (world ("sync" ∷ []))
    ≡ (ok [], handle [] [] true true, world [])
unfolding scanning
third_round = refl

pub run :
    Rounds serde 3
      (handle [] [] false false)
      start
      (row "r1" ∷ row "r3" ∷ [])
      (handle [] [] true true)
      (world [])
run =
    more 2 (handle [] [] false false) (handle (codes "p") [] false false) (handle [] [] true true)
      start (world ("two" ∷ "sync" ∷ [])) (world []) (row "r1" ∷ []) (row "r3" ∷ []) refl
      first_round
      (more 1 (handle (codes "p") [] false false) (handle [] (codes "s") false false)
        (handle [] [] true true) (world ("two" ∷ "sync" ∷ [])) (world ("sync" ∷ [])) (world [])
        (row "r3" ∷ []) [] refl second_round
        (more 0 (handle [] (codes "s") false false) (handle [] [] true true)
          (handle [] [] true true) (world ("sync" ∷ [])) (world []) (world []) [] [] refl
          third_round (over (handle [] [] true true) (world []) refl)))

drain-Rounds_example :
    drain serde 4 4 (handle [] [] false false) start
    ≡ some (ok (row "r1" ∷ row "r3" ∷ []), handle [] [] true true, world [])
drain-Rounds_example =
    drain-Rounds serde 3 3 3 (handle [] [] false false) (handle [] [] true true) start (world [])
      (row "r1" ∷ row "r3" ∷ []) (omega arith) (omega arith) run

-- The request for the changes fails, and the handle is used again: it does not ask once more.
failed_round : round serde (handle [] (codes "s") false false) (world ("gone" ∷ "sync" ∷ [])) ≡ (
  err (json_message (codes "expected value")),
  handle [] (codes "s") true false,
  world ("sync" ∷ []),
)
unfolding scanning
failed_round = refl

last_round :
    round serde (handle [] (codes "s") true false) (world ("sync" ∷ []))
    ≡ (ok [], handle [] [] true true, world [])
unfolding scanning
last_round = refl

abbrev made : List RowsRequest
made =
    (request (handle [] (codes "s") false false)).0
    ∷ (request (handle [] (codes "s") true false)).0
    ∷ []

retried :
    Requests serde
      (handle [] (codes "s") false false)
      (world ("gone" ∷ "sync" ∷ []))
      made
      (handle [] [] true true)
      (world [])
retried =
    one_request (handle [] (codes "s") false false) (handle [] (codes "s") true false)
      (handle [] [] true true) (world ("gone" ∷ "sync" ∷ [])) (world ("sync" ∷ [])) (world [])
      (err (json_message (codes "expected value")))
      ((request (handle [] (codes "s") true false)).0 ∷ []) refl failed_round
      (one_request (handle [] (codes "s") true false) (handle [] [] true true)
        (handle [] [] true true) (world ("sync" ∷ [])) (world []) (world []) (ok []) [] refl
        last_round (no_request (handle [] [] true true) (world [])))

sync_requests-le_one_example : sync_count made ≤ 1
sync_requests-le_one_example = sync_requests-le_one serde retried

one_sync_request : sync_count made ≡ 1
unfolding scanning
one_sync_request = refl

request-IsTokened_example : IsTokened (handle [] (codes "s") false false)
request-IsTokened_example = request-IsTokened (handle [] (codes "s") false false)

scan_new-IsOpened_example : IsOpened sample_config table asked (handle [] [] false false)
scan_new-IsOpened_example =
    scan_new-IsOpened sample_network sample_config table asked (handle [] [] false false)
      scan_new_test

first_batch :
    next_batch serde 2 (handle [] [] false false) start
    ≡ some (
      ok (record { rows = row "r1" ∷ []; finished = false }),
      handle (codes "p") [] false false,
      world ("two" ∷ "sync" ∷ []),
    )
unfolding scanning
first_batch = refl

next_batch-IsBatch_example :
    IsBatch {W = World}
      (record { rows = row "r1" ∷ []; finished = false })
      (handle (codes "p") [] false false)
next_batch-IsBatch_example =
    next_batch-IsBatch serde 2 (handle [] [] false false) start
      (record { rows = row "r1" ∷ []; finished = false }) (handle (codes "p") [] false false)
      (world ("two" ∷ "sync" ∷ [])) first_batch
