-- ===== src/Mutation/Rows/Tests.antt =====
-- An update of two rows, one call each, and the theorem about updates at it.
use duckdb_superhuman_docs.Base.{
  ◌≡◌, ◌+◌, refl, Text, List, [], ◌∷◌, String, some, ok, codes, false, true, ℕ, arith, map, length,
}
use duckdb_superhuman_docs.Json.{Serde, pos, bool}
use duckdb_superhuman_docs.Samples.{
  sample_serde, sample_network, sample_config, World, world, obj, str,
}
use duckdb_superhuman_docs.Model.{Column, Table}
use duckdb_superhuman_docs.Ffi.{InputValue, WriteColumn}
use duckdb_superhuman_docs.Sdk.{sdk_client_new}
use duckdb_superhuman_docs.Mutation.Status.{Clock}
use duckdb_superhuman_docs.Mutation.Payload.Rows.{concat}
use duckdb_superhuman_docs.Mutation.Rows.{update_rows, given, after}
use duckdb_superhuman_docs.Mutation.Rows.Updates.{update_each, update_rows-each}

abbrev serde : Serde ℕ ℕ
serde = sample_serde (
    ("accepted", obj (("requestId", str "m") ∷ []))
    ∷ ("done", obj (("completed", bool true) ∷ []))
    ∷ [])

abbrev clock : Clock World
clock = record { now = λ w. (w.time, w); sleep = λ d w. record w { time = w.time + d } }

abbrev table : Table
table = record { id = codes "t1"; name = codes "T"; capabilities = 30 }

abbrev column : Column
column = record {
  id = codes "c1";
  name = codes "C";
  format_type = codes "text";
  duckdb_type = codes "VARCHAR";
  duckdb_type_alias = [];
  is_array = false;
  capabilities = 12;
}

abbrev columns : List WriteColumn
columns = record { handle = some column; capabilities = 12 } ∷ []

abbrev input : String → InputValue ℕ
input s = record {
  value_type = 5;
  bool_value = false;
  int_value = pos 0;
  uint_value = 0;
  double_value = 0;
  string_value = codes s;
}

abbrev rows : List (Text × List (InputValue ℕ))
rows = (codes "r1", input "a" ∷ []) ∷ (codes "r2", input "b" ∷ []) ∷ []

abbrev before : World
before = world ("accepted" ∷ "done" ∷ "accepted" ∷ "done" ∷ [])

update_rows-each_example :
    update_rows serde sample_network clock 3 sample_config table
      (map (λ row. row.0) rows)
      columns
      (concat (map (λ row. row.1) rows))
      before
    ≡ given (sdk_client_new sample_network sample_config) before λ sdk.
      after
        (update_each serde sample_network clock 3 sample_config table columns sdk rows before)
        λ _ w'. some (ok (length rows), w')
update_rows-each_example =
    update_rows-each serde sample_network clock 3 sample_config table columns rows before refl
      (refl, (refl, tt)) (omega arith)
