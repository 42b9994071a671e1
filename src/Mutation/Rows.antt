-- ===== src/Mutation/Rows.antt =====
-- `insert_rows`, `update_rows` and `delete_rows` of src/mutation.rs. Each waits for its mutations,
-- on fuel as in `Mutation/Status.antt`: `none` means that a wait ran out of fuel.
pub mod Updates
mod Tests
use duckdb_superhuman_docs.Base.{
  ℕ, zero, suc, ◌+◌, ◌*◌, Text, List, [], ◌∷◌, Bool, true, false, Option, none, some, Result, ok,
  err, Error, is_empty, not, ◌&&◌, ◌==◌, length, if◌then◌else◌, update_column_mismatch,
  update_value_mismatch,
}
use duckdb_superhuman_docs.Json.{Serde}
use duckdb_superhuman_docs.Model.{ClientConfig, Table}
use duckdb_superhuman_docs.Ffi.{InputValue, WriteColumn}
use duckdb_superhuman_docs.Sdk.{sdk_client_new}
use duckdb_superhuman_docs.Sdk.Calls.{
  Call, SdkClient, Network, upsert_rows, update_row, delete_rows as delete_rows_call, RowsUpsert,
  RowUpdate,
}
use duckdb_superhuman_docs.Mutation.Payload.{insert_payload, update_payload, slice, usize}
use duckdb_superhuman_docs.Mutation.Status.{Clock, wait_for_mutation}

-- A computation that may wait.
abbrev pub Waits : Type 0 → Type 0 → Type 0
Waits W A = Option (Result A × W)

module _ {W A B : Type 0} where
  -- the operator `?`
  abbrev pub after : Waits W A → (A → W → Waits W B) → Waits W B
  after none f = none
  after (some (err e, w)) f = some (err e, w)
  after (some (ok a, w)) f = f a w

  -- `?` on a result that needs no world
  abbrev pub given : Result A → W → (A → Waits W B) → Waits W B
  given (err e) w f = some (err e, w)
  given (ok a) w f = f a

module _ {N F W : Type 0} (serde : Serde N F) (network : Network W F) (clock : Clock W) where
  module _ (fuel : ℕ) (config : ClientConfig) (table : Table) where
    -- `sdk.execute(…).await?`, then `wait_for_mutation(…).await?`
    pub send_and_wait : SdkClient W F → Call F → W → Waits W (Unit {0})
    send_and_wait sdk call w =
        after (some (sdk.execute call w))
          λ response w'. wait_for_mutation serde clock sdk fuel config response w'

    upsert_call : RowsUpsert F → Call F
    upsert_call payload = upsert_rows (record {
      doc_id = config.resource;
      table_id_or_name = table.id;
      disable_parsing = some false;
      payload = payload;
    })

    pub update_call : Text → RowUpdate F → Call F
    update_call row_id payload = update_row (record {
      doc_id = config.resource;
      table_id_or_name = table.id;
      row_id_or_name = row_id;
      disable_parsing = some false;
      payload = payload;
    })

    delete_call : List Text → Call F
    delete_call row_ids =
        delete_rows_call
          (record { doc_id = config.resource; table_id_or_name = table.id; row_ids = row_ids })

    pub insert_rows : List WriteColumn → List (InputValue F) → ℕ → ℕ → W → Waits W ℕ
    insert_rows columns values row_count value_column_count w =
        given (sdk_client_new network config) w λ sdk.
          given
            (insert_payload serde columns values row_count value_column_count table.capabilities) w
            λ payload.
              after (send_and_wait sdk (upsert_call payload) w) λ _ w'. some (ok row_count, w')

    -- the loop of `update_rows`, from `row_index` on
    update_from :
        SdkClient W F
        → List WriteColumn
        → List (InputValue F)
        → ℕ
        → List Text
        → W
        → Waits W (Unit {0})
    update_from sdk columns values row_index [] w = some (ok tt, w)
    update_from sdk columns values row_index (row_id ∷ row_ids) w =
        let start = usize (row_index * length columns) in
        given (slice values start (usize (start + length columns))) w λ part.
          given (update_payload serde columns part table.capabilities) w λ payload.
            after (send_and_wait sdk (update_call row_id payload) w)
              λ _ w'. update_from sdk columns values (suc row_index) row_ids w'

    pub update_rows : List Text → List WriteColumn → List (InputValue F) → W → Waits W ℕ
    update_rows row_ids columns values w =
        if is_empty columns && not (is_empty row_ids)
        then some (err update_column_mismatch, w)
        else if not (length values == usize (length row_ids * length columns))
        then some (err update_value_mismatch, w)
        else given (sdk_client_new network config) w λ sdk.
          after (update_from sdk columns values 0 row_ids w) λ _ w'. some (ok (length row_ids), w')

    pub delete_rows : List Text → W → Waits W ℕ
    delete_rows row_ids w =
        if is_empty row_ids
        then some (ok 0, w)
        else given (sdk_client_new network config) w λ sdk.
          after (send_and_wait sdk (delete_call row_ids) w) λ _ w'. some (ok (length row_ids), w')
