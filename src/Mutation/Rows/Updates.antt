-- ===== src/Mutation/Rows/Updates.antt =====
-- An update sends one call for each row, with that row's own values.
use mathlib.Core.List.{append_assoc}
use duckdb_superhuman_docs.Base.{
  ℕ, suc, ◌+◌, ◌*◌, ◌^◌, ◌<◌, ◌≡◌, refl, ◌∙◌, Text, List, [], ◌∷◌, ◌++◌, map, true, false, some, ok,
  is_empty, ◌==◌, length, arith, length-append, length-map,
}
use duckdb_superhuman_docs.Json.{Serde}
use duckdb_superhuman_docs.Model.{ClientConfig, Table}
use duckdb_superhuman_docs.Ffi.{InputValue, WriteColumn}
use duckdb_superhuman_docs.Sdk.{sdk_client_new}
use duckdb_superhuman_docs.Sdk.Calls.{SdkClient, Network}
use duckdb_superhuman_docs.Mutation.Status.{Clock}
use duckdb_superhuman_docs.Mutation.Payload.{usize, slice, update_payload}
use duckdb_superhuman_docs.Mutation.Payload.Rows.{concat, HasWidth, slice-middle, length-concat}
use duckdb_superhuman_docs.Mutation.Rows.{
  Waits, after, given, send_and_wait, update_call, update_from, update_rows,
}

module _ {N F W : Type 0} (serde : Serde N F) (network : Network W F) (clock : Clock W) where
  module _ (fuel : ℕ) (config : ClientConfig) (table : Table) (columns : List WriteColumn) where
    -- The update of one row after the other, each a row id with its own values.
    pub update_each : SdkClient W F → List (Text × List (InputValue F)) → W → Waits W (Unit {0})
    update_each sdk [] w = some (ok tt, w)
    update_each sdk ((row_id, values) ∷ rows) w =
        given (update_payload serde columns values table.capabilities) w λ payload.
          after
            (send_and_wait serde network clock fuel config table sdk
              (update_call serde network clock fuel config table row_id payload) w)
            λ _ w'. update_each sdk rows w'

    abbrev ids : List (Text × List (InputValue F)) → List Text
    ids rows = map (λ row. row.0) rows

    abbrev values_of : List (Text × List (InputValue F)) → List (List (InputValue F))
    values_of rows = map (λ row. row.1) rows

    update_from-step :
        (sdk : SdkClient W F) (values part : List (InputValue F)) (index : ℕ) (row_id : Text)
        (row_ids : List Text) (w : W)
        → slice values
            (usize (index * length columns))
            (usize (usize (index * length columns) + length columns))
          ≡ ok part
        → update_from serde network clock fuel config table sdk columns values index
            (row_id ∷ row_ids)
            w
          ≡ given (update_payload serde columns part table.capabilities) w λ payload.
            after
              (send_and_wait serde network clock fuel config table sdk
                (update_call serde network clock fuel config table row_id payload)
                w)
              λ _ w'.
                update_from serde network clock fuel config table sdk columns values
                  (suc index)
                  row_ids
                  w'
    unfolding update_from
    update_from-step sdk values part index row_id row_ids w e = rw e

    update_from-each :
        (sdk : SdkClient W F) (before : List (InputValue F)) (index : ℕ)
        (rows : List (Text × List (InputValue F))) (w : W)
        → length before ≡ index * length columns
        → HasWidth (length columns) (values_of rows)
        → length before + length (concat (values_of rows)) < 2 ^ 64
        → update_from serde network clock fuel config table sdk columns
            (before ++ concat (values_of rows))
            index
            (ids rows)
            w
          ≡ update_each sdk rows w
    unfolding update_each
    update_from-each sdk before index [] w e h fits = unfold update_from in refl
    update_from-each sdk before index ((row_id, row) ∷ rows) w e (width, h) fits =
        let later = concat (values_of rows) in
        let tail = length-append row later in
        let front = length-append before row in
        let start : usize (index * length columns) ≡ length before = omega (arith, e, tail) in
        let stop : usize (length before + length columns) ≡ length before + length row =
          omega (arith, width, tail) in
        let next : length (before ++ row) ≡ suc index * length columns =
          grind (arith, front, e, width) in
        let part : slice (before ++ (row ++ later)) (usize (index * length columns))
              (usize (usize (index * length columns) + length columns))
            ≡ ok row =
          rw (start, stop) (slice-middle before row later) in
        let shift : (before ++ row) ++ later ≡ before ++ (row ++ later) =
          append_assoc before row later in
        let bound : length (before ++ row) + length later < 2 ^ 64 = omega (arith, front, tail) in
        let rest : (v : W)
            → update_from serde network clock fuel config table sdk columns
                (before ++ (row ++ later)) (suc index) (ids rows) v
              ≡ update_each sdk rows v =
          λ v. rw shift at (update_from-each sdk (before ++ row) (suc index) rows v next h bound) in
        update_from-step sdk (before ++ (row ++ later)) row index row_id (ids rows) w part ∙ λ i.
        given (update_payload serde columns row table.capabilities) w λ payload.
          after
            (send_and_wait serde network clock fuel config table sdk
              (update_call serde network clock fuel config table row_id payload) w)
            λ _ w'. rest w' i

    -- An update of several rows is the update of each with its own values, in order, up to the first
    -- that fails; no row's values reach another row. The number of values must fit a `usize`, and a
    -- row must have a column to be updated.
    pub update_rows-each :
        (rows : List (Text × List (InputValue F))) (w : W)
        → is_empty columns ≡ false
        → HasWidth (length columns) (map (λ row. row.1) rows)
        → length rows * length columns < 2 ^ 64
        → update_rows serde network clock fuel config table
            (map (λ row. row.0) rows)
            columns
            (concat (map (λ row. row.1) rows))
            w
          ≡ given
              (sdk_client_new network config)
              w
              λ sdk. after (update_each sdk rows w) λ _ w'. some (ok (length rows), w')
    unfolding update_rows
    update_rows-each rows w some_column h fits =
        let values = concat (values_of rows) in
        let many : length (ids rows) ≡ length rows = length-map (λ row. row.0) rows in
        let width_of = length-concat (length columns) (values_of rows) h in
        let count : length (values_of rows) ≡ length rows = length-map (λ row. row.1) rows in
        let total : length values ≡ length rows * length columns = rw (← count) width_of in
        let whole : usize (length rows * length columns) ≡ length rows * length columns =
          omega arith in
        let same : (length rows * length columns == length rows * length columns) ≡ true =
          ground arith in
        let read = λ (sdk : SdkClient W F).
          update_from-each sdk [] 0 rows w (omega arith) h (omega (arith, total)) in
        rw (some_column, many, whole, total, same)
          (λ i.
            given (sdk_client_new network config) w
              λ sdk. after (read sdk i) λ _ w'. some (ok (length rows), w'))
