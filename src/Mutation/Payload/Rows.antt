-- ===== src/Mutation/Payload/Rows.antt =====
-- The flat buffer of values is read row by row.
use mathlib.Core.List.{append_assoc}
use duckdb_superhuman_docs.Base.{
  ℕ, zero, suc, ◌+◌, ◌*◌, ◌-◌, ◌^◌, ◌≤◌, ◌<◌, ◌≡◌, refl, sym, ap, ◌∙◌, List, [], ◌∷◌, ◌++◌, true,
  false, none, ok, and_then, collect, and_then-eq-ok, ok-injective, Bool-cases, inl, inr, ◌||◌, ltb,
  leb, length, arith, All, length-append, drop-append, take-append, err-ne-ok,
}
use duckdb_superhuman_docs.Json.{Serde}
use duckdb_superhuman_docs.Model.Capability.{has_capability, table_insert}
use duckdb_superhuman_docs.Ffi.{InputValue, WriteColumn}
use duckdb_superhuman_docs.Sdk.Calls.{RowEdit, RowsUpsert}
use duckdb_superhuman_docs.Mutation.Payload.{write_cells, slice, insert_from, insert_payload, usize}

-- The rows one behind the other.
abbrev pub concat {ℓ} : {A : Type ℓ} → List (List A) → List A
concat [] = []
concat (xs ∷ xss) = xs ++ concat xss

module _ {F : Type 0} where
  abbrev pub HasWidth : ℕ → List (List (InputValue F)) → Type 0
  HasWidth width rows = All (λ row. length row ≡ width) rows

  pub length-concat :
      (width : ℕ) (rows : List (List (InputValue F)))
      → HasWidth width rows
      → length (concat rows) ≡ length rows * width
  length-concat width [] h = omega arith
  length-concat width (row ∷ rows) (e, h) =
      let tail = length-concat width rows h in
      let whole = length-append row (concat rows) in grind (arith, tail, whole, e)

le-leb : (a b : ℕ) → a ≤ b → leb a b ≡ true
le-leb a b h = ground arith

pub slice-middle :
    {A : Type 0} (before part after : List A)
    → slice (before ++ (part ++ after)) (length before) (length before + length part) ≡ ok part
unfolding slice
slice-middle before part after =
    let whole = length-append before (part ++ after) in
    let tail = length-append part after in
    let lower : length before ≤ length before + length part = omega arith in
    let upper : length before + length part ≤ length (before ++ (part ++ after)) =
      omega (arith, whole, tail) in
    let middle : length before + length part - length before ≡ length part = omega arith in
    rw (le-leb _ _ lower, le-leb _ _ upper, drop-append, middle, take-append)

module _ {N F : Type 0} (serde : Serde N F) (columns : List WriteColumn) (width : ℕ) where
  insert_from-step :
      (values part : List (InputValue F)) (index remaining : ℕ)
      → slice values (usize (index * width)) (usize (usize (index * width) + width)) ≡ ok part
      → insert_from serde columns values width index (suc remaining)
        ≡ and_then (write_cells serde columns part true) λ row.
          and_then
            (insert_from serde columns values width (suc index) remaining)
            λ rows. ok (row ∷ rows)
  unfolding insert_from
  insert_from-step values part index remaining e = rw e

  insert_from-rows :
      (before : List (InputValue F)) (index : ℕ) (rows : List (List (InputValue F)))
      → length before ≡ index * width
      → HasWidth width rows
      → length before + length (concat rows) < 2 ^ 64
      → insert_from serde columns (before ++ concat rows) width index (length rows)
        ≡ collect (λ row. write_cells serde columns row true) rows
  insert_from-rows before index [] e h fits = unfold insert_from in refl
  insert_from-rows before index (row ∷ rows) e (w, h) fits =
      let tail = length-append row (concat rows) in
      let front = length-append before row in
      let start : usize (index * width) ≡ length before = omega (arith, e, tail) in
      let stop : usize (length before + width) ≡ length before + length row =
        omega (arith, w, tail) in
      let next : length (before ++ row) ≡ suc index * width = grind (arith, front, e, w) in
      let part : slice (before ++ (row ++ concat rows)) (usize (index * width))
            (usize (usize (index * width) + width))
          ≡ ok row =
        rw (start, stop) (slice-middle before row (concat rows)) in
      let shift : (before ++ row) ++ concat rows ≡ before ++ (row ++ concat rows) =
        append_assoc before row (concat rows) in
      let later =
        insert_from-rows (before ++ row) (suc index) rows next h (omega (arith, front, tail)) in
      insert_from-step (before ++ (row ++ concat rows)) row index (length rows) part
      ∙ simp (rw shift at later)

  -- The rows of an insertion are the values cut into rows of the given width, each written for
  -- itself and all in order; the first row that cannot be written is the error. The table must
  -- allow insertion, the rows must be wide enough for the columns, and the number of values must
  -- fit a `usize`: then no product wraps and no slice is out of range.
  pub insert_payload-rows :
      (rows : List (List (InputValue F))) (capabilities : ℕ)
      → has_capability capabilities table_insert ≡ true
      → length columns ≤ width
      → HasWidth width rows
      → length rows * width < 2 ^ 64
      → insert_payload serde columns (concat rows) (length rows) width capabilities
        ≡ and_then
            (collect (λ row. write_cells serde columns row true) rows)
            (λ written. ok (record { rows = written; key_columns = none }))
  unfolding insert_payload
  insert_payload-rows rows capabilities allowed wide h fits =
      let total = length-concat width rows h in
      let narrow : ltb width (length columns) ≡ false = ground arith in
      let count : usize (length rows * width) ≡ length rows * width = omega arith in
      let enough : ltb (length (concat rows)) (length rows * width) ≡ false =
        ground (arith, total) in
      let read = insert_from-rows [] 0 rows (omega arith) h (omega (arith, total)) in
      rw (allowed, narrow, count, enough, read)

  length-insert_from :
      (values : List (InputValue F)) (index remaining : ℕ) (rows : List (RowEdit F))
      → insert_from serde columns values width index remaining ≡ ok rows
      → length rows ≡ remaining
  unfolding insert_from
  length-insert_from values index zero rows h = ap length (sym (ok-injective h))
  length-insert_from values index (suc remaining) rows h =
      let (part, _, h₁) = and_then-eq-ok (slice values _ _) _ h in
      let (row, _, h₂) = and_then-eq-ok (write_cells serde columns part true) _ h₁ in
      let (rest, read, h₃) =
        and_then-eq-ok (insert_from serde columns values width (suc index) remaining) _ h₂ in
      ap length (sym (ok-injective h₃))
      ∙ ap suc (length-insert_from values (suc index) remaining rest read)

  -- An insertion that is accepted has the requested number of rows, for a table that allows it, and
  -- names no key columns, so it never updates a row.
  pub insert_payload-accepted :
      (values : List (InputValue F)) (row_count capabilities : ℕ) (payload : RowsUpsert F)
      → insert_payload serde columns values row_count width capabilities ≡ ok payload
      → (length payload.rows ≡ row_count)
        × (payload.key_columns ≡ none)
        × (has_capability capabilities table_insert ≡ true)
        × (length columns ≤ width)
  unfolding insert_payload
  insert_payload-accepted values row_count capabilities payload h =
      elim (Bool-cases (has_capability capabilities table_insert)) [
        | inr no' ↦ absurd (err-ne-ok (rw no' at h))
        | inl yes' ↦
            let wide = ltb width (length columns) in
            let short = ltb (length values) (usize (row_count * width)) in
            elim (Bool-cases (wide || short)) [
              | inl bad ↦ absurd (err-ne-ok (rw (yes', bad) at h))
              | inr good ↦
                  let (rows, read, made) =
                    and_then-eq-ok (insert_from serde columns values width 0 row_count) _
                      (rw (yes', good) at h) in
                  rw (← ok-injective made)
                    (length-insert_from values 0 row_count rows read, refl, yes', ground arith)
            ]
      ]
