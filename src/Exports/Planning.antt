-- ===== src/Exports/Planning.antt =====
-- src/exports/scan_planning.rs: what of a query is left to the service.
use duckdb_superhuman_docs.Base.{
  Text, Bool, true, false, Option, none, some, Result, ok, err, Error, codes, if◌then◌else◌,
}
use duckdb_superhuman_docs.Json.{Serde}
use duckdb_superhuman_docs.Model.Capability.{
  has_capability, column_filter_equality, column_sort_asc,
}
use duckdb_superhuman_docs.Memory.{Heap, Ptr, and_maybe}
use duckdb_superhuman_docs.Memory.Strings.{FfiString, empty_string, alloc_string}
use duckdb_superhuman_docs.Ffi.{InputValue}
use duckdb_superhuman_docs.Ffi.Blocks.{Block, contents}
use duckdb_superhuman_docs.Mutation.Payload.{build_equality_query}
use duckdb_superhuman_docs.Exports.{Body, Returns, write_out, ffi_bool, column_from_handle}

-- the output pointers of the query and of its description
abbrev pub Outs : Type 0
Outs = Option FfiString × Option FfiString

-- `write_out(out_query, query)?`, then `write_out(out_description, description)?`
both_out : Outs → FfiString → FfiString → Outs × Result (Unit {0})
unfolding write_out
both_out (none, second) query description = ((none, second), (write_out none query).1)
both_out (some first, second) query description =
    let (second', r) = write_out second description in ((some query, second'), r)

module _ {N S : Type 0} where
  -- the result is whether the column may be sorted by and the pointer was not null
  unfoldable pub rust_ext_scan_sort_by :
      Ptr
      → Option FfiString
      → Heap (Block N S)
      → Option (Bool × Option FfiString × Heap (Block N S))
  unfolding column_from_handle alloc_string
  rust_ext_scan_sort_by column out h = and_maybe (column_from_handle column h) λ found. elim found [
    | err e ↦ some (false, out, h)
    | ok column' ↦
        if has_capability column'.capabilities column_sort_asc
        then (let (text, h') = alloc_string contents column'.id h in
            elim out [ none ↦ some (false, none, h') | some old ↦ some (true, some text, h') ])
        else elim out [
          | none ↦ some (false, none, h)
          | some old ↦ some (false, some empty_string, h)
        ]
  ]

  unfoldable pub rust_ext_scan_can_filter_equality : Ptr → Heap (Block N S) → Option Bool
  unfolding column_from_handle
  rust_ext_scan_can_filter_equality column h = and_maybe (column_from_handle column h) λ found.
      elim found [
        | err e ↦ some false
        | ok column' ↦ some (has_capability column'.capabilities column_filter_equality)
      ]

  module _ {F W : Type 0} (serde : Serde N F) (display : Error → Text) where
    equality_body : Ptr → InputValue F → Outs → Body (Block N S) W Outs
    unfolding column_from_handle alloc_string both_out
    equality_body column value outs h w = and_maybe (column_from_handle column h) λ found.
        elim found [
          | err e ↦ some ((outs, err e), h, w)
          | ok column' ↦ elim (build_equality_query serde column'.id column'.name value) [
            | err e ↦ some ((outs, err e), h, w)
            | ok texts ↦
                let (query, h₁) = alloc_string contents texts.0 h in
                let (description, h₂) = alloc_string contents texts.1 h₁ in
                some (both_out outs query description, h₂, w)
          ]
        ]

    unfoldable pub rust_ext_build_equality_query :
        Ptr
        → InputValue F
        → Outs
        → Option FfiString
        → Heap (Block N S)
        → W
        → Returns (Block N S) W Outs
    unfolding ffi_bool equality_body
    rust_ext_build_equality_query column value outs error h w =
        ffi_bool display (codes "failed to build Superhuman Docs equality query") error
          (equality_body column value outs) h w
