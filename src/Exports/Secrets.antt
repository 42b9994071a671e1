-- ===== src/Exports/Secrets.antt =====
-- The memory of secrets: the end of `create_secret` and `free_secret` in src/secret.rs, and
-- src/exports/secret.rs.
mod Ranges
pub mod Lifetime
use duckdb_superhuman_docs.Base.{
  ℕ, Text, List, Bool, Option, none, some, Result, Error, codes, Exec, ◌==◌, if◌then◌else◌,
}
use duckdb_superhuman_docs.Json.{Serde}
use duckdb_superhuman_docs.Sdk.Calls.{Network}
use duckdb_superhuman_docs.Secret.{SecretInput, Secret, create_secret}
use duckdb_superhuman_docs.Memory.{Heap, Mem, Building, Ptr, map_each, vec_into_raw_parts, free_vec}
use duckdb_superhuman_docs.Memory.Owned.{seq, done}
use duckdb_superhuman_docs.Memory.Strings.{FfiString, alloc_string, free}
use duckdb_superhuman_docs.Ffi.Structs.{FfiNamedValue, FfiSecret}
use duckdb_superhuman_docs.Ffi.Blocks.{Block, strings_buffer, named_buffer, contents}
use duckdb_superhuman_docs.Mutation.Rows.{Waits}
use duckdb_superhuman_docs.Exports.{
  Body, Returns, onward, building, block_on_result, writes, ffi_bool,
}

module _ {N S : Type 0} where
  -- the entry of a credential, whose value has the type of a string
  unfoldable pub ffi_entry : Text × Text → Building (Block N S) FfiNamedValue
  unfolding alloc_string
  ffi_entry (name, credential) h =
      let (name', h₁) = alloc_string contents name h in
      let (value, h₂) = alloc_string contents credential h₁ in
      (record { name = name'; value_type = 5; string_value = value }, h₂)

  -- the strings of all the parts, and then the buffers of the three vectors
  unfoldable pub ffi_secret : Secret → Building (Block N S) FfiSecret
  unfolding map_each ffi_entry alloc_string vec_into_raw_parts
  ffi_secret secret h =
      let (entries, h₁) = map_each ffi_entry secret.entries h in
      let (scope, h₂) = map_each (alloc_string contents) secret.scope h₁ in
      let (keys, h₃) = map_each (alloc_string contents) secret.redact_keys h₂ in
      let (scope', h₄) = vec_into_raw_parts strings_buffer scope h₃ in
      let (entries', h₅) = vec_into_raw_parts named_buffer entries h₄ in
      let (keys', h₆) = vec_into_raw_parts strings_buffer keys h₅ in
      (record { scope = scope'; entries = entries'; redact_keys = keys' }, h₆)

  abbrev value_free : FfiNamedValue → Mem (Block N S) (Unit {0})
  value_free entry h = if entry.value_type == 5 then free contents entry.string_value h else done h

  unfoldable pub free_entry : FfiNamedValue → Mem (Block N S) (Unit {0})
  unfolding free
  free_entry entry = seq (free contents entry.name) (value_free entry)

  unfoldable pub free_secret : FfiSecret → Mem (Block N S) (Unit {0})
  unfolding free_vec free free_entry
  free_secret secret = seq (free_vec strings_buffer (free contents) secret.scope) (
      seq (free_vec named_buffer free_entry secret.entries)
        (free_vec strings_buffer (free contents) secret.redact_keys))

  unfoldable pub rust_ext_free_secret : FfiSecret → Mem (Block N S) (Unit {0})
  unfolding free_secret
  rust_ext_free_secret secret = free_secret secret

  module _ {F W : Type 0} (serde : Serde N F) (network : Network W F) (env_var : Text → Exec W Text)
      (runtime : Result (Unit {0})) (display : Error → Text) where
    secret_body : SecretInput F → Option FfiSecret → Body (Block N S) W (Option FfiSecret)
    unfolding writes block_on_result ffi_secret
    secret_body input out h w = writes out (
        onward
          (block_on_result runtime (λ w. some (create_secret serde network env_var input w)) h w)
          λ secret h w. building (ffi_secret secret) h w)

    unfoldable pub rust_ext_create_secret :
        SecretInput F
        → Option FfiSecret
        → Option FfiString
        → Heap (Block N S)
        → W
        → Returns (Block N S) W (Option FfiSecret)
    unfolding ffi_bool secret_body
    rust_ext_create_secret input out error h w =
        ffi_bool display (codes "failed to create extension secret") error (secret_body input out) h
          w
