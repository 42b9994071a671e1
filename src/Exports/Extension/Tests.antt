-- ===== src/Exports/Extension/Tests.antt =====
-- A host that refuses the secret, and the registration of the extension at it.
use duckdb_superhuman_docs.Base.{
  ℕ, ◌≡◌, refl, ◌+◌, Text, [], Bool, true, false, Option, none, some, Error, codes, host_message,
  missing_pointer,
}
use duckdb_superhuman_docs.Memory.{
  Heap, allocate, deallocate, vec_from_raw_parts, slice_from_raw_parts,
}
use duckdb_superhuman_docs.Memory.Utf8.{utf8_length, utf8_prefix, whole_chars}
use duckdb_superhuman_docs.Memory.Strings.{
  FfiString, empty_string, alloc_string, as_str, str_from_raw, free,
}
use duckdb_superhuman_docs.Ffi.Blocks.{Block, contents}
use duckdb_superhuman_docs.Exports.{Returns, ffi_bool, set_error, reported}
use duckdb_superhuman_docs.Exports.Extension.{
  DuckDbHost, Callback, host_callback_result, rust_ext_extension_load,
}

abbrev Bare : Type 0
Bare = Block ℕ (Unit {0})

abbrev display : Error → Text
display (host_message text) = text
display (missing_pointer name) = codes "missing"
display e = []

abbrev empty : Heap Bare
empty = record { next = 1; cell = λ x. none }

-- Whether a call of the host succeeds; a message is left where it does not.
abbrev answers : Bool → Callback Bare ℕ
answers true h calls = ((true, empty_string), h, calls + 1)
answers false h calls =
    let (text, h') = alloc_string contents (codes "no") h in ((false, text), h', calls + 1)

abbrev host : Bool → Bool → Bool → DuckDbHost Bare ℕ
host a b c = record {
  set_description = λ text. answers a;
  register_secret = λ r. answers b;
  register_storage_extension = λ name. answers c;
}

abbrev seen_error : Option FfiString → Heap Bare → Option Text
seen_error none h = none
seen_error (some message) h = as_str contents message h

-- The success of a registration, its message, and the number of the calls of the host.
abbrev summary : Returns Bare ℕ (Unit {0}) → Option (Bool × Option Text × ℕ)
summary none = none
summary (some (answer, h, calls)) = some (answer.success, seen_error answer.error h, calls)

load : Option (DuckDbHost Bare ℕ) → Option (Bool × Option Text × ℕ)
load host' = summary (rust_ext_extension_load display host' (some empty_string) empty 0)

loading : Unit {0}
unfolding load rust_ext_extension_load ffi_bool set_error reported host_callback_result alloc_string
    as_str str_from_raw free utf8_length utf8_prefix whole_chars allocate deallocate
    vec_from_raw_parts slice_from_raw_parts
loading = tt

registers : load (some (host true true true)) ≡ some (true, some [], 3)
unfolding loading
registers = refl

-- The calls end with the one that is refused.
refuses :
    load (some (host true false true))
    ≡ some (false, some (codes "failed to load Superhuman Docs extension: no"), 2)
unfolding loading
refuses = refl

without_host :
    load none ≡ some (false, some (codes "failed to load Superhuman Docs extension: missing"), 0)
unfolding loading
without_host = refl
