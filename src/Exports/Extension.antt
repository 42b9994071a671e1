-- ===== src/Exports/Extension.antt =====
-- src/exports/extension.rs: the registration of the extension, and ATTACH. What the DuckDB host does
-- is a parameter; its messages are strings in the shared heap.
pub mod Lifetime
mod Tests
use duckdb_superhuman_docs.Base.{
  Text, List, [], ◌∷◌, String, Bool, Option, none, some, Result, ok, err, Error, codes, is_empty,
  if◌then◌else◌, host_message, missing_pointer,
}
use duckdb_superhuman_docs.Json.{Serde}
use duckdb_superhuman_docs.Sdk.Calls.{Network}
use duckdb_superhuman_docs.Memory.{
  Heap, Building, Ptr, static_ptr, config_resource, and_maybe, into_raw,
}
use duckdb_superhuman_docs.Memory.Strings.{FfiString, as_str, free, borrow_string, c_static_string}
use duckdb_superhuman_docs.Ffi.Structs.{FfiAttachConfig}
use duckdb_superhuman_docs.Ffi.Blocks.{Block, inside, contents, config_box}
use duckdb_superhuman_docs.Attach.Resolve.{AttachConfig, Host, resolve_attach}
use duckdb_superhuman_docs.Exports.{
  Act, Body, Returns, onward, building, block_on_result, writes, ffi_bool,
}
use duckdb_superhuman_docs.Exports.Metadata.{nul_terminated, extension_name, c_static}

abbrev pub extension_description : Text
extension_description =
    nul_terminated "DuckDB extension for reading and writing Superhuman Docs documents"

abbrev pub secret_type : Text
secret_type = nul_terminated "superhuman_docs"

abbrev pub secret_provider : Text
secret_provider = nul_terminated "config"

abbrev pub token_option : Text
token_option = nul_terminated "token"

abbrev pub token_env_option : Text
token_env_option = nul_terminated "token_env"

-- `RustExtSecretParameter`
pub record FfiSecretParameter : Type 0 where
  pub name : FfiString
  pub logical_type : FfiString

-- `RustExtSecretRegistration`, with its parameters as a list
pub record FfiSecretRegistration : Type 0 where
  pub secret_type : FfiString
  pub provider : FfiString
  pub extension : FfiString
  pub parameters : List FfiSecretParameter

-- What a callback of the host returns, the message that it left, and the memory.
abbrev pub Callback : Type 0 → Type 0 → Type 0
Callback B W = Heap B → W → (Bool × FfiString) × Heap B × W

-- `RustExtDuckDbHost` with its loader
pub record DuckDbHost (B W : Type 0) : Type 0 where
  pub set_description : Ptr → Callback B W
  pub register_secret : FfiSecretRegistration → Callback B W
  pub register_storage_extension : Ptr → Callback B W

abbrev varchar : FfiString
varchar = record { ptr = static_ptr (codes "VARCHAR"); len = 7 }

-- the registration of the secret with its two parameters
unfoldable pub registration : FfiSecretRegistration
unfolding c_static_string
registration = record {
  secret_type = c_static_string secret_type;
  provider = c_static_string secret_provider;
  extension = c_static_string extension_name;
  parameters =
      record { name = c_static_string token_option; logical_type = varchar }
      ∷ record { name = c_static_string token_env_option; logical_type = varchar }
      ∷ [];
}

module _ {N S : Type 0} where
  -- the box of the configuration, and the name that is borrowed from it
  unfoldable pub ffi_attach : AttachConfig → Building (Block N S) FfiAttachConfig
  unfolding into_raw borrow_string
  ffi_attach attach h =
      let (handle, h') = into_raw config_box attach.handle h in
      (
        record {
          handle = handle;
          database_name = borrow_string (inside handle config_resource) attach.database_name;
        },
        h',
      )

module _ {N S W : Type 0} where
  -- `host_callback_result`, which reads and frees the message
  unfoldable pub host_callback_result :
      String
      → (Bool × FfiString) × Heap (Block N S) × W
      → Option (Result (Unit {0}) × Heap (Block N S) × W)
  unfolding as_str free
  host_callback_result fallback ((success, message), h, w) =
      and_maybe (as_str contents message h) λ text. and_maybe (free contents message h) λ freed.
        some (
          if success
              then ok tt
              else if is_empty text
              then err (host_message (codes fallback))
              else err (host_message text),
          freed.1,
          w,
        )

  load_steps : DuckDbHost (Block N S) W → Act (Block N S) W (Unit {0})
  unfolding host_callback_result registration
  load_steps host h w =
      onward
        (host_callback_result "failed to set extension description"
          (host.set_description (c_static extension_description) h w))
        λ done h w.
          onward
            (host_callback_result "failed to register config secret"
              (host.register_secret registration h w))
            λ done h w.
              onward
                (host_callback_result "failed to register storage extension"
                  (host.register_storage_extension (c_static extension_name) h w))
                λ done h w. some (ok tt, h, w)

  -- `RustExtDuckDbHost::from_ptr(host)?` and the registrations
  registering : Option (DuckDbHost (Block N S) W) → Body (Block N S) W (Unit {0})
  unfolding load_steps
  registering none h w = some ((tt, err (missing_pointer (codes "DuckDB host"))), h, w)
  registering (some host) h w = and_maybe (load_steps host h w) λ r. some ((tt, r.0), r.1, r.2)

  module _ (display : Error → Text) where
    unfoldable pub rust_ext_extension_load :
        Option (DuckDbHost (Block N S) W)
        → Option FfiString
        → Heap (Block N S)
        → W
        → Returns (Block N S) W (Unit {0})
    unfolding ffi_bool registering
    rust_ext_extension_load host error h w =
        ffi_bool display (codes "failed to load Superhuman Docs extension") error (registering host)
          h w

    unfoldable pub rust_ext_resolve_attach :
        {F : Type 0}
        → Serde N F
        → Network W F
        → Result (Unit {0})
        → Text
        → Option (Host W)
        → Option FfiAttachConfig
        → Option FfiString
        → Heap (Block N S)
        → W
        → Returns (Block N S) W (Option FfiAttachConfig)
    unfolding ffi_bool writes block_on_result ffi_attach
    rust_ext_resolve_attach serde network runtime path host out error h w =
        ffi_bool display (codes "failed to resolve Superhuman Docs attach config") error
          (λ h w. writes out (
            onward
              (block_on_result runtime (λ w. some (resolve_attach serde network path host w)) h w)
              λ attach h w. building (ffi_attach attach) h w))
          h w
