-- ===== src/Secret.antt =====
-- src/secret.rs: a DuckDB secret of type `superhuman_docs`. The environment is a parameter; the
-- memory of secrets is in Exports/Secrets.antt, and the fields of the input that are not read are
-- left out.
pub mod Created
pub mod Tests
use duckdb_superhuman_docs.Base.{
  ℕ, Text, List, [], ◌∷◌, Bool, Option, none, some, Result, ok, err, Exec, codes, is_empty, not,
  text_eq, ◌==◌, if◌then◌else◌, ◌>>=◌, ◌>>◌, lift, pure, raise, require, token_and_token_env,
  null_secret_option, unknown_secret_type, unknown_parameter,
}
use duckdb_superhuman_docs.Base.Decimal.{to_string}
use duckdb_superhuman_docs.Base.Ascii.{eq_ignore_ascii_case}
use duckdb_superhuman_docs.Json.{Serde}
use duckdb_superhuman_docs.Ffi.{InputValue}
use duckdb_superhuman_docs.Sdk.Calls.{Network}
use duckdb_superhuman_docs.Sdk.Execution.{validate_token}
use duckdb_superhuman_docs.Mutation.Payload.{i64_text, bool_text}
use duckdb_superhuman_docs.Attach.Resolve.{secret_scope_prefix}

abbrev pub secret_type_name : Text
secret_type_name = codes "superhuman_docs"

-- `RustExtSecretCreateInput`: its type, its scopes and its options
pub record SecretInput (F : Type 0) : Type 0 where
  pub secret_type : Text
  pub scope : List Text
  pub options : List (Text × InputValue F)

-- `RustExtSecretCreateResult`; each entry is a named text
pub record Secret : Type 0 where
  pub scope : List Text
  pub entries : List (Text × Text)
  pub redact_keys : List Text

-- `input.scope`, or the general scope
abbrev pub scopes : List Text → List Text
scopes [] = secret_scope_prefix ∷ []
scopes (scope ∷ rest) = scope ∷ rest

-- `credential.replace(resolved)`, an error where there was a credential
replace : Option Text → Text → Result (Option Text)
replace none resolved = ok (some resolved)
replace (some credential) resolved = err token_and_token_env

module _ {N F W : Type 0} (serde : Serde N F) (network : Network W F)
    (env_var : Text → Exec W Text) where
  option_value : InputValue F → Result Text
  option_value value =
      if value.value_type == 1
      then ok (bool_text value.bool_value)
      else if value.value_type == 2
      then ok (i64_text value.int_value)
      else if value.value_type == 3
      then ok (to_string value.uint_value)
      else if value.value_type == 4
      then ok (serde.float_text value.double_value)
      else if value.value_type == 5
      then ok value.string_value
      else err null_secret_option

  -- what an option of the given name gives
  resolved : Text → Text → Text → Exec W Text
  resolved secret_type name value =
      if eq_ignore_ascii_case name (codes "token")
      then pure value
      else if eq_ignore_ascii_case name (codes "token_env")
      then env_var value
      else raise (unknown_parameter secret_type name)

  -- the loop over the options, with the credential so far
  credential_from : Text → Option Text → List (Text × InputValue F) → Exec W (Option Text)
  credential_from secret_type credential [] = pure credential
  credential_from secret_type credential ((name, value) ∷ options) = do
    text ← lift (option_value value)
    found ← resolved secret_type name text
    credential' ← lift (replace credential found)
    credential_from secret_type credential' options

  -- the entry of a credential, which the service has to accept
  entry_of : Option Text → Exec W (List (Text × Text))
  entry_of none = pure []
  entry_of (some credential) = do
    _ ← validate_token network credential
    pure ((codes "token", credential) ∷ [])

  pub create_secret : SecretInput F → Exec W Secret
  create_secret input = do
    require (text_eq input.secret_type secret_type_name) (unknown_secret_type input.secret_type)
    credential ← credential_from input.secret_type none input.options
    entries ← entry_of credential
    pure
        (record { scope = scopes input.scope; entries = entries; redact_keys = codes "token" ∷ [] })
