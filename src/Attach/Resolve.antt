-- ===== src/Attach/Resolve.antt =====
-- `resolve_attach` of src/attach.rs with src/attach/host.rs. What DuckDB does (options, secrets) and
-- the environment variables are a parameter; releasing the strings that the host returns is not
-- modelled.
pub mod Checks
pub mod Credentials
mod Tests
use duckdb_superhuman_docs.Base.{
  ℕ, [], Text, String, Bool, true, false, Option, none, some, Error, Result, ok, err, Exec, codes,
  is_empty, not, ◌&&◌, ◌||◌, ◌++◌, if◌then◌else◌, ◌>>=◌, ◌>>◌, lift, require, pure, raise, and_then,
  host_message, token_and_token_env, empty_doc_id, timeout_requires_wait, warnings_require_wait,
  missing_url_credential, missing_credential,
}
use duckdb_superhuman_docs.Json.{Serde}
use duckdb_superhuman_docs.Model.{ClientConfig}
use duckdb_superhuman_docs.Ffi.{ref_from_raw}
use duckdb_superhuman_docs.Sdk.{normalize_api_base}
use duckdb_superhuman_docs.Sdk.Calls.{Network, SdkClient, resolve_browser_link}
use duckdb_superhuman_docs.Attach.Options.{parse_boolean_option, parse_mutation_timeout}
use duckdb_superhuman_docs.Attach.Resource.{
  strip_attach_resource_prefix, is_browser_url, doc_id_from_browser_url, doc_id_from_resolved_link,
}

-- What a callback of the host returns: whether it succeeded, its value, its message.
pub record Reply : Type 0 where
  pub success : Bool
  pub value : Text
  pub message : Text

-- `RustExtAttachHost` with its userdata, and `std::env::var`
pub record Host (W : Type 0) : Type 0 where
  pub get_option : String → W → Reply × W
  pub lookup_secret : Text → W → Reply × W
  pub env_var : Text → Exec W Text

abbrev pub secret_scope_prefix : Text
secret_scope_prefix = codes "superhuman_docs:"

-- the seven options, as the host gives them
pub record RawOptions : Type 0 where
  pub token : Text
  pub token_env : Text
  pub endpoint : Text
  pub include_row_metadata : Text
  pub wait_for_mutations : Text
  pub mutation_timeout_seconds : Text
  pub allow_mutation_warnings : Text

pub record Settings : Type 0 where
  pub include_system_columns : Bool
  pub wait_for_mutations : Bool
  pub mutation_timeout_seconds : ℕ
  pub allow_mutation_warnings : Bool

-- `RustExtAttachConfig`, with the configuration that its handle owns
pub record AttachConfig : Type 0 where
  pub handle : ClientConfig
  pub database_name : Text

reply_text : String → Reply → Result Text
reply_text fallback reply =
    if reply.success
    then ok reply.value
    else err (host_message (if is_empty reply.message then codes fallback else reply.message))

-- the checks on the options that have to do with mutations
pub settings : RawOptions → Result Settings
settings raw =
    and_then (parse_boolean_option "INCLUDE_ROW_METADATA" raw.include_row_metadata false) λ include.
      and_then (parse_boolean_option "WAIT_FOR_MUTATIONS" raw.wait_for_mutations false) λ wait.
        if not wait && not (is_empty raw.mutation_timeout_seconds)
        then err timeout_requires_wait
        else if not wait && not (is_empty raw.allow_mutation_warnings)
        then err warnings_require_wait
        else (and_then (parse_mutation_timeout raw.mutation_timeout_seconds) λ timeout.
            and_then
              (parse_boolean_option "ALLOW_MUTATION_WARNINGS" raw.allow_mutation_warnings false)
              λ allow. ok (record {
                include_system_columns = include;
                wait_for_mutations = wait;
                mutation_timeout_seconds = timeout;
                allow_mutation_warnings = allow;
              }))

module _ {W : Type 0} (host : Host W) where
  owned_option : String → Exec W Text
  owned_option name w =
      let (reply, w') = host.get_option name w in (reply_text "host attach option failed" reply, w')

  owned_secret : Text → Exec W Text
  owned_secret scope w =
      let (reply, w') = host.lookup_secret scope w in
      (reply_text "host secret lookup failed" reply, w')

  raw_options : Exec W RawOptions
  raw_options = do
    token ← owned_option "token"
    token_env ← owned_option "token_env"
    endpoint ← owned_option "api_base"
    include_row_metadata ← owned_option "include_row_metadata"
    wait_for_mutations ← owned_option "wait_for_mutations"
    mutation_timeout_seconds ← owned_option "mutation_timeout_seconds"
    allow_mutation_warnings ← owned_option "allow_mutation_warnings"
    pure (record {
      token = token;
      token_env = token_env;
      endpoint = endpoint;
      include_row_metadata = include_row_metadata;
      wait_for_mutations = wait_for_mutations;
      mutation_timeout_seconds = mutation_timeout_seconds;
      allow_mutation_warnings = allow_mutation_warnings;
    })

  -- the token itself, or the variable that TOKEN_ENV names
  explicit_credential : RawOptions → Exec W Text
  explicit_credential raw =
      if is_empty raw.token_env then pure raw.token else host.env_var raw.token_env

  -- the general secret, for which `missing` is the error where there is none
  general_secret : Error → Exec W Text
  general_secret missing = do
    general ← owned_secret secret_scope_prefix
    if is_empty general then raise missing else pure general

  -- the secret whose scope is the resource, or the general one
  resolve_stored_credential : Text → Exec W Text
  resolve_stored_credential resource = do
    value ← owned_secret (secret_scope_prefix ++ resource)
    if is_empty value then general_secret missing_credential else pure value

  -- the secret of the document that the URL names, if it names one
  scoped_secret : Option Text → Exec W Text
  scoped_secret none = pure []
  scoped_secret (some doc_id) = owned_secret (secret_scope_prefix ++ doc_id)

  bootstrap_credential : Text → Text → Exec W Text
  bootstrap_credential browser_url explicit = if not (is_empty explicit) then pure explicit else do
    scoped ← scoped_secret (doc_id_from_browser_url browser_url)
    if not (is_empty scoped) then pure scoped else general_secret missing_url_credential

  -- the credential for the document that the URL turned out to name
  canonical_credential : Text → Text → Text → Exec W Text
  canonical_credential explicit bootstrap doc_id =
      if is_empty explicit
      then (do
        canonical ← owned_secret (secret_scope_prefix ++ doc_id)
        pure (if is_empty canonical then bootstrap else canonical))
      else pure bootstrap

  module _ {N F : Type 0} (serde : Serde N F) (network : Network W F) where
    resolve_browser_url : Text → Text → Text → Exec W (Text × Text)
    resolve_browser_url browser_url explicit endpoint = do
      bootstrap ← bootstrap_credential browser_url explicit
      sdk ← lift (network.at endpoint bootstrap)
      body ← sdk.execute (resolve_browser_link browser_url (some false))
      doc_id ← lift (doc_id_from_resolved_link serde body)
      credential ← canonical_credential explicit bootstrap doc_id
      pure (doc_id, credential)

    -- the resource and the credential
    resolve_resource : Text → Text → Text → Exec W (Text × Text)
    resolve_resource input_resource explicit endpoint =
        if is_browser_url input_resource
        then resolve_browser_url input_resource explicit endpoint
        else (do
          credential ←
              if is_empty explicit then resolve_stored_credential input_resource else pure explicit
          pure (input_resource, credential))

    -- what follows the reading of the options
    pub resolve_options : Text → RawOptions → Exec W AttachConfig
    resolve_options path raw = do
      require (is_empty raw.token || is_empty raw.token_env) token_and_token_env
      explicit ← explicit_credential raw
      let input_resource = strip_attach_resource_prefix path
      require (not (is_empty input_resource)) empty_doc_id
      s ← lift (settings raw)
      let endpoint =
          normalize_api_base
            (if is_empty raw.endpoint then network.default_base_url else raw.endpoint)
      (resource, credential) ← resolve_resource input_resource explicit endpoint
      pure (record {
        handle = record {
          resource = resource;
          credential = credential;
          endpoint = endpoint;
          include_system_columns = s.include_system_columns;
          wait_for_mutations = s.wait_for_mutations;
          mutation_timeout_seconds = s.mutation_timeout_seconds;
          allow_mutation_warnings = s.allow_mutation_warnings;
        };
        database_name = resource;
      })

-- `resolve_attach`; the host is a pointer, which may be null
pub resolve_attach :
    {N F W : Type 0} → Serde N F → Network W F → Text → Option (Host W) → Exec W AttachConfig
resolve_attach serde network path host = do
  h ← lift (ref_from_raw host "attach host")
  raw ← raw_options h
  resolve_options h serde network path raw
