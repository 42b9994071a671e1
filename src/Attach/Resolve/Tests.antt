-- ===== src/Attach/Resolve/Tests.antt =====
-- An ATTACH of a raw document id, and the theorems about options and ATTACH at it.
use duckdb_superhuman_docs.Base.{
  ◌≡◌, refl, [], some, ok, err, codes, false, true, is_empty, arith, pure, env_message, one_of,
}
use duckdb_superhuman_docs.Base.Decimal.{to_string, parse_u64}
use duckdb_superhuman_docs.Samples.{sample_serde, sample_network, World, world}
use duckdb_superhuman_docs.Sdk.{normalize_api_base}
use duckdb_superhuman_docs.Attach.Options.{parse_mutation_timeout, parse_boolean_option}
use duckdb_superhuman_docs.Attach.Options.Timeout.{parse_mutation_timeout-to_string}
use duckdb_superhuman_docs.Attach.Resource.{strip_attach_resource_prefix, is_browser_url}
use duckdb_superhuman_docs.Attach.Resolve.{
  Host, RawOptions, Settings, AttachConfig, resolve_attach, resolve_options, settings, raw_options,
  owned_option, reply_text, resolve_resource, resolve_stored_credential, owned_secret,
  explicit_credential,
}
use duckdb_superhuman_docs.Attach.Resolve.Credentials.{
  attached, IsAttached, resolve_attach-IsAttached,
}

-- The host of an ATTACH without options; a secret is stored for the document.
abbrev host : Host World
host = record {
  get_option = λ name w. (record { success = true; value = []; message = [] }, w);
  lookup_secret = λ scope w. (record { success = true; value = codes "stored"; message = [] }, w);
  env_var = λ name w. (err (env_message (codes "not set")), w);
}

abbrev defaults : Settings
defaults = record {
  include_system_columns = false;
  wait_for_mutations = false;
  mutation_timeout_seconds = 60;
  allow_mutation_warnings = false;
}

abbrev expected : AttachConfig
expected = attached (codes "AbC") (codes "stored") (codes "https://api") defaults

attaching :
    resolve_attach (sample_serde []) sample_network (codes "coda:AbC") (some host) (world [])
    ≡ pure expected (world [])
unfolding resolve_attach raw_options owned_option reply_text resolve_options explicit_credential
    settings strip_attach_resource_prefix is_browser_url parse_boolean_option parse_mutation_timeout
    resolve_resource resolve_stored_credential owned_secret normalize_api_base
attaching = refl

resolve_attach-IsAttached_example : IsAttached expected
resolve_attach-IsAttached_example =
    resolve_attach-IsAttached (sample_serde []) sample_network (codes "coda:AbC") (some host)
      (world []) (world []) expected attaching

abbrev with_token : RawOptions
with_token = record {
  token = codes "t";
  token_env = [];
  endpoint = codes "https://api//";
  include_row_metadata = codes "TRUE";
  wait_for_mutations = codes "1";
  mutation_timeout_seconds = codes "5";
  allow_mutation_warnings = [];
}

abbrev waiting : Settings
waiting = record {
  include_system_columns = true;
  wait_for_mutations = true;
  mutation_timeout_seconds = 5;
  allow_mutation_warnings = false;
}

read_test : settings with_token ≡ ok waiting
unfolding settings parse_boolean_option parse_mutation_timeout one_of parse_u64
read_test = refl

stripped : strip_attach_resource_prefix (codes "AbC") ≡ codes "AbC"
unfolding strip_attach_resource_prefix
stripped = refl

raw_id :
    (is_empty (strip_attach_resource_prefix (codes "AbC")) ≡ false)
    × (is_browser_url (strip_attach_resource_prefix (codes "AbC")) ≡ false)
unfolding strip_attach_resource_prefix is_browser_url
raw_id = (refl, refl)

-- An ATTACH of a raw document id with a TOKEN asks the service for nothing.
raw_test :
    resolve_options host (sample_serde []) sample_network (codes "AbC") with_token (world [])
    ≡ pure
        (attached
          (strip_attach_resource_prefix (codes "AbC"))
          (codes "t")
          (normalize_api_base (codes "https://api//"))
          waiting)
        (world [])
unfolding resolve_options resolve_resource explicit_credential
raw_test = rw (read_test, raw_id.0, raw_id.1) refl

parse_mutation_timeout-to_string_example : parse_mutation_timeout (to_string 90) ≡ ok 90
parse_mutation_timeout-to_string_example =
    parse_mutation_timeout-to_string 90 (omega arith) (omega arith)
