-- ===== src/Secret/Tests.antt =====
-- A secret from an environment variable, and the theorem about secrets at it.
use duckdb_superhuman_docs.Base.{
  ◌≡◌, refl, Text, List, [], ◌∷◌, String, ok, err, codes, ℕ, Exec, pure, false, token_and_token_env,
}
use duckdb_superhuman_docs.Base.Ascii.{eq_ignore_ascii_case}
use duckdb_superhuman_docs.Json.{pos}
use duckdb_superhuman_docs.Ffi.{InputValue}
use duckdb_superhuman_docs.Sdk.Execution.{validate_token}
use duckdb_superhuman_docs.Samples.{sample_serde, sample_network, World, world, answer}
use duckdb_superhuman_docs.Secret.{
  SecretInput, Secret, create_secret, credential_from, entry_of, resolved, option_value, replace,
}
use duckdb_superhuman_docs.Secret.Created.{IsCreated, create_secret-IsCreated}

abbrev pub env_var : Text → Exec World Text
env_var name = pure (codes "secret")

abbrev pub input : String → InputValue ℕ
input s = record {
  value_type = 5;
  bool_value = false;
  int_value = pos 0;
  uint_value = 0;
  double_value = 0;
  string_value = codes s;
}

abbrev pub asked : List (Text × InputValue ℕ) → SecretInput ℕ
asked options = record { secret_type = codes "superhuman_docs"; scope = []; options = options }

abbrev pub expected : Secret
expected = record {
  scope = codes "superhuman_docs:" ∷ [];
  entries = (codes "token", codes "secret") ∷ [];
  redact_keys = codes "token" ∷ [];
}

pub created :
    create_secret
      (sample_serde [])
      sample_network
      env_var
      (asked ((codes "TOKEN_ENV", input "VAR") ∷ []))
      (world ("me" ∷ []))
    ≡ (ok expected, world [])
unfolding create_secret credential_from entry_of resolved option_value replace validate_token answer
    eq_ignore_ascii_case
created = refl

-- Two credentials are refused before the service is asked.
refused :
    create_secret
      (sample_serde [])
      sample_network
      env_var
      (asked ((codes "token", input "a") ∷ (codes "token_env", input "VAR") ∷ []))
      (world ("me" ∷ []))
    ≡ (err token_and_token_env, world ("me" ∷ []))
unfolding create_secret credential_from entry_of resolved option_value replace validate_token answer
    eq_ignore_ascii_case
refused = refl

create_secret-IsCreated_example :
    IsCreated
      (sample_serde [])
      sample_network
      env_var
      (asked ((codes "TOKEN_ENV", input "VAR") ∷ []))
      expected
create_secret-IsCreated_example =
    create_secret-IsCreated (sample_serde []) sample_network env_var
      (asked ((codes "TOKEN_ENV", input "VAR") ∷ [])) expected (world ("me" ∷ [])) (world [])
      created
