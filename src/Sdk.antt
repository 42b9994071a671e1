-- ===== src/Sdk.antt =====
-- src/sdk.rs: the client through which every component calls the service.
pub mod Calls
pub mod Execution
pub mod Fetch
pub mod Transport
use duckdb_superhuman_docs.Base.{
  Text, [], ◌∷◌, Option, none, some, Result, is_empty, if◌then◌else◌, trim_end_matches,
}
use duckdb_superhuman_docs.Model.{ClientConfig}
use duckdb_superhuman_docs.Sdk.Calls.{SdkClient, Network}

unfoldable pub normalize_api_base : Text → Text
unfolding trim_end_matches
normalize_api_base base = trim_end_matches b'/' base

unfoldable pub non_empty_string : Text → Option Text
non_empty_string [] = none
non_empty_string (c ∷ s) = some (c ∷ s)

module _ {W F : Type 0} (network : Network W F) where
  -- `SdkClient::new`
  unfoldable pub sdk_client_new : ClientConfig → Result (SdkClient W F)
  sdk_client_new config =
      let base_url =
        if is_empty config.endpoint then network.default_base_url else config.endpoint in
      network.at base_url config.credential
