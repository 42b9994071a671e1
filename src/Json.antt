-- ===== src/Json.antt =====
-- JSON values as `serde_json::Value` presents them, with the accessors that the source calls.
-- The parser, the printer and the number type are serde_json's, so they are parameters.
mod Values
pub mod Access
pub mod Catalog
pub mod Rows
pub mod Handles
pub use Values.*
