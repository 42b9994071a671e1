-- ===== src/Mutation.antt =====
-- src/mutation.rs and its children: writes to a table.
pub mod Status
pub mod Payload
pub mod Rows
