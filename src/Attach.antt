-- ===== src/Attach.antt =====
-- src/attach.rs and its children: from an ATTACH statement to a client configuration.
pub mod Resource
pub mod Options
pub mod Resolve
