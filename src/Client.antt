-- ===== src/Client.antt =====
-- src/client.rs and its children: the table scan and the catalog.
pub mod Scan
pub mod Catalog
