-- ===== src/Json/Catalog.antt =====
-- src/json/catalog.rs: tables and columns from the service's answers, their DuckDB types, and the
-- names under which DuckDB sees the columns.
pub mod Naming
pub mod Types
pub mod Tables
mod Tests
