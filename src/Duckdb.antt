-- ===== src/Duckdb.antt =====
-- The DuckDB adapter: adapters/duckdb/continuo_duckdb_adapter.
pub mod Retrying
pub mod Domain
pub mod Settings
pub mod Ddl
pub mod Layout
pub mod Session
pub mod Warehouse
