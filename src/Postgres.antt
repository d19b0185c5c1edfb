-- ===== src/Postgres.antt =====
-- The Postgres adapter: adapters/postgres/continuo_postgres_adapter/adapter.py.
pub mod Identifiers
pub mod Indexes
