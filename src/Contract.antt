-- ===== src/Contract.antt =====
-- continuo_python_runtime/contract: the contract's model, its rules and its loader.
pub mod Value
pub mod Model
pub mod Types
pub mod SecretRef
pub mod CsvSource
pub mod Sql
pub mod Kinds
pub mod PrimaryKey
pub mod Config
pub mod Columns
pub mod Fields
pub mod Loader
