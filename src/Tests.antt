-- ===== src/Tests.antt =====
-- Concrete contracts and runs.
mod Closures
mod Contracts
mod Databases
mod Lakes
mod Runs
mod Validations
mod CsvSources
mod Sources
mod Wire
mod Connections
mod Statements
