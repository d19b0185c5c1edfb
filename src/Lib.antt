-- ===== src/Lib.antt =====
-- The continuo python runtime: the harness that runs one node of a data contract, and what it
-- stands on. Paths are from the repository's root.
--
-- A run (continuo_python_runtime/harness.py) loads the contracts of a directory, selects its node,
-- builds the installed warehouse adapter, runs the node's script or reads its csv source, conforms the
-- result to the declared columns and writes it in the node's mode.
--
-- - Base: shared names, Boolean tests, lists, texts and results with exceptions
--   (continuo_python_runtime/errors.py).
-- - Contract.Model, Contract.Value: continuo_python_runtime/contract/model.py, and the values that
--   PyYAML builds, a graph of objects that may share and have cycles.
-- - Contract.Types: continuo_python_runtime/types.py and
--   contract/continuo_engine_contract/types.py. Regular expressions are functions on code points.
-- - Contract.SecretRef, Contract.CsvSource, Contract.Sql, Contract.Kinds: the modules of these names
--   (secret_ref.py, csv_source.py, contract/continuo_engine_contract/sql.py, kinds.py).
-- - Contract.PrimaryKey, Contract.Config, Contract.Columns, Contract.Fields, Contract.Loader:
--   continuo_python_runtime/contract/loader.py, one module for each group of its checks. The walk
--   over a config has fuel for the depth of its calls: two more than there are objects, enough since
--   each call but the first and the last stands in a container that is not active yet.
-- - Engine: contract/continuo_engine_contract/port.py, keys.py and config.py: the interface of an
--   adapter over a state of any type, and the guard on the keys of a config.
-- - Conform, Shape: continuo_python_runtime/conform.py and shape.py.
-- - Steps: code that works on a state of any type and records its calls, and lemmas on the calls.
-- - Validation: continuo_python_runtime/validation/runner.py and s3.py: the inputs are gathered, the
--   adapter is found, the operation runs, and the adapter is closed.
-- - Harness: continuo_python_runtime/harness.py, context.py and csv_loader.py. A step passes the
--   state and a record of the calls made, the newest first. A script is a tree of what it looks at,
--   changes and reads until it returns or raises.
-- - Merge: continuo_python_runtime/hashing.py and contract/merge.py. sha256, the encoding of texts and
--   `json.dumps` are parameters; Merge takes what is hashed of a node's source as one too, and
--   Merge.Sources fills it.
-- - Merge.Sources: what is hashed of a node's source (contract/merge.py, contract/paths.py).
-- - Syntax: the part of Python's `ast` that closure.py and lint.py read, and `ast.walk`, with fuel for
--   the nodes of the tree.
-- - Closure: continuo_python_runtime/closure.py, a breadth-first search with fuel for one more file
--   than there are, enough since each file waits once. The file system does not change during a run.
-- - Lint: continuo_python_runtime/lint.py, with the SQL pattern as a search on code points.
-- - Postgres: of adapters/postgres/continuo_postgres_adapter/adapter.py the validation of a config's
--   indexes and their names, over contract/continuo_engine_contract/config.py. UTF-8 is counted,
--   sha256 is a parameter.
-- - Duckdb: adapters/duckdb/continuo_duckdb_adapter. Domain, Layout and Settings are domain/ and
--   infrastructure/settings.py; Ddl renders the statements of infrastructure/ddl.py as lists of code
--   points; Session is infrastructure/session.py and passfile.py over records of what they use of
--   duckdb and the file system, whose state is of any type; Retrying and Warehouse are
--   application/warehouse.py. The retries of a write and of an attach have the code's own bound of
--   five attempts, so they need no other fuel.
-- - Tests: concrete contracts and runs.
--
-- Parameters: sqlglot, pyarrow (the records Arrow and Frame), DuckDB (the records Connection and, with
-- the temporary files of a passfile, System), the construction of an adapter by its class,
-- `str.lower` and `str.casefold`, Python's parser, the file system and the csv parser. Messages keep
-- their constant text only. Not modelled: logging, import paths, process exit by a signal or
-- `SystemExit` and the removal of a passfile at exit; the csv readers and the command line, which
-- are input and output; the result block's text; the other code of the Postgres adapter and the
-- adapter of Trino, whose writes are those of the same interface; the release scripts.
pub mod Lint
pub mod Closure
pub mod Syntax
pub mod Base
pub mod Steps
pub mod Contract
pub mod Engine
pub mod Harness
pub mod Merge
pub mod Conform
pub mod Duckdb
pub mod Postgres
pub mod Shape
pub mod Validation
pub mod Tests
