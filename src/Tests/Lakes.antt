-- ===== src/Tests/Lakes.antt =====
-- A small lake: a log of the statements that were committed and, inside a transaction, of those so far.
use continuo_python_runtime.Base.{
  ℕ, String, ◌≡◌, refl, true, false, ◌||◌, Option, none, some, List, [], ◌∷◌, is_some, or_parts,
  if◌then◌else◌, ok, ◌>>=◌, eqb,
}
use continuo_python_runtime.Base.Sorting.{Text}
use continuo_python_runtime.Base.Text.{codes}
use continuo_python_runtime.Contract.Value.{
  str, int, ref, pos, Heap, Object, mapping, sequence, get,
}
use continuo_python_runtime.Contract.Sql.{SqlParser, select, statements}
use continuo_python_runtime.Contract.Types.Grammar.{text_eq}
use continuo_python_runtime.Engine.{Arrow}
use continuo_python_runtime.Engine.ConfigKeys.{ensure_known_keys}
use continuo_python_runtime.Duckdb.Domain.{ColumnTypes, identifier, is_temporal_type, qualified}
use continuo_python_runtime.Duckdb.Layout.{
  TableLayout, from_config, partition_keys, partition_keys_from, partition_key, new_partition_key,
  declared_column, declared, sort_keys, sort_keys_from, choice_of, nulls_of, validate_config_of,
}
use continuo_python_runtime.Duckdb.Layout.Laws.{IsLayout, from_config-IsLayout}
use continuo_python_runtime.Duckdb.Layout.Early.{validate_config_of-from_config}
use continuo_python_runtime.Duckdb.Settings.{DuckLakeSettings}
use continuo_python_runtime.Duckdb.Ddl.{attach_statement, enclose, replace_char, join_texts}
use continuo_python_runtime.Duckdb.Ddl.Quoting.{
  AreAddressed, statements-AreAddressed, IsAttach, attach_statement-IsAttach,
}
use continuo_python_runtime.Duckdb.Session.{
  Failure, engine, EngineError, Answer, returned, raised, Action, Connection, begin, commit,
  rollback_text, translate, transaction, run, rollback, on_failure,
}
use continuo_python_runtime.Duckdb.Session
use continuo_python_runtime.Duckdb.Session.Gateway.{insert_arrow}
use continuo_python_runtime.Duckdb.Ddl.Tables.{delete_all, insert_select}
use continuo_python_runtime.Duckdb.Warehouse.{load}
use continuo_python_runtime.Duckdb.Session.Masked.{IsDriver, AreMasked, operations-AreMasked}
use continuo_python_runtime.Duckdb.Session.Transactions.{IsTransactional}
use continuo_python_runtime.Duckdb.Warehouse.Statements.{IsStatement}
use continuo_python_runtime.Tests.Statements.{is_control, rendered-plain}
use continuo_python_runtime.Duckdb.Warehouse.Atomic.{AreAtomic, writes-AreAtomic}
use continuo_python_runtime.Duckdb.Warehouse.Guards.{AreGuarded, statements-AreGuarded}

abbrev Log : Type 0
Log = List Text

abbrev Lake : Type 0
Lake = Log × Option Log

abbrev nested : EngineError
nested = record { class = "TransactionException"; message = codes "already in a transaction" }

unfoldable execute : Text → Lake → Answer (Unit {0}) × Lake
unfolding text_eq
execute sql (log, none) =
    if text_eq sql begin then (returned tt, (log, some log)) else (returned tt, (sql ∷ log, none))
execute sql (log, some pending) =
    if text_eq sql begin
    then (raised (engine nested), (log, some pending))
    else if text_eq sql commit
    then (returned tt, (pending, none))
    else if text_eq sql rollback_text
    then (returned tt, (log, none))
    else (returned tt, (log, some (sql ∷ pending)))

-- A table is its number of rows.
abbrev con : Connection Lake ℕ
con = record {
  execute = execute;
  execute_with = λ sql parameters w. (returned tt, w);
  fetch_tables = λ w. (returned [], w);
  fetch_columns = λ w. (returned [], w);
  to_arrow = λ w. (returned 0, w);
  register = λ view rows w. (returned tt, w);
  unregister = λ view w. (returned tt, w);
  close = λ w. (returned tt, w);
  hex = λ w. "0";
  from_message = λ class. true;
}

abbrev committed : Lake → Log
committed w = w.0

abbrev Open : Log → Lake → Type 0
Open d w = (w.0 ≡ d) × (is_some w.1 ≡ true)

abbrev Idle : Lake → Type 0
Idle w = is_some w.1 ≡ false

began : (w : Lake) → (execute begin w).0 ≡ returned tt → Open w.0 (execute begin w).1
unfolding execute
began (log, none) h = (refl, refl)
began (log, some pending) h = cc

begin_failed :
    (w : Lake) (e : Failure)
    → (execute begin w).0 ≡ raised e
    → (Idle w → Idle (execute begin w).1) × (committed (execute begin w).1 ≡ committed w)
unfolding execute
begin_failed (log, none) e h = cc
begin_failed (log, some pending) e h = (λ i. i, refl)

executed :
    (d : Log) (w : Lake) (sql : Text) → is_control sql ≡ false → Open d w → Open d (execute sql w).1
unfolding execute is_control
executed d (log, none) sql h (same, opened) = cc
executed d (log, some pending) sql h (same, opened) =
    let (before, c) =
      or_parts (text_eq sql begin || text_eq sql commit) (text_eq sql rollback_text) h in
    let (a, b) = or_parts (text_eq sql begin) (text_eq sql commit) before in
    rw (a, b, c) (same, refl)

undone :
    (d : Log) (w : Lake)
    → Open d w
    → Idle (execute rollback_text w).1 × (committed (execute rollback_text w).1 ≡ d)
unfolding execute
undone d (log, none) (same, opened) = cc
undone d (log, some pending) (same, opened) = (refl, same)

kept :
    (d : Log) (w : Lake) → Open d w → (execute commit w).0 ≡ returned tt → Idle (execute commit w).1
unfolding execute
kept d (log, none) (same, opened) h = cc
kept d (log, some pending) (same, opened) h = refl

commit_failed :
    (d : Log) (w : Lake) (e : Failure)
    → Open d w
    → (execute commit w).0 ≡ raised e
    → Idle (execute commit w).1 × (committed (execute commit w).1 ≡ d)
unfolding execute
commit_failed d (log, none) e (same, opened) h = cc
commit_failed d (log, some pending) e (same, opened) h = cc

abbrev arrow : Arrow ℕ
arrow = record {
  num_rows = λ n. n;
  column_names = λ n. "id" ∷ [];
  is_floating = λ n name. false;
  count_groups = λ n key. n;
}

abbrev sqlglot : SqlParser
sqlglot = record { parse = λ sql dialect. statements (some select ∷ []); is_dialect = λ d. true }

abbrev secrets : List Text
secrets = codes "s3cret" ∷ codes "" ∷ []

-- A config that buckets a table by one column and sorts it by another.
abbrev object : ℕ → Object
object i =
    if eqb i 0
    then mapping ((str "partitioned_by", ref 1) ∷ (str "sorted_by", ref 3) ∷ [])
    else if eqb i 1
    then sequence (ref 2 ∷ str "id" ∷ [])
    else if eqb i 2
    then mapping (
        (str "column", str "id")
        ∷ (str "transform", str "bucket")
        ∷ (str "buckets", int (pos 8))
        ∷ [])
    else if eqb i 3
    then sequence (str "at" ∷ [])
    else mapping []

abbrev heap : Heap
heap = record { size = 4; object = object }

abbrev types : ColumnTypes
types = ("id", some "BIGINT") ∷ ("at", some "DATE") ∷ []

abbrev lower : String → String
lower s = s

abbrev layout : TableLayout
layout = record {
  partition_keys =
      record { column = "id"; transform = "bucket"; buckets = some 8 }
      ∷ record { column = "id"; transform = "identity"; buckets = none }
      ∷ [];
  sort_keys = record { column = "at"; descending = false; nulls_first = none } ∷ [];
}

accepted : from_config lower heap types (ref 0) ≡ ok layout
unfolding from_config partition_keys partition_keys_from partition_key new_partition_key
    declared_column declared sort_keys sort_keys_from choice_of nulls_of ensure_known_keys
    identifier is_temporal_type get ◌>>=◌ text_eq
accepted = refl

from_config-IsLayout_example : IsLayout types layout
from_config-IsLayout_example = from_config-IsLayout heap types lower (ref 0) layout accepted

validate_config_of-from_config_example :
    validate_config_of lower heap (ref 0) ("id" ∷ "at" ∷ []) ≡ ok layout
validate_config_of-from_config_example =
    validate_config_of-from_config heap types lower (ref 0) layout accepted

statements-AreAddressed_example : AreAddressed "lake" ("a\"; DROP", "t.u")
statements-AreAddressed_example = statements-AreAddressed "lake" ("a\"; DROP", "t.u")

abbrev pub settings : DuckLakeSettings
settings = record {
  catalog_host = "pg";
  catalog_port = "5432";
  catalog_db = "lake db";
  catalog_user = "o'hara";
  catalog_password = "s3cret";
  data_path = "s3://lake/";
  s3_endpoint = none;
  s3_access_key_id = none;
  s3_secret_access_key = none;
  s3_region = "us-east-1";
  s3_url_style = "vhost";
  s3_use_ssl = true;
  extension_directory = none;
  temp_directory = none;
  data_inlining_row_limit = none;
}

attach_statement-IsAttach_example :
    IsAttach settings "lake" (some "/tmp/p") (attach_statement settings "lake" (some "/tmp/p"))
attach_statement-IsAttach_example = attach_statement-IsAttach settings "lake" (some "/tmp/p")

abbrev pub refused : EngineError
refused = record { class = "IOException"; message = codes "no password s3cret for pg" }

-- A connection of which each statement fails with a message that holds the password.
abbrev leaking : Connection Lake ℕ
leaking = record {
  execute = λ sql w. (raised (engine refused), w);
  execute_with = λ sql parameters w. (raised (engine refused), w);
  fetch_tables = λ w. (returned [], w);
  fetch_columns = λ w. (returned [], w);
  to_arrow = λ w. (returned 0, w);
  register = λ view rows w. (returned tt, w);
  unregister = λ view w. (returned tt, w);
  close = λ w. (returned tt, w);
  hex = λ w. "0";
  from_message = λ class. true;
}

leaking-IsDriver : IsDriver leaking
leaking-IsDriver = record {
  executes = λ sql w. refl;
  executes_with = λ sql parameters w. refl;
  fetches_tables = λ w. tt;
  fetches_columns = λ w. tt;
  to_arrow = λ w. tt;
  registers = λ view rows w. tt;
  unregisters = λ view w. tt;
}

operations-AreMasked_example : AreMasked leaking secrets (λ rows. []) leaking-IsDriver
operations-AreMasked_example = operations-AreMasked leaking secrets (λ rows. []) leaking-IsDriver

documented : IsTransactional Lake ℕ Log con (IsStatement sqlglot lower heap) committed Open Idle
documented = record {
  begins = began;
  begin_fails = begin_failed;
  executes = λ d w sql is o. executed d w sql (rendered-plain sqlglot lower heap sql is) o;
  queries = λ d w parameters o. o;
  fetches = λ d w o. o;
  registers = λ d w view rows o. o;
  unregisters = λ d w view o. o;
  rolls_back = undone;
  commits = kept;
  commit_fails = commit_failed;
}

writes-AreAtomic_example :
    AreAtomic con secrets sqlglot lower heap committed Open Idle documented arrow
writes-AreAtomic_example =
    writes-AreAtomic con secrets sqlglot lower heap committed Open Idle documented arrow

statements-AreGuarded_example : AreGuarded con secrets arrow sqlglot lower heap (λ attempt w. w)
statements-AreGuarded_example =
    statements-AreGuarded con secrets arrow sqlglot lower heap (λ attempt w. w)

-- The rows are inserted after the old ones are deleted, and both are committed.
loaded : load con secrets arrow "s" "t" 2 ([], none) ≡ (
  returned tt,
  (
    codes "INSERT INTO \"lake\".\"s\".\"t\" (\"id\") SELECT \"id\" FROM \"__continuo_load_0\""
        ∷ codes "DELETE FROM \"lake\".\"s\".\"t\""
        ∷ [],
    none,
  ),
)
unfolding load qualified transaction run rollback translate delete_all insert_arrow insert_select
    execute text_eq ◌>>=◌ Session.◌>>=◌ on_failure enclose replace_char join_texts
loaded = refl

-- A second BEGIN is refused, and nothing is lost.
refused_load : (load con secrets arrow "s" "t" 2 ([], some [])).1 ≡ ([], some [])
unfolding load qualified transaction run rollback translate delete_all insert_arrow insert_select
    execute text_eq ◌>>=◌ Session.◌>>=◌ on_failure enclose replace_char join_texts
refused_load = refl
