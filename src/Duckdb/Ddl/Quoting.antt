-- ===== src/Duckdb/Ddl/Quoting.antt =====
-- What the statements of the DuckDB adapter say when they are read by the rules for quoted texts.
use continuo_python_runtime.Base.{
  String, ◌≡◌, refl, sym, ap, ◌∙◌, subst, true, false, Option, none, some, List, [], ◌∷◌, eqb,
  Bool-cases, ◌⊎◌, inl, inr, eq_iff, ◌==◌, ok, ok-injective, arith,
}
use continuo_python_runtime.Base.Sorting.{Text}
use continuo_python_runtime.Base.Text.{codes}
use continuo_python_runtime.Contract.Types.Grammar.{drop_prefix}
use continuo_python_runtime.Engine.{Target}
use continuo_python_runtime.Duckdb.Domain.{ColumnDefinition}
use continuo_python_runtime.Duckdb.Layout.{PartitionKey, SortKey}
use continuo_python_runtime.Duckdb.Settings.{DuckLakeSettings, filled}
use continuo_python_runtime.Duckdb.Ddl.{
  ◌<+>◌, quote_identifier, conninfo, connection_pairs, credential, attach_statement,
}
use continuo_python_runtime.Duckdb.Ddl.Reading.{
  read_enclosed, enclose-read, Reads, is_key, conninfo-Reads, append_assoc, append-nil,
  starts_with_code,
}
use continuo_python_runtime.Duckdb.Ddl.Tables.{
  table_ref, drop_table_if_exists, create_table, create_empty_table_as, create_empty_clone,
  set_partitioned_by, set_sorted_by, delete_all, insert_select, merge_from,
}

pub drop_prefix-append : (words s : Text) → drop_prefix words (words <+> s) ≡ some s
unfolding drop_prefix
drop_prefix-append [] s = refl
drop_prefix-append (w ∷ words) s =
    let same : eqb w w ≡ true = ground arith in rw same (drop_prefix-append words s)

-- `"catalog"."schema"."table"`, read part by part.
abbrev pub read_dot : Text → Option Text
read_dot = drop_prefix (codes ".")

-- A text that starts with a reference to this table of this catalog.
pub record Refers (s : Text) (catalog : String) (target : Target) : Type 0 where
  pub first : Text
  pub second : Text
  pub rest : Text
  pub reads_catalog : read_enclosed b'"' s ≡ some (codes catalog, codes "." <+> first)
  pub reads_schema : read_enclosed b'"' first ≡ some (codes target.0, codes "." <+> second)
  pub reads_table : read_enclosed b'"' second ≡ some (codes target.1, rest)

-- A statement that starts with these words and addresses this table.
abbrev pub Addresses : String → Text → String → Target → Type 0
Addresses words statement catalog target =
    (s : Text) × (drop_prefix (codes words) statement ≡ some s) × Refers s catalog target

regroup :
    (a b c dot rest : Text)
    → ((a <+> dot <+> b) <+> dot <+> c) <+> rest ≡ a <+> (dot <+> (b <+> (dot <+> (c <+> rest))))
regroup a b c dot rest =
    append_assoc (a <+> dot <+> b) (dot <+> c) rest
    ∙ append_assoc a (dot <+> b) ((dot <+> c) <+> rest)
    ∙ ap (λ t. a <+> t) (append_assoc dot b ((dot <+> c) <+> rest))
    ∙ ap (λ t. a <+> (dot <+> (b <+> t))) (append_assoc dot c rest)

table_ref-Refers :
    (catalog : String) (target : Target) (rest : Text)
    → starts_with_code b'"' rest ≡ false
    → Refers (table_ref catalog target <+> rest) catalog target
table_ref-Refers catalog (schema, table) rest h =
    subst (λ t. Refers t catalog (schema, table))
      (sym (
        regroup (quote_identifier catalog) (quote_identifier schema) (quote_identifier table)
          (codes ".") rest))
      (record {
        first = quote_identifier schema <+> (codes "." <+> (quote_identifier table <+> rest));
        second = quote_identifier table <+> rest;
        rest = rest;
        reads_catalog =
            enclose-read b'"' (codes catalog)
              (codes "."
                <+> (quote_identifier schema <+> (codes "." <+> (quote_identifier table <+> rest))))
              refl;
        reads_schema =
            enclose-read b'"' (codes schema) (codes "." <+> (quote_identifier table <+> rest)) refl;
        reads_table = enclose-read b'"' (codes table) rest h;
      })

addressed :
    (words catalog : String) (target : Target) (rest : Text)
    → starts_with_code b'"' rest ≡ false
    → Addresses words (codes words <+> (table_ref catalog target <+> rest)) catalog target
addressed words catalog target rest h =
    (_, drop_prefix-append (codes words) _, table_ref-Refers catalog target rest h)

addressed_last :
    (words catalog : String) (target : Target)
    → Addresses words (codes words <+> table_ref catalog target) catalog target
addressed_last words catalog target =
    subst (λ t. Addresses words (codes words <+> t) catalog target)
      (append-nil (table_ref catalog target)) (addressed words catalog target [] refl)

merge_addressed :
    (catalog : String) (target : Target) (columns key : List String) (view : String) (merge : Text)
    → merge_from catalog target columns key view ≡ ok merge
    → Addresses "MERGE INTO " merge catalog target
unfolding merge_from
merge_addressed catalog target columns [] view merge made = cc
merge_addressed catalog target columns (k ∷ key) view merge made =
    subst (λ t. Addresses "MERGE INTO " t catalog target) (ok-injective made)
      (addressed "MERGE INTO " catalog target _ refl)

-- The statements on a table address it.
pub record AreAddressed (catalog : String) (target : Target) : Type 0 where
  pub drops : Addresses "DROP TABLE IF EXISTS " (drop_table_if_exists catalog target) catalog target
  pub deletes : Addresses "DELETE FROM " (delete_all catalog target) catalog target
  pub creates :
      (columns : List ColumnDefinition)
      → Addresses "CREATE TABLE " (create_table catalog target columns) catalog target
  pub creates_from_read :
      (read : Text)
      → Addresses "CREATE TABLE " (create_empty_table_as catalog target read) catalog target
  pub clones :
      (source : Target)
      → Addresses "CREATE TABLE " (create_empty_clone catalog target source) catalog target
  pub partitions :
      (keys : List PartitionKey)
      → Addresses "ALTER TABLE " (set_partitioned_by catalog target keys) catalog target
  pub sorts :
      (keys : List SortKey)
      → Addresses "ALTER TABLE " (set_sorted_by catalog target keys) catalog target
  pub inserts :
      (columns : List String) (view : String)
      → Addresses "INSERT INTO " (insert_select catalog target columns view) catalog target
  pub merges :
      (columns key : List String) (view : String) (merge : Text)
      → merge_from catalog target columns key view ≡ ok merge
      → Addresses "MERGE INTO " merge catalog target

-- Whatever characters the names hold, each statement on a table, read by SQL's rule for quoted
-- names, starts with its words and then addresses the table of the catalog that it was written
-- for.
pub statements-AreAddressed : (catalog : String) (target : Target) → AreAddressed catalog target
unfolding drop_table_if_exists delete_all create_table create_empty_table_as create_empty_clone
    set_partitioned_by set_sorted_by insert_select
statements-AreAddressed catalog target = record {
  drops = addressed_last "DROP TABLE IF EXISTS " catalog target;
  deletes = addressed_last "DELETE FROM " catalog target;
  creates = λ columns. addressed "CREATE TABLE " catalog target _ refl;
  creates_from_read = λ read. addressed "CREATE TABLE " catalog target _ refl;
  clones = λ source. addressed "CREATE TABLE " catalog target _ refl;
  partitions = λ keys. addressed "ALTER TABLE " catalog target _ refl;
  sorts = λ keys. addressed "ALTER TABLE " catalog target _ refl;
  inserts = λ columns view. addressed "INSERT INTO " catalog target _ refl;
  merges =
      λ columns key view merge made. merge_addressed catalog target columns key view merge made;
}

-- What the connection string is to tell, in its order.
abbrev pub tells : DuckLakeSettings → String × String → List (Text × Text)
tells settings (key, value) =
    (codes "host", codes settings.catalog_host)
    ∷ (codes "port", codes settings.catalog_port)
    ∷ (codes "dbname", codes settings.catalog_db)
    ∷ (codes "user", codes settings.catalog_user)
    ∷ (codes key, codes value)
    ∷ []

-- An ATTACH of DuckLake, read by SQL's rule for its texts and by libpq's for its connection string.
pub record IsAttach (settings : DuckLakeSettings) (catalog : String) (passfile : Option String)
    (statement : Text) : Type 0 where
  pub info : Text
  pub first : Text
  pub second : Text
  pub rest : Text
  pub attaches : drop_prefix (codes "ATTACH ") statement ≡ some first
  pub reads_source :
      read_enclosed b'\'' first
      ≡ some (codes "ducklake:postgres:" <+> info, codes " AS " <+> second)
  pub reads_catalog : read_enclosed b'"' second ≡ some (codes catalog, rest)
  -- The password stands in the text only when there is no path of a password file.
  pub reads_info :
      ((path : String) × (passfile ≡ some path)
        × (¬ (path ≡ ""))
        × Reads info (tells settings ("passfile", path)))
      ⊎ (((passfile ≡ none) ⊎ (passfile ≡ some ""))
          × Reads info (tells settings ("password", settings.catalog_password)))

credential-is_key :
    (settings : DuckLakeSettings) (passfile : Option String)
    → is_key (credential settings passfile).0 ≡ true
credential-is_key settings none = refl
credential-is_key settings (some path) = elim (Bool-cases (filled (some path))) [
  | inl full ↦ rw full refl
  | inr empty ↦ rw empty refl
]

connection-Reads :
    (settings : DuckLakeSettings) (passfile : Option String)
    → Reads
        (conninfo (connection_pairs settings passfile))
        (tells settings (credential settings passfile))
connection-Reads settings passfile =
    conninfo-Reads ("host", settings.catalog_host)
      (("port", settings.catalog_port)
        ∷ ("dbname", settings.catalog_db)
        ∷ ("user", settings.catalog_user)
        ∷ credential settings passfile
        ∷ [])
      (rw (credential-is_key settings passfile) refl)

credential-Reads :
    (settings : DuckLakeSettings) (passfile : Option String)
    → ((path : String) × (passfile ≡ some path)
        × (¬ (path ≡ ""))
        × Reads (conninfo (connection_pairs settings passfile)) (tells settings ("passfile", path)))
      ⊎ (((passfile ≡ none) ⊎ (passfile ≡ some ""))
          × Reads
              (conninfo (connection_pairs settings passfile))
              (tells settings ("password", settings.catalog_password)))
credential-Reads settings none = inr (inl refl, connection-Reads settings none)
credential-Reads settings (some path) = elim (Bool-cases (path == "")) [
  | inl empty ↦ inr (
    inr (ap some ((eq_iff path "").0 empty)),
    told (
        let c : credential settings (some path) ≡ ("password", settings.catalog_password) =
          rw empty refl in
        c),
  )
  | inr other ↦ inl (
    path,
    refl,
    λ e. let same = (eq_iff path "").1 e in cc,
    told (let c : credential settings (some path) ≡ ("passfile", path) = rw other refl in c),
  )
]
  where
    told :
        {c : String × String}
        → credential settings (some path) ≡ c
        → Reads (conninfo (connection_pairs settings (some path))) (tells settings c)
    told e =
        subst (λ c. Reads (conninfo (connection_pairs settings (some path))) (tells settings c)) e
          (connection-Reads settings (some path))

-- An ATTACH, read by SQL's rule for quoted texts, names the catalog's alias and a DuckLake source
-- whose connection string libpq reads back as host, port, dbname and user of the settings, in this
-- order, and then as the passfile, if there is a path of one that is not empty, or otherwise as
-- the password, whatever characters these hold.
pub attach_statement-IsAttach :
    (settings : DuckLakeSettings) (catalog : String) (passfile : Option String)
    → IsAttach settings catalog passfile (attach_statement settings catalog passfile)
unfolding attach_statement
attach_statement-IsAttach settings catalog passfile = record {
  info = conninfo (connection_pairs settings passfile);
  first = _;
  second = _;
  rest = _;
  attaches = drop_prefix-append (codes "ATTACH ") _;
  reads_source =
      enclose-read b'\''
        (codes "ducklake:postgres:" <+> conninfo (connection_pairs settings passfile)) _ refl;
  reads_catalog = enclose-read b'"' (codes catalog) _ refl;
  reads_info = credential-Reads settings passfile;
}
