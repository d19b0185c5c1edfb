-- ===== src/Lint.antt =====
-- continuo_python_runtime/lint.py on one source. The parser and `str.isalnum` are parameters.
pub mod Sql
pub mod Literals
pub mod Exempt
pub mod Exempted
pub mod Allowed
pub mod Clean
pub mod Files
use continuo_python_runtime.Base.{
  ℕ, ltb, eqb, String, ◌==◌, ◌<>◌, starts_with, Bool, true, false, ◌&&◌, ◌||◌, not, Option, none,
  some, List, [], ◌∷◌, ◌++◌, map, Result, ok, err, elem, any, flat_map, length, if◌then◌else◌,
}
use continuo_python_runtime.Base.Text.{codes, take}
use continuo_python_runtime.Base.Sorting.{Text, sort}
use continuo_python_runtime.Syntax.{
  Alias, Syntax, import_names, import_from, name, attribute, text, joined, add, call, expression,
  body, other, Syntaxes, nil, cons, listed, walk, Parsed, parsed, syntax_error, parser_raised,
}
use continuo_python_runtime.Closure.Imports.{root_module, dynamic_import_violations}
use continuo_python_runtime.Lint.Sql.{contains_sql}
use continuo_python_runtime.Lint.Literals.{Literal, reconstruct_joined_str, collect_parts}

abbrev pub forbidden_drivers : List String
forbidden_drivers =
    "psycopg2" ∷ "sqlalchemy" ∷ "trino" ∷ "snowflake" ∷ "pyodbc" ∷ "duckdb" ∷ "sqlite3" ∷ "pymysql"
    ∷ "mysql" ∷ "clickhouse_driver" ∷ "pyhive" ∷ []

abbrev pub forbidden_calls : List String
forbidden_calls =
    "read_sql" ∷ "read_sql_query" ∷ "read_sql_table" ∷ "execute" ∷ "read_database" ∷ []

-- A line and a message.
abbrev pub Entry : Type 0
Entry = ℕ × String

abbrev said : Bool → ℕ → String → List Entry
said true line message = (line, message) ∷ []
said false line message = []

abbrev driver_import : ℕ → String → List Entry
driver_import line module_name =
    said (elem (root_module module_name) forbidden_drivers) line
      ("forbidden warehouse driver import '" <> root_module module_name <> "'")

abbrev driver_module : ℕ → Option String → List Entry
driver_module line none = []
driver_module line (some module_name) =
    if module_name == "" then [] else driver_import line module_name

abbrev call_imports : ℕ → List Alias → List Entry
call_imports line names =
    flat_map
      (λ alias.
        said (elem alias.name forbidden_calls) line
          ("forbidden data-access import '" <> alias.name <> "'"))
      names

-- What the first pass says of one node.
unfoldable pub import_entries : Syntax → List Entry
unfolding root_module
import_entries (import_names line names) = flat_map (λ alias. driver_import line alias.name) names
import_entries (import_from line module_name names level) =
    driver_module line module_name ++ call_imports line names
import_entries (name line id) = []
import_entries (attribute line value attr) = []
import_entries (text id line s) = []
import_entries (joined line values) = []
import_entries (add line left right) = []
import_entries (call line func arguments) = []
import_entries (expression value) = []
import_entries (body before statements after) = []
import_entries (other parts) = []

-- `alias.asname if alias.asname else alias.name`
abbrev local_name : Alias → String
local_name alias = elim alias.asname [
  | none ↦ alias.name
  | some asname ↦ if asname == "" then alias.name else asname
]

-- The keys of `imported_forbidden_calls` that one node adds.
unfoldable pub imported_calls : Syntax → List String
imported_calls (import_from line module_name names level) =
    flat_map (λ alias. if elem alias.name forbidden_calls then local_name alias ∷ [] else []) names
imported_calls (import_names line names) = []
imported_calls (name line id) = []
imported_calls (attribute line value attr) = []
imported_calls (text id line s) = []
imported_calls (joined line values) = []
imported_calls (add line left right) = []
imported_calls (call line func arguments) = []
imported_calls (expression value) = []
imported_calls (body before statements after) = []
imported_calls (other parts) = []

abbrev pub docstring_of : Syntaxes → List ℕ
docstring_of (cons (expression (text id line s)) rest) = id ∷ []
docstring_of _ = []

-- `_docstring_constant_ids`
unfoldable pub docstring_ids : Syntax → List ℕ
docstring_ids (body before statements after) = docstring_of statements
docstring_ids _ = []

abbrev pub is_self : Syntax → Bool
is_self (name line id) = (id == "self") || (id == "cls")
is_self _ = false

-- A violation, before it is formatted.
pub record Report : Type 0 where
  pub filename : String
  pub line : ℕ
  pub message : String

abbrev pub entry_key : Entry → Text
entry_key (line, message) = line ∷ []

abbrev dynamic_entries : List (ℕ × String) → List Entry
dynamic_entries =
    map (λ (line, construct). (line, "dynamic import construct '" <> construct <> "'"))

abbrev pub reports : String → List Entry → List Report
reports filename =
    map (λ (line, message). record { filename = filename; line = line; message = message })

module _ (is_word : ℕ → Bool) where
  -- The snippet is the text's first forty characters.
  abbrev snippet : String → String
  snippet s = if ltb 40 (length (codes s)) then take 40 s <> "..." else take 40 s

  abbrev pub sql_entry : ℕ → String → List Entry
  sql_entry line s =
      said (contains_sql is_word (codes s)) line ("SQL string literal '" <> snippet s <> "'")

  abbrev concat_entry : ℕ → Option Literal → List Entry
  concat_entry line none = []
  concat_entry line (some l) = sql_entry line l.value

  abbrev call_entry : List String → ℕ → Syntax → List Entry
  call_entry imported line (attribute l value attr) =
      said (elem attr forbidden_calls) line ("forbidden data-access call '" <> attr <> "'")
  call_entry imported line (name l id) =
      said (elem id imported) line ("forbidden data-access call '" <> id <> "'")
  call_entry imported line _ = []

  -- What the second pass says of one node, with the ids consumed before it.
  unfoldable pub node_entries : List String → List ℕ → List ℕ → Syntax → List Entry
  unfolding contains_sql reconstruct_joined_str collect_parts
  node_entries imported docstrings consumed (joined line values) =
      sql_entry line (reconstruct_joined_str (listed values)).value
  node_entries imported docstrings consumed (add line left right) =
      concat_entry line (collect_parts (add line left right))
  node_entries imported docstrings consumed (text id line s) =
      if any (eqb id) consumed || any (eqb id) docstrings then [] else sql_entry line s
  node_entries imported docstrings consumed (call line func arguments) =
      call_entry imported line func
  node_entries imported docstrings consumed (attribute line value attr) =
      said (starts_with attr "_" && not (is_self value)) line
        ("private attribute access '" <> attr <> "'")
  node_entries imported docstrings consumed (import_names line names) = []
  node_entries imported docstrings consumed (import_from line module_name names level) = []
  node_entries imported docstrings consumed (name line id) = []
  node_entries imported docstrings consumed (expression value) = []
  node_entries imported docstrings consumed (body before statements after) = []
  node_entries imported docstrings consumed (other parts) = []

  abbrev pub ids_of : Option Literal → List ℕ
  ids_of none = []
  ids_of (some l) = l.ids

  -- The ids of the constants that one node folds into its text.
  unfoldable pub consumed_by : Syntax → List ℕ
  unfolding reconstruct_joined_str collect_parts
  consumed_by (joined line values) = (reconstruct_joined_str (listed values)).ids
  consumed_by (add line left right) = ids_of (collect_parts (add line left right))
  consumed_by (text id line s) = []
  consumed_by (call line func arguments) = []
  consumed_by (attribute line value attr) = []
  consumed_by (import_names line names) = []
  consumed_by (import_from line module_name names level) = []
  consumed_by (name line id) = []
  consumed_by (expression value) = []
  consumed_by (body before statements after) = []
  consumed_by (other parts) = []

  unfoldable pub second_pass : List String → List ℕ → List ℕ → List Syntax → List Entry
  unfolding node_entries consumed_by
  second_pass imported docstrings consumed [] = []
  second_pass imported docstrings consumed (t ∷ ts) =
      node_entries imported docstrings consumed t
      ++ second_pass imported docstrings (consumed_by t ++ consumed) ts

  -- The rules, on the tree of a source.
  unfoldable pub lint_tree : Syntax → List Entry
  unfolding walk import_entries imported_calls docstring_ids second_pass dynamic_import_violations
      sort
  lint_tree tree =
      let found = walk tree in
      sort entry_key (
        flat_map import_entries found
        ++ (second_pass (flat_map imported_calls found) (flat_map docstring_ids found) [] found
            ++ dynamic_entries (dynamic_import_violations tree)))

  unfoldable pub lint_source : Parsed → String → Result (List Report)
  unfolding lint_tree
  lint_source (parsed tree) filename = ok (reports filename (lint_tree tree))
  lint_source (syntax_error line) filename = ok (reports filename ((line, "syntax error") ∷ []))
  lint_source (parser_raised e) filename = err e
