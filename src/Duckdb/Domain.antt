-- ===== src/Duckdb/Domain.antt =====
-- adapters/duckdb/continuo_duckdb_adapter/domain/identifiers.py and columns.py.
use continuo_python_runtime.Base.{
  String, ◌==◌, Bool, true, ◌||◌, not, Option, none, some, List, [], ◌∷◌, any, eqb, value_error,
  other_error, Result, ok, err, ◌>>=◌, ◌>>◌, >>=-eq-ok, ok-injective, some-injective, ◌≡◌, ap,
  require,
}
use continuo_python_runtime.Base.Text.{codes}
use continuo_python_runtime.Contract.Value.{
  Value, Heap, Entries, bool, str, as_dict, as_str, get, get_or, truthy,
}
use continuo_python_runtime.Engine.{Target}
use continuo_python_runtime.Contract.Types.Grammar.{text_eq, upper, validate_column_type}

abbrev pub named : Option String → Result String
named none = err (value_error "identifier must be a non-empty string")
named (some s) = do
  require (not (s == "")) (value_error "identifier must be a non-empty string")
  require (not (any (eqb 0) (codes s))) (value_error "identifier must not contain a NUL character")
  ok s

-- `Identifier(name)`
unfoldable pub identifier : Value → Result String
identifier value = named (as_str value)

-- `^(TIMESTAMP|DATE)\Z`, in any ASCII case.
unfoldable pub is_temporal_type : String → Bool
unfolding text_eq
is_temporal_type t =
    text_eq (upper (codes t)) (codes "TIMESTAMP") || text_eq (upper (codes t)) (codes "DATE")

pub record ColumnDefinition : Type 0 where
  pub name : String
  pub type : String
  pub nullable : Bool

abbrev typed : Option String → Result String
typed none = err (other_error "TypeError")
typed (some t) = do validate_column_type (codes t); ok t

abbrev built : Heap → Entries → Option Value → Option Value → Result ColumnDefinition
built h raw (some raw_name) (some raw_type) = do
  name ← identifier raw_name
  type ← typed (as_str raw_type)
  ok (record { name = name; type = type; nullable = truthy h (get_or "nullable" (bool true) raw) })
built h raw (some raw_name) none =
    err (value_error "column must be a mapping with 'name' and 'type'")
built h raw none raw_type = err (value_error "column must be a mapping with 'name' and 'type'")

abbrev of_mapping : Heap → Option Entries → Result ColumnDefinition
of_mapping h none = err (value_error "column must be a mapping with 'name' and 'type'")
of_mapping h (some raw) = built h raw (get "name" raw) (get "type" raw)

-- `ColumnDefinition.from_mapping`
unfoldable pub from_mapping : Heap → Value → Result ColumnDefinition
unfolding identifier validate_column_type truthy get
from_mapping h value = of_mapping h (as_dict h value)

-- `_columns`
unfoldable pub column_definitions : Heap → List Value → Result (List ColumnDefinition)
unfolding from_mapping
column_definitions h [] = ok []
column_definitions h (value ∷ values) = do
  first ← from_mapping h value
  rest ← column_definitions h values
  ok (first ∷ rest)

-- Declared names with their types; `none` is a type that is not known yet.
abbrev pub ColumnTypes : Type 0
ColumnTypes = List (String × Option String)

unfoldable pub column_types : List ColumnDefinition → ColumnTypes
column_types [] = []
column_types (c ∷ cs) = (c.name, some c.type) ∷ column_types cs

pub named-eq-ok : (o : Option String) (name : String) → named o ≡ ok name → o ≡ some name
named-eq-ok none name h = cc
named-eq-ok (some s) name h =
    let (_, _, h1) = >>=-eq-ok _ _ h in
    let (_, _, h2) = >>=-eq-ok _ _ h1 in ap some (ok-injective h2)

pub identifier-str : (s name : String) → identifier (str s) ≡ ok name → s ≡ name
unfolding identifier
identifier-str s name h = some-injective (named-eq-ok (some s) name h)

-- `QualifiedTable.of`
unfoldable pub qualified : String → String → Result Target
qualified schema table = do s ← named (some schema); t ← named (some table); ok (s, t)
