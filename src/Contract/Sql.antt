-- ===== src/Contract/Sql.antt =====
-- contract/continuo_engine_contract/sql.py: the single-read gate. The parser, sqlglot, is a parameter.
use continuo_python_runtime.Base.{
  String, Bool, true, false, Option, none, some, List, [], ◌∷◌, value_error, other_error, Result,
  ok, err,
}

-- A parsed statement, by the class of its expression.
pub data Statement : Type 0 where
  select union values subquery : Statement
  other : String → Statement

-- What `sqlglot.parse` returns or raises. A statement may be `None` (an empty one between `;`).
pub data Parsed : Type 0 where
  statements : List (Option Statement) → Parsed
  parse_error token_error : Parsed
  failure : String → Parsed

-- `sqlglot.parse` and `Dialect.get_or_raise`.
pub record SqlParser : Type 0 where
  pub parse : String → Option String → Parsed
  pub is_dialect : String → Bool

abbrev pub is_read : Statement → Bool
is_read (other key) = false
is_read select = true
is_read union = true
is_read values = true
is_read subquery = true

-- `[s for s in parsed if s is not None]`
unfoldable pub present : List (Option Statement) → List Statement
present [] = []
present (none ∷ rest) = present rest
present (some s ∷ rest) = s ∷ present rest

unfoldable pub single_read : List Statement → Result (Unit {0})
single_read [] = err (value_error "check_binds accepts exactly one read query")
single_read (s ∷ []) = elim (is_read s) [
  | true ↦ ok tt
  | false ↦ err (value_error "check_binds accepts a single read query")
]
single_read (s ∷ t ∷ rest) = err (value_error "check_binds accepts exactly one read query")

abbrev on_parsed : Parsed → Result (Unit {0})
on_parsed (statements parsed) = single_read (present parsed)
on_parsed parse_error = err (value_error "this read does not parse")
on_parsed token_error = err (other_error "TokenError")
on_parsed (failure text) = err (other_error text)

module _ (sqlglot : SqlParser) where
  unfoldable pub ensure_single_read : String → Option String → Result (Unit {0})
  unfolding present single_read
  ensure_single_read sql dialect = on_parsed (sqlglot.parse sql dialect)
