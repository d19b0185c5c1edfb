-- ===== src/Lint/Literals.antt =====
-- The texts that lint.py puts together from the parts of an expression.
use continuo_python_runtime.Base.{ℕ, String, ◌<>◌, Option, none, some, List, [], ◌∷◌, ◌++◌}
use continuo_python_runtime.Syntax.{
  Syntax, import_names, import_from, name, attribute, text, joined, add, call, expression, body,
  other, listed,
}

-- A text, and the ids of the constants that are folded into it.
pub record Literal : Type 0 where
  pub value : String
  pub ids : List ℕ

abbrev part : Syntax → Literal
part (text id line s) = record { value = s; ids = id ∷ [] }
part _ = record { value = " "; ids = [] }

abbrev pub joined_with : Literal → Literal → Literal
joined_with a b = record { value = a.value <> b.value; ids = a.ids ++ b.ids }

-- `_reconstruct_joined_str`
unfoldable pub reconstruct_joined_str : List Syntax → Literal
reconstruct_joined_str [] = record { value = ""; ids = [] }
reconstruct_joined_str (t ∷ ts) = joined_with (part t) (reconstruct_joined_str ts)

abbrev pub both : Option Literal → Option Literal → Option Literal
both (some a) (some b) = some (joined_with a b)
both (some a) none = none
both none b = none

-- `collect_parts` of `_reconstruct_binop_concat`, which starts it at a `BinOp` with `Add`.
unfoldable pub collect_parts : Syntax → Option Literal
unfolding reconstruct_joined_str
collect_parts (text id line s) = some (record { value = s; ids = id ∷ [] })
collect_parts (joined line values) = some (reconstruct_joined_str (listed values))
collect_parts (add line left right) = both (collect_parts left) (collect_parts right)
collect_parts (import_names line names) = none
collect_parts (import_from line module_name names level) = none
collect_parts (name line id) = none
collect_parts (attribute line value attr) = none
collect_parts (call line func arguments) = none
collect_parts (expression value) = none
collect_parts (body before statements after) = none
collect_parts (other parts) = none
