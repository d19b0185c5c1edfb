-- ===== src/Validation/Header.antt =====
-- The header check of `main` in continuo_python_runtime/validation/runner.py, and Python's iteration
-- over a value.
use continuo_python_runtime.Base.{
  String, ◌==◌, Option, none, some, List, [], ◌∷◌, Exception, value_error, other_error, Result, ok,
  err, ◌>>=◌, ◌>>◌, require, not,
}
use continuo_python_runtime.Contract.Value.{
  Value, null, bool, int, float, str, ref, opaque, Object, mapping, sequence, Heap, Entries,
  as_dict, as_str, get,
}
use continuo_python_runtime.Contract.Columns.{keys}
use continuo_python_runtime.Contract.CsvSource.{check_header}
use continuo_python_runtime.Validation.{Services}

abbrev type_error : Exception
type_error = other_error "TypeError"

abbrev characters : String → List Value
characters String.[] = []
characters (String.◌∷◌ c s) = str (String.◌∷◌ c String.[]) ∷ characters s

abbrev elements : Object → List Value
elements (mapping entries) = keys entries
elements (sequence items) = items

-- `for x in value`
unfoldable pub iterate : Heap → Value → Result (List Value)
iterate h (ref i) = ok (elements (h.object i))
iterate h (str s) = ok (characters s)
iterate h null = err type_error
iterate h (bool b) = err type_error
iterate h (int n) = err type_error
iterate h (float n) = err type_error
iterate h (opaque class) = err type_error

-- `value["name"]`
abbrev name_in : Option Entries → Result Value
name_in none = err type_error
name_in (some entries) = elim (get "name" entries) [
  | none ↦ err (other_error "KeyError")
  | some name ↦ ok name
]

-- A name that is no string is in no header.
abbrev as_name : Value → Result String
as_name v = elim (as_str v) [
  | none ↦ err (value_error "csv header missing declared column(s)")
  | some name ↦ ok name
]

module _ {W : Type 0} (services : Services W) (h : Heap) where
  unfoldable pub declared_names : List Value → Result (List String)
  unfolding get
  declared_names [] = ok []
  declared_names (c ∷ cs) = do
    v ← name_in (as_dict h c)
    name ← as_name v
    names ← declared_names cs
    ok (name ∷ names)

  -- What follows the fetch of the header line.
  unfoldable pub check_header_line : Value → String → Result (Unit {0})
  check_header_line columns line = do
    require (not (line == "")) (value_error "csv source has no header line")
    items ← iterate h columns
    declared ← declared_names items
    fields ← services.csv_fields line
    extras ← check_header fields declared
    ok tt
