-- ===== src/Engine/ConfigKeys.antt =====
-- contract/continuo_engine_contract/config.py: the guard on the keys of a config.
use continuo_python_runtime.Base.{
  String, Option, none, some, List, value_error, Result, ok, err, is_empty, if◌then◌else◌,
}
use continuo_python_runtime.Contract.Value.{Value, Heap, Entries, as_dict}
use continuo_python_runtime.Contract.Columns.{unknown_keys}

abbrev known_entries : List String → Option Entries → Result Entries
known_entries known none = err (value_error "must be a mapping")
known_entries known (some entries) =
    if is_empty (unknown_keys known entries)
    then ok entries
    else err (value_error "unrecognized key(s)")

-- With the entries of the mapping that it accepts.
unfoldable pub ensure_known_keys : Heap → Value → List String → Result Entries
ensure_known_keys h config known = known_entries known (as_dict h config)
