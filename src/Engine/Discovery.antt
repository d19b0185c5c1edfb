-- ===== src/Engine/Discovery.antt =====
-- `discover_adapter` of contract/continuo_engine_contract/port.py.
use continuo_python_runtime.Base.{
  String, Bool, List, [], ◌∷◌, Exception, other_error, Result, ok, err, if◌then◌else◌,
}

-- An entry point of the group: what loading it gives, and whether that is an adapter class.
pub record EntryPoint (C : Type 0) : Type 0 where
  pub name : String
  pub load : Result C
  pub is_adapter_class : C → Bool

abbrev discovery_error : String → Exception
discovery_error = other_error

abbrev checked_class : {C : Type 0} → EntryPoint C → Result C → Result (String × C)
checked_class ep (err e) = err (discovery_error "failed to load adapter entry point")
checked_class ep (ok cls) =
    if ep.is_adapter_class cls
    then ok (ep.name, cls)
    else err (discovery_error "entry point does not resolve to a WarehouseAdapter subclass")

unfoldable pub discover_adapter : {C : Type 0} → List (EntryPoint C) → Result (String × C)
discover_adapter [] = err (discovery_error "no engine adapter installed")
discover_adapter (ep ∷ []) = checked_class ep ep.load
discover_adapter (ep ∷ other ∷ rest) = err (discovery_error "multiple engine adapters installed")
