-- ===== src/Contract/Config.antt =====
-- `_validate_config` of continuo_python_runtime/contract/loader.py: a walk over the object graph
-- that tells a cycle from a shared object. `active` holds the containers that are being descended
-- into; the source adds an id before the descent and discards it after.
pub mod Json
mod Ends
mod Accepts
pub mod Laws
use continuo_python_runtime.Base.{
  ℕ, zero, suc, String, Bool, true, false, ◌&&◌, ◌||◌, Option, none, some, List, [], ◌∷◌, Exception,
  contract_error, other_error, Result, ok, err, ◌>>=◌, ◌>>◌, eqb, is_some, if◌then◌else◌,
}
use continuo_python_runtime.Contract.Value.{
  Value, null, bool, int, float, str, ref, opaque, Object, mapping, sequence, Heap, Entries,
  as_dict, as_str,
}

abbrev pub active_in : ℕ → List ℕ → Bool
active_in i [] = false
active_in i (j ∷ js) = eqb i j || active_in i js

-- The call stack is exhausted.
abbrev pub recursion_error : Exception
recursion_error = other_error "RecursionError"

module _ (h : Heap) (label : String) where
  -- The loop over the items of a mapping; `check` is the recursive call.
  unfoldable pub check_entries : (Value → Result (Unit {0})) → Entries → Result (Unit {0})
  unfolding ◌>>=◌
  check_entries check [] = ok tt
  check_entries check ((k, v) ∷ rest) =
      if is_some (as_str k)
      then (check v >> check_entries check rest)
      else err (contract_error label "'config' keys must be strings")

  unfoldable pub check_items : (Value → Result (Unit {0})) → List Value → Result (Unit {0})
  unfolding ◌>>=◌
  check_items check [] = ok tt
  check_items check (v ∷ rest) = check v >> check_items check rest

  unfoldable pub check_object : (Value → Result (Unit {0})) → Object → Result (Unit {0})
  check_object check (mapping entries) = check_entries check entries
  check_object check (sequence items) = check_items check items

  -- `_check`, with fuel for the depth of its calls.
  unfoldable pub check_value : ℕ → List ℕ → Value → Result (Unit {0})
  check_value zero active v = err recursion_error
  check_value (suc fuel) active (ref i) = elim (active_in i active) [
    | true ↦ err (contract_error label "'config' contains a circular reference")
    | false ↦ check_object (λ v. check_value fuel (i ∷ active) v) (h.object i)
  ]
  check_value (suc fuel) active (opaque class) =
      err (contract_error label "'config' value is not JSON-serializable")
  check_value (suc fuel) active null = ok tt
  check_value (suc fuel) active (bool b) = ok tt
  check_value (suc fuel) active (int n) = ok tt
  check_value (suc fuel) active (float n) = ok tt
  check_value (suc fuel) active (str s) = ok tt

  -- Every call but the last stands in a container of its own, so this fuel is enough.
  abbrev pub depth : ℕ
  depth = suc (suc h.size)

  abbrev pub check_root : Value → Option Entries → Result Entries
  check_root v none = err (contract_error label "'config' must be a mapping")
  check_root v (some entries) = check_value depth [] v >> ok entries

  unfoldable pub validate_config : Value → Result Entries
  unfolding ◌>>=◌
  validate_config null = ok []
  validate_config (bool b) = check_root (bool b) none
  validate_config (int n) = check_root (int n) none
  validate_config (float n) = check_root (float n) none
  validate_config (str s) = check_root (str s) none
  validate_config (ref i) = check_root (ref i) (as_dict h (ref i))
  validate_config (opaque class) = check_root (opaque class) none
