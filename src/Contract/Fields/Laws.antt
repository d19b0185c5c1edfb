-- ===== src/Contract/Fields/Laws.antt =====
-- What each accepted scalar field satisfies.
use continuo_python_runtime.Base.{
  ℕ, ◌≤◌, String, ◌≡◌, true, false, Option, none, some, List, arith, Result, ok, >>=-eq-ok,
  ok-injective, require-eq-ok, elem,
}
use continuo_python_runtime.Base.Text.{is_blank}
use continuo_python_runtime.Contract.Value.{
  Value, null, bool, int, pos, negsuc, float, str, ref, opaque, Entries, get,
}
use continuo_python_runtime.Contract.Kinds.{KindRules}
use continuo_python_runtime.Contract.Fields.{
  required_string, script_of, choice, secret_ref_of, timeout_of, timeout_value, mode_type_of,
  max_timeout_minutes,
}

module _ (raw : Entries) (label : String) where
  pub required_string-not-blank :
      (field : String) {s : String} → required_string raw label field ≡ ok s → is_blank s ≡ false
  unfolding required_string
  required_string-not-blank field e = ground arith

  pub choice-elem :
      (allowed : List String) (text : String) (v : Value) {s : String}
      → choice raw label allowed text v ≡ ok s
      → elem s allowed ≡ true
  unfolding choice
  choice-elem allowed text v e = ground arith

  pub script_of-required :
      (rules : KindRules) {s : String}
      → rules.script_required ≡ true
      → script_of raw label rules ≡ ok s
      → is_blank s ≡ false
  unfolding script_of
  script_of-required rules yes_ e = required_string-not-blank "script" (rw yes_ at e)

  pub script_of-forbidden :
      (rules : KindRules) {s : String}
      → rules.script_required ≡ false
      → script_of raw label rules ≡ ok s
      → s ≡ ""
  unfolding script_of
  script_of-forbidden rules no_ e = ground arith

  timeout_value-bounds :
      (v : Value) (t : ℕ)
      → timeout_value raw label v ≡ ok (some t)
      → (1 ≤ t) × (t ≤ max_timeout_minutes)
  timeout_value-bounds (int (pos n)) t e = ground arith
  timeout_value-bounds (int (negsuc n)) t e = cc
  timeout_value-bounds null t e = cc
  timeout_value-bounds (bool b) t e = cc
  timeout_value-bounds (float n) t e = cc
  timeout_value-bounds (str s) t e = cc
  timeout_value-bounds (ref i) t e = cc
  timeout_value-bounds (opaque c) t e = cc

  pub timeout_of-bounds :
      (t : ℕ) → timeout_of raw label ≡ ok (some t) → (1 ≤ t) × (t ≤ max_timeout_minutes)
  unfolding timeout_of
  timeout_of-bounds t e = go (get "timeout_minutes" raw) e
    where
      go :
          (o : Option Value)
          → (elim o as (λ _. Result (Option ℕ)) [
            | none ↦ ok none
            | some v ↦ timeout_value raw label v
          ])
            ≡ ok (some t)
          → (1 ≤ t) × (t ≤ max_timeout_minutes)
      go none e = cc
      go (some v) e = timeout_value-bounds v t e

  pub mode_type_of-elem :
      (rules : KindRules) {s : String}
      → mode_type_of raw label rules ≡ ok s
      → elem s rules.mode_types ≡ true
  unfolding mode_type_of
  mode_type_of-elem rules e =
      let (m, _, e1) = >>=-eq-ok _ _ e in
      let (_, allowed, e2) = >>=-eq-ok _ _ e1 in rw (← ok-injective e2) (require-eq-ok _ _ allowed)

  pub secret_ref_of-forbidden :
      (rules : KindRules) {s : String}
      → rules.secret_allowed ≡ false
      → secret_ref_of raw label rules ≡ ok s
      → s ≡ ""
  unfolding secret_ref_of
  secret_ref_of-forbidden rules no_ e = ground arith
