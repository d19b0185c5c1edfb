-- ===== src/Contract/SecretRef.antt =====
-- continuo_python_runtime/contract/secret_ref.py
pub mod Laws
use continuo_python_runtime.Base.{
  ℕ, String, Bool, true, false, ◌&&◌, ◌||◌, Option, none, some, [], ◌∷◌, contract_error, Result, ok,
  err, leb, eqb, length, if◌then◌else◌,
}
use continuo_python_runtime.Base.Text.{codes}
use continuo_python_runtime.Contract.Value.{Value, as_str}
use continuo_python_runtime.Contract.Types.Grammar.{Codes, drop_prefix}

abbrev pub secret_ref_max_len : ℕ
secret_ref_max_len = 253

-- `[a-z0-9]`
abbrev pub is_alnum : ℕ → Bool
is_alnum c = (leb b'a' c && leb c b'z') || (leb b'0' c && leb c b'9')

-- `([-a-z0-9]*[a-z0-9])?` up to the end; the flag tells whether the text may end here.
unfoldable pub name_rest : Bool → Codes → Bool
name_rest ends [] = ends
name_rest ends (c ∷ s) = (is_alnum c || eqb c b'-') && name_rest (is_alnum c) s

-- `[a-z0-9]([-a-z0-9]*[a-z0-9])?`
unfoldable pub is_name : Codes → Bool
unfolding name_rest
is_name [] = false
is_name (c ∷ s) = is_alnum c && name_rest true s

abbrev on_rest : Option Codes → Bool
on_rest none = false
on_rest (some rest) = is_name rest

-- `SECRET_REF_PATTERN.fullmatch`
unfoldable pub matches_secret_ref : Codes → Bool
unfolding is_name drop_prefix
matches_secret_ref s = on_rest (drop_prefix (codes "continuo-api-") s)

abbrev secret_error : String → Result String
secret_error label = err (
    contract_error label
      "'secret_ref' must be a Kubernetes Secret name starting with 'continuo-api-'")

unfoldable pub validate_secret_ref : Value → String → Result String
unfolding matches_secret_ref
validate_secret_ref value label = elim (as_str value) [
  | none ↦ secret_error label
  | some s ↦
      if leb (length (codes s)) secret_ref_max_len && matches_secret_ref (codes s)
      then ok s
      else secret_error label
]
