-- ===== src/Contract/Fields.antt =====
-- The scalar fields of a node: the checks that `parse_node` makes in line, one function for each,
-- in continuo_python_runtime/contract/loader.py.
pub mod Laws
use continuo_python_runtime.Base.{
  ℕ, String, ◌==◌, ◌<>◌, Bool, true, false, ◌&&◌, ◌||◌, not, Option, none, some, List, [], ◌∷◌,
  Exception, contract_error, Result, ok, err, ◌>>=◌, ◌>>◌, require, elem, is_some, leb,
  if◌then◌else◌,
}
use continuo_python_runtime.Base.Text.{is_blank}
use continuo_python_runtime.Contract.Value.{
  Value, null, str, int, ℤ, pos, negsuc, bool, float, ref, opaque, Entries, as_str, get, get_or,
}
use continuo_python_runtime.Contract.Model.{
  criticalities, extra_columns_policies, mode_types, default_mode_type,
}
use continuo_python_runtime.Contract.SecretRef.{validate_secret_ref}
use continuo_python_runtime.Contract.Kinds.{KindRules, non_empty_string}

abbrev pub allowed_keys : List String
allowed_keys =
    "schema" ∷ "table" ∷ "description" ∷ "owner" ∷ "schedule" ∷ "criticality" ∷ "kind" ∷ "script"
    ∷ "extra_columns" ∷ "reads" ∷ "output_columns" ∷ "config" ∷ "content_hash" ∷ "secret_ref"
    ∷ "mode_type" ∷ "primary_key" ∷ "timeout_minutes" ∷ []

abbrev pub min_timeout_minutes : ℕ
min_timeout_minutes = 1

abbrev pub max_timeout_minutes : ℕ
max_timeout_minutes = 10080

abbrev full_label : String → Option String → Option String → String
full_label source (some schema) (some table) =
    if schema == "" || table == "" then source else source <> " (" <> schema <> "." <> table <> ")"
full_label source _ _ = source

-- `_node_label`
unfoldable pub node_label : Entries → String → String
unfolding get
node_label raw source =
    full_label source (as_str (get_or "schema" null raw)) (as_str (get_or "table" null raw))

module _ (raw : Entries) (label : String) where
  unfoldable pub required_string : String → Result String
  unfolding get is_blank
  required_string field =
      non_empty_string (get_or field null raw)
        (contract_error label "required field must be a non-empty string")

  unfoldable pub script_of : KindRules → Result String
  unfolding required_string
  script_of rules =
      if rules.script_required
      then required_string "script"
      else if is_some (get "script" raw)
      then err (contract_error label "'script' is forbidden for kind")
      else ok ""

  -- A string out of a list of choices.
  unfoldable pub choice : List String → String → Value → Result String
  choice allowed text v = elim (as_str v) [
    | none ↦ err (contract_error label text)
    | some s ↦ if elem s allowed then ok s else err (contract_error label text)
  ]

  unfoldable pub criticality_of : Result String
  unfolding get
  criticality_of =
      choice criticalities "'criticality' must be one of CORE, REGULATORY, SECONDARY"
        (get_or "criticality" null raw)

  unfoldable pub extra_columns_of : Result String
  unfolding get
  extra_columns_of =
      choice extra_columns_policies "'extra_columns' must be one of raise, warn"
        (get_or "extra_columns" (str "raise") raw)

  unfoldable pub secret_ref_of : KindRules → Result String
  unfolding get
  secret_ref_of rules = elim (get "secret_ref" raw) [
    | none ↦ ok ""
    | some v ↦
        if rules.secret_allowed
        then validate_secret_ref v label
        else err (contract_error label "'secret_ref' is not allowed for kind")
  ]

  abbrev timeout_error : Result (Option ℕ)
  timeout_error =
      err (contract_error label "'timeout_minutes' must be an integer between 1 and 10080")

  -- `type(x) is int`: a bool is refused too.
  abbrev timeout_value : Value → Result (Option ℕ)
  timeout_value (int (pos n)) =
      if leb min_timeout_minutes n && leb n max_timeout_minutes then ok (some n) else timeout_error
  timeout_value (int (negsuc n)) = timeout_error
  timeout_value null = timeout_error
  timeout_value (bool b) = timeout_error
  timeout_value (float n) = timeout_error
  timeout_value (str s) = timeout_error
  timeout_value (ref i) = timeout_error
  timeout_value (opaque class) = timeout_error

  unfoldable pub timeout_of : Result (Option ℕ)
  unfolding get
  timeout_of = elim (get "timeout_minutes" raw) [ none ↦ ok none | some v ↦ timeout_value v ]

  unfoldable pub mode_type_of : KindRules → Result String
  unfolding get
  mode_type_of rules = do
    mode ←
        choice mode_types "'mode_type' must be one of append, replace, upsert"
          (get_or "mode_type" (str default_mode_type) raw)
    require (elem mode rules.mode_types)
        (contract_error label "'mode_type' is not allowed for kind")
    ok mode

  unfoldable pub description_of : Result String
  unfolding get
  description_of = elim (as_str (get_or "description" (str "") raw)) [
    | none ↦ err (contract_error label "'description' must be a string")
    | some s ↦ ok s
  ]

  abbrev hash_value : Value → Result (Option String)
  hash_value null = ok none
  hash_value (str s) = ok (some s)
  hash_value _ = err (contract_error label "'content_hash' must be a string")

  unfoldable pub content_hash_of : Result (Option String)
  unfolding get
  content_hash_of = hash_value (get_or "content_hash" null raw)
