-- ===== src/Duckdb/Session/Redaction.antt =====
-- `_translate` and `_redact` of adapters/duckdb/continuo_duckdb_adapter/infrastructure/session.py: the
-- mask over the credentials in a message; and `secret_texts` of ddl.py.
use continuo_python_runtime.Base.{
  ℕ, zero, suc, ◌-◌, String, Bool, true, false, ◌&&◌, ◌||◌, Option, none, some, List, [], ◌∷◌,
  is_empty, length, any, eqb, leb, if◌then◌else◌,
}
use continuo_python_runtime.Base.Sorting.{Text}
use continuo_python_runtime.Base.Text.{codes}
use continuo_python_runtime.Contract.Types.Grammar.{text_eq}
use continuo_python_runtime.Duckdb.Settings.{DuckLakeSettings}
use continuo_python_runtime.Duckdb.Ddl.{◌<+>◌, replace_char, libpq_value}

unfoldable pub is_prefix : Text → Text → Bool
is_prefix [] s = true
is_prefix (a ∷ p) [] = false
is_prefix (a ∷ p) (c ∷ s) = eqb a c && is_prefix p s

-- Whether the text stands somewhere in the other.
unfoldable pub occurs : Text → Text → Bool
unfolding is_prefix
occurs q [] = is_prefix q []
occurs q (c ∷ s) = is_prefix q (c ∷ s) || occurs q s

-- `message.replace(old, new)`: from the left, past each occurrence of `old`; `skip` more characters
-- belong to the last one.
unfoldable pub replace_from : Text → Text → ℕ → Text → Text
unfolding is_prefix
replace_from old new skip [] = []
replace_from old new (suc skip) (c ∷ s) = replace_from old new skip s
replace_from old new zero (c ∷ s) =
    let here = replace_from old new (length old - 1) s in
    let later = replace_from old new zero s in
    if is_prefix old (c ∷ s) then new <+> here else c ∷ later

abbrev pub mask : Text
mask = codes "***"

-- The loop over the secrets.
unfoldable pub redacted : List Text → Text → Text
unfolding replace_from
redacted [] message = message
redacted (secret ∷ secrets) message =
    redacted secrets (if is_empty secret then message else replace_from secret mask zero message)

abbrev doubled : Text → Text
doubled = replace_char b'\'' (codes "''")

abbrev spellings : Option String → List Text
spellings none = []
spellings (some secret) =
    if is_empty (codes secret)
    then []
    else codes secret
      ∷ libpq_value (codes secret)
      ∷ doubled (libpq_value (codes secret))
      ∷ doubled (codes secret)
      ∷ []

abbrev known : Text → List Text → Bool
known s = any (text_eq s)

-- Longest first, each text once; texts of one length, in Python's unordered set, keep their order here.
unfoldable pub by_length : Text → List Text → List Text
by_length s [] = s ∷ []
by_length s (t ∷ ts) = if leb (length t) (length s) then s ∷ t ∷ ts else t ∷ by_length s ts

abbrev collected : List Text → List Text
collected [] = []
collected (s ∷ ts) = let rest = collected ts in if known s ts then rest else by_length s rest

-- `secret_texts`
unfoldable pub secret_texts : DuckLakeSettings → List Text
unfolding by_length replace_char libpq_value text_eq
secret_texts settings =
    collected
      (spellings (some settings.catalog_password) <+> spellings settings.s3_secret_access_key)
