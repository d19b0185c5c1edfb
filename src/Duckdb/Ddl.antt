-- ===== src/Duckdb/Ddl.antt =====
-- adapters/duckdb/continuo_duckdb_adapter/infrastructure/ddl.py: quoting, and the statements that
-- open a session. Those on tables stand in Tables. A statement is a list of code points.
pub mod Tables
pub mod Reading
pub mod Quoting
use continuo_python_runtime.Base.{
  ℕ, zero, suc, ◌+◌, ◌/◌, ◌%◌, String, Bool, true, false, ◌&&◌, ◌||◌, not, Option, none, some, List,
  [], ◌∷◌, map, all, elem, eqb, leb, ltb, is_empty, if◌then◌else◌,
}
use continuo_python_runtime.Base.Sorting.{Text}
use continuo_python_runtime.Base.Text.{codes}
use continuo_python_runtime.Contract.Types.Grammar.{text_eq}
use continuo_python_runtime.Duckdb.Settings.{DuckLakeSettings, filled}

-- One text after another, grouped to the right.
infixr 65 ◌<+>◌
abbrev pub ◌<+>◌ {ℓ} : {A : Type ℓ} → List A → List A → List A
[] <+> ys = ys
(x ∷ xs) <+> ys = x ∷ (xs <+> ys)

-- `s.replace(c, text)` for a text `c` of one character.
unfoldable pub replace_char : ℕ → Text → Text → Text
replace_char c text [] = []
replace_char c text (d ∷ s) =
    if eqb d c then text <+> replace_char c text s else d ∷ replace_char c text s

-- `sep.join(texts)`
unfoldable pub join_texts : Text → List Text → Text
join_texts sep [] = []
join_texts sep (x ∷ []) = x
join_texts sep (x ∷ y ∷ xs) = x <+> sep <+> join_texts sep (y ∷ xs)

-- The text between two `q`, with each `q` in it doubled.
unfoldable pub enclose : ℕ → Text → Text
unfolding replace_char
enclose q s = q ∷ (replace_char q (q ∷ q ∷ []) s <+> q ∷ [])

abbrev pub quote_identifier : String → Text
quote_identifier name = enclose b'"' (codes name)

abbrev pub sql_literal : Text → Text
sql_literal value = enclose b'\'' value

abbrev lower_code : ℕ → ℕ
lower_code c = if leb b'A' c && leb c b'Z' then c + 32 else c

-- Whether DuckDB resolves two names to one: it folds the ASCII letters only.
unfoldable pub same_identifier : String → String → Bool
unfolding text_eq
same_identifier left right = text_eq (map lower_code (codes left)) (map lower_code (codes right))

abbrev pub load_extension : String → Text
load_extension name = codes "LOAD " <+> quote_identifier name

abbrev pub install_extension : String → Text
install_extension name = codes "INSTALL " <+> quote_identifier name

abbrev pub set_extension_directory : String → Text
set_extension_directory directory =
    codes "SET extension_directory = " <+> sql_literal (codes directory)

abbrev pub set_temp_directory : String → Text
set_temp_directory directory = codes "SET temp_directory = " <+> sql_literal (codes directory)

abbrev pub disable_extension_autoinstall : Text
disable_extension_autoinstall = codes "SET autoinstall_known_extensions = false"

abbrev pub use_catalog : String → Text
use_catalog catalog = codes "USE " <+> quote_identifier catalog

-- `[A-Za-z0-9_.:/\-]`
abbrev pub is_bare : ℕ → Bool
is_bare c =
    (leb b'A' c && leb c b'Z')
    || (leb b'a' c && leb c b'z')
    || (leb b'-' c && leb c b':')
    || eqb c b'_'

-- `_libpq_value`
unfoldable pub libpq_value : Text → Text
unfolding replace_char
libpq_value value =
    if all is_bare value && not (is_empty value)
    then value
    else b'\''
      ∷ (replace_char b'\'' (codes "\\'") (replace_char b'\\' (codes "\\\\") value) <+> b'\'' ∷ [])

-- `key=value`, with a blank between two.
unfoldable pub conninfo : List (String × String) → Text
unfolding libpq_value
conninfo [] = []
conninfo ((key, value) ∷ []) = codes key <+> b'=' ∷ libpq_value (codes value)
conninfo ((key, value) ∷ next ∷ rest) =
    codes key <+> b'=' ∷ (libpq_value (codes value) <+> b' ' ∷ conninfo (next ∷ rest))

-- `passfile` unless there is none or its path is empty.
abbrev pub credential : DuckLakeSettings → Option String → String × String
credential settings none = ("password", settings.catalog_password)
credential settings (some path) =
    if filled (some path) then ("passfile", path) else ("password", settings.catalog_password)

abbrev pub connection_pairs : DuckLakeSettings → Option String → List (String × String)
connection_pairs settings passfile =
    ("host", settings.catalog_host)
    ∷ ("port", settings.catalog_port)
    ∷ ("dbname", settings.catalog_db)
    ∷ ("user", settings.catalog_user)
    ∷ credential settings passfile
    ∷ []

-- `str(n)`
abbrev decimal_from : ℕ → ℕ → Text → Text
decimal_from zero n after = after
decimal_from (suc fuel) n after =
    if ltb n 10 then (b'0' + n) ∷ after else decimal_from fuel (n / 10) ((b'0' + n % 10) ∷ after)

unfoldable pub decimal : ℕ → Text
decimal n = decimal_from (suc n) n []

abbrev limit_option : Option ℕ → List Text
limit_option none = []
limit_option (some n) = (codes "DATA_INLINING_ROW_LIMIT " <+> decimal n) ∷ []

unfoldable pub attach_statement : DuckLakeSettings → String → Option String → Text
unfolding conninfo decimal join_texts enclose
attach_statement settings catalog passfile =
    codes "ATTACH "
    <+> sql_literal (codes "ducklake:postgres:" <+> conninfo (connection_pairs settings passfile))
    <+> codes " AS "
    <+> quote_identifier catalog
    <+> codes " ("
    <+> join_texts (codes ", ") (
        (codes "DATA_PATH " <+> sql_literal (codes settings.data_path))
        ∷ limit_option settings.data_inlining_row_limit)
    <+> codes ")"

abbrev text_of : Option String → String
text_of none = ""
text_of (some s) = s

-- The secret's credentials: the keys where both are given, else the chain of providers.
abbrev pub secret_credentials : DuckLakeSettings → List Text
secret_credentials settings =
    if filled settings.s3_access_key_id && filled settings.s3_secret_access_key
    then (codes "KEY_ID " <+> sql_literal (codes (text_of settings.s3_access_key_id)))
      ∷ (codes "SECRET " <+> sql_literal (codes (text_of settings.s3_secret_access_key)))
      ∷ []
    else codes "PROVIDER credential_chain" ∷ []

abbrev endpoint_part : Option String → List Text
endpoint_part endpoint =
    if filled endpoint
    then (codes "ENDPOINT " <+> sql_literal (codes (text_of endpoint))) ∷ []
    else []

unfoldable pub s3_secret_statement : DuckLakeSettings → Text
unfolding join_texts enclose
s3_secret_statement settings =
    codes "CREATE OR REPLACE SECRET continuo_s3 ("
    <+> join_texts (codes ", ") (
        (codes "TYPE S3" ∷ secret_credentials settings)
        <+> endpoint_part settings.s3_endpoint
        <+> (codes "REGION " <+> sql_literal (codes settings.s3_region))
          ∷ (codes "URL_STYLE " <+> sql_literal (codes settings.s3_url_style))
          ∷ (codes "USE_SSL " <+> codes (if settings.s3_use_ssl then "true" else "false"))
          ∷ [])
    <+> codes ")"
