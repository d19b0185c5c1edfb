-- ===== src/Duckdb/Settings.antt =====
-- adapters/duckdb/continuo_duckdb_adapter/infrastructure/settings.py and extensions.py, over an
-- environment given as pairs. `str.lower` is a parameter.
use continuo_python_runtime.Base.{
  ℕ, ◌+◌, ◌*◌, ◌-◌, String, Bool, true, false, not, ◌||◌, ◌&&◌, ◌==◌, Option, none, some, List, [],
  ◌∷◌, all, elem, keep, length, is_some, beq, leb, value_error, Result, ok, err, ◌>>=◌, ◌>>◌,
  require, if◌then◌else◌, starts_with,
}
use continuo_python_runtime.Base.Text.{codes}
use continuo_python_runtime.Harness.Context.{lookup}

abbrev pub url_styles : List String
url_styles = "path" ∷ "vhost" ∷ []

abbrev pub true_words : List String
true_words = "true" ∷ "1" ∷ "yes" ∷ []

abbrev pub false_words : List String
false_words = "false" ∷ "0" ∷ "no" ∷ []

abbrev digit : ℕ → Bool
digit c = leb b'0' c && leb c b'9'

-- `_is_ascii_digits`
abbrev pub is_ascii_digits : String → Bool
is_ascii_digits s = not (s == "") && all digit (codes s)

abbrev pub read_digits : ℕ → List ℕ → ℕ
read_digits n [] = n
read_digits n (c ∷ cs) = read_digits (n * 10 + (c - b'0')) cs

pub record DuckLakeSettings : Type 0 where
  pub catalog_host : String
  pub catalog_port : String
  pub catalog_db : String
  pub catalog_user : String
  pub catalog_password : String
  pub data_path : String
  pub s3_endpoint : Option String
  pub s3_access_key_id : Option String
  pub s3_secret_access_key : Option String
  pub s3_region : String
  pub s3_url_style : String
  pub s3_use_ssl : Bool
  pub extension_directory : Option String
  pub temp_directory : Option String
  pub data_inlining_row_limit : Option ℕ

abbrev pub uses_s3 : DuckLakeSettings → Bool
uses_s3 settings = starts_with settings.data_path "s3://"

abbrev pub Env : Type 0
Env = List (String × String)

abbrev when_full : Option String → Option String
when_full none = none
when_full (some s) = if s == "" then none else some s

-- `optional`
abbrev pub optional : Env → String → Option String
optional env name = when_full (lookup name env)

abbrev or_else : String → Option String → String
or_else default none = default
or_else default (some s) = s

abbrev given : String → Option String → Result String
given name none = err (value_error "missing required env var")
given name (some s) = ok s

-- `need`
abbrev pub need : Env → String → Result String
need env name = given name (optional env name)

abbrev pub limit_of : Option String → Result (Option ℕ)
limit_of none = ok none
limit_of (some s) = do
  require (is_ascii_digits s)
      (value_error "DUCKDB_DATA_INLINING_ROW_LIMIT must be a non-negative integer")
  ok (some (read_digits 0 (codes s)))

-- `int(limit_raw)` refuses more than 4300 digits, after all the other checks.
abbrev convertible : Option String → Bool
convertible none = true
convertible (some s) = leb (length (codes s)) 4300

abbrev style_default : Option String → String
style_default none = "vhost"
style_default (some endpoint) = "path"

module _ (lower : String → String) where
  -- `DuckLakeSettings.from_env`
  unfoldable pub settings_from_env : Env → Result DuckLakeSettings
  unfolding lookup
  settings_from_env env = do
    require (is_ascii_digits (or_else "5432" (optional env "DUCKDB_CATALOG_PORT")))
        (value_error "DUCKDB_CATALOG_PORT must be a port number")
    limit ← limit_of (optional env "DUCKDB_DATA_INLINING_ROW_LIMIT")
    require
        (elem
          (or_else (style_default (optional env "DUCKDB_S3_ENDPOINT"))
            (optional env "DUCKDB_S3_URL_STYLE"))
          url_styles)
        (value_error "DUCKDB_S3_URL_STYLE must be one of the url styles")
    require
        (elem (lower (or_else "true" (optional env "DUCKDB_S3_USE_SSL"))) true_words
          || elem (lower (or_else "true" (optional env "DUCKDB_S3_USE_SSL"))) false_words)
        (value_error "DUCKDB_S3_USE_SSL must be a truth word")
    require
        (beq (is_some (optional env "DUCKDB_S3_ACCESS_KEY_ID"))
          (is_some (optional env "DUCKDB_S3_SECRET_ACCESS_KEY")))
        (value_error "set both or neither of the S3 keys")
    host ← need env "DUCKDB_CATALOG_HOST"
    db ← need env "DUCKDB_CATALOG_DB"
    user ← need env "DUCKDB_CATALOG_USER"
    data_path ← need env "DUCKDB_DATA_PATH"
    require (convertible (optional env "DUCKDB_DATA_INLINING_ROW_LIMIT"))
        (value_error "Exceeds the limit for integer string conversion")
    ok (record {
      catalog_host = host;
      catalog_port = or_else "5432" (optional env "DUCKDB_CATALOG_PORT");
      catalog_db = db;
      catalog_user = user;
      catalog_password = or_else "" (lookup "DUCKDB_CATALOG_PASSWORD" env);
      data_path = data_path;
      s3_endpoint = optional env "DUCKDB_S3_ENDPOINT";
      s3_access_key_id = optional env "DUCKDB_S3_ACCESS_KEY_ID";
      s3_secret_access_key = optional env "DUCKDB_S3_SECRET_ACCESS_KEY";
      s3_region = or_else "us-east-1" (optional env "DUCKDB_S3_REGION");
      s3_url_style =
          or_else (style_default (optional env "DUCKDB_S3_ENDPOINT"))
            (optional env "DUCKDB_S3_URL_STYLE");
      s3_use_ssl = elem (lower (or_else "true" (optional env "DUCKDB_S3_USE_SSL"))) true_words;
      extension_directory = optional env "DUCKDB_EXTENSION_DIRECTORY";
      temp_directory = optional env "DUCKDB_TEMP_DIRECTORY";
      data_inlining_row_limit = limit;
    })

abbrev pub extensions : List String
extensions = "ducklake" ∷ "postgres" ∷ "httpfs" ∷ "aws" ∷ []

abbrev pub filled : Option String → Bool
filled none = false
filled (some s) = not (s == "")

-- `extensions_to_load`
unfoldable pub extensions_to_load : DuckLakeSettings → List String
extensions_to_load settings =
    keep
      (λ name.
        not (name == "aws")
        || (uses_s3 settings
            && not (filled settings.s3_access_key_id && filled settings.s3_secret_access_key)))
      extensions
