-- ===== src/Contract/CsvSource.antt =====
-- continuo_python_runtime/csv_source.py: the grammar of a csv source and the header rule.
pub mod Laws
use continuo_python_runtime.Base.{
  ℕ, ltb, eqb, length, String, ◌==◌, starts_with, not, ◌||◌, none, some, List, [], ◌∷◌, value_error,
  Result, ok, err, elem, keep, is_empty, if◌then◌else◌,
}
use continuo_python_runtime.Base.Text.{partition, drop}
use continuo_python_runtime.Contract.Value.{Value, as_str}

pub record CsvUri : Type 0 where
  pub scheme : String
  pub raw : String
  pub bucket : String
  pub key : String

abbrev bad_uri : Result CsvUri
bad_uri = err (value_error "invalid csv uri: must be s3://bucket/key or https://...")

unfoldable pub parse_s3 : String → Result CsvUri
unfolding partition drop
parse_s3 uri =
    let (bucket, key) = partition b'/' (drop 5 uri) in
    if bucket == "" || key == ""
    then err (value_error "invalid s3 csv uri (missing bucket or key)")
    else ok (record { scheme = "s3"; raw = uri; bucket = bucket; key = key })

unfoldable pub parse_https : String → Result CsvUri
unfolding partition drop
parse_https uri =
    if (partition b'/' (drop 8 uri)).0 == ""
    then bad_uri
    else ok (record { scheme = "https"; raw = uri; bucket = ""; key = "" })

unfoldable pub parse_csv_uri : Value → Result CsvUri
unfolding parse_s3 parse_https
parse_csv_uri value = elim (as_str value) [
  | none ↦ err (value_error "csv uri must be a string")
  | some uri ↦
      if starts_with uri "s3://"
      then parse_s3 uri
      else if starts_with uri "https://"
      then parse_https uri
      else bad_uri
]

abbrev pub max_header_bytes : ℕ
max_header_bytes = 1048576

-- `data.split(b"\n", 1)[0]`
unfoldable pub first_line : List ℕ → List ℕ
first_line [] = []
first_line (b ∷ rest) = if eqb b 10 then [] else b ∷ first_line rest

abbrev pub cons_kept : ℕ → List ℕ → List ℕ
cons_kept b [] = if eqb b 13 then [] else b ∷ []
cons_kept b (c ∷ line) = b ∷ c ∷ line

-- `line.rstrip(b"\r")`
unfoldable pub strip_cr : List ℕ → List ℕ
strip_cr [] = []
strip_cr (b ∷ line) = cons_kept b (strip_cr line)

-- `decode` is the `utf-8-sig` codec.
unfoldable pub extract_header_line : (List ℕ → Result String) → List ℕ → Result String
unfolding first_line strip_cr
extract_header_line decode bytes =
    let line = first_line bytes in
    if ltb max_header_bytes (length line)
    then err (value_error "csv header line exceeds 1048576 bytes")
    else decode (strip_cr line)

-- `list(set(names))`, each name once.
unfoldable pub unique : List String → List String
unique [] = []
unique (x ∷ xs) = if elem x xs then unique xs else x ∷ unique xs

-- The header columns that are not declared; every declared column has to be in the header.
unfoldable pub check_header : List String → List String → Result (List String)
unfolding unique
check_header header_cols declared_cols =
    if is_empty (keep (λ c. not (elem c header_cols)) declared_cols)
    then ok (keep (λ c. not (elem c declared_cols)) (unique header_cols))
    else err (value_error "csv header missing declared column(s)")
