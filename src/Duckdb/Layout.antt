-- ===== src/Duckdb/Layout.antt =====
-- adapters/duckdb/continuo_duckdb_adapter/domain/layout.py. `str.lower` is a parameter.
pub mod Laws
pub mod Early
use continuo_python_runtime.Base.{
  ℕ, String, ◌==◌, Bool, true, false, not, ◌&&◌, ◌||◌, Option, none, some, List, [], ◌∷◌, map, any,
  is_empty, elem, eqb, leb, is_some, Exception, value_error, Result, ok, err, ◌>>=◌, ◌>>◌, require,
  if◌then◌else◌,
}
use continuo_python_runtime.Contract.Value.{
  Value, null, bool, int, float, str, ref, opaque, pos, negsuc, Heap, Entries, as_list, as_str, get,
  get_or,
}
use continuo_python_runtime.Engine.ConfigKeys.{ensure_known_keys}
use continuo_python_runtime.Duckdb.Domain.{ColumnTypes, identifier, is_temporal_type}

abbrev pub layout_config_keys : List String
layout_config_keys = "partitioned_by" ∷ "sorted_by" ∷ []

abbrev pub partition_entry_keys : List String
partition_entry_keys = "column" ∷ "transform" ∷ "buckets" ∷ []

abbrev pub sort_entry_keys : List String
sort_entry_keys = "column" ∷ "direction" ∷ "nulls" ∷ []

abbrev pub transforms : List String
transforms = "identity" ∷ "bucket" ∷ "year" ∷ "month" ∷ "day" ∷ "hour" ∷ []

abbrev pub temporal_transforms : List String
temporal_transforms = "year" ∷ "month" ∷ "day" ∷ "hour" ∷ []

pub record PartitionKey : Type 0 where
  pub column : String
  pub transform : String
  pub buckets : Option ℕ

pub record SortKey : Type 0 where
  pub column : String
  pub descending : Bool
  pub nulls_first : Option Bool

pub record TableLayout : Type 0 where
  pub partition_keys : List PartitionKey
  pub sort_keys : List SortKey

-- `TableLayout.is_empty`
abbrev pub is_empty_layout : TableLayout → Bool
is_empty_layout layout = is_empty layout.partition_keys && is_empty layout.sort_keys

abbrev pub empty_layout : TableLayout
empty_layout = record { partition_keys = []; sort_keys = [] }

-- The declared type of a column, where it is declared: of two columns the later counts.
unfoldable pub declared : String → ColumnTypes → Option (Option String)
declared name [] = none
declared name ((column, type) ∷ rest) = elim (declared name rest) [
  | some found ↦ some found
  | none ↦ if column == name then some type else none
]

abbrev pub declared_name : ColumnTypes → Option String → Result String
declared_name types none = err (value_error "'column' must be a non-empty column name")
declared_name types (some name) = do
  require (not (name == "")) (value_error "'column' must be a non-empty column name")
  require (is_some (declared name types)) (value_error "names undeclared column")
  ok name

unfoldable pub declared_column : ColumnTypes → Value → Result String
unfolding declared
declared_column types value = declared_name types (as_str value)

abbrev pub no_buckets : Value → Result (Option ℕ)
no_buckets null = ok none
no_buckets _ = err (value_error "'buckets' is only valid with partition transform 'bucket'")

abbrev pub some_buckets : Value → Result (Option ℕ)
some_buckets (int (pos n)) =
    if leb 1 n
    then ok (some n)
    else err (value_error "partition transform 'bucket' requires 'buckets' as a positive integer")
some_buckets _ =
    err (value_error "partition transform 'bucket' requires 'buckets' as a positive integer")

abbrev pub known_transform : Option String → Result String
known_transform none = err (value_error "unsupported partition 'transform'")
known_transform (some t) =
    if elem t transforms then ok t else err (value_error "unsupported partition 'transform'")

-- `PartitionKey(...)` with its checks.
unfoldable pub new_partition_key : String → Value → Value → Result PartitionKey
new_partition_key column transform buckets = do
  t ← known_transform (as_str transform)
  b ← (if t == "bucket" then some_buckets buckets else no_buckets buckets)
  ok (record { column = column; transform = t; buckets = b })

abbrev pub fits_type : Option (Option String) → Bool
fits_type (some (some type)) = is_temporal_type type
fits_type (some none) = true
fits_type none = true

-- An entry that is a text stands for its column.
abbrev pub entry_of : Heap → List String → Value → Result Entries
entry_of h known (str s) = ok ((str "column", str s) ∷ [])
entry_of h known value = ensure_known_keys h value known

unfoldable pub partition_key : Heap → ColumnTypes → Value → Result PartitionKey
unfolding ensure_known_keys declared_column identifier new_partition_key is_temporal_type get
partition_key h types value = do
  entry ← entry_of h partition_entry_keys value
  column ← declared_column types (get_or "column" null entry)
  name ← identifier (str column)
  key ←
      new_partition_key name (get_or "transform" (str "identity") entry)
        (get_or "buckets" null entry)
  require (not (elem key.transform temporal_transforms) || fits_type (declared column types))
      (value_error "partition transform needs a DATE or TIMESTAMP column")
  ok key

abbrev same_buckets : Option ℕ → Option ℕ → Bool
same_buckets none none = true
same_buckets (some a) (some b) = eqb a b
same_buckets none (some b) = false
same_buckets (some a) none = false

abbrev pub same_key : PartitionKey → PartitionKey → Bool
same_key a b =
    (a.column == b.column) && (a.transform == b.transform) && same_buckets a.buckets b.buckets

-- The loop over the entries; `keys` are those before.
unfoldable pub partition_keys_from :
    Heap → ColumnTypes → List PartitionKey → List Value → Result (List PartitionKey)
unfolding partition_key
partition_keys_from h types keys [] = ok []
partition_keys_from h types keys (value ∷ values) = do
  key ← partition_key h types value
  require (not (any (same_key key) keys)) (value_error "duplicate partition key")
  rest ← partition_keys_from h types (key ∷ keys) values
  ok (key ∷ rest)

abbrev pub items : String → Option (List Value) → Result (List Value)
items text none = err (value_error text)
items text (some []) = err (value_error text)
items text (some (v ∷ vs)) = ok (v ∷ vs)

unfoldable pub partition_keys : Heap → ColumnTypes → Value → Result (List PartitionKey)
unfolding partition_keys_from
partition_keys h types raw = do
  values ← items "config 'partitioned_by' must be a non-empty list" (as_list h raw)
  partition_keys_from h types [] values

abbrev pub where_given : {A : Type 0} → (Value → Result (List A)) → Option Value → Result (List A)
where_given parse none = ok []
where_given parse (some raw) = parse raw

-- `{name: None for name in column_names}`
abbrev pub untyped : List String → ColumnTypes
untyped [] = []
untyped (name ∷ names) = (name, none) ∷ untyped names

module _ (lower : String → String) where
  abbrev chosen : List String → Option String → Result String
  chosen allowed none = err (value_error "sort key must be one of the allowed words")
  chosen allowed (some s) =
      if elem (lower s) allowed
      then ok (lower s)
      else err (value_error "sort key must be one of the allowed words")

  unfoldable pub choice_of : List String → Value → Result String
  choice_of allowed value = chosen allowed (as_str value)

  unfoldable pub nulls_of : Value → Result (Option Bool)
  unfolding choice_of
  nulls_of null = ok none
  nulls_of value = do word ← choice_of ("first" ∷ "last" ∷ []) value; ok (some (word == "first"))

  -- The loop over the entries; `seen` holds the columns before.
  unfoldable pub sort_keys_from :
      Heap → ColumnTypes → List String → List Value → Result (List SortKey)
  unfolding ensure_known_keys declared_column identifier choice_of nulls_of get
  sort_keys_from h types seen [] = ok []
  sort_keys_from h types seen (value ∷ values) = do
    entry ← entry_of h sort_entry_keys value
    column ← declared_column types (get_or "column" null entry)
    require (not (elem column seen)) (value_error "duplicate sort column")
    direction ← choice_of ("asc" ∷ "desc" ∷ []) (get_or "direction" (str "asc") entry)
    nulls ← nulls_of (get_or "nulls" null entry)
    name ← identifier (str column)
    rest ← sort_keys_from h types (column ∷ seen) values
    ok (record { column = name; descending = direction == "desc"; nulls_first = nulls } ∷ rest)

  unfoldable pub sort_keys : Heap → ColumnTypes → Value → Result (List SortKey)
  unfolding sort_keys_from
  sort_keys h types raw = do
    values ← items "config 'sorted_by' must be a non-empty list" (as_list h raw)
    sort_keys_from h types [] values

  abbrev pub of_mapping : Heap → ColumnTypes → Value → Result TableLayout
  of_mapping h types config = do
    entries ← ensure_known_keys h config layout_config_keys
    partitions ← where_given (partition_keys h types) (get "partitioned_by" entries)
    sorts ← where_given (sort_keys h types) (get "sorted_by" entries)
    ok (record { partition_keys = partitions; sort_keys = sorts })

  -- `TableLayout.from_config`
  unfoldable pub from_config : Heap → ColumnTypes → Value → Result TableLayout
  unfolding ensure_known_keys partition_keys sort_keys get
  from_config h types null = ok empty_layout
  from_config h types value = of_mapping h types value

  -- `LakeWarehouse.validate_config`: only the names of the columns are known.
  unfoldable pub validate_config_of : Heap → Value → List String → Result TableLayout
  unfolding from_config
  validate_config_of h config column_names = from_config h (untyped column_names) config
