-- ===== src/Postgres/Indexes.antt =====
-- `_validated_indexes` of adapters/postgres/continuo_postgres_adapter/adapter.py.
pub mod Laws
use continuo_python_runtime.Base.{
  String, ◌==◌, Bool, true, false, not, ◌&&◌, ◌||◌, Option, none, some, List, [], ◌∷◌, all, elem,
  is_empty, length, ltb, Exception, value_error, Result, ok, err, ◌>>=◌, ◌>>◌, require,
  if◌then◌else◌,
}
use continuo_python_runtime.Contract.Value.{
  Value, null, bool, int, float, str, ref, opaque, Heap, Entries, as_dict, as_list, as_bool, as_str,
  get, get_or,
}
use continuo_python_runtime.Engine.ConfigKeys.{ensure_known_keys}
use continuo_python_runtime.Postgres.Identifiers.{truncate_explicit_identifier, index_name}

abbrev pub known_config_keys : List String
known_config_keys = "indexes" ∷ []

abbrev pub known_index_keys : List String
known_index_keys = "columns" ∷ "unique" ∷ "type" ∷ "name" ∷ []

abbrev pub index_types : List String
index_types = "brin" ∷ "btree" ∷ "gin" ∷ "gist" ∷ "hash" ∷ "spgist" ∷ []

-- An entry of the list that `_validated_indexes` returns.
pub record Index : Type 0 where
  pub columns : List String
  pub unique : Bool
  pub type : String
  pub name : String

-- `all(isinstance(c, str) and c for c in columns)`, with the texts.
unfoldable pub names_of : List Value → Option (List String)
names_of [] = some []
names_of (v ∷ vs) =
    let rest = names_of vs in
    elim (as_str v) [
      | none ↦ none
      | some s ↦ if s == "" then none else elim rest [ none ↦ none | some names ↦ some (s ∷ names) ]
    ]

abbrev bad_columns : Exception
bad_columns = value_error "index 'columns' must be a non-empty list of column names"

abbrev non_empty : Option (List String) → Result (List String)
non_empty none = err bad_columns
non_empty (some []) = err bad_columns
non_empty (some (c ∷ cs)) = ok (c ∷ cs)

abbrev columns_in : Option (List Value) → Result (List String)
columns_in none = err bad_columns
columns_in (some values) = non_empty (names_of values)

unfoldable pub index_columns : Heap → Entries → Result (List String)
unfolding names_of get
index_columns h entry = columns_in (as_list h (get_or "columns" null entry))

abbrev given : {A : Type 0} → Option A → Exception → Result A
given none problem = err problem
given (some a) problem = ok a

abbrev known_type : Option String → Result String
known_type none = err (value_error "unsupported index 'type'")
known_type (some t) =
    if elem t index_types then ok t else err (value_error "unsupported index 'type'")

unfoldable pub index_type : Entries → Result String
unfolding get
index_type entry = known_type (as_str (get_or "type" (str "btree") entry))

module _ (hexdigest : String → String) (table : String) (column_names : List String) where
  abbrev explicit_name : Option String → Result String
  explicit_name none = err (value_error "index 'name' must be a non-empty string")
  explicit_name (some name) =
      if name == ""
      then err (value_error "index 'name' must be a non-empty string")
      else ok (truncate_explicit_identifier name)

  unfoldable pub name_or_default : List String → Value → Result String
  unfolding truncate_explicit_identifier index_name
  name_or_default columns null = ok (index_name hexdigest table columns)
  name_or_default columns value = explicit_name (as_str value)

  -- The body of the loop.
  unfoldable pub normalized_index : Heap → Value → Result Index
  unfolding ensure_known_keys index_columns index_type name_or_default get
  normalized_index h value = do
    entry ← ensure_known_keys h value known_index_keys
    columns ← index_columns h entry
    require (all (λ c. elem c column_names) columns) (value_error "index on undeclared column(s)")
    unique ←
        given (as_bool (get_or "unique" (bool false) entry))
          (value_error "index 'unique' must be a boolean")
    type ← index_type entry
    require (not unique || (type == "btree")) (value_error "index 'unique' requires type 'btree'")
    require (not (type == "hash") || not (ltb 1 (length columns)))
        (value_error "index 'type' indexes a single column")
    name ← name_or_default columns (get_or "name" null entry)
    ok (record { columns = columns; unique = unique; type = type; name = name })

  unfoldable pub normalized_indexes : Heap → List Value → Result (List Index)
  unfolding normalized_index
  normalized_indexes h [] = ok []
  normalized_indexes h (value ∷ values) = do
    index ← normalized_index h value
    rest ← normalized_indexes h values
    ok (index ∷ rest)

  -- The loop over `seen_names`.
  unfoldable pub check_names : List String → List Index → Result (Unit {0})
  check_names seen [] = ok tt
  check_names seen (index ∷ rest) = do
    require (not (elem index.name seen)) (value_error "duplicate index name")
    check_names (index.name ∷ seen) rest

  abbrev in_list : Heap → Option (List Value) → Result (List Index)
  in_list h none = err (value_error "config 'indexes' must be a list")
  in_list h (some values) = do
    indexes ← normalized_indexes h values
    check_names [] indexes
    ok indexes

  -- `config.get("indexes", [])` on the mapping.
  abbrev in_config : Heap → Option Value → Result (List Index)
  in_config h none = in_list h (some [])
  in_config h (some value) = in_list h (as_list h value)

  abbrev in_mapping : Heap → Value → Result (List Index)
  in_mapping h config = do
    entries ← ensure_known_keys h config known_config_keys
    in_config h (get "indexes" entries)

  unfoldable pub validated_indexes : Heap → Value → Result (List Index)
  unfolding ensure_known_keys normalized_indexes check_names get
  validated_indexes h null = ok []
  validated_indexes h config = in_mapping h config
