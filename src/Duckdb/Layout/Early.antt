-- ===== src/Duckdb/Layout/Early.antt =====
-- The check of a config before the script runs, beside the one before the table is written.
use continuo_python_runtime.Base.{
  String, ◌==◌, ◌≡◌, refl, ◌∙◌, Bool, true, false, not, ◌||◌, Option, none, some, List, [], ◌∷◌,
  map, elem, is_some, require, require-eq-ok, Exception, value_error, if◌then◌else◌, ok, >>=-eq-ok,
  >>=-ok,
}
use continuo_python_runtime.Contract.Value.{
  Value, null, bool, int, float, str, ref, opaque, Heap, get_or, as_str,
}
use continuo_python_runtime.Duckdb.Domain.{ColumnTypes}
use continuo_python_runtime.Duckdb.Layout.{
  PartitionKey, SortKey, TableLayout, temporal_transforms, declared, declared_column, declared_name,
  fits_type, partition_key, partition_keys_from, partition_keys, sort_keys_from, sort_keys,
  where_given, of_mapping, from_config, untyped, validate_config_of,
}

abbrev pub names : ColumnTypes → List String
names = map (λ c. c.0)

abbrev without_type : Option (Option String) → Option (Option String)
without_type none = none
without_type (some type) = some none

abbrev or_here : Option (Option String) → Bool → Option String → Option (Option String)
or_here found here type = elim found [
  | some known ↦ some known
  | none ↦ if here then some type else none
]

without_type-or_here :
    (found : Option (Option String)) (here : Bool) (type : Option String)
    → or_here (without_type found) here none ≡ without_type (or_here found here type)
without_type-or_here none true type = refl
without_type-or_here none false type = refl
without_type-or_here (some t) here type = refl

declared-untyped :
    (name : String) (types : ColumnTypes)
    → declared name (untyped (names types)) ≡ without_type (declared name types)
unfolding declared
declared-untyped name [] = refl
declared-untyped name ((column, type) ∷ rest) =
    rw (declared-untyped name rest)
      (without_type-or_here (declared name rest) (column == name) type)

is_some-without_type : (o : Option (Option String)) → is_some (without_type o) ≡ is_some o
is_some-without_type none = refl
is_some-without_type (some t) = refl

declared_name-untyped :
    (types : ColumnTypes) (o : Option String)
    → declared_name (untyped (names types)) o ≡ declared_name types o
declared_name-untyped types none = refl
declared_name-untyped types (some s) =
    rw (declared-untyped s types, is_some-without_type (declared s types)) refl

declared_column-untyped :
    (types : ColumnTypes) (value : Value)
    → declared_column (untyped (names types)) value ≡ declared_column types value
unfolding declared_column
declared_column-untyped types value = declared_name-untyped types (as_str value)

fits_type-without_type :
    (o : Option (Option String)) (b : Bool)
    → (b || fits_type o) ≡ true
    → (b || fits_type (without_type o)) ≡ true
fits_type-without_type none b h = h
fits_type-without_type (some t) true h = refl
fits_type-without_type (some t) false h = refl

abbrev misfit : Exception
misfit = value_error "partition transform needs a DATE or TIMESTAMP column"

require_ok : {test : Bool} (problem : Exception) → test ≡ true → require test problem ≡ ok tt
require_ok problem h = rw h refl

fits-untyped :
    (types : ColumnTypes) (column : String) (other : Bool)
    → require (other || fits_type (declared column types)) misfit ≡ ok tt
    → require (other || fits_type (declared column (untyped (names types)))) misfit ≡ ok tt
fits-untyped types column other h =
    rw (declared-untyped column types) (
      require_ok misfit
        (fits_type-without_type (declared column types) other (require-eq-ok _ _ h)))

module _ (h : Heap) (types : ColumnTypes) where
  partition_key-early :
      (value : Value) (key : PartitionKey)
      → partition_key h types value ≡ ok key
      → partition_key h (untyped (names types)) value ≡ ok key
  unfolding partition_key
  partition_key-early value key e =
      let (entry, e0, e1) = >>=-eq-ok _ _ e in
      let (column, is, e2) = >>=-eq-ok _ _ e1 in
      let (name, named, e3) = >>=-eq-ok _ _ e2 in
      let (new, made, e4) = >>=-eq-ok _ _ e3 in
      let (_, fits, e5) = >>=-eq-ok _ _ e4 in
      >>=-ok _ _ e0 (
        >>=-ok _ _ (declared_column-untyped types (get_or "column" null entry) ∙ is) (
          >>=-ok _ _ named (
            >>=-ok _ _ made (
              >>=-ok _ _
                (fits-untyped types column (not (elem new.transform temporal_transforms)) fits)
                e5))))

  partition_keys_from-early :
      (before : List PartitionKey) (values : List Value) (keys : List PartitionKey)
      → partition_keys_from h types before values ≡ ok keys
      → partition_keys_from h (untyped (names types)) before values ≡ ok keys
  unfolding partition_keys_from
  partition_keys_from-early before [] keys e = e
  partition_keys_from-early before (value ∷ values) keys e =
      let (key, made, e1) = >>=-eq-ok _ _ e in
      let (_, new, e2) = >>=-eq-ok _ _ e1 in
      let (rest, others, e3) = >>=-eq-ok _ _ e2 in
      >>=-ok _ _ (partition_key-early value key made) (
        >>=-ok _ _ new
          (>>=-ok _ _ (partition_keys_from-early (key ∷ before) values rest others) e3))

  partitions_early :
      (o : Option Value) (keys : List PartitionKey)
      → where_given (partition_keys h types) o ≡ ok keys
      → where_given (partition_keys h (untyped (names types))) o ≡ ok keys
  unfolding partition_keys
  partitions_early none keys e = e
  partitions_early (some raw) keys e =
      let (values, is, e1) = >>=-eq-ok _ _ e in
      >>=-ok _ _ is (partition_keys_from-early [] values keys e1)

  module _ (lower : String → String) where
    sort_keys_from-early :
        (seen : List String) (values : List Value) (keys : List SortKey)
        → sort_keys_from lower h types seen values ≡ ok keys
        → sort_keys_from lower h (untyped (names types)) seen values ≡ ok keys
    unfolding sort_keys_from
    sort_keys_from-early seen [] keys e = e
    sort_keys_from-early seen (value ∷ values) keys e =
        let (entry, e0, e1) = >>=-eq-ok _ _ e in
        let (column, is, e2) = >>=-eq-ok _ _ e1 in
        let (_, new, e3) = >>=-eq-ok _ _ e2 in
        let (direction, directed, e4) = >>=-eq-ok _ _ e3 in
        let (nulls, ordered, e5) = >>=-eq-ok _ _ e4 in
        let (name, named, e6) = >>=-eq-ok _ _ e5 in
        let (rest, others, e7) = >>=-eq-ok _ _ e6 in
        >>=-ok _ _ e0 (
          >>=-ok _ _ (declared_column-untyped types (get_or "column" null entry) ∙ is) (
            >>=-ok _ _ new (
              >>=-ok _ _ directed (
                >>=-ok _ _ ordered (
                  >>=-ok _ _ named
                    (>>=-ok _ _ (sort_keys_from-early (column ∷ seen) values rest others) e7))))))

    sorts_early :
        (o : Option Value) (keys : List SortKey)
        → where_given (sort_keys lower h types) o ≡ ok keys
        → where_given (sort_keys lower h (untyped (names types))) o ≡ ok keys
    unfolding sort_keys
    sorts_early none keys e = e
    sorts_early (some raw) keys e =
        let (values, is, e1) = >>=-eq-ok _ _ e in
        >>=-ok _ _ is (sort_keys_from-early [] values keys e1)

    of_mapping-early :
        (config : Value) (layout : TableLayout)
        → of_mapping lower h types config ≡ ok layout
        → of_mapping lower h (untyped (names types)) config ≡ ok layout
    of_mapping-early config layout e =
        let (entries, known, e1) = >>=-eq-ok _ _ e in
        let (partitions, ps, e2) = >>=-eq-ok _ _ e1 in
        let (sorts, ss, e3) = >>=-eq-ok _ _ e2 in
        >>=-ok _ _ known
          (>>=-ok _ _ (partitions_early _ partitions ps) (>>=-ok _ _ (sorts_early _ sorts ss) e3))

    -- Every config that is accepted with the types of the columns is accepted by the early check,
    -- which knows their names alone, with the same layout.
    pub validate_config_of-from_config :
        (config : Value) (layout : TableLayout)
        → from_config lower h types config ≡ ok layout
        → validate_config_of lower h config (names types) ≡ ok layout
    unfolding from_config validate_config_of
    validate_config_of-from_config null layout e = e
    validate_config_of-from_config (bool x) layout e = of_mapping-early (bool x) layout e
    validate_config_of-from_config (int x) layout e = of_mapping-early (int x) layout e
    validate_config_of-from_config (float x) layout e = of_mapping-early (float x) layout e
    validate_config_of-from_config (str x) layout e = of_mapping-early (str x) layout e
    validate_config_of-from_config (ref x) layout e = of_mapping-early (ref x) layout e
    validate_config_of-from_config (opaque x) layout e = of_mapping-early (opaque x) layout e
