-- ===== src/Postgres/Indexes/Laws.antt =====
-- What the indexes of an accepted config satisfy.
use continuo_python_runtime.Base.{
  ◌≤◌, String, ◌≡◌, ◌≢◌, ◌⊎◌, true, false, List, [], map, all, elem, distinct, All, length,
}
use continuo_python_runtime.Contract.Value.{Value}
use continuo_python_runtime.Postgres.Identifiers.{max_identifier_bytes, byte_length}
use continuo_python_runtime.Postgres.Identifiers.Laws.{is_ascii}
use continuo_python_runtime.Postgres.Indexes.{Index, index_types}

-- An index that Postgres can build over the declared columns.
pub record IsIndex (column_names : List String) (index : Index) : Type 0 where
  pub some_columns : index.columns ≢ []
  pub declared : all (λ c. elem c column_names) index.columns ≡ true
  pub access : elem index.type index_types ≡ true
  pub unique_btree : (index.unique ≡ false) ⊎ (index.type ≡ "btree")
  pub hash_single : (index.type ≢ "hash") ⊎ (length index.columns ≤ 1)
  pub fits : byte_length index.name ≤ max_identifier_bytes

module _ (hexdigest : String → String) (hexadecimal : (s : String) → is_ascii (hexdigest s) ≡ true)
    (table : String) (column_names : List String) where
  -- Every index can be built, and no two have one name.
  abbrev pub AreIndexes : List Index → Type 0
  AreIndexes indexes =
      All (IsIndex column_names) indexes × (distinct (map (λ i. i.name) indexes) ≡ true)
