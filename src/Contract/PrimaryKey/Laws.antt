-- ===== src/Contract/PrimaryKey/Laws.antt =====
-- What an accepted primary key satisfies.
use continuo_python_runtime.Base.{
  String, ◌≡◌, refl, ◌≢◌, ◌⊎◌, inl, inr, Bool, true, false, not, Option, none, some, List, [], ◌∷◌,
  map, ok, err, Exception, >>=-eq-ok, require-eq-ok, ok-injective, distinct, fresh, fresh-cons, All,
  subst, ◌==◌, eq_iff, if◌then◌else◌, Bool-cases, is_some,
}
use continuo_python_runtime.Base.Text.{codes}
use continuo_python_runtime.Contract.Value.{Value, Heap, Entries, as_list, get}
use continuo_python_runtime.Contract.Model.{Column}
use continuo_python_runtime.Contract.Types.{SqlType, parse_sql_type}
use continuo_python_runtime.Contract.Types.Grammar.{text_eq}
use continuo_python_runtime.Contract.PrimaryKey.{
  by_name, check_key_column, check_key, check_items, key_of, validate_primary_key,
}

-- A name that may stand in a key: an output column that is not nullable and not floating-point.
pub record IsKeyColumn (columns : List Column) (name : String) : Type 0 where
  pub column : Column
  pub found : by_name name columns ≡ some column
  pub not_nullable : column.nullable ≡ false
  pub type : SqlType
  pub typed : parse_sql_type (codes column.type) ≡ ok type
  pub exact : text_eq type.base (codes "DOUBLE_PRECISION") ≡ false

-- The key of an upsert: not empty, its names distinct however they are spelled, each a key column.
pub record IsPrimaryKey (lower : String → String) (columns : List Column) (names : List String)
    : Type 0 where
  pub not_empty : names ≢ []
  pub key_columns : All (IsKeyColumn columns) names
  pub once : distinct (map lower names) ≡ true

module _ (lower : String → String) (columns : List Column) (label : String) where
  not-true : (b : Bool) → not b ≡ true → b ≡ false
  not-true true h = cc
  not-true false h = refl

  check_key_column-IsKeyColumn :
      (name : String) (o : Option Column)
      → by_name name columns ≡ o
      → check_key_column lower columns label o ≡ ok tt
      → IsKeyColumn columns name
  unfolding check_key_column
  check_key_column-IsKeyColumn name none found e = cc
  check_key_column-IsKeyColumn name (some c) found e =
      let (_, not_null, e1) = >>=-eq-ok _ _ e in
      let (t, typed, exact) = >>=-eq-ok _ _ e1 in
      record {
        column = c;
        found = found;
        not_nullable = not-true _ (require-eq-ok _ _ not_null);
        type = t;
        typed = typed;
        exact = not-true _ (require-eq-ok _ _ exact);
      }

  abbrev IsKey : List String → List String → Type 0
  IsKey seen names =
      All (IsKeyColumn columns) names
      × (distinct (map lower names) ≡ true)
      × (fresh seen (map lower names) ≡ true)

  check_key-IsKey :
      (seen : List String) (entries : List Value) {names : List String}
      → check_key lower columns label seen entries ≡ ok names
      → IsKey seen names
  unfolding check_key
  check_key-IsKey seen [] e = subst (IsKey seen) (ok-injective e) (tt, refl, refl)
  check_key-IsKey seen (entry ∷ rest) e =
      let (name, _, e1) = >>=-eq-ok _ _ e in
      let (_, new, e2) = >>=-eq-ok _ _ e1 in
      let (_, column, e3) = >>=-eq-ok _ _ e2 in
      let (names, more, e4) = >>=-eq-ok _ _ e3 in
      let (good, once, unseen) = check_key-IsKey (lower name ∷ seen) rest more in
      let (alone, before) = fresh-cons (lower name) seen (map lower names) unseen in
      subst (IsKey seen) (ok-injective e4) (
        (check_key_column-IsKeyColumn name _ refl column, good),
        rw alone once,
        rw (before, require-eq-ok _ _ new),
      )

  check_key-ne-nil :
      (seen : List String) (entry : Value) (rest : List Value) {names : List String}
      → check_key lower columns label seen (entry ∷ rest) ≡ ok names
      → names ≢ []
  unfolding check_key
  check_key-ne-nil seen entry rest e empty =
      let (_, _, e1) = >>=-eq-ok _ _ e in
      let (_, _, e2) = >>=-eq-ok _ _ e1 in
      let (_, _, e3) = >>=-eq-ok _ _ e2 in let (_, _, e4) = >>=-eq-ok _ _ e3 in cc

  check_items-IsPrimaryKey :
      (entries : Option (List Value)) {names : List String}
      → check_items lower columns label entries ≡ ok names
      → IsPrimaryKey lower columns names
  check_items-IsPrimaryKey none e = cc
  check_items-IsPrimaryKey (some []) e = cc
  check_items-IsPrimaryKey (some (v ∷ vs)) e =
      let (good, once, _) = check_key-IsKey [] (v ∷ vs) e in
      record { not_empty = check_key-ne-nil [] v vs e; key_columns = good; once = once }

  key_of-IsPrimaryKey :
      (h : Heap) (o : Option Value) {names : List String}
      → key_of lower columns label h o ≡ ok names
      → IsPrimaryKey lower columns names
  unfolding key_of
  key_of-IsPrimaryKey h none e = cc
  key_of-IsPrimaryKey h (some v) e = check_items-IsPrimaryKey (as_list h v) e

  no_key :
      (given : Bool) (x : Exception) {names : List String}
      → (if given then err x else ok []) ≡ ok names
      → names ≡ []
  no_key true x e = cc
  no_key false x e = cc

  -- The key of an upsert, or no key.
  abbrev pub KeyOfMode : String → List String → Type 0
  KeyOfMode mode names =
      ((mode ≡ "upsert") × IsPrimaryKey lower columns names) ⊎ ((mode ≢ "upsert") × (names ≡ []))

  pub validate_primary_key-KeyOfMode :
      (h : Heap) (raw : Entries) (mode : String) {names : List String}
      → validate_primary_key lower columns label h raw mode ≡ ok names
      → KeyOfMode mode names
  unfolding validate_primary_key
  validate_primary_key-KeyOfMode h raw mode e = elim (Bool-cases (mode == "upsert")) [
    | inl is ↦ inl ((eq_iff mode "upsert").0 is, key_of-IsPrimaryKey h _ (rw is at e))
    | inr other ↦ inr (
      (λ is. cc ((eq_iff mode "upsert").1 is, other)),
      no_key (is_some (get "primary_key" raw)) _ (rw other at e),
    )
  ]
