-- ===== src/Contract/Columns/Laws.antt =====
-- What an accepted list of output columns satisfies.
use continuo_python_runtime.Base.{
  String, ◌≡◌, refl, true, false, Option, none, some, List, [], ◌∷◌, map, arith, Result, ok, err,
  ◌≢◌, >>=-eq-ok, require-eq-ok, ok-injective, distinct, fresh, fresh-cons, All, subst,
}
use continuo_python_runtime.Base.Text.{codes, is_blank}
use continuo_python_runtime.Contract.Value.{
  Value, null, bool, int, float, str, ref, opaque, Heap, Entries,
}
use continuo_python_runtime.Contract.Kinds.Laws.{non_empty_string-not-blank}
use continuo_python_runtime.Contract.Model.{Column}
use continuo_python_runtime.Contract.Types.{SqlType, parse_sql_type}
use continuo_python_runtime.Contract.Columns.{
  parse_column, parse_columns, output_columns, column_type, relabel, columns_of,
}

-- A column that the loader accepts: it has a name, and its type parses.
pub record IsColumn (c : Column) : Type 0 where
  pub named : is_blank c.name ≡ false
  pub typed : (t : SqlType) × (parse_sql_type (codes c.type) ≡ ok t)

abbrev pub names : List Column → List String
names = map (λ c. c.name)

relabel-eq-ok {ℓ} :
    {A : Type ℓ} (label : String) (r : Result A) {a : A} → relabel label r ≡ ok a → r ≡ ok a
relabel-eq-ok label (ok a) e = e
relabel-eq-ok label (err x) e = ground arith

module _ (h : Heap) (label : String) where
  column_type-parses :
      (v : Value) (s : String)
      → column_type h label v ≡ ok s
      → (t : SqlType) × (parse_sql_type (codes s) ≡ ok t)
  unfolding column_type
  column_type-parses (str t) s e =
      let (a, p, q) = >>=-eq-ok _ _ e in (a, rw (← ok-injective q) (relabel-eq-ok label _ p))
  column_type-parses null s e = cc
  column_type-parses (bool b) s e = cc
  column_type-parses (int n) s e = cc
  column_type-parses (float n) s e = cc
  column_type-parses (ref i) s e = cc
  column_type-parses (opaque c) s e = cc

  parse_column-IsColumn :
      (entry : Option Entries) {c : Column} → parse_column h label entry ≡ ok c → IsColumn c
  unfolding parse_column
  parse_column-IsColumn none e = cc
  parse_column-IsColumn (some entry) e =
      let (_, _, e1) = >>=-eq-ok _ _ e in
      let (_, name, e2) = >>=-eq-ok _ _ e1 in
      let (_, type, e3) = >>=-eq-ok _ _ e2 in
      let (_, _, e4) = >>=-eq-ok _ _ e3 in
      subst IsColumn (ok-injective e4) (record {
        named = non_empty_string-not-blank _ _ name;
        typed = column_type-parses _ _ type;
      })

  abbrev Columns : List String → List Column → Type 0
  Columns seen cs = All IsColumn cs × (distinct (names cs) ≡ true) × (fresh seen (names cs) ≡ true)

  parse_columns-lem :
      (seen : List String) (raws : List Value) {cs : List Column}
      → parse_columns h label seen raws ≡ ok cs
      → Columns seen cs
  unfolding parse_columns
  parse_columns-lem seen [] e = subst (Columns seen) (ok-injective e) (tt, refl, refl)
  parse_columns-lem seen (raw ∷ raws) e =
      let (c, column, e1) = >>=-eq-ok _ _ e in
      let (_, new, e2) = >>=-eq-ok _ _ e1 in
      let (cs, rest, e3) = >>=-eq-ok _ _ e2 in
      let (good, once, unseen) = parse_columns-lem (c.name ∷ seen) raws rest in
      let (alone, before) = fresh-cons c.name seen (names cs) unseen in
      subst (Columns seen) (ok-injective e3)
        ((parse_column-IsColumn _ column, good), rw alone once, rw (before, require-eq-ok _ _ new))

  parse_columns-ne-nil :
      (seen : List String) (raw : Value) (raws : List Value) {cs : List Column}
      → parse_columns h label seen (raw ∷ raws) ≡ ok cs
      → cs ≢ []
  unfolding parse_columns
  parse_columns-ne-nil seen raw raws e none_left =
      let (_, _, e1) = >>=-eq-ok _ _ e in
      let (_, _, e2) = >>=-eq-ok _ _ e1 in let (_, _, e3) = >>=-eq-ok _ _ e2 in cc

  abbrev Accepted : List Column → Type 0
  Accepted cs = (cs ≢ []) × All IsColumn cs × (distinct (names cs) ≡ true)

  columns_of-lem :
      (o : Option (List Value)) {cs : List Column} → columns_of h label o ≡ ok cs → Accepted cs
  columns_of-lem none e = cc
  columns_of-lem (some []) e = cc
  columns_of-lem (some (v ∷ vs)) e =
      let (good, once, _) = parse_columns-lem [] (v ∷ vs) e in
      (parse_columns-ne-nil [] v vs e, good, once)

  -- Accepted columns are at least one, have distinct names, and each has a name and a type.
  pub output_columns-lem :
      (raw : Entries) {cs : List Column}
      → output_columns h label raw ≡ ok cs
      → (cs ≢ []) × All IsColumn cs × (distinct (names cs) ≡ true)
  unfolding output_columns
  output_columns-lem raw e = columns_of-lem _ e
