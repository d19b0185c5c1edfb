-- ===== src/Engine/Keys.antt =====
-- `ensure_unique_key` and the template method `upsert`.
use continuo_python_runtime.Base.{
  ◌<◌, String, ◌≡◌, refl, ◌↔◌, true, false, ◌||◌, not, List, [], ◌∷◌, ok, >>=-eq-ok, ◌>>=◌,
  require-eq-ok, arith, all, any, elem, ltb, eqb, length, distinct, is_empty, Bool-cases, inl, inr,
}
use continuo_python_runtime.Engine.{Arrow, ensure_unique_key}

-- pyarrow's documented behaviour: grouping by columns gives as many groups as rows exactly when no
-- two rows have the same values there; the number of rows is that of the values.
pub record IsGrouping (T : Type 0) (arrow : Arrow T) (values : T → List String → List String)
    : Type 0 where
  pub size : (rows : T) (key : List String) → length (values rows key) ≡ arrow.num_rows rows
  pub groups :
      (rows : T) (key : List String)
      → (arrow.count_groups rows key ≡ arrow.num_rows rows) ↔ (distinct (values rows key) ≡ true)

-- A key that upsert may use: it names columns of the rows, none of a floating type, and no two rows
-- have the same values there.
pub record IsUniqueKey (T : Type 0) (arrow : Arrow T) (values : T → List String → List String)
    (rows : T) (key : List String) : Type 0 where
  pub named : is_empty key ≡ false
  pub present : all (λ name. elem name (arrow.column_names rows)) key ≡ true
  pub exact : any (arrow.is_floating rows) key ≡ false
  pub unique : distinct (values rows key) ≡ true

module _ {T : Type 0} (arrow : Arrow T) (values : T → List String → List String)
    (grouping : IsGrouping T arrow values) where
  -- Fewer than two rows are distinct.
  short_distinct : (vs : List String) → length vs < 2 → distinct vs ≡ true
  short_distinct [] h = refl
  short_distinct (v ∷ []) h = refl
  short_distinct (v ∷ w ∷ vs) h = ground arith

  counted_distinct :
      (rows : T) (key : List String)
      → (ltb (arrow.num_rows rows) 2 || eqb (arrow.count_groups rows key) (arrow.num_rows rows))
        ≡ true
      → distinct (values rows key) ≡ true
  counted_distinct rows key h = elim (Bool-cases (ltb (arrow.num_rows rows) 2)) [
    | inl short ↦ short_distinct (values rows key) (rw (grouping.size rows key) (ground arith))
    | inr long ↦ (grouping.groups rows key).0 (ground arith)
  ]

  distinct_counted :
      (rows : T) (key : List String)
      → distinct (values rows key) ≡ true
      → (ltb (arrow.num_rows rows) 2 || eqb (arrow.count_groups rows key) (arrow.num_rows rows))
        ≡ true
  distinct_counted rows key h = let same = (grouping.groups rows key).1 h in ground arith

  accepted :
      (rows : T) (key : List String)
      → ensure_unique_key arrow rows key ≡ ok tt
      → IsUniqueKey T arrow values rows key
  unfolding ensure_unique_key
  accepted rows key e =
      let (_, r1, e1) = >>=-eq-ok _ _ e in
      let (_, r2, e2) = >>=-eq-ok _ _ e1 in
      let (_, r3, e3) = >>=-eq-ok _ _ e2 in
      let named = require-eq-ok (not (is_empty key)) _ r1 in
      let exact = require-eq-ok (not (any (arrow.is_floating rows) key)) _ r3 in
      record {
        named = ground arith;
        present = require-eq-ok (all (λ name. elem name (arrow.column_names rows)) key) _ r2;
        exact = ground arith;
        unique = counted_distinct rows key (require-eq-ok _ _ e3);
      }

  usable :
      (rows : T) (key : List String)
      → IsUniqueKey T arrow values rows key
      → ensure_unique_key arrow rows key ≡ ok tt
  unfolding ensure_unique_key ◌>>=◌
  usable rows key u =
      let fits = distinct_counted rows key u.unique in rw (u.named, u.present, u.exact, fits) refl

  -- ensure_unique_key accepts rows and a key exactly if the key names at least one column, all of
  -- them columns of the rows and none of a floating type, and no two rows have the same values
  -- there, given that pyarrow's grouping behaves as documented.
  pub ensure_unique_key-IsUniqueKey :
      (rows : T) (key : List String)
      → (ensure_unique_key arrow rows key ≡ ok tt) ↔ IsUniqueKey T arrow values rows key
  ensure_unique_key-IsUniqueKey rows key = (accepted rows key, usable rows key)
