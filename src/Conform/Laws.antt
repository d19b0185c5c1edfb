-- ===== src/Conform/Laws.antt =====
-- What a conformed table satisfies.
use continuo_python_runtime.Base.{
  String, ◌==◌, ◌≡◌, refl, sym, subst, ◌∙◌, ◌⊎◌, inl, inr, Bool, true, false, not, ◌||◌, Option,
  some, List, [], ◌∷◌, map, keep, all, elem, distinct, is_empty, Result, ok, err, ok-injective,
  >>=-eq-ok, require-eq-ok, All, eqb, eq_iff, Bool-cases,
}
use continuo_python_runtime.Base.Text.{codes}
use continuo_python_runtime.Contract.Model.{Column}
use continuo_python_runtime.Contract.Types.{SqlType, parse_sql_type, ArrowType}
use continuo_python_runtime.Conform.Lossless.{
  AreDeclared, no_columns, next_column, reject_lossy_cast-IsLossless,
}
use continuo_python_runtime.Conform.{
  Frame, declared_type, target_schema, reject_lossy_casts, check_column, check_columns, conform,
  fits, as_conform_error,
}

-- pyarrow's documented behaviour, with `types_of` the types of a table's columns where they are all
-- among those that SQL types map to: `select` gives the columns it is asked for, of those that are
-- there; a cast keeps the names and gives the types that are asked for; and restoring the nullability
-- of the fields keeps names and values.
pub record IsFrame (T : Type 0) (frame : Frame T) (types_of : T → Option (List ArrowType))
    : Type 0 where
  pub selected :
      (t : T) (names : List String)
      → distinct (frame.column_names t) ≡ true
      → all (λ n. elem n (frame.column_names t)) names ≡ true
      → frame.column_names (frame.select t names) ≡ names
  pub cast_names :
      (t u : T) (cs : List Column) (ts : List ArrowType)
      → frame.cast t cs ts ≡ ok u
      → frame.column_names u ≡ frame.column_names t
  pub restored :
      (t u : T) (cs : List Column) (ts : List ArrowType)
      → frame.set_nullability t cs ts ≡ ok u
      → (frame.column_names u ≡ frame.column_names t)
        × ((n : String) → frame.null_count u n ≡ frame.null_count t n)
        × ((n : String) → frame.max_length u n ≡ frame.max_length t n)
  pub restored_types :
      (t u : T) (cs : List Column) (ts : List ArrowType)
      → target_schema cs ≡ ok ts
      → frame.set_nullability t cs ts ≡ ok u
      → types_of u ≡ some ts

-- The values of a column keep to its declaration: no null unless it is nullable, and no text longer
-- than the length of its type.
pub record KeepsTo (T : Type 0) (frame : Frame T) (t : T) (c : Column) : Type 0 where
  pub null_free : (c.nullable || eqb (frame.null_count t c.name) 0) ≡ true
  pub sql_type : SqlType
  pub parsed : parse_sql_type (codes c.type) ≡ ok sql_type
  pub in_length : fits sql_type.length (frame.max_length t c.name) ≡ true

-- What `conform` has checked and made: the input has each column once, all the declared ones and,
-- unless extra ones are dropped with a warning, no other; the result is the selected columns, cast to
-- the declared types and with the declared nullability, and their values keep to the declaration.
pub record IsConformed (T : Type 0) (frame : Frame T) (types_of : T → Option (List ArrowType))
    (table : T) (columns : List Column) (extra_columns : String) (u : T) : Type 0 where
  pub once : distinct (frame.column_names table) ≡ true
  pub none_missing : all (λ n. elem n (frame.column_names table)) (map (λ c. c.name) columns) ≡ true
  pub none_undeclared :
      (extra_columns ≡ "warn")
      ⊎ ((extra_columns ≡ "raise")
          × (all (λ n. elem n (map (λ c. c.name) columns)) (frame.column_names table) ≡ true))
  pub types : List ArrowType
  pub declared :
      AreDeclared (frame.class_of (frame.select table (map (λ c. c.name) columns))) columns types
  pub cast : T
  pub casted : frame.cast (frame.select table (map (λ c. c.name) columns)) columns types ≡ ok cast
  pub restored : frame.set_nullability cast columns types ≡ ok u
  pub names : frame.column_names u ≡ map (λ c. c.name) columns
  pub typed : types_of u ≡ some types
  pub keeps : All (KeepsTo T frame u) columns

all_kept_out :
    (p : String → Bool) (xs : List String)
    → is_empty (keep (λ n. not (p n)) xs) ≡ true
    → all p xs ≡ true
all_kept_out p [] h = refl
all_kept_out p (x ∷ xs) h = elim (Bool-cases (p x)) [
  | inl found ↦
      let rest : is_empty (keep (λ n. not (p n)) xs) ≡ true = rw found at h in
      rw found (all_kept_out p xs rest)
  | inr absent ↦ let impossible = rw absent at h in cc
]

module _ {T : Type 0} (frame : Frame T) (types_of : T → Option (List ArrowType))
    (laws : IsFrame T frame types_of) where
  check_column-KeepsTo : (t : T) (c : Column) → check_column frame t c ≡ ok tt → KeepsTo T frame t c
  unfolding check_column
  check_column-KeepsTo t c e =
      let (_, r1, e1) = >>=-eq-ok _ _ e in
      let (sql_type, parsed, e2) = >>=-eq-ok _ _ e1 in
      record {
        null_free = require-eq-ok _ _ r1;
        sql_type = sql_type;
        parsed = parsed;
        in_length = require-eq-ok _ _ e2;
      }

  check_columns-KeepsTo :
      (t : T) (cs : List Column) → check_columns frame t cs ≡ ok tt → All (KeepsTo T frame t) cs
  unfolding check_columns
  check_columns-KeepsTo t [] e = tt
  check_columns-KeepsTo t (c ∷ cs) e =
      let (_, e1, e2) = >>=-eq-ok _ _ e in
      (check_column-KeepsTo t c e1, check_columns-KeepsTo t cs e2)

  restored_KeepsTo :
      (t u : T) (c : Column)
      → ((n : String) → frame.null_count u n ≡ frame.null_count t n)
      → ((n : String) → frame.max_length u n ≡ frame.max_length t n)
      → KeepsTo T frame t c
      → KeepsTo T frame u c
  restored_KeepsTo t u c nulls lengths k = record {
    null_free = rw (nulls c.name) k.null_free;
    sql_type = k.sql_type;
    parsed = k.parsed;
    in_length = rw (lengths c.name) k.in_length;
  }

  All-restored :
      (t u : T) (cs : List Column)
      → ((n : String) → frame.null_count u n ≡ frame.null_count t n)
      → ((n : String) → frame.max_length u n ≡ frame.max_length t n)
      → All (KeepsTo T frame t) cs
      → All (KeepsTo T frame u) cs
  All-restored t u [] nulls lengths ks = tt
  All-restored t u (c ∷ cs) nulls lengths ks =
      (restored_KeepsTo t u c nulls lengths ks.0, All-restored t u cs nulls lengths ks.1)

  was_cast : (r : Result T) {t : T} → as_conform_error r ≡ ok t → r ≡ ok t
  was_cast (ok a) e = e
  was_cast (err x) e = cc

  reject_lossy_casts-AreDeclared :
      (t : T) (cs : List Column) (ts : List ArrowType)
      → target_schema cs ≡ ok ts
      → reject_lossy_casts frame t cs ts ≡ ok tt
      → AreDeclared (frame.class_of t) cs ts
  unfolding target_schema declared_type reject_lossy_casts
  reject_lossy_casts-AreDeclared t [] ts e h =
      subst (AreDeclared (frame.class_of t) []) (ok-injective e) no_columns
  reject_lossy_casts-AreDeclared t (c ∷ cs) ts e h =
      let (target, first, e1) = >>=-eq-ok _ _ e in
      let (others, rest, e2) = >>=-eq-ok _ _ e1 in
      let (s, parsed, mapped) = >>=-eq-ok _ _ first in
      let same = ok-injective e2 in
      let checks : reject_lossy_casts frame t (c ∷ cs) (target ∷ others) ≡ ok tt =
        subst (λ l. reject_lossy_casts frame t (c ∷ cs) l ≡ ok tt) (sym same) h in
      let (_, here, later) = >>=-eq-ok _ _ checks in
      subst (AreDeclared (frame.class_of t) (c ∷ cs)) same (
        next_column c cs s target others parsed mapped
          (reject_lossy_cast-IsLossless (frame.class_of t c.name) target here)
          (reject_lossy_casts-AreDeclared t cs others rest later))

  extra_checked :
      (extra_columns : String) (declared found : List String)
      → elem extra_columns ("raise" ∷ "warn" ∷ []) ≡ true
      → (is_empty (keep (λ n. not (elem n declared)) found) || not (extra_columns == "raise"))
        ≡ true
      → (extra_columns ≡ "warn")
        ⊎ ((extra_columns ≡ "raise") × (all (λ n. elem n declared) found ≡ true))
  extra_checked extra_columns declared found allowed h =
      elim (Bool-cases (extra_columns == "raise")) [
        | inl raises ↦ inr (
          (eq_iff extra_columns "raise").0 raises,
          all_kept_out (λ n. elem n declared) found (either_false _ (rw raises at h)),
        )
        | inr other ↦ inl ((eq_iff extra_columns "warn").0 (either_false _ (rw other at allowed)))
      ]
    where
      either_false : (b : Bool) → (b || false) ≡ true → b ≡ true
      either_false true h = refl
      either_false false h = cc

  -- If conform returns a table, its input has no column twice, all the declared columns and,
  -- unless the policy is to warn, no other; each declared type maps to an Arrow type, to which the
  -- class of the selected column may be cast without loss; and the result is the selected columns,
  -- cast to these types and with the declared nullability: it has exactly the declared columns in
  -- their order, the declared types, no null in a column that is not nullable, and no text longer
  -- than its type allows; given that pyarrow's select, cast and re-cast behave as documented.
  pub conform-IsConformed :
      (table : T) (columns : List Column) (extra_columns : String) (u : T)
      → conform frame table columns extra_columns ≡ ok u
      → IsConformed T frame types_of table columns extra_columns u
  unfolding conform
  conform-IsConformed table columns extra_columns u e =
      let (_, allowed, e1) = >>=-eq-ok _ _ e in
      let (_, once, e2) = >>=-eq-ok _ _ e1 in
      let (_, undeclared, e3) = >>=-eq-ok _ _ e2 in
      let (_, missing, e4) = >>=-eq-ok _ _ e3 in
      let (target, schema, e5) = >>=-eq-ok _ _ e4 in
      let (_, lossless, e6) = >>=-eq-ok _ _ e5 in
      let (cast, casted, e7) = >>=-eq-ok _ _ e6 in
      let (_, checked, e8) = >>=-eq-ok _ _ e7 in
      let declared = map (λ (c : Column). c.name) columns in
      let selected = frame.select table declared in
      let kept = laws.restored cast u columns target e8 in
      let named = laws.cast_names selected cast columns target (was_cast _ casted) in
      record {
        once = require-eq-ok _ _ once;
        none_missing = require-eq-ok _ _ missing;
        none_undeclared =
            extra_checked extra_columns declared (frame.column_names table)
              (require-eq-ok _ _ allowed) (require-eq-ok _ _ undeclared);
        types = target;
        declared = reject_lossy_casts-AreDeclared selected columns target schema lossless;
        cast = cast;
        casted = was_cast _ casted;
        restored = e8;
        names =
            kept.0
            ∙ named
            ∙ laws.selected table declared (require-eq-ok _ _ once) (require-eq-ok _ _ missing);
        typed = laws.restored_types cast u columns target schema e8;
        keeps =
            All-restored cast u columns kept.1 kept.2 (check_columns-KeepsTo cast columns checked);
      }
