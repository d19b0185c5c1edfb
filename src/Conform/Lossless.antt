-- ===== src/Conform/Lossless.antt =====
-- The casts that `_reject_lossy_cast` of continuo_python_runtime/conform.py lets through.
use continuo_python_runtime.Base.{ℕ, String, ◌≡◌, refl, subst, List, [], ◌∷◌, ok}
use continuo_python_runtime.Base.Text.{codes}
use continuo_python_runtime.Contract.Model.{Column}
use continuo_python_runtime.Contract.Types.{
  SqlType, parse_sql_type, ArrowType, arrow_type, boolean, date32, decimal128,
}
use continuo_python_runtime.Conform.{
  TypeClass, floating_type, boolean_type, timestamp_type, other_type, reject_lossy_cast,
}

-- Only a boolean column becomes boolean, no timestamp becomes a date, and nothing floating a decimal.
pub record IsLossless (source : TypeClass) (target : ArrowType) : Type 0 where
  pub no_truthiness : ¬ ((target ≡ boolean) × (¬ (source ≡ boolean_type)))
  pub no_truncation : ¬ ((target ≡ date32) × (source ≡ timestamp_type))
  pub no_rounding : ¬ ((p : ℕ) × (s : ℕ) × (target ≡ decimal128 p s) × (source ≡ floating_type))

-- The Arrow types of the declared columns, each one that the column's class may be cast to.
pub data AreDeclared (class_of : String → TypeClass) : List Column → List ArrowType → Type 0 where
  no_columns : AreDeclared class_of [] []
  next_column :
      (c : Column) (cs : List Column) (s : SqlType) (t : ArrowType) (ts : List ArrowType)
      → parse_sql_type (codes c.type) ≡ ok s
      → arrow_type s ≡ ok t
      → IsLossless (class_of c.name) t
      → AreDeclared class_of cs ts
      → AreDeclared class_of (c ∷ cs) (t ∷ ts)

only_boolean :
    (source : TypeClass) → reject_lossy_cast source boolean ≡ ok tt → source ≡ boolean_type
unfolding reject_lossy_cast
only_boolean floating_type e = cc
only_boolean boolean_type e = refl
only_boolean timestamp_type e = cc
only_boolean other_type e = cc

pub reject_lossy_cast-IsLossless :
    (source : TypeClass) (target : ArrowType)
    → reject_lossy_cast source target ≡ ok tt
    → IsLossless source target
unfolding reject_lossy_cast
reject_lossy_cast-IsLossless source target e = record {
  no_truthiness = λ (is, not_boolean).
      not_boolean (only_boolean source (subst (λ t. reject_lossy_cast source t ≡ ok tt) is e));
  no_truncation = λ (is, from).
      let lossy : reject_lossy_cast timestamp_type date32 ≡ ok tt =
        subst (λ s. reject_lossy_cast s date32 ≡ ok tt) from
          (subst (λ t. reject_lossy_cast source t ≡ ok tt) is e) in
      cc;
  no_rounding = λ (p, s, is, from).
      let lossy : reject_lossy_cast floating_type (decimal128 p s) ≡ ok tt =
        subst (λ c. reject_lossy_cast c (decimal128 p s) ≡ ok tt) from
          (subst (λ t. reject_lossy_cast source t ≡ ok tt) is e) in
      cc;
}
