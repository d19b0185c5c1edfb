-- ===== src/Conform.antt =====
-- continuo_python_runtime/conform.py. What it asks of pyarrow is the record `Frame`.
pub mod Lossless
pub mod Laws
use continuo_python_runtime.Base.{
  ℕ, String, ◌==◌, Bool, true, false, ◌&&◌, ◌||◌, not, Option, none, some, List, [], ◌∷◌, map,
  Exception, conform_error, script_error, value_error, Result, ok, err, ◌>>=◌, ◌>>◌, require, all,
  keep, elem, distinct, is_empty, leb, eqb,
}
use continuo_python_runtime.Base.Text.{codes}
use continuo_python_runtime.Contract.Model.{Column}
use continuo_python_runtime.Contract.Types.{
  SqlType, parse_sql_type, ArrowType, arrow_type, decimal128, boolean, date32,
}

-- The classes of Arrow types that the lossy casts are told apart by.
pub data TypeClass : Type 0 where
  floating_type boolean_type timestamp_type other_type : TypeClass

pub record Frame (T : Type 0) : Type 0 where
  pub column_names : T → List String
  pub select : T → List String → T
  pub class_of : T → String → TypeClass
  pub cast : T → List Column → List ArrowType → Result T
  pub null_count : T → String → ℕ
  pub max_length : T → String → Option ℕ
  pub set_nullability : T → List Column → List ArrowType → Result T

-- What `to_arrow` finds out about the value of `run()`: a table; else the conversion of a pandas
-- frame, if it is one and pandas can be imported; else that of an Arrow stream.
pub data Returned (T : Type 0) : Type 0 where
  arrow_table : T → Returned T
  converted : Option (Result T) → Option (Result T) → Returned T

unfoldable pub to_arrow : {T : Type 0} → Returned T → Result T
to_arrow (arrow_table t) = ok t
to_arrow (converted (some frame) stream) = frame
to_arrow (converted none (some stream)) = stream
to_arrow (converted none none) = err (script_error "run() returned no Arrow-convertible value")

abbrev is_lossy : TypeClass → ArrowType → Bool
is_lossy floating_type (decimal128 p s) = true
is_lossy boolean_type boolean = false
is_lossy source boolean = true
is_lossy timestamp_type date32 = true
is_lossy source target = false

unfoldable pub reject_lossy_cast : TypeClass → ArrowType → Result (Unit {0})
reject_lossy_cast source target =
    require (not (is_lossy source target)) (conform_error "column: the cast is not lossless")

unfoldable pub declared_type : Column → Result ArrowType
declared_type c = do t ← parse_sql_type (codes c.type); arrow_type t

unfoldable pub target_schema : List Column → Result (List ArrowType)
target_schema [] = ok []
target_schema (c ∷ cs) = do t ← declared_type c; ts ← target_schema cs; ok (t ∷ ts)

-- pyarrow's cast errors and `ValueError` become a `ConformError`.
abbrev cast_error : Exception → Exception
cast_error (value_error text) = conform_error "strict cast to declared schema failed"
cast_error e = e

abbrev pub as_conform_error : {A : Type 0} → Result A → Result A
as_conform_error (err e) = err (cast_error e)
as_conform_error (ok a) = ok a

abbrev pub fits : Option ℕ → Option ℕ → Bool
fits none found = true
fits (some limit) none = true
fits (some limit) (some longest) = leb longest limit

module _ {T : Type 0} (frame : Frame T) where
  unfoldable pub reject_lossy_casts : T → List Column → List ArrowType → Result (Unit {0})
  reject_lossy_casts table (c ∷ cs) (t ∷ ts) = do
    reject_lossy_cast (frame.class_of table c.name) t
    reject_lossy_casts table cs ts
  reject_lossy_casts table _ _ = ok tt

  -- The body of the loop over the declared columns, on the cast table.
  unfoldable pub check_column : T → Column → Result (Unit {0})
  check_column table c = do
    require (c.nullable || eqb (frame.null_count table c.name) 0)
        (conform_error "column is declared nullable: false but contains nulls")
    t ← parse_sql_type (codes c.type)
    require (fits t.length (frame.max_length table c.name))
        (conform_error "column: value length exceeds")

  unfoldable pub check_columns : T → List Column → Result (Unit {0})
  check_columns table [] = ok tt
  check_columns table (c ∷ cs) = do check_column table c; check_columns table cs

  unfoldable pub conform : T → List Column → String → Result T
  conform table columns extra_columns = do
    require (elem extra_columns ("raise" ∷ "warn" ∷ []))
        (value_error "extra_columns must be 'raise' or 'warn'")
    require (distinct (frame.column_names table))
        (conform_error "dataframe has duplicate column(s)")
    let declared = map (λ c. c.name) columns
    require
        (is_empty (keep (λ n. not (elem n declared)) (frame.column_names table))
          || not (extra_columns == "raise"))
        (conform_error "dataframe has undeclared column(s)")
    require (all (λ n. elem n (frame.column_names table)) declared)
        (conform_error "dataframe is missing column(s)")
    let selected = frame.select table declared
    target ← target_schema columns
    reject_lossy_casts selected columns target
    cast ← as_conform_error (frame.cast selected columns target)
    check_columns cast columns
    frame.set_nullability cast columns target
