-- ===== src/Contract/Types.antt =====
-- continuo_python_runtime/types.py and contract/continuo_engine_contract/types.py, over the code
-- points of a type's text.
pub mod Grammar
pub mod Laws
use continuo_python_runtime.Base.{
  ℕ, ◌+◌, ◌*◌, ◌-◌, Bool, true, false, ◌&&◌, ◌||◌, not, Option, none, some, List, [], ◌∷◌,
  Exception, contract_error, value_error, Result, ok, err, ◌>>=◌, ◌>>◌, require, leb, ltb, eqb,
  length, all, is_empty, if◌then◌else◌,
}
use continuo_python_runtime.Base.Text.{codes}
use continuo_python_runtime.Contract.Types.Grammar.{
  Codes, strip, upper, upper_code, text_eq, span, is_digit, drop_spaces, drop_prefix,
  validate_column_type,
}

pub record SqlType : Type 0 where
  pub base : Codes
  pub precision : Option ℕ
  pub scale : Option ℕ
  pub length : Option ℕ

abbrev pub bare : Codes → SqlType
bare base = record { base = base; precision = none; scale = none; length = none }

-- The value of a text of decimal digits.
unfoldable pub number : ℕ → Codes → Option ℕ
number n [] = some n
number n (c ∷ s) = if is_digit c then number (n * 10 + (c - b'0')) s else none

-- CPython refuses to convert a longer text.
abbrev pub max_int_digits : ℕ
max_int_digits = 4300

-- `int(text)`; a text that it refuses is a `ValueError`.
unfoldable pub to_int : Codes → Result ℕ
unfolding number strip
to_int s =
    let t = strip s in
    if is_empty t || ltb max_int_digits (length t)
    then err (value_error "int")
    else elim (number 0 t) [ none ↦ err (value_error "int") | some n ↦ ok n ]

abbrev pub is_word : ℕ → Bool
is_word c = (leb b'A' c && leb c b'Z') || eqb c b'_'

-- The text without its last code point, which has to be the given one.
unfoldable pub without_last : ℕ → Codes → Option Codes
without_last c [] = none
without_last c (a ∷ []) = if eqb a c then some [] else none
without_last c (a ∷ b ∷ s) = elim (without_last c (b ∷ s)) [ none ↦ none | some t ↦ some (a ∷ t) ]

-- `.` matches no line feed.
abbrev pub is_one_line : Codes → Bool
is_one_line = all (λ c. not (eqb c 10))

abbrev if_one_line : Codes → Option Codes → Option (Codes × Codes)
if_one_line word none = none
if_one_line word (some body) = if is_one_line body then some (word, body) else none

abbrev closing : Codes → Option Codes → Option (Codes × Codes)
closing word none = none
closing word (some inner) = if_one_line word (without_last b')' inner)

-- The groups of `^([A-Z_]+)\s*\((.*)\)$`, on a text with no space at its end.
unfoldable pub call_form : Codes → Option (Codes × Codes)
unfolding span drop_spaces drop_prefix
call_form u =
    let (word, rest) = span is_word u in
    if is_empty word then none else closing word (drop_prefix (b'(' ∷ []) (drop_spaces rest))

-- The two numbers of a NUMERIC, in their ranges.
unfoldable pub numeric : ℕ → ℕ → Result SqlType
numeric p s = do
  require (leb 1 p && leb p 38) (contract_error "" "type: NUMERIC precision")
  require (leb s p) (contract_error "" "type: NUMERIC scale")
  ok (record { base = codes "NUMERIC"; precision = some p; scale = some s; length = none })

abbrev after_comma : Codes → Codes
after_comma [] = []
after_comma (c ∷ s) = s

-- The unpacking of `params_str.split(",")` in two raises the `ValueError` that `int` raises of a
-- part that is missing or holds a comma.
unfoldable pub numeric_args : Codes → Result SqlType
unfolding span
numeric_args params =
    let (p, rest) = span (λ c. not (eqb c b',')) params in
    (do precision ← to_int p; scale ← to_int (after_comma rest); numeric precision scale)

unfoldable pub with_args : Codes × Codes → Result SqlType
unfolding text_eq
with_args (word, body) =
    let params = strip body in
    if text_eq word (codes "DECIMAL") || text_eq word (codes "NUMERIC")
    then numeric_args params
    else (do
      n ← to_int params
      ok (record { base = word; precision = none; scale = none; length = some n }))

-- `raise ContractError(str(exc)) from exc` of a `ValueError`.
abbrev pub as_contract_error {ℓ} : {A : Type ℓ} → Result A → Result A
as_contract_error (err (value_error text)) = err (contract_error "" text)
as_contract_error (err e) = err e
as_contract_error (ok a) = ok a

unfoldable pub canonical : Codes → Result SqlType
unfolding text_eq
canonical u =
    if text_eq u (codes "DOUBLE PRECISION")
    then ok (bare (codes "DOUBLE_PRECISION"))
    else elim (call_form u) [
      | some groups ↦ with_args groups
      | none ↦ ok (bare (if text_eq u (codes "INT") then codes "INTEGER" else u))
    ]

unfoldable pub parse_sql_type : Codes → Result SqlType
parse_sql_type raw =
    let t = strip raw in (as_contract_error (validate_column_type t) >> canonical (upper t))

pub data ArrowType : Type 0 where
  int64 int32 float64 string timestamp_us date32 boolean : ArrowType
  decimal128 : ℕ → ℕ → ArrowType

abbrev decimal_of : Option ℕ → Option ℕ → Result ArrowType
decimal_of (some p) (some s) = ok (decimal128 p s)
decimal_of none s = err (value_error "NUMERIC requires precision and scale")
decimal_of (some p) none = err (value_error "NUMERIC requires precision and scale")

unfoldable pub arrow_type : SqlType → Result ArrowType
unfolding text_eq
arrow_type t =
    if text_eq t.base (codes "BIGINT")
    then ok int64
    else if text_eq t.base (codes "INTEGER")
    then ok int32
    else if text_eq t.base (codes "DOUBLE_PRECISION")
    then ok float64
    else if text_eq t.base (codes "NUMERIC")
    then decimal_of t.precision t.scale
    else if text_eq t.base (codes "VARCHAR")
    then ok string
    else if text_eq t.base (codes "CHAR")
    then ok string
    else if text_eq t.base (codes "TEXT")
    then ok string
    else if text_eq t.base (codes "TIMESTAMP")
    then ok timestamp_us
    else if text_eq t.base (codes "DATE")
    then ok date32
    else if text_eq t.base (codes "BOOLEAN")
    then ok boolean
    else err (value_error "unknown SQL type base")
