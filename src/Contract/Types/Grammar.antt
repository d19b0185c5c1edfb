-- ===== src/Contract/Types/Grammar.antt =====
-- The contract's column-type grammar, `TYPE_RE`: a case-insensitive ASCII regular expression, and
-- `validate_column_type`.
pub mod Scan
pub mod Shape
pub mod Laws
use Prim.Native.Nat.{ℕ, ◌-◌}
use continuo_python_runtime.Base.{
  Bool, true, false, ◌&&◌, ◌||◌, Option, none, some, List, [], ◌∷◌, map, Result, ok, err,
  value_error, leb, eqb, if◌then◌else◌, any, is_empty,
}
use continuo_python_runtime.Base.Text.{codes, is_space}

abbrev pub Codes : Type 0
Codes = List ℕ

unfoldable pub text_eq : Codes → Codes → Bool
text_eq [] [] = true
text_eq (a ∷ s) (b ∷ t) = eqb a b && text_eq s t
text_eq _ _ = false

abbrev pub is_digit : ℕ → Bool
is_digit c = leb b'0' c && leb c b'9'

-- `\s` of an ASCII pattern.
abbrev pub is_ascii_space : ℕ → Bool
is_ascii_space c = (leb 9 c && leb c 13) || eqb c 32

unfoldable pub upper_code : ℕ → ℕ
upper_code c = if leb b'a' c && leb c b'z' then c - 32 else c

-- `str.upper` of an ASCII text.
abbrev pub upper : Codes → Codes
upper = map upper_code

-- `str.strip`
unfoldable pub drop_spaces : Codes → Codes
unfolding is_space
drop_spaces [] = []
drop_spaces (c ∷ s) = if is_space c then drop_spaces s else c ∷ s

unfoldable pub drop_last_spaces : Codes → Codes
unfolding is_space
drop_last_spaces [] = []
drop_last_spaces (c ∷ s) =
    let rest = drop_last_spaces s in if is_space c && is_empty rest then [] else c ∷ rest

unfoldable pub strip : Codes → Codes
unfolding drop_spaces drop_last_spaces
strip s = drop_last_spaces (drop_spaces s)

abbrev cons_fst : ℕ → Codes × Codes → Codes × Codes
cons_fst c (a, b) = (c ∷ a, b)

-- The longest prefix whose code points pass the test, and the rest.
unfoldable pub span : (ℕ → Bool) → Codes → Codes × Codes
span p [] = ([], [])
span p (c ∷ s) = if p c then cons_fst c (span p s) else ([], c ∷ s)

unfoldable pub skip_ascii_spaces : Codes → Codes
skip_ascii_spaces [] = []
skip_ascii_spaces (c ∷ s) = if is_ascii_space c then skip_ascii_spaces s else c ∷ s

-- What follows the prefix, if the text has it.
unfoldable pub drop_prefix : Codes → Codes → Option Codes
drop_prefix [] s = some s
drop_prefix (a ∷ p) [] = none
drop_prefix (a ∷ p) (b ∷ s) = if eqb a b then drop_prefix p s else none

-- `\d+`, with what follows.
abbrev pub digits1 : Codes → Option Codes
digits1 s = let (ds, rest) = span is_digit s in if is_empty ds then none else some rest

infixl 5 ◌|>◌
abbrev ◌|>◌ : Option Codes → (Codes → Option Codes) → Option Codes
none |> f = none
some s |> f = f s

abbrev at_end : Option Codes → Bool
at_end none = false
at_end (some s) = is_empty s

-- `\(\d+,\s*\d+\)\Z`
unfoldable pub two_numbers : Codes → Bool
unfolding span skip_ascii_spaces drop_prefix
two_numbers s = at_end (
    drop_prefix (b'(' ∷ []) s
    |> digits1
    |> drop_prefix (b',' ∷ [])
    |> (λ t. digits1 (skip_ascii_spaces t))
    |> drop_prefix (b')' ∷ []))

-- `\(\d+\)\Z`
unfoldable pub one_number : Codes → Bool
unfolding span drop_prefix
one_number s = at_end (drop_prefix (b'(' ∷ []) s |> digits1 |> drop_prefix (b')' ∷ []))

abbrev pub plain_types : List Codes
plain_types =
    codes "BIGINT"
    ∷ codes "INT"
    ∷ codes "INTEGER"
    ∷ codes "DOUBLE PRECISION"
    ∷ codes "TEXT"
    ∷ codes "TIMESTAMP"
    ∷ codes "DATE"
    ∷ codes "BOOLEAN"
    ∷ []

abbrev follows : (Codes → Bool) → Codes → Codes → Bool
follows p word s = elim (drop_prefix word s) [ none ↦ false | some rest ↦ p rest ]

-- The match of `TYPE_RE`: the text in capitals is one of the alternatives.
unfoldable pub matches_type : Codes → Bool
matches_type s =
    let u = upper s in
    any (text_eq u) plain_types
    || follows two_numbers (codes "NUMERIC") u
    || follows two_numbers (codes "DECIMAL") u
    || follows one_number (codes "VARCHAR") u
    || follows one_number (codes "CHAR") u

unfoldable pub validate_column_type : Codes → Result (Unit {0})
unfolding matches_type
validate_column_type s =
    if matches_type s then ok tt else err (value_error "unsupported or invalid SQL type")
