-- ===== src/Contract/Types/Grammar/Laws.antt =====
-- `TYPE_RE` accepts exactly the texts of the grammar.
use continuo_python_runtime.Base.{
  ◌≡◌, refl, ◌↔◌, ◌⊎◌, inl, inr, Bool, true, false, ◌||◌, Option, none, some, ◌++◌, arith, any,
}
use continuo_python_runtime.Base.Text.{codes}
use continuo_python_runtime.Contract.Types.Grammar.{
  Codes, text_eq, drop_prefix, upper, two_numbers, one_number, plain_types, matches_type, follows,
}
use continuo_python_runtime.Contract.Types.Grammar.Scan.{drop_prefix-append, drop_prefix-eq-some}
use continuo_python_runtime.Contract.Types.Grammar.Shape.{
  IsType, plain, two, one, one_number-OneNumber, OneNumber-one_number, two_numbers-TwoNumbers,
  TwoNumbers-two_numbers,
}

or-cases : (a b : Bool) → (a || b) ≡ true → (a ≡ true) ⊎ (b ≡ true)
or-cases true b e = inl refl
or-cases false b e = inr e

follows-parts :
    (p : Codes → Bool) (word u : Codes)
    → follows p word u ≡ true
    → (rest : Codes) × (p rest ≡ true) × (u ≡ word ++ rest)
follows-parts p word u e = go (drop_prefix word u) refl e
  where
    go :
        (o : Option Codes)
        → drop_prefix word u ≡ o
        → (elim o as (λ _. Bool) [ none ↦ false | some rest ↦ p rest ]) ≡ true
        → (rest : Codes) × (p rest ≡ true) × (u ≡ word ++ rest)
    go none d e = cc
    go (some rest) d e = (rest, e, drop_prefix-eq-some word u rest d)

follows-append :
    (p : Codes → Bool) (word rest u : Codes)
    → u ≡ word ++ rest
    → p rest ≡ true
    → follows p word u ≡ true
follows-append p word rest u whole e = rw (whole, follows, drop_prefix-append word rest) e

-- The five alternatives, on a text in capitals.
abbrev alternatives : Codes → Bool
alternatives u =
    any (text_eq u) plain_types
    || follows two_numbers (codes "NUMERIC") u
    || follows two_numbers (codes "DECIMAL") u
    || follows one_number (codes "VARCHAR") u
    || follows one_number (codes "CHAR") u

IsType-of_two :
    (u word : Codes)
    → (word ≡ codes "NUMERIC") ⊎ (word ≡ codes "DECIMAL")
    → follows two_numbers word u ≡ true
    → IsType u
IsType-of_two u word w e =
    let (rest, p, whole) = follows-parts two_numbers word u e in
    two word rest w (two_numbers-TwoNumbers rest p) whole

IsType-of_one :
    (u word : Codes)
    → (word ≡ codes "VARCHAR") ⊎ (word ≡ codes "CHAR")
    → follows one_number word u ≡ true
    → IsType u
IsType-of_one u word w e =
    let (rest, p, whole) = follows-parts one_number word u e in
    one word rest w (one_number-OneNumber rest p) whole

alternatives-IsType : (u : Codes) → alternatives u ≡ true → IsType u
alternatives-IsType u e = elim (or-cases _ (follows one_number (codes "CHAR") u) e) [
  | inr char ↦ IsType-of_one u (codes "CHAR") (inr refl) char
  | inl e1 ↦ elim (or-cases _ (follows one_number (codes "VARCHAR") u) e1) [
    | inr varchar ↦ IsType-of_one u (codes "VARCHAR") (inl refl) varchar
    | inl e2 ↦ elim (or-cases _ (follows two_numbers (codes "DECIMAL") u) e2) [
      | inr decimal ↦ IsType-of_two u (codes "DECIMAL") (inr refl) decimal
      | inl e3 ↦ elim (or-cases _ (follows two_numbers (codes "NUMERIC") u) e3) [
        | inr numeric ↦ IsType-of_two u (codes "NUMERIC") (inl refl) numeric
        | inl word ↦ plain word
      ]
    ]
  ]
]

IsType-alternatives : (u : Codes) → IsType u → alternatives u ≡ true
IsType-alternatives u (plain e) = rw e
IsType-alternatives u (two word rest (inl w) n whole) =
    let hit =
      follows-append two_numbers (codes "NUMERIC") rest u (rw w at whole)
        (TwoNumbers-two_numbers rest n) in
    ground arith
IsType-alternatives u (two word rest (inr w) n whole) =
    let hit =
      follows-append two_numbers (codes "DECIMAL") rest u (rw w at whole)
        (TwoNumbers-two_numbers rest n) in
    ground arith
IsType-alternatives u (one word rest (inl w) n whole) =
    let hit =
      follows-append one_number (codes "VARCHAR") rest u (rw w at whole)
        (OneNumber-one_number rest n) in
    ground arith
IsType-alternatives u (one word rest (inr w) n whole) =
    let hit =
      follows-append one_number (codes "CHAR") rest u (rw w at whole)
        (OneNumber-one_number rest n) in
    ground arith

-- A text matches the type grammar exactly if, in capitals, it is one of the plain types, a NUMERIC
-- or DECIMAL with two numbers, or a VARCHAR or CHAR with one.
pub matches_type_iff : (s : Codes) → (matches_type s ≡ true) ↔ IsType (upper s)
unfolding matches_type
matches_type_iff s = (alternatives-IsType (upper s), IsType-alternatives (upper s))
