-- ===== src/Contract/Types/Grammar/Shape.antt =====
-- The texts of the grammar, described by their parts, and that the match decides them.
use continuo_python_runtime.Base.{
  ℕ, ◌≡◌, refl, ◌∙◌, ap, ◌⊎◌, inl, inr, true, false, Option, none, some, [], ◌∷◌, ◌++◌, arith, all,
  any, is_empty, Bool-cases,
}
use continuo_python_runtime.Base.Text.{codes}
use continuo_python_runtime.Contract.Types.Grammar.{
  Codes, text_eq, span, skip_ascii_spaces, is_ascii_space, is_digit, drop_prefix, digits1,
  two_numbers, one_number, plain_types, ◌|>◌, at_end,
}
use continuo_python_runtime.Contract.Types.Grammar.Scan.{
  drop_prefix-eq-some, span-append, span-parts, skip_ascii_spaces-append, skip_ascii_spaces-parts,
}

-- `\d+`
pub record IsNumber (s : Codes) : Type 0 where
  pub some_digit : is_empty s ≡ false
  pub digits : all is_digit s ≡ true

-- `\(\d+\)`
pub record OneNumber (u : Codes) : Type 0 where
  pub number : Codes
  pub is_number : IsNumber number
  pub whole : u ≡ b'(' ∷ (number ++ (b')' ∷ []))

-- `\(\d+,\s*\d+\)`
pub record TwoNumbers (u : Codes) : Type 0 where
  pub first : Codes
  pub spaces : Codes
  pub second : Codes
  pub is_first : IsNumber first
  pub blank : all is_ascii_space spaces ≡ true
  pub is_second : IsNumber second
  pub whole : u ≡ b'(' ∷ (first ++ (b',' ∷ (spaces ++ (second ++ (b')' ∷ [])))))

-- A text of the grammar, in capitals.
pub data IsType (u : Codes) : Type 0 where
  plain : any (text_eq u) plain_types ≡ true → IsType u
  two :
      (word rest : Codes)
      → (word ≡ codes "NUMERIC") ⊎ (word ≡ codes "DECIMAL")
      → TwoNumbers rest
      → u ≡ word ++ rest
      → IsType u
  one :
      (word rest : Codes)
      → (word ≡ codes "VARCHAR") ⊎ (word ≡ codes "CHAR")
      → OneNumber rest
      → u ≡ word ++ rest
      → IsType u

digits1-eq-some : (s r : Codes) → digits1 s ≡ some r → (ds : Codes) × IsNumber ds × (s ≡ ds ++ r)
digits1-eq-some s r e =
    let (whole, good) = span-parts is_digit s in
    elim (Bool-cases (is_empty (span is_digit s).0)) [
      | inl empty ↦ cc (rw empty at e)
      | inr full ↦ (
        (span is_digit s).0,
        record { some_digit = full; digits = good },
        cc (whole, rw full at e),
      )
    ]

digits1-append :
    (ds : Codes) (c : ℕ) (t : Codes)
    → IsNumber ds
    → is_digit c ≡ false
    → digits1 (ds ++ (c ∷ t)) ≡ some (c ∷ t)
digits1-append ds c t n stop = rw (span-append is_digit ds c t n.digits stop, n.some_digit)

|>-eq-some :
    (m : Option Codes) (f : Codes → Option Codes) (r : Codes)
    → (m |> f) ≡ some r
    → (a : Codes) × (m ≡ some a) × (f a ≡ some r)
|>-eq-some none f r e = cc
|>-eq-some (some a) f r e = (a, refl, e)

at_end-eq-true : (o : Option Codes) → at_end o ≡ true → o ≡ some []
at_end-eq-true none e = cc
at_end-eq-true (some []) e = refl
at_end-eq-true (some (c ∷ s)) e = cc

pub one_number-OneNumber : (u : Codes) → one_number u ≡ true → OneNumber u
unfolding one_number
one_number-OneNumber u e =
    let ended = at_end-eq-true _ e in
    let (a, opened, close) =
      |>-eq-some (drop_prefix (b'(' ∷ []) u |> digits1) (drop_prefix (b')' ∷ [])) [] ended in
    let (b, open_, number) = |>-eq-some (drop_prefix (b'(' ∷ []) u) digits1 a opened in
    let (ds, is, parts) = digits1-eq-some b a number in
    record {
      number = ds;
      is_number = is;
      whole =
          drop_prefix-eq-some (b'(' ∷ []) u b open_
          ∙ ap (λ (t : Codes). b'(' ∷ t)
              (parts ∙ ap (λ (t : Codes). ds ++ t) (drop_prefix-eq-some (b')' ∷ []) a [] close));
    }

pub OneNumber-one_number : (u : Codes) → OneNumber u → one_number u ≡ true
unfolding one_number
OneNumber-one_number u n =
    rw (n.whole, drop_prefix, digits1-append n.number b')' [] n.is_number refl)
      (unfold drop_prefix in refl)

pub two_numbers-TwoNumbers : (u : Codes) → two_numbers u ≡ true → TwoNumbers u
unfolding two_numbers
two_numbers-TwoNumbers u e =
    let ended = at_end-eq-true _ e in
    let opening = drop_prefix (b'(' ∷ []) u in
    let comma = drop_prefix (b',' ∷ []) in
    let second = λ (t : Codes). digits1 (skip_ascii_spaces t) in
    let (a, e1, close) =
      |>-eq-some (opening |> digits1 |> comma |> second) (drop_prefix (b')' ∷ [])) [] ended in
    let (b, e2, number2) = |>-eq-some (opening |> digits1 |> comma) second a e1 in
    let (c, e3, sep) = |>-eq-some (opening |> digits1) comma b e2 in
    let (d, open_, number1) = |>-eq-some opening digits1 c e3 in
    let (ds1, is1, parts1) = digits1-eq-some d c number1 in
    let (spaces, parts, blank) = skip_ascii_spaces-parts b in
    let (ds2, is2, parts2) = digits1-eq-some (skip_ascii_spaces b) a number2 in
    record {
      first = ds1;
      spaces = spaces;
      second = ds2;
      is_first = is1;
      blank = blank;
      is_second = is2;
      whole = cc (
        drop_prefix-eq-some (b'(' ∷ []) u d open_,
        parts1,
        drop_prefix-eq-some (b',' ∷ []) c b sep,
        parts,
        parts2,
        drop_prefix-eq-some (b')' ∷ []) a [] close,
      );
    }

-- A number does not begin with a space.
number-head :
    (s t : Codes)
    → IsNumber s
    → (c : ℕ) × (r : Codes) × (s ++ t ≡ c ∷ r) × (is_ascii_space c ≡ false)
number-head [] t n = cc (n.some_digit)
number-head (c ∷ s) t n = (c, s ++ t, refl, ground (arith, n.digits))

second-append :
    (spaces second : Codes)
    → all is_ascii_space spaces ≡ true
    → IsNumber second
    → digits1 (skip_ascii_spaces (spaces ++ (second ++ (b')' ∷ [])))) ≡ some (b')' ∷ [])
second-append spaces second blank n =
    let (c, r, head, solid) = number-head second (b')' ∷ []) n in
    let skipped = skip_ascii_spaces-append spaces c r blank solid in
    rw (head, skipped, ← head) (digits1-append second b')' [] n refl)

pub TwoNumbers-two_numbers : (u : Codes) → TwoNumbers u → two_numbers u ≡ true
unfolding two_numbers
TwoNumbers-two_numbers u n =
    rw
      (
        n.whole,
        drop_prefix,
        digits1-append n.first b',' _ n.is_first refl,
        drop_prefix,
        second-append n.spaces n.second n.blank n.is_second,
      )
      (unfold drop_prefix in refl)
