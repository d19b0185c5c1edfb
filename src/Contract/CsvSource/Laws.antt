-- ===== src/Contract/CsvSource/Laws.antt =====
-- What the header rule of a csv source accepts, and what of a file its header is read from.
use continuo_python_runtime.Base.{
  ℕ, String, ◌==◌, ◌≡◌, refl, ◌∙◌, Bool, true, false, ◌&&◌, not, List, [], ◌∷◌, ◌++◌, arith, ◌⊎◌,
  inl, inr, Result, ok, err, value_error, all, elem, keep, is_empty, distinct, All, eqb, length,
  length-append, if◌then◌else◌, Bool-cases, eq_iff,
}
use continuo_python_runtime.Contract.CsvSource.{
  unique, check_header, max_header_bytes, first_line, strip_cr, extract_header_line,
}

elem-unique : (x : String) (names : List String) → elem x (unique names) ≡ elem x names
unfolding unique
elem-unique x [] = refl
elem-unique x (y ∷ names) = elim (Bool-cases (elem y names)) [
  | inl again ↦ elim (Bool-cases (x == y)) [
    | inl same ↦
        let is : x ≡ y = (eq_iff x y).0 same in
        rw again (rw same (elem-unique x names ∙ (rw is again)))
    | inr other ↦ rw again (rw other (elem-unique x names))
  ]
  | inr new ↦ rw new (rw (elem-unique x names) refl)
]

distinct-unique : (names : List String) → distinct (unique names) ≡ true
unfolding unique
distinct-unique [] = refl
distinct-unique (y ∷ names) = elim (Bool-cases (elem y names)) [
  | inl again ↦ rw again (distinct-unique names)
  | inr new ↦ rw new (rw (elem-unique y names) (rw new (distinct-unique names)))
]

elem-keep :
    (p : String → Bool) (x : String) (names : List String)
    → elem x (keep p names) ≡ (elem x names && p x)
elem-keep p x [] = refl
elem-keep p x (y ∷ names) = elim (Bool-cases (x == y)) [
  | inl same ↦
      let is : x ≡ y = (eq_iff x y).0 same in
      let ih = elem-keep p x names in
      let py : p x ≡ p y = rw is refl in
      elim (Bool-cases (p y)) [
        | inl kept ↦ rw kept (rw same (rw (py ∙ kept) refl))
        | inr dropped ↦ rw dropped (rw same (rw ih (rw (py ∙ dropped) (ground arith))))
      ]
  | inr other ↦ elim (Bool-cases (p y)) [
    | inl kept ↦ rw kept (rw other (elem-keep p x names))
    | inr dropped ↦ rw dropped (rw other (elem-keep p x names))
  ]
]

distinct-keep :
    (p : String → Bool) (names : List String)
    → distinct names ≡ true
    → distinct (keep p names) ≡ true
distinct-keep p [] h = refl
distinct-keep p (y ∷ names) h = elim (Bool-cases (elem y names)) [
  | inl again ↦ let impossible = rw again at h in cc
  | inr new ↦
      let ih = distinct-keep p names (rw new at h) in
      elim (Bool-cases (p y)) [
        | inl kept ↦ rw kept (rw (elem-keep p y names) (rw new ih))
        | inr dropped ↦ rw dropped ih
      ]
]

-- Nothing is missing, or something is that the list names.
missing :
    (header declared : List String)
    → ((is_empty (keep (λ c. not (elem c header)) declared) ≡ true)
        × All (λ c. elem c header ≡ true) declared)
      ⊎ ((is_empty (keep (λ c. not (elem c header)) declared) ≡ false)
          × ((c : String) × (elem c declared ≡ true) × (elem c header ≡ false)))
missing header [] = inl (refl, tt)
missing header (c ∷ declared) = elim (Bool-cases (elem c header)) [
  | inr absent ↦ inr (rw absent refl, (c, rw ((eq_iff c c).1 refl) refl, absent))
  | inl there ↦ elim (missing header declared) [
    | inl (none_left, rest) ↦ inl (rw there none_left, (there, rest))
    | inr (some_left, (d, is_declared, absent)) ↦
        inr (rw there some_left, (d, ground (arith, is_declared), absent))
  ]
]

-- Either every declared column is in the header, and check_header returns, without repetition,
-- exactly the header's columns that are not declared; or a declared column is not in the header,
-- and it raises ValueError.
pub check_header_lem :
    (header declared : List String)
    → (All (λ c. elem c header ≡ true) declared
        × ((extras : List String) × (check_header header declared ≡ ok extras)
            × (distinct extras ≡ true)
            × ((x : String) → elem x extras ≡ (elem x header && not (elem x declared)))))
      ⊎ (((c : String) × (elem c declared ≡ true) × (elem c header ≡ false))
          × (check_header header declared
              ≡ err (value_error "csv header missing declared column(s)")))
unfolding check_header
check_header_lem header declared = elim (missing header declared) [
  | inr (some_left, absent) ↦ inr (absent, rw some_left refl)
  | inl (none_left, present) ↦
      let extra : String → Bool = λ c. not (elem c declared) in
      inl (
        present,
        (
          keep extra (unique header),
          rw none_left refl,
          distinct-keep extra (unique header) (distinct-unique header),
          λ x. elem-keep extra x (unique header) ∙ (rw (elem-unique x header) refl),
        ),
      )
]

-- The bytes have dropped line feed.
abbrev pub is_line : List ℕ → Bool
is_line = all (λ b. not (eqb b 10))

first_line-append :
    (line rest : List ℕ)
    → is_line line ≡ true
    → (first_line (line ++ 10 ∷ rest) ≡ line) × (first_line line ≡ line)
unfolding first_line
first_line-append [] rest h = (refl, refl)
first_line-append (b ∷ line) rest h = elim (Bool-cases (eqb b 10)) [
  | inl feed ↦ let impossible = rw feed at h in cc
  | inr other ↦
      let (long, short) = first_line-append line rest (rw other at h) in
      (rw other (rw long refl), rw other (rw short refl))
]

strip_cr-append : (line : List ℕ) → strip_cr (line ++ 13 ∷ []) ≡ strip_cr line
unfolding strip_cr
strip_cr-append [] = refl
strip_cr-append (b ∷ line) = rw (strip_cr-append line) refl

first_line-cr :
    (line rest : List ℕ)
    → is_line line ≡ true
    → first_line (line ++ 13 ∷ 10 ∷ rest) ≡ line ++ 13 ∷ []
unfolding first_line
first_line-cr [] rest h = refl
first_line-cr (b ∷ line) rest h = elim (Bool-cases (eqb b 10)) [
  | inl feed ↦ let impossible = rw feed at h in cc
  | inr other ↦ rw other (rw (first_line-cr line rest (rw other at h)) refl)
]

abbrev pub too_long : Result String
too_long = err (value_error "csv header line exceeds 1048576 bytes")

-- The header of a file is that of its first line alone, whatever follows the line feed; a carriage
-- return before the line feed changes nothing but that a line of exactly the greatest size is then
-- too long.
pub extract_header_line_lem :
    (decode : List ℕ → Result String) (line rest : List ℕ)
    → is_line line ≡ true
    → (extract_header_line decode (line ++ 10 ∷ rest) ≡ extract_header_line decode line)
      × (extract_header_line decode (line ++ 13 ∷ 10 ∷ rest) ≡ (
          if eqb (length line) max_header_bytes then too_long else extract_header_line decode line))
unfolding extract_header_line
extract_header_line_lem decode line rest h =
    let (long, short) = first_line-append line rest h in
    let size = length-append line (13 ∷ []) in
    (
      rw (long, short) refl,
      rw (first_line-cr line rest h, short, strip_cr-append line, size) (ground arith),
    )
