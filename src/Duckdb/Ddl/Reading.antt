-- ===== src/Duckdb/Ddl/Reading.antt =====
-- How the texts that the DuckDB adapter quotes are read back.
use continuo_python_runtime.Base.{
  ℕ, String, ◌≡◌, refl, sym, ap, subst, Bool, true, false, ◌&&◌, not, Option, none, some, List, [],
  ◌∷◌, map, all, eqb, is_empty, if◌then◌else◌, Bool-cases, and_parts, inl, inr, arith, eqb_iff,
}
use continuo_python_runtime.Base.Sorting.{Text}
use continuo_python_runtime.Base.Text.{codes}
use continuo_python_runtime.Duckdb.Ddl.{
  ◌<+>◌, is_bare, replace_char, enclose, libpq_value, conninfo,
}

abbrev cons_text : ℕ → Option (Text × Text) → Option (Text × Text)
cons_text c none = none
cons_text c (some (s, rest)) = some (c ∷ s, rest)

-- SQL's rule for a quoted text after its opening quote: two quotes stand for one, and one ends the
-- text. `ending` says that the character before was a quote which may be the first of two.
unfoldable pub read_quoted : ℕ → Bool → Text → Option (Text × Text)
read_quoted q false [] = none
read_quoted q true [] = some ([], [])
read_quoted q false (c ∷ s) =
    if eqb c q then read_quoted q true s else cons_text c (read_quoted q false s)
read_quoted q true (c ∷ s) =
    if eqb c q then cons_text q (read_quoted q false s) else some ([], c ∷ s)

-- An opening quote and what it opens, with the text after it.
abbrev pub read_enclosed : ℕ → Text → Option (Text × Text)
read_enclosed q [] = none
read_enclosed q (c ∷ s) = if eqb c q then read_quoted q false s else none

abbrev pub starts_with_code : ℕ → Text → Bool
starts_with_code q [] = false
starts_with_code q (c ∷ s) = eqb c q

pub append_assoc : (xs ys zs : Text) → (xs <+> ys) <+> zs ≡ xs <+> (ys <+> zs)
append_assoc [] ys zs = refl
append_assoc (x ∷ xs) ys zs = ap (λ l. x ∷ l) (append_assoc xs ys zs)

read_end :
    (q : ℕ) (rest : Text)
    → starts_with_code q rest ≡ false
    → read_quoted q true rest ≡ some ([], rest)
unfolding read_quoted
read_end q [] h = refl
read_end q (c ∷ rest) h = rw h refl

read_quoted-replace_char :
    (q : ℕ) (s rest : Text)
    → starts_with_code q rest ≡ false
    → read_quoted q false ((replace_char q (q ∷ q ∷ []) s <+> q ∷ []) <+> rest) ≡ some (s, rest)
unfolding read_quoted replace_char
read_quoted-replace_char q [] rest h =
    let same = (eqb_iff q q).1 refl in rw same (read_end q rest h)
read_quoted-replace_char q (c ∷ s) rest h =
    let ih = read_quoted-replace_char q s rest h in
    let same = (eqb_iff q q).1 refl in
    elim (Bool-cases (eqb c q)) [
      | inl is ↦
          let e = (eqb_iff c q).0 is in rw (is, same) (rw ih (ap (λ x. some (x ∷ s, rest)) (sym e)))
      | inr other ↦ rw other (rw other (ap (cons_text c) ih))
    ]

pub enclose-read :
    (q : ℕ) (s rest : Text)
    → starts_with_code q rest ≡ false
    → read_enclosed q (enclose q s <+> rest) ≡ some (s, rest)
unfolding enclose
enclose-read q s rest h =
    let same = (eqb_iff q q).1 refl in rw same (read_quoted-replace_char q s rest h)

-- libpq's rule for a value in single quotes, after the first: a backslash takes the next character
-- as it is, and a quote ends the value.
unfoldable pub read_single : Bool → Text → Option (Text × Text)
read_single escaped [] = none
read_single true (c ∷ s) = cons_text c (read_single false s)
read_single false (c ∷ s) =
    let rest = read_single false s in
    if eqb c b'\\'
    then read_single true s
    else if eqb c b'\''
    then some ([], s)
    else cons_text c rest

-- A value without quotes ends at a blank or with the text; a backslash takes the next character.
unfoldable pub read_bare : Bool → Text → Option (Text × Text)
read_bare escaped [] = some ([], [])
read_bare true (c ∷ s) = cons_text c (read_bare false s)
read_bare false (c ∷ s) =
    let rest = read_bare false s in
    if eqb c b'\\'
    then read_bare true s
    else if eqb c b' '
    then some ([], c ∷ s)
    else cons_text c rest

unfoldable pub read_value : Text → Option (Text × Text)
unfolding read_single read_bare
read_value [] = some ([], [])
read_value (c ∷ s) = if eqb c b'\'' then read_single false s else read_bare false (c ∷ s)

-- The keyword before `=`.
unfoldable pub read_key : Text → Option (Text × Text)
read_key [] = none
read_key (c ∷ s) = if eqb c b'=' then some ([], s) else cons_text c (read_key s)

-- A connection string that libpq reads as these pairs.
pub data Reads : Text → List (Text × Text) → Type 0 where
  last :
      {t k r v : Text}
      → read_key t ≡ some (k, r)
      → read_value r ≡ some (v, [])
      → Reads t ((k, v) ∷ [])
  more :
      {t k r v s : Text} {pairs : List (Text × Text)}
      → read_key t ≡ some (k, r)
      → read_value r ≡ some (v, b' ' ∷ s)
      → Reads s pairs
      → Reads t ((k, v) ∷ pairs)

read_single-replace_char :
    (v rest : Text)
    → read_single false (
        (replace_char b'\'' (codes "\\'") (replace_char b'\\' (codes "\\\\") v) <+> b'\'' ∷ [])
        <+> rest)
      ≡ some (v, rest)
unfolding read_single replace_char
read_single-replace_char [] rest = refl
read_single-replace_char (c ∷ v) rest =
    let ih = read_single-replace_char v rest in
    elim (Bool-cases (eqb c b'\\')) [
      | inl is ↦
          let e = (eqb_iff c b'\\').0 is in rw is (rw ih (ap (λ x. some (x ∷ v, rest)) (sym e)))
      | inr other ↦ elim (Bool-cases (eqb c b'\'')) [
        | inl is ↦
            let e = (eqb_iff c b'\'').0 is in
            rw (other, is) (rw ih (ap (λ x. some (x ∷ v, rest)) (sym e)))
        | inr plain ↦ rw (other, plain) (rw (other, plain) (ap (cons_text c) ih))
      ]
    ]

-- What a value ends at.
abbrev pub ends_value : Text → Bool
ends_value [] = true
ends_value (c ∷ s) = eqb c b' '

bare-plain :
    (c : ℕ)
    → is_bare c ≡ true
    → (eqb c b'\\' ≡ false) × (eqb c b' ' ≡ false) × (eqb c b'\'' ≡ false)
bare-plain c h = ground arith

read_bare_end : (rest : Text) → ends_value rest ≡ true → read_bare false rest ≡ some ([], rest)
unfolding read_bare
read_bare_end [] h = refl
read_bare_end (c ∷ rest) h = let e = (eqb_iff c b' ').0 h in rw e refl

read_bare-append :
    (v rest : Text)
    → all is_bare v ≡ true
    → ends_value rest ≡ true
    → read_bare false (v <+> rest) ≡ some (v, rest)
unfolding read_bare
read_bare-append [] rest h k = read_bare_end rest k
read_bare-append (c ∷ v) rest h k =
    let (first, others) = and_parts (is_bare c) (all is_bare v) h in
    let (a, b, _) = bare-plain c first in
    rw (a, b) (ap (cons_text c) (read_bare-append v rest others k))

read_value_bare :
    (v rest : Text)
    → (all is_bare v && not (is_empty v)) ≡ true
    → ends_value rest ≡ true
    → read_value (v <+> rest) ≡ some (v, rest)
unfolding read_value
read_value_bare [] rest h k = cc
read_value_bare (c ∷ v) rest h k =
    let bare = (and_parts (all is_bare (c ∷ v)) true h).0 in
    let (_, _, quote) = bare-plain c ((and_parts (is_bare c) (all is_bare v) bare).0) in
    rw quote (read_bare-append (c ∷ v) rest bare k)

pub libpq_value-read :
    (v rest : Text) → ends_value rest ≡ true → read_value (libpq_value v <+> rest) ≡ some (v, rest)
unfolding read_value libpq_value
libpq_value-read v rest k = elim (Bool-cases (all is_bare v && not (is_empty v))) [
  | inl bare ↦ rw (bare, libpq_value) (read_value_bare v rest bare k)
  | inr other ↦ rw (other, libpq_value) (read_single-replace_char v rest)
]

-- No key holds `=`.
abbrev pub is_key : String → Bool
is_key key = all (λ c. not (eqb c b'=')) (codes key)

abbrev pub code_pairs : List (String × String) → List (Text × Text)
code_pairs = map (λ p. (codes p.0, codes p.1))

read_key-append :
    (k rest : Text)
    → all (λ c. not (eqb c b'=')) k ≡ true
    → read_key (k <+> b'=' ∷ rest) ≡ some (k, rest)
unfolding read_key
read_key-append [] rest h = refl
read_key-append (c ∷ k) rest h =
    let (first, others) = and_parts (not (eqb c b'=')) (all (λ d. not (eqb d b'=')) k) h in
    let other : eqb c b'=' ≡ false = ground arith in
    rw other (ap (cons_text c) (read_key-append k rest others))

pub append-nil : (s : Text) → s <+> [] ≡ s
append-nil [] = refl
append-nil (c ∷ s) = ap (λ l. c ∷ l) (append-nil s)

-- What is written as a connection string is read back.
pub conninfo-Reads :
    (p : String × String) (pairs : List (String × String))
    → all (λ q. is_key q.0) (p ∷ pairs) ≡ true
    → Reads (conninfo (p ∷ pairs)) (code_pairs (p ∷ pairs))
unfolding conninfo
conninfo-Reads (key, value) [] h =
    last (read_key-append (codes key) _ ((and_parts (is_key key) true h).0)) (
      subst (λ t. read_value t ≡ some (codes value, [])) (append-nil (libpq_value (codes value)))
        (libpq_value-read (codes value) [] refl))
conninfo-Reads (key, value) (next ∷ rest) h =
    let (first, others) = and_parts (is_key key) (all (λ q. is_key q.0) (next ∷ rest)) h in
    more (read_key-append (codes key) _ first)
      (libpq_value-read (codes value) (b' ' ∷ conninfo (next ∷ rest)) refl)
      (conninfo-Reads next rest others)
