-- ===== src/Lint/Sql.antt =====
-- `SQL_PATTERN.search` of lint.py, on code points. `is_word` is `\w`: `str.isalnum`, or `_`.
use continuo_python_runtime.Base.{
  ℕ, ◌+◌, Bool, false, ◌&&◌, ◌||◌, not, Option, none, some, [], ◌∷◌, eqb, if◌then◌else◌,
}
use continuo_python_runtime.Base.Text.{codes, is_space}
use continuo_python_runtime.Base.Sorting.{Text}

-- A letter of the pattern, which is in lower case, under `(?i)`: the long s and the two letters i
-- with and without a dot fold to ASCII.
abbrev pub same_letter : ℕ → ℕ → Bool
same_letter letter c =
    eqb c letter
    || eqb (c + 32) letter
    || (eqb letter b's' && eqb c 0x17f)
    || (eqb letter b'i' && (eqb c 0x130 || eqb c 0x131))

-- What follows a keyword.
unfoldable pub after_keyword : Text → Text → Option Text
after_keyword [] s = some s
after_keyword (letter ∷ keyword) [] = none
after_keyword (letter ∷ keyword) (c ∷ s) =
    if same_letter letter c then after_keyword keyword s else none

abbrev pub starts_with_space : Text → Bool
starts_with_space [] = false
starts_with_space (c ∷ s) = is_space c

abbrev spaced : Option Text → Bool
spaced none = false
spaced (some s) = starts_with_space s

-- `keyword\s`
abbrev pub keyword_space : Text → Text → Bool
keyword_space keyword s = spaced (after_keyword keyword s)

-- `\s*keyword\s`
unfoldable pub spaces_keyword : Text → Text → Bool
unfolding is_space after_keyword
spaces_keyword keyword [] = false
spaces_keyword keyword (c ∷ s) =
    keyword_space keyword (c ∷ s) || (is_space c && spaces_keyword keyword s)

abbrev space_then : (Text → Bool) → Option Text → Bool
space_then rest none = false
space_then rest (some []) = false
space_then rest (some (c ∷ s)) = is_space c && rest s

-- `first\s+second\s`
abbrev pub two_keywords : Text → Text → Text → Bool
two_keywords first second s = space_then (spaces_keyword second) (after_keyword first s)

-- `.*?\skeyword\s`
unfoldable pub later_keyword : Text → Text → Bool
unfolding is_space after_keyword
later_keyword keyword [] = false
later_keyword keyword (c ∷ s) = (is_space c && keyword_space keyword s) || later_keyword keyword s

-- `.+?\skeyword\s`
abbrev clause : Text → Text → Bool
clause keyword [] = false
clause keyword (c ∷ s) = later_keyword keyword s

-- `first\s.+?\ssecond\s`
abbrev pub keywords_apart : Text → Text → Text → Bool
keywords_apart first second s = space_then (clause second) (after_keyword first s)

abbrev pub statement : Text → Bool
statement s =
    keywords_apart (codes "select") (codes "from") s
    || two_keywords (codes "insert") (codes "into") s
    || keywords_apart (codes "update") (codes "set") s
    || two_keywords (codes "delete") (codes "from") s
    || two_keywords (codes "create") (codes "table") s

module _ (is_word : ℕ → Bool) where
  -- From a position on; `inside` tells that a word character stands before it. A statement starts
  -- with a letter, so the `\b` before it asks that there is none.
  unfoldable pub search_from : Bool → Text → Bool
  unfolding spaces_keyword later_keyword
  search_from inside [] = false
  search_from inside (c ∷ s) = (not inside && statement (c ∷ s)) || search_from (is_word c) s

  unfoldable pub contains_sql : Text → Bool
  unfolding search_from
  contains_sql s = search_from false s
