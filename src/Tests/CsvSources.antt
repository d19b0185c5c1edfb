-- ===== src/Tests/CsvSources.antt =====
-- The header rule and the reading of a header, on small files.
use continuo_python_runtime.Base.{
  ℕ, String, ◌≡◌, refl, true, false, ◌&&◌, not, List, [], ◌∷◌, ◌⊎◌, Result, ok, err, value_error,
  elem, All, distinct,
}
use continuo_python_runtime.Contract.CsvSource.{check_header, extract_header_line}
use continuo_python_runtime.Contract.CsvSource.Laws.{check_header_lem, extract_header_line_lem}

abbrev header : List String
header = "id" ∷ "note" ∷ []

abbrev declared : List String
declared = "id" ∷ []

check_header_lem_example :
    (All (λ c. elem c header ≡ true) declared
      × ((extras : List String) × (check_header header declared ≡ ok extras)
          × (distinct extras ≡ true)
          × ((x : String) → elem x extras ≡ (elem x header && not (elem x declared)))))
    ⊎ (((c : String) × (elem c declared ≡ true) × (elem c header ≡ false))
        × (check_header header declared
            ≡ err (value_error "csv header missing declared column(s)")))
check_header_lem_example = check_header_lem header declared

-- A codec that knows one text.
abbrev decode : List ℕ → Result String
decode [] = err (value_error "empty")
decode (b ∷ bytes) = ok "id"

extract_header_line_lem_example :
    (extract_header_line decode (b'i' ∷ b'd' ∷ 10 ∷ b'7' ∷ [])
      ≡ extract_header_line decode (b'i' ∷ b'd' ∷ []))
    × (extract_header_line decode (b'i' ∷ b'd' ∷ 13 ∷ 10 ∷ b'7' ∷ [])
        ≡ extract_header_line decode (b'i' ∷ b'd' ∷ []))
extract_header_line_lem_example = extract_header_line_lem decode (b'i' ∷ b'd' ∷ []) (b'7' ∷ []) refl
