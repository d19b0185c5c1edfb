-- ===== src/Postgres/Identifiers.antt =====
-- Identifiers of at most 63 bytes: `_truncate_explicit_identifier` and `_index_name` of
-- adapters/postgres/continuo_postgres_adapter/adapter.py. sha256 is a parameter.
pub mod Laws
use continuo_python_runtime.Base.Text.{take, join}
use continuo_python_runtime.Base.{
  ℕ, zero, suc, ◌+◌, ◌-◌, String, ◌<>◌, List, [], ◌∷◌, ltb, leb, if◌then◌else◌,
}
use Prim.Native.Char.{Char, code}

abbrev pub max_identifier_bytes : ℕ
max_identifier_bytes = 63

-- The bytes of a character in UTF-8.
abbrev pub utf8_size : ℕ → ℕ
utf8_size c = if ltb c 128 then 1 else if ltb c 2048 then 2 else if ltb c 65536 then 3 else 4

-- `len(text.encode("utf-8"))`
unfoldable pub byte_length : String → ℕ
byte_length String.[] = 0
byte_length (String.◌∷◌ c s) = utf8_size (code c) + byte_length s

-- `text.encode("utf-8")[:n].decode("utf-8", "ignore")`: the characters that fit whole.
unfoldable pub cut : ℕ → String → String
cut n String.[] = String.[]
cut n (String.◌∷◌ c s) =
    let rest = cut (n - utf8_size (code c)) s in
    if leb (utf8_size (code c)) n then String.◌∷◌ c rest else String.[]

unfoldable pub truncate_explicit_identifier : String → String
unfolding byte_length cut
truncate_explicit_identifier name =
    if leb (byte_length name) max_identifier_bytes then name else cut max_identifier_bytes name

-- `hexdigest` is the sha256 of a text in hexadecimal.
unfoldable pub index_name : (String → String) → String → List String → String
unfolding byte_length cut take join
index_name hexdigest table columns =
    let name = "ix_" <> table <> "_" <> join "_" columns in
    if leb (byte_length name) max_identifier_bytes
    then name
    else cut (max_identifier_bytes - 9) name <> "_" <> take 8 (hexdigest name)
