-- ===== src/Postgres/Identifiers/Laws.antt =====
-- The adapter's identifiers fit Postgres's limit.
use text.Mathlib.TextLemmas.{nil-append, cons-append}
use continuo_python_runtime.Base.{
  ℕ, zero, suc, ◌+◌, ◌-◌, ◌≤◌, ◌<>◌, Bool, String, ◌≡◌, true, List, arith, all, ltb, leb, leb→le,
  Bool-cases, inl, inr, if◌then◌else◌,
}
use continuo_python_runtime.Base.Text.{codes}
use Prim.Native.Char.{code}
use continuo_python_runtime.Base.Text.{take, join}
use continuo_python_runtime.Postgres.Identifiers.{
  max_identifier_bytes, utf8_size, byte_length, cut, truncate_explicit_identifier, index_name,
}

byte_length-cut : (n : ℕ) (s : String) → byte_length (cut n s) ≤ n
unfolding byte_length cut
byte_length-cut n String.[] = omega arith
byte_length-cut n (String.◌∷◌ c s) = elim (Bool-cases (leb (utf8_size (code c)) n)) [
  | inl fits ↦
      let ih = byte_length-cut (n - utf8_size (code c)) s in
      let le = leb→le (utf8_size (code c)) n fits in rw fits (omega (arith, ih, le))
  | inr long ↦ rw long (omega arith)
]

byte_length-append : (s t : String) → byte_length (s <> t) ≡ byte_length s + byte_length t
unfolding byte_length
byte_length-append String.[] t = rw (nil-append t) (omega arith)
byte_length-append (String.◌∷◌ c s) t =
    let ih = byte_length-append s t in rw (cons-append c s t) (omega (arith, ih))

-- The text is ASCII.
abbrev pub is_ascii : String → Bool
is_ascii s = all (λ c. ltb c 128) (codes s)

byte_length-take : (n : ℕ) (s : String) → is_ascii s ≡ true → byte_length (take n s) ≤ n
unfolding byte_length take
byte_length-take n String.[] h = omega arith
byte_length-take zero (String.◌∷◌ c s) h = omega arith
byte_length-take (suc n) (String.◌∷◌ c s) h = elim (Bool-cases (ltb (code c) 128)) [
  | inl small ↦ let ih = byte_length-take n s (rw small at h) in rw small (omega (arith, ih))
  | inr large ↦ let impossible = rw large at h in cc
]

pub truncate_explicit_identifier_le :
    (name : String) → byte_length (truncate_explicit_identifier name) ≤ max_identifier_bytes
unfolding truncate_explicit_identifier
truncate_explicit_identifier_le name =
    elim (Bool-cases (leb (byte_length name) max_identifier_bytes)) [
      | inl fits ↦ rw fits (leb→le _ _ fits)
      | inr long ↦ rw long (byte_length-cut max_identifier_bytes name)
    ]

pub index_name_le :
    (hexdigest : String → String)
    → ((s : String) → is_ascii (hexdigest s) ≡ true)
    → (table : String) (columns : List String)
    → byte_length (index_name hexdigest table columns) ≤ max_identifier_bytes
unfolding index_name
index_name_le hexdigest hexadecimal table columns =
    by_size ("ix_" <> table <> "_" <> join "_" columns)
  where
    by_size :
        (name : String)
        → byte_length (
            if leb (byte_length name) max_identifier_bytes
            then name
            else cut 54 name <> "_" <> take 8 (hexdigest name))
          ≤ max_identifier_bytes
    by_size name = elim (Bool-cases (leb (byte_length name) max_identifier_bytes)) [
      | inl fits ↦ rw fits (leb→le _ _ fits)
      | inr long ↦
          let start = byte_length-cut 54 name in
          let end = byte_length-take 8 (hexdigest name) (hexadecimal name) in
          rw long (
            rw
              (
                byte_length-append (cut 54 name) ("_" <> take 8 (hexdigest name)),
                byte_length-append "_" (take 8 (hexdigest name)),
              )
              (omega (arith, start, end)))
    ]
