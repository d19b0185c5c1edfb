-- ===== src/Contract/Types/Laws.antt =====
-- Every accepted type on one line has an Arrow type, a NUMERIC with its precision and scale in range.
use mathlib.Core.List.{append_assoc}
use continuo_python_runtime.Base.{
  ℕ, ◌≤◌, ◌≡◌, refl, sym, ◌∙◌, ◌⊎◌, inl, inr, Bool, true, ◌&&◌, none, some, List, [], ◌∷◌, ◌++◌,
  arith, all, any, All, leb, ok, >>=-eq-ok, ok-injective, require-eq-ok, Bool-cases, subst,
}
use continuo_python_runtime.Base.Text.{codes}
use continuo_python_runtime.Contract.Types.Grammar.{
  Codes, strip, upper, upper_code, text_eq, plain_types, matches_type, validate_column_type,
}
use continuo_python_runtime.Contract.Types.Grammar.Scan.{text_eq_iff}
use continuo_python_runtime.Contract.Types.Grammar.Shape.{IsType, plain, two, one}
use continuo_python_runtime.Contract.Types.Grammar.Laws.{matches_type_iff}
use continuo_python_runtime.Contract.Types.{
  SqlType, bare, ArrowType, int64, int32, float64, string, timestamp_us, date32, boolean,
  decimal128, arrow_type, parse_sql_type, canonical, call_form, with_args, numeric_args, numeric,
  without_last, is_one_line, as_contract_error,
}

pub without_last-append : (c : ℕ) (s : Codes) → without_last c (s ++ (c ∷ [])) ≡ some s
unfolding without_last
without_last-append c [] = ground arith
without_last-append c (a ∷ []) = ground arith
without_last-append c (a ∷ b ∷ s) = rw (without_last-append c (b ∷ s))

-- An accepted type has an Arrow type; the numbers of a NUMERIC are in range.
pub record IsMapped (t : SqlType) : Type 0 where
  pub arrow : ArrowType
  pub maps : arrow_type t ≡ ok arrow
  pub in_range :
      ((t.precision ≡ none) × (t.scale ≡ none))
      ⊎ ((p s : ℕ) × (t.precision ≡ some p) × (t.scale ≡ some s) × (1 ≤ p) × (p ≤ 38) × (s ≤ p))

numeric-IsMapped : (p s : ℕ) {t : SqlType} → numeric p s ≡ ok t → IsMapped t
unfolding numeric
numeric-IsMapped p s e =
    let (_, r1, e1) = >>=-eq-ok _ _ e in
    let (_, r2, e2) = >>=-eq-ok _ _ e1 in
    let p_range = require-eq-ok (leb 1 p && leb p 38) _ r1 in
    let s_range = require-eq-ok (leb s p) _ r2 in
    subst IsMapped (ok-injective e2) (record {
      arrow = decimal128 p s;
      maps = unfold arrow_type in refl;
      in_range = inr (p, s, refl, refl, ground arith, ground arith, ground arith);
    })

numeric_args-IsMapped : (params : Codes) {t : SqlType} → numeric_args params ≡ ok t → IsMapped t
unfolding numeric_args
numeric_args-IsMapped params e =
    let (p, _, e1) = >>=-eq-ok _ _ e in let (s, _, e2) = >>=-eq-ok _ _ e1 in numeric-IsMapped p s e2

text-IsMapped :
    (word : Codes) (n : ℕ)
    → (word ≡ codes "VARCHAR") ⊎ (word ≡ codes "CHAR")
    → IsMapped (record { base = word; precision = none; scale = none; length = some n })
unfolding arrow_type
text-IsMapped word n (inl w) = record {
  arrow = string;
  maps = rw w refl;
  in_range = inl (refl, refl);
}
text-IsMapped word n (inr w) = record {
  arrow = string;
  maps = rw w refl;
  in_range = inl (refl, refl);
}

with_args-IsMapped :
    (word body : Codes) {t : SqlType}
    → ((word ≡ codes "NUMERIC") ⊎ (word ≡ codes "DECIMAL"))
      ⊎ ((word ≡ codes "VARCHAR") ⊎ (word ≡ codes "CHAR"))
    → with_args (word, body) ≡ ok t
    → IsMapped t
unfolding with_args
with_args-IsMapped word body (inl (inl w)) e = numeric_args-IsMapped _ (rw w at e)
with_args-IsMapped word body (inl (inr w)) e = numeric_args-IsMapped _ (rw w at e)
with_args-IsMapped word body (inr (inl w)) e =
    let (n, _, e1) = >>=-eq-ok _ _ (rw w at e) in
    subst IsMapped (ok-injective e1) (text-IsMapped (codes "VARCHAR") n (inl refl))
with_args-IsMapped word body (inr (inr w)) e =
    let (n, _, e1) = >>=-eq-ok _ _ (rw w at e) in
    subst IsMapped (ok-injective e1) (text-IsMapped (codes "CHAR") n (inr refl))

-- A word of the grammar with arguments on one line is taken apart as such.
abbrev IsWord : Codes → Type 0
IsWord word =
    ((word ≡ codes "NUMERIC") ⊎ (word ≡ codes "DECIMAL"))
    ⊎ ((word ≡ codes "VARCHAR") ⊎ (word ≡ codes "CHAR"))

abbrev call_text : Codes → Codes → Codes
call_text word body = word ++ (b'(' ∷ (body ++ (b')' ∷ [])))

canonical-call :
    (word body : Codes)
    → IsWord word
    → is_one_line body ≡ true
    → canonical (call_text word body) ≡ with_args (word, body)
unfolding canonical call_form
canonical-call word body (inl (inl w)) h = rw (w, without_last-append, h) refl
canonical-call word body (inl (inr w)) h = rw (w, without_last-append, h) refl
canonical-call word body (inr (inl w)) h = rw (w, without_last-append, h) refl
canonical-call word body (inr (inr w)) h = rw (w, without_last-append, h) refl

all_left : (p : ℕ → Bool) (s t : Codes) → all p (s ++ t) ≡ true → all p s ≡ true
all_left p [] t h = refl
all_left p (c ∷ s) t h = let ih = all_left p s t in ground (arith, ih)

one_line_body :
    (word body : Codes)
    → IsWord word
    → is_one_line (call_text word body) ≡ true
    → is_one_line body ≡ true
one_line_body word body (inl (inl w)) h = all_left _ body (b')' ∷ []) (rw w at h)
one_line_body word body (inl (inr w)) h = all_left _ body (b')' ∷ []) (rw w at h)
one_line_body word body (inr (inl w)) h = all_left _ body (b')' ∷ []) (rw w at h)
one_line_body word body (inr (inr w)) h = all_left _ body (b')' ∷ []) (rw w at h)

canonical_args-IsMapped :
    (word body : Codes) {u : Codes} {t : SqlType}
    → IsWord word
    → u ≡ call_text word body
    → is_one_line u ≡ true
    → canonical u ≡ ok t
    → IsMapped t
canonical_args-IsMapped word body w whole h e =
    let line = one_line_body word body w (rw whole at h) in
    with_args-IsMapped word body w (sym (canonical-call word body w line) ∙ (rw whole at e))

-- A word without arguments.
IsMapped_bare : (w : Codes) (a : ArrowType) → arrow_type (bare w) ≡ ok a → IsMapped (bare w)
IsMapped_bare w a e = record { arrow = a; maps = e; in_range = inl (refl, refl) }

abbrev PlainMapped : Codes → Type 0
PlainMapped w = (t : SqlType) → canonical w ≡ ok t → IsMapped t

mapped :
    (w b : Codes) (a : ArrowType)
    → canonical w ≡ ok (bare b)
    → arrow_type (bare b) ≡ ok a
    → PlainMapped w
mapped w b a c m t e = subst IsMapped (ok-injective (sym c ∙ e)) (IsMapped_bare b a m)

All-plain : All PlainMapped plain_types
unfolding canonical call_form arrow_type
All-plain = (
  mapped (codes "BIGINT") (codes "BIGINT") int64 refl refl,
  (
    mapped (codes "INT") (codes "INTEGER") int32 refl refl,
    (
      mapped (codes "INTEGER") (codes "INTEGER") int32 refl refl,
      (
        mapped (codes "DOUBLE PRECISION") (codes "DOUBLE_PRECISION") float64 refl refl,
        (
          mapped (codes "TEXT") (codes "TEXT") string refl refl,
          (
            mapped (codes "TIMESTAMP") (codes "TIMESTAMP") timestamp_us refl refl,
            (
              mapped (codes "DATE") (codes "DATE") date32 refl refl,
              (mapped (codes "BOOLEAN") (codes "BOOLEAN") boolean refl refl, tt),
            ),
          ),
        ),
      ),
    ),
  ),
)

any_of :
    (u : Codes) (ws : List Codes) → All PlainMapped ws → any (text_eq u) ws ≡ true → PlainMapped u
any_of u [] h is = cc
any_of u (w ∷ ws) h is = elim (Bool-cases (text_eq u w)) [
  | inl same ↦ rw ((text_eq_iff u w).0 same) h.0
  | inr other ↦ any_of u ws h.1 (rw other at is)
]

canonical-IsMapped :
    (u : Codes) {t : SqlType} → IsType u → is_one_line u ≡ true → canonical u ≡ ok t → IsMapped t
canonical-IsMapped u (plain is) h e = any_of u plain_types All-plain is _ e
canonical-IsMapped u (two word rest w n whole) h e =
    canonical_args-IsMapped word (n.first ++ (b',' ∷ (n.spaces ++ n.second))) (inl w)
      (rw n.whole at whole ∙ regroup) h e
  where
    regroup :
        word ++ (b'(' ∷ (n.first ++ (b',' ∷ (n.spaces ++ (n.second ++ (b')' ∷ []))))))
        ≡ call_text word (n.first ++ (b',' ∷ (n.spaces ++ n.second)))
    regroup = simp append_assoc
canonical-IsMapped u (one word rest w n whole) h e =
    canonical_args-IsMapped word n.number (inr w) (rw n.whole at whole) h e

validated : (s : Codes) → as_contract_error (validate_column_type s) ≡ ok tt → matches_type s ≡ true
unfolding validate_column_type
validated s e = ground arith

one_line_upper : (s : Codes) → is_one_line s ≡ true → is_one_line (upper s) ≡ true
unfolding upper_code
one_line_upper [] h = refl
one_line_upper (c ∷ s) h = let ih = one_line_upper s in ground (arith, ih)

-- An accepted type that holds no line feed has an Arrow type; if it is a NUMERIC, its precision is
-- between 1 and 38 and its scale at most the precision.
pub parse_sql_type-IsMapped :
    (raw : Codes) (t : SqlType)
    → is_one_line (strip raw) ≡ true
    → parse_sql_type raw ≡ ok t
    → IsMapped t
unfolding parse_sql_type
parse_sql_type-IsMapped raw t h e =
    let (_, valid, e1) = >>=-eq-ok _ _ e in
    canonical-IsMapped (upper (strip raw))
      ((matches_type_iff (strip raw)).0 (validated (strip raw) valid))
      (one_line_upper (strip raw) h) e1
