-- ===== src/Contract/SecretRef/Laws.antt =====
-- The names that `validate_secret_ref` accepts.
use continuo_python_runtime.Base.{
  ℕ, ◌≤◌, String, ◌≡◌, refl, sym, ok-injective, ◌∙◌, ◌↔◌, Bool, true, false, ◌&&◌, ◌||◌, [], ◌∷◌,
  ◌++◌, arith, ok, all, eqb, leb, leb→le, length, Bool-cases, inl, inr, Option-cases,
}
use continuo_python_runtime.Base.Text.{codes}
use continuo_python_runtime.Contract.Value.{Value, null, bool, int, float, str, ref, opaque}
use continuo_python_runtime.Contract.Types.Grammar.{Codes, drop_prefix}
use continuo_python_runtime.Contract.Types.Grammar.Scan.{drop_prefix-eq-some}
use continuo_python_runtime.Contract.SecretRef.{
  secret_ref_max_len, is_alnum, name_rest, is_name, matches_secret_ref, validate_secret_ref,
}

abbrev allowed : ℕ → Bool
allowed c = is_alnum c || eqb c b'-'

abbrev starts_well : Codes → Bool
starts_well [] = false
starts_well (c ∷ s) = is_alnum c

abbrev ends_well : Codes → Bool
ends_well [] = false
ends_well (c ∷ []) = is_alnum c
ends_well (c ∷ d ∷ s) = ends_well (d ∷ s)

-- `continuo-api-` and lower-case letters, digits and dashes, no dash first or last.
pub record IsSecretName (s : Codes) : Type 0 where
  pub rest : Codes
  pub whole : s ≡ codes "continuo-api-" ++ rest
  pub only : all allowed rest ≡ true
  pub first : starts_well rest ≡ true
  pub last : ends_well rest ≡ true

name_rest-cons :
    (c : ℕ) (s : Codes) → name_rest (is_alnum c) s ≡ (all allowed s && ends_well (c ∷ s))
unfolding name_rest
name_rest-cons c [] = refl
name_rest-cons c (d ∷ s) = let ih = name_rest-cons d s in ground (arith, ih)

is_name_parts :
    (s : Codes)
    → is_name s ≡ true
    → (all allowed s ≡ true) × (starts_well s ≡ true) × (ends_well s ≡ true)
unfolding is_name
is_name_parts [] h = cc
is_name_parts (c ∷ s) h = elim (Bool-cases (is_alnum c)) [
  | inl starts ↦
      let rest : (all allowed s && ends_well (c ∷ s)) ≡ true =
        sym (name_rest-cons c s) ∙ (rw starts (rw starts at h)) in
      ground (arith, rest, starts)
  | inr other ↦ let impossible = rw other at h in cc
]

parts-is_name :
    (s : Codes)
    → all allowed s ≡ true
    → starts_well s ≡ true
    → ends_well s ≡ true
    → is_name s ≡ true
unfolding is_name
parts-is_name [] only first last = cc
parts-is_name (c ∷ s) only first last = let e = name_rest-cons c s in ground (arith, e)

matches_secret_ref-IsSecretName : (s : Codes) → matches_secret_ref s ≡ true → IsSecretName s
unfolding matches_secret_ref
matches_secret_ref-IsSecretName s h = elim (Option-cases (drop_prefix (codes "continuo-api-") s)) [
  | inl none_left ↦ let impossible = rw none_left at h in cc
  | inr (rest, found) ↦
      let (only, first, last) = is_name_parts rest (rw found at h) in
      record {
        rest = rest;
        whole = drop_prefix-eq-some (codes "continuo-api-") s rest found;
        only = only;
        first = first;
        last = last;
      }
]

IsSecretName-matches_secret_ref : (s : Codes) → IsSecretName s → matches_secret_ref s ≡ true
unfolding matches_secret_ref
IsSecretName-matches_secret_ref s n = rw n.whole (parts-is_name n.rest n.only n.first n.last)

accepted :
    (v : Value) (label s : String)
    → validate_secret_ref v label ≡ ok s
    → (v ≡ str s) × (length (codes s) ≤ secret_ref_max_len) × IsSecretName (codes s)
unfolding validate_secret_ref
accepted (str t) label s h = elim (Bool-cases (matches_secret_ref (codes t))) [
  | inr other ↦ let impossible = rw other at h in ground arith
  | inl matches ↦ elim (Bool-cases (leb (length (codes t)) secret_ref_max_len)) [
    | inr long ↦ let impossible = rw long at h in cc
    | inl short ↦
        let same = ok-injective (rw (short, matches) at h) in
        rw (← same) (refl, leb→le _ _ short, matches_secret_ref-IsSecretName (codes t) matches)
  ]
]
accepted null label s h = cc
accepted (bool b) label s h = cc
accepted (int n) label s h = cc
accepted (float n) label s h = cc
accepted (ref i) label s h = cc
accepted (opaque c) label s h = cc

usable :
    (v : Value) (label s : String)
    → (v ≡ str s) × (length (codes s) ≤ secret_ref_max_len) × IsSecretName (codes s)
    → validate_secret_ref v label ≡ ok s
unfolding validate_secret_ref
usable v label s (is, short, named) =
    let matches = IsSecretName-matches_secret_ref (codes s) named in rw is (ground (arith, matches))

-- validate_secret_ref returns a name exactly if its value is that string, not longer than the
-- bound, and reads `continuo-api-` followed by lower-case letters, digits and dashes, of which
-- there is one at least and no dash stands first or last.
pub validate_secret_ref_iff :
    (v : Value) (label s : String)
    → (validate_secret_ref v label ≡ ok s)
      ↔ ((v ≡ str s) × (length (codes s) ≤ secret_ref_max_len) × IsSecretName (codes s))
validate_secret_ref_iff v label s = (accepted v label s, usable v label s)
