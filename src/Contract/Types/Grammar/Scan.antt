-- ===== src/Contract/Types/Grammar/Scan.antt =====
-- The scanners of the grammar: what they take apart, and how they run on texts put together.
use continuo_python_runtime.Base.{
  ℕ, ◌≡◌, refl, ◌↔◌, Bool, true, false, some, [], ◌∷◌, ◌++◌, arith, all, eqb, eqb_iff, Bool-cases,
  inl, inr,
}
use continuo_python_runtime.Contract.Types.Grammar.{
  Codes, text_eq, span, skip_ascii_spaces, is_ascii_space, drop_prefix,
}

pub text_eq_iff : (s t : Codes) → (text_eq s t ≡ true) ↔ (s ≡ t)
unfolding text_eq
text_eq_iff [] [] = ground arith
text_eq_iff [] (b ∷ t) = ground arith
text_eq_iff (a ∷ s) [] = ground arith
text_eq_iff (a ∷ s) (b ∷ t) =
    let ih = text_eq_iff s t in
    let heads = eqb_iff a b in ((λ e. ground (arith, ih, heads)), (λ e. ground (arith, ih, heads)))

pub drop_prefix-append : (p s : Codes) → drop_prefix p (p ++ s) ≡ some s
unfolding drop_prefix
drop_prefix-append [] s = refl
drop_prefix-append (a ∷ p) s = ground (arith, drop_prefix-append p s)

pub drop_prefix-eq-some : (p s r : Codes) → drop_prefix p s ≡ some r → s ≡ p ++ r
unfolding drop_prefix
drop_prefix-eq-some [] s r e = ground arith
drop_prefix-eq-some (a ∷ p) [] r e = cc
drop_prefix-eq-some (a ∷ p) (b ∷ s) r e = elim (Bool-cases (eqb a b)) [
  | inl same ↦ cc ((eqb_iff a b).0 same, drop_prefix-eq-some p s r (rw same at e))
  | inr other ↦ cc (rw other at e)
]

-- A scan that stops at the first code point that fails the test.
pub span-append :
    (p : ℕ → Bool) (s : Codes) (c : ℕ) (t : Codes)
    → all p s ≡ true
    → p c ≡ false
    → span p (s ++ (c ∷ t)) ≡ (s, c ∷ t)
unfolding span
span-append p [] c t h stop = rw stop
span-append p (a ∷ s) c t h stop =
    let first : p a ≡ true = ground arith in
    let rest : all p s ≡ true = ground arith in rw (first, span-append p s c t rest stop)

pub span-parts :
    (p : ℕ → Bool) (s : Codes) → (s ≡ (span p s).0 ++ (span p s).1) × (all p (span p s).0 ≡ true)
unfolding span
span-parts p [] = (refl, refl)
span-parts p (a ∷ s) = elim (Bool-cases (p a)) [
  | inl is ↦ let (whole, good) = span-parts p s in rw (is, span) (cc whole, rw is good)
  | inr other ↦ rw (other, span) (refl, refl)
]

pub skip_ascii_spaces-append :
    (s : Codes) (c : ℕ) (t : Codes)
    → all is_ascii_space s ≡ true
    → is_ascii_space c ≡ false
    → skip_ascii_spaces (s ++ (c ∷ t)) ≡ c ∷ t
unfolding skip_ascii_spaces
skip_ascii_spaces-append [] c t h stop = rw stop
skip_ascii_spaces-append (a ∷ s) c t h stop =
    let first : is_ascii_space a ≡ true = ground arith in
    let rest : all is_ascii_space s ≡ true = ground arith in
    rw (first, skip_ascii_spaces-append s c t rest stop)

pub skip_ascii_spaces-parts :
    (s : Codes)
    → (spaces : Codes) × (s ≡ spaces ++ skip_ascii_spaces s) × (all is_ascii_space spaces ≡ true)
unfolding skip_ascii_spaces
skip_ascii_spaces-parts [] = ([], refl, refl)
skip_ascii_spaces-parts (a ∷ s) = elim (Bool-cases (is_ascii_space a)) [
  | inl is ↦
      let (spaces, whole, good) = skip_ascii_spaces-parts s in
      (a ∷ spaces, rw is (cc whole), rw is good)
  | inr other ↦ ([], rw other refl, refl)
]
