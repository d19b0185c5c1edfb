-- ===== src/Duckdb/Session/Masking.antt =====
-- What the mask over the credentials leaves of a message.
use continuo_python_runtime.Base.{
  ℕ, zero, suc, ◌-◌, ◌≡◌, refl, Bool, true, false, ◌&&◌, not, List, [], ◌∷◌, All, all, length, eqb,
  Bool-cases, both, and_parts, neither, or_parts, inl, inr,
}
use continuo_python_runtime.Base.Sorting.{Text}
use continuo_python_runtime.Duckdb.Session.Redaction.{
  occurs, is_prefix, replace_from, mask, redacted,
}

-- A text of at least one character, none of them the mask's.
abbrev pub is_maskable : Text → Bool
is_maskable [] = false
is_maskable (a ∷ q) = all (λ c. not (eqb c b'*')) (a ∷ q)

abbrev starless : Text → Bool
starless = all (λ c. not (eqb c b'*'))

is_prefix-star :
    (a : ℕ) (q s : Text) → starless (a ∷ q) ≡ true → is_prefix (a ∷ q) (b'*' ∷ s) ≡ false
unfolding is_prefix
is_prefix-star a q s h = elim (Bool-cases (eqb a b'*')) [
  | inl is ↦ let impossible = rw is at h in cc
  | inr other ↦ rw other refl
]

-- What starts the masked text started the text.
prefix_kept :
    (old q s : Text)
    → starless q ≡ true
    → is_prefix q (replace_from old mask zero s) ≡ true
    → is_prefix q s ≡ true
unfolding is_prefix replace_from
prefix_kept old [] s h k = refl
prefix_kept old (a ∷ q) [] h k = cc
prefix_kept old (a ∷ q) (c ∷ s) h k = elim (Bool-cases (is_prefix old (c ∷ s))) [
  | inl is ↦
      let masked : is_prefix (a ∷ q) (b'*' ∷ b'*' ∷ b'*' ∷ replace_from old mask (length old - 1) s)
          ≡ true =
        rw is at k in
      cc (masked, is_prefix-star a q (b'*' ∷ b'*' ∷ replace_from old mask (length old - 1) s) h)
  | inr other ↦
      let kept : (eqb a c && is_prefix q (replace_from old mask zero s)) ≡ true = rw other at k in
      both (eqb a c) (is_prefix q s) ((and_parts (eqb a c) _ kept).0) (
        prefix_kept old q s ((and_parts (not (eqb a b'*')) (starless q) h).1)
          ((and_parts (eqb a c) _ kept).1))
]

-- Wherever the text `q` starts in `s`, so does `old`.
abbrev Covered : Text → Text → Text → Type 0
Covered old q [] = Unit
Covered old q (c ∷ s) =
    (is_prefix old (c ∷ s) ≡ false → is_prefix q (c ∷ s) ≡ false) × Covered old q s

prefix_lost :
    (old : Text) (a c : ℕ) (q s : Text)
    → starless (a ∷ q) ≡ true
    → is_prefix (a ∷ q) (c ∷ s) ≡ false
    → is_prefix (a ∷ q) (c ∷ replace_from old mask zero s) ≡ false
unfolding is_prefix
prefix_lost old a c q s h absent =
    elim (Bool-cases (is_prefix (a ∷ q) (c ∷ replace_from old mask zero s))) [
      | inr absent_too ↦ absent_too
      | inl found ↦
          let there : (eqb a c && is_prefix q s) ≡ true =
            both (eqb a c) (is_prefix q s) ((and_parts (eqb a c) _ found).0) (
              prefix_kept old q s ((and_parts (not (eqb a b'*')) (starless q) h).1)
                ((and_parts (eqb a c) _ found).1)) in
          cc
    ]

replaced_lacks :
    (old : Text) (a : ℕ) (q : Text) (skip : ℕ) (s : Text)
    → starless (a ∷ q) ≡ true
    → Covered old (a ∷ q) s
    → occurs (a ∷ q) (replace_from old mask skip s) ≡ false
unfolding occurs replace_from is_prefix
replaced_lacks old a q skip [] h covered = refl
replaced_lacks old a q (suc skip) (c ∷ s) h (_, covered) = replaced_lacks old a q skip s h covered
replaced_lacks old a q zero (c ∷ s) h (here, covered) = elim (Bool-cases (is_prefix old (c ∷ s))) [
  | inl is ↦ rw is (
      neither _ _ (is_prefix-star a q _ h) (
        neither _ _ (is_prefix-star a q _ h) (
          neither _ _ (is_prefix-star a q _ h)
            (replaced_lacks old a q (length old - 1) s h covered))))
  | inr other ↦ rw other (
      neither _ _ (prefix_lost old a c q s h (here other))
        (replaced_lacks old a q zero s h covered))
]

self-Covered : (q s : Text) → Covered q q s
self-Covered q [] = tt
self-Covered q (c ∷ s) = (λ h. h, self-Covered q s)

absent-Covered :
    (old : Text) (a : ℕ) (q s : Text) → occurs (a ∷ q) s ≡ false → Covered old (a ∷ q) s
unfolding occurs
absent-Covered old a q [] h = tt
absent-Covered old a q (c ∷ s) h =
    let (here, later) = or_parts (is_prefix (a ∷ q) (c ∷ s)) (occurs (a ∷ q) s) h in
    (λ other. here, absent-Covered old a q s later)

-- The other secrets do not bring it back.
redacted_lacks :
    (a : ℕ) (q : Text) (secrets : List Text) (s : Text)
    → starless (a ∷ q) ≡ true
    → occurs (a ∷ q) s ≡ false
    → occurs (a ∷ q) (redacted secrets s) ≡ false
unfolding redacted
redacted_lacks a q [] s h absent = absent
redacted_lacks a q ([] ∷ secrets) s h absent = redacted_lacks a q secrets s h absent
redacted_lacks a q ((b ∷ p) ∷ secrets) s h absent =
    redacted_lacks a q secrets _ h
      (replaced_lacks (b ∷ p) a q zero s h (absent-Covered (b ∷ p) a q s absent))

-- A secret that can be masked does not stand in the text.
abbrev pub Lacks : Text → Text → Type 0
Lacks s secret = is_maskable secret ≡ true → occurs secret s ≡ false

pub redacted_all : (secrets : List Text) (s : Text) → All (Lacks (redacted secrets s)) secrets
unfolding redacted
redacted_all [] s = tt
redacted_all ([] ∷ secrets) s = (λ h. cc, redacted_all secrets s)
redacted_all ((b ∷ p) ∷ secrets) s = (
  λ h.
      redacted_lacks b p secrets _ h (replaced_lacks (b ∷ p) b p zero s h (self-Covered (b ∷ p) s)),
  redacted_all secrets _,
)
