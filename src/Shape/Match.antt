-- ===== src/Shape/Match.antt =====
-- When `shape_diff` finds nothing.
use continuo_python_runtime.Base.{
  String, ◌==◌, ◌≡◌, ◌⊎◌, inl, inr, Bool, true, some, List, [], ◌∷◌, ◌++◌, arith, eq_iff, beq, sym,
  ap, some-injective, ◌∙◌, subst, beq→eq, Bool-cases, Option-cases,
}
use continuo_python_runtime.Contract.Model.{Column}
use continuo_python_runtime.Engine.{LiveColumn}
use continuo_python_runtime.Shape.{ShapeDiff, is_match, take_first, pick, shape_diff, found_live}

-- The column that was taken stood in the list, and the others keep their order.
record IsTaken (p : LiveColumn → Bool) (cs : List LiveColumn) (c : LiveColumn)
    (rest : List LiveColumn) : Type 0 where
  before : List LiveColumn
  after : List LiveColumn
  passes : p c ≡ true
  whole : cs ≡ before ++ (c ∷ after)
  others : rest ≡ before ++ after

skip :
    (p : LiveColumn → Bool) (d : LiveColumn) {cs rest : List LiveColumn} {c : LiveColumn}
    → IsTaken p cs c rest
    → IsTaken p (d ∷ cs) c (d ∷ rest)
skip p d t = record {
  before = d ∷ t.before;
  after = t.after;
  passes = t.passes;
  whole = ap (λ cs. d ∷ cs) t.whole;
  others = ap (λ cs. d ∷ cs) t.others;
}

at_head :
    (p : LiveColumn → Bool) (d : LiveColumn) (cs : List LiveColumn) (c : LiveColumn)
    (rest : List LiveColumn)
    → p d ≡ true
    → d ≡ c
    → cs ≡ rest
    → IsTaken p (d ∷ cs) c rest
at_head p d cs c rest passes head tail = record {
  before = [];
  after = cs;
  passes = rw head at passes;
  whole = ap (λ x. x ∷ cs) head;
  others = sym tail;
}

later :
    (p : LiveColumn → Bool) (d : LiveColumn) (cs : List LiveColumn) (found : LiveColumn)
    (others : List LiveColumn) (c : LiveColumn) (rest : List LiveColumn)
    → found ≡ c
    → d ∷ others ≡ rest
    → IsTaken p cs found others
    → IsTaken p (d ∷ cs) c rest
later p d cs found others c rest head tail taken =
    subst (λ rest. IsTaken p (d ∷ cs) c rest) tail
      (subst (λ c. IsTaken p (d ∷ cs) c (d ∷ others)) head (skip p d taken))

take_first-IsTaken :
    (p : LiveColumn → Bool) (cs : List LiveColumn) (c : LiveColumn) (rest : List LiveColumn)
    → take_first p cs ≡ some (c, rest)
    → IsTaken p cs c rest
unfolding take_first
take_first-IsTaken p [] c rest e = cc
take_first-IsTaken p (d ∷ cs) c rest e = elim (Bool-cases (p d)) [
  | inl passes ↦
      let same = some-injective (rw passes at e) in
      at_head p d cs c rest passes (ap (λ t. t.0) same) (ap (λ t. t.1) same)
  | inr fails ↦ elim (Option-cases (take_first p cs)) [
    | inl absent ↦ cc
    | inr ((found, others), taken) ↦
        let same = some-injective (rw (fails, taken) at e) in
        later p d cs found others c rest (ap (λ t. t.0) same) (ap (λ t. t.1) same)
          (take_first-IsTaken p cs found others taken)
  ]
]

module _ (casefold : String → String) where
  -- The declared columns and the live ones pair off, each pair with one name up to case and the
  -- same nullability.
  pub data IsMatch : List Column → List LiveColumn → Type 0 where
    done : IsMatch [] []
    paired :
        (declared : Column) (rest : List Column) (live : LiveColumn)
        (before after : List LiveColumn)
        → (live.name ≡ declared.name) ⊎ (casefold live.name ≡ casefold declared.name)
        → live.nullable ≡ declared.nullable
        → IsMatch rest (before ++ after)
        → IsMatch (declared ∷ rest) (before ++ (live ∷ after))

  -- The live column that a declared one is paired with has its name up to case.
  record IsPicked (declared : Column) (cs : List LiveColumn) (c : LiveColumn)
      (rest : List LiveColumn) : Type 0 where
    before : List LiveColumn
    after : List LiveColumn
    named : (c.name ≡ declared.name) ⊎ (casefold c.name ≡ casefold declared.name)
    whole : cs ≡ before ++ (c ∷ after)
    others : rest ≡ before ++ after

  pick-IsPicked :
      (declared : Column) (cs : List LiveColumn) (c : LiveColumn) (rest : List LiveColumn)
      → pick casefold declared cs ≡ some (c, rest)
      → IsPicked declared cs c rest
  unfolding pick
  pick-IsPicked declared cs c rest e =
      elim (Option-cases (take_first (λ c. c.name == declared.name) cs)) [
        | inl absent ↦
            let t =
              take_first-IsTaken (λ c. casefold c.name == casefold declared.name) cs c rest
                (rw absent at e) in
            record {
              before = t.before;
              after = t.after;
              named = inr ((eq_iff (casefold c.name) (casefold declared.name)).0 t.passes);
              whole = t.whole;
              others = t.others;
            }
        | inr (found, taken) ↦
            let t =
              take_first-IsTaken (λ c. c.name == declared.name) cs c rest
                (taken ∙ (rw taken at e)) in
            record {
              before = t.before;
              after = t.after;
              named = inl ((eq_iff c.name declared.name).0 t.passes);
              whole = t.whole;
              others = t.others;
            }
      ]

  paired_of :
      (declared : Column) (rest : List Column) (live : List LiveColumn) (c : LiveColumn)
      (others : List LiveColumn)
      → IsPicked declared live c others
      → c.nullable ≡ declared.nullable
      → IsMatch rest others
      → IsMatch (declared ∷ rest) live
  paired_of declared rest live c others t nullable m =
      subst (IsMatch (declared ∷ rest)) (sym t.whole)
        (paired declared rest c t.before t.after t.named nullable (subst (IsMatch rest) t.others m))

  -- A pair whose nullability agrees leaves the difference as it is.
  same_nullable :
      (declared : Column) (c : LiveColumn) (d : ShapeDiff)
      → is_match (found_live declared c d) ≡ true
      → (c.nullable ≡ declared.nullable) × (is_match d ≡ true)
  same_nullable declared c d h = elim (Bool-cases (beq c.nullable declared.nullable)) [
    | inl same ↦ (beq→eq c.nullable declared.nullable same, rw same at h)
    | inr differs ↦ ground arith
  ]

  -- If shape_diff finds no missing column, no unexpected one and no difference in nullability, the
  -- declared columns and the live ones pair off completely, each pair with one name up to case and
  -- the same nullability.
  pub shape_diff-IsMatch :
      (columns : List Column) (live : List LiveColumn)
      → is_match (shape_diff casefold columns live) ≡ true
      → IsMatch columns live
  unfolding shape_diff
  shape_diff-IsMatch [] [] h = done
  shape_diff-IsMatch [] (c ∷ cs) h = cc
  shape_diff-IsMatch (declared ∷ rest) live h = elim (Option-cases (pick casefold declared live)) [
    | inl absent ↦ let impossible = rw (absent, shape_diff) at h in cc
    | inr ((c, others), picked) ↦
        let (nullable, m) =
          same_nullable declared c (shape_diff casefold rest others)
            (rw (picked, shape_diff) at h) in
        paired_of declared rest live c others (pick-IsPicked declared live c others picked) nullable
          (shape_diff-IsMatch rest others m)
  ]
