-- ===== src/Duckdb/Retrying/Laws.antt =====
-- What the retries of the DuckDB adapter come to.
use continuo_python_runtime.Base.{
  ℕ, zero, suc, ◌+◌, ◌<◌, ◌≡◌, refl, sym, ◌⊎◌, inl, inr, true, false, arith, ltb, ltb→lt,
  Bool-cases, subst,
}
use continuo_python_runtime.Duckdb.Retrying.{
  Ending, done, conflicted, raised, is_conflict, conflict_attempts, attempts_from, retrying,
}

module _ {W E : Type 0} (operation : W → Ending E × W) (sleep : ℕ → W → W) where
  -- The world after `k` attempts, each followed by its wait.
  abbrev pub waited : ℕ → W → W
  waited zero w = w
  waited (suc k) w = sleep (suc k) (operation (waited k w)).1

  -- The attempt after `k` others.
  abbrev pub attempt_after : ℕ → W → Ending E × W
  attempt_after k w = operation (waited k w)

  abbrev pub Conflicts : ℕ → W → Type 0
  Conflicts k w = (j : ℕ) → j < k → is_conflict (attempt_after j w).0 ≡ true

  abbrev pub IsRetried : ℕ → W → Ending E × W → Type 0
  IsRetried n w r =
      ((k : ℕ) × (k < n)
        × Conflicts k w
        × (is_conflict (attempt_after k w).0 ≡ false)
        × (r ≡ attempt_after k w))
      ⊎ (Conflicts n w × ((k : ℕ) × (n ≡ suc k) × (r ≡ attempt_after k w)))

  stop :
      (left n : ℕ) (w : W) (e : Ending E)
      → (operation w).0 ≡ e
      → is_conflict e ≡ false
      → attempts_from operation sleep (suc left) n w ≡ operation w
  unfolding attempts_from
  stop left n w done is h = rw (is, attempts_from) refl
  stop left n w (conflicted x) is h = cc
  stop left n w (raised x) is h = rw (is, attempts_from) refl

  again :
      (left n : ℕ) (w : W) (e : Ending E)
      → (operation w).0 ≡ e
      → is_conflict e ≡ true
      → attempts_from operation sleep (suc left) n w
        ≡ attempts_from operation sleep left (suc n) (sleep n (operation w).1)
  unfolding attempts_from
  again left n w done is h = cc
  again left n w (conflicted x) is h = rw (is, attempts_from) refl
  again left n w (raised x) is h = cc

  Conflicts-suc :
      (k : ℕ) (w : W)
      → Conflicts k w
      → is_conflict (attempt_after k w).0 ≡ true
      → Conflicts (suc k) w
  Conflicts-suc k w before now j lt = elim (Bool-cases (ltb j k)) [
    | inl less ↦ before j (ltb→lt j k less)
    | inr last ↦
        let is : k ≡ j = ground (arith, last, lt) in
        subst (λ i. is_conflict (attempt_after i w).0 ≡ true) is now
  ]

  attempts_from-IsRetried :
      (left k : ℕ) (w : W)
      → Conflicts k w
      → IsRetried (k + suc left) w (attempts_from operation sleep left (suc k) (waited k w))
  unfolding attempts_from
  attempts_from-IsRetried zero k w before = elim (Bool-cases (is_conflict (attempt_after k w).0)) [
    | inl conflict ↦
        let n : suc k ≡ k + 1 = omega arith in
        inr (subst (λ m. Conflicts m w) n (Conflicts-suc k w before conflict), (k, sym n, refl))
    | inr over ↦ inl (k, omega arith, before, over, refl)
  ]
  attempts_from-IsRetried (suc left) k w before =
      elim (Bool-cases (is_conflict (attempt_after k w).0)) [
        | inl conflict ↦
            let n : suc k + suc left ≡ k + suc (suc left) = omega arith in
            let ih = attempts_from-IsRetried left (suc k) w (Conflicts-suc k w before conflict) in
            let e = again left (suc k) (waited k w) _ refl conflict in
            subst
              (λ m. IsRetried m w (attempts_from operation sleep (suc left) (suc k) (waited k w))) n
              (subst (IsRetried (suc k + suc left) w) (sym e) ih)
        | inr over ↦ inl (k, omega arith, before, over, stop left (suc k) (waited k w) _ refl over)
      ]

  -- The retries of an operation come to the first of its first five attempts that does not
  -- conflict, or to the fifth if all of them conflict; each attempt after the first works on what
  -- the attempts and the waits before it have left.
  pub retrying-IsRetried : (w : W) → IsRetried conflict_attempts w (retrying operation sleep w)
  unfolding retrying
  retrying-IsRetried w = attempts_from-IsRetried 4 0 w (λ j lt. ground (arith, lt))
