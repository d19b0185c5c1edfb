-- ===== src/Steps/Effects.antt =====
-- The calls that a step records, whatever it returns.
use continuo_python_runtime.Base.{
  ◌≡◌, refl, Bool, true, false, List, ◌∷◌, Exception, Result, ok, err,
}
use continuo_python_runtime.Steps.{Effect, Trace, StepOn, ◌>>=◌, pure, call, raising}

abbrev pub is_ok {ℓ} : {A : Type ℓ} → Result A → Bool
is_ok (ok a) = true
is_ok (err e) = false

-- Whether a step came to a value, and the calls recorded after it.
abbrev pub Leaves : {C W A : Type 0} → (Bool → List C → Type 0) → Result A × Trace C W → Type 0
Leaves Q (r, s) = Q (is_ok r) s.calls

module _ {C W A : Type 0} (Q : Bool → List C → Type 0) where
  pub pure-Leaves : (r : Result A) (s : Trace C W) → Q (is_ok r) s.calls → Leaves Q (pure r s)
  pure-Leaves r s h = h

  pub call-Leaves :
      (c : C) (f : Effect W A) (s : Trace C W)
      → ((b : Bool) → Q b (c ∷ s.calls))
      → Leaves Q (call c f s)
  call-Leaves c f s h = h (is_ok (f s.world).0)

  raised :
      (f : Exception → Exception) (x : Result A × Trace C W)
      → Leaves Q x
      → Leaves Q (raising f (λ s. x) x.1)
  raised f (ok a, s) h = h
  raised f (err e, s) h = h

  pub raising-Leaves :
      (f : Exception → Exception) (m : StepOn C W A) (s : Trace C W)
      → Leaves Q (m s)
      → Leaves Q (raising f m s)
  raising-Leaves f m s h = raised f (m s) h

module _ {C W A B : Type 0} (P Q : Bool → List C → Type 0) (f : A → StepOn C W B)
    (next : (a : A) (s : Trace C W) → P true s.calls → Leaves Q (f a s))
    (stop : (calls : List C) → P false calls → Q false calls) where
  bound : (x : Result A × Trace C W) → Leaves P x → Leaves Q (((λ s. x) >>= f) x.1)
  unfolding ◌>>=◌
  bound (ok a, s) h = next a s h
  bound (err e, s) h = stop s.calls h

  pub bind-Leaves : (m : StepOn C W A) (s : Trace C W) → Leaves P (m s) → Leaves Q ((m >>= f) s)
  unfolding ◌>>=◌
  bind-Leaves m s h = bound (m s) h

module _ {C W A B : Type 0} (Q : Bool → List C → Type 0) (f : A → StepOn C W B)
    (s : Trace C W) where
  pub pure_bind-Leaves :
      (r : Result A)
      → ((a : A) → r ≡ ok a → Leaves Q (f a s))
      → ((e : Exception) → Q false s.calls)
      → Leaves Q ((pure r >>= f) s)
  unfolding ◌>>=◌
  pure_bind-Leaves (ok a) next stop = next a refl
  pure_bind-Leaves (err e) next stop = stop e

module _ {C W A B : Type 0} (f : A → StepOn C W B) (b : B) where
  parts :
      (x : Result A × Trace C W)
      → (((λ s. x) >>= f) x.1).0 ≡ ok b
      → (a : A) × (x.0 ≡ ok a) × ((f a x.1).0 ≡ ok b)
  unfolding ◌>>=◌
  parts (ok a, s) e = (a, refl, e)
  parts (err x, s) e = cc

  -- A sequence that came to a value did so in both its steps.
  pub >>=-ok :
      (m : StepOn C W A) (s : Trace C W)
      → ((m >>= f) s).0 ≡ ok b
      → (a : A) × ((m s).0 ≡ ok a) × ((f a (m s).1).0 ≡ ok b)
  unfolding ◌>>=◌
  >>=-ok m s e = parts (m s) e
