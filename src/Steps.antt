-- ===== src/Steps.antt =====
-- Code that works on the world outside: it passes on the state of that world, of any type, and the
-- calls it has made so far, the newest first.
pub mod Effects
use continuo_python_runtime.Base.{List, ◌∷◌, Exception, Result, ok, err}

-- A call that may raise, and that may change the world either way.
abbrev pub Effect : Type 0 → Type 0 → Type 0
Effect W A = W → Result A × W

pub record Trace (C W : Type 0) : Type 0 where
  pub world : W
  pub calls : List C

abbrev pub StepOn : Type 0 → Type 0 → Type 0 → Type 0
StepOn C W A = Trace C W → Result A × Trace C W

abbrev continue :
    {C W A B : Type 0} → Result A × Trace C W → (A → StepOn C W B) → Result B × Trace C W
continue (ok a, s) f = f a s
continue (err e, s) f = (err e, s)

infixl 5 ◌>>=◌ ◌>>◌
unfoldable pub ◌>>=◌ : {C W A B : Type 0} → StepOn C W A → (A → StepOn C W B) → StepOn C W B
◌>>=◌ m f s = continue (m s) f

abbrev pub ◌>>◌ : {C W B : Type 0} → StepOn C W (Unit {0}) → StepOn C W B → StepOn C W B
before >> after = before >>= λ _. after

-- Code that calls nothing outside.
abbrev pub pure : {C W A : Type 0} → Result A → StepOn C W A
pure r s = (r, s)

abbrev recorded : {C W A : Type 0} → C → List C → Result A × W → Result A × Trace C W
recorded c before (r, w) = (r, record { world = w; calls = c ∷ before })

abbrev pub call : {C W A : Type 0} → C → Effect W A → StepOn C W A
call c effect s = recorded c s.calls (effect s.world)

abbrev reraised :
    {C W A : Type 0} → (Exception → Exception) → Result A × Trace C W → Result A × Trace C W
reraised f (ok a, s) = (ok a, s)
reraised f (err e, s) = (err (f e), s)

-- `try: ... except ... as exc: raise ... from exc`
abbrev pub raising : {C W A : Type 0} → (Exception → Exception) → StepOn C W A → StepOn C W A
raising f m s = reraised f (m s)
