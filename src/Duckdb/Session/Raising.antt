-- ===== src/Duckdb/Session/Raising.antt =====
-- What the code of continuo_duckdb_adapter/infrastructure/session.py may raise, put together from
-- what its parts may raise.
use continuo_python_runtime.Duckdb.Session.{
  Failure, Answer, returned, raised, Action, ◌>>=◌, ◌>>◌, return, raise, on_failure, finally,
  continue, handled,
}

module _ (P : Failure → Type 0) where
  abbrev pub Only : {A : Type 0} → Answer A → Type 0
  Only (returned a) = Unit
  Only (raised e) = P e

  -- Whatever the code raises is of this kind.
  abbrev pub Raises : {W A : Type 0} → Action W A → Type 0
  Raises {W} m = (w : W) → Only (m w).0

  continue-Only :
      {W A B : Type 0} (x : Answer A × W) (f : A → Action W B)
      → Only x.0
      → ((a : A) → Raises (f a))
      → Only (continue x f).0
  continue-Only (returned a, w) f h k = k a w
  continue-Only (raised e, w) f h k = h

  pub bind-Raises :
      {W A B : Type 0} (m : Action W A) (f : A → Action W B)
      → Raises m
      → ((a : A) → Raises (f a))
      → Raises (m >>= f)
  unfolding ◌>>=◌
  bind-Raises m f h k w = continue-Only (m w) f (h w) k

handled-Only :
    {W A : Type 0} (Q P : Failure → Type 0) (x : Answer A × W) (f : Failure → Action W A)
    → Only Q x.0
    → ((e : Failure) → Q e → Raises P (f e))
    → Only P (handled x f).0
handled-Only Q P (returned a, w) f h k = tt
handled-Only Q P (raised e, w) f h k = k e h w

pub on_failure-Raises :
    {W A : Type 0} (Q P : Failure → Type 0) (m : Action W A) (f : Failure → Action W A)
    → Raises Q m
    → ((e : Failure) → Q e → Raises P (f e))
    → Raises P (on_failure m f)
unfolding on_failure
on_failure-Raises Q P m f h k w = handled-Only Q P (m w) f (h w) k

pub finally-Raises :
    {W A : Type 0} (P : Failure → Type 0) (m : Action W A) (last : Action W (Unit {0}))
    → Raises P m
    → Raises P last
    → Raises P (finally m last)
finally-Raises P m last h k =
    bind-Raises P (on_failure m (λ e. last >> raise e)) (λ a. last >> return a)
      (on_failure-Raises P P m (λ e. last >> raise e) h
        (λ e p. bind-Raises P last (λ _. raise e) k (λ _ w. p)))
      (λ a. bind-Raises P last (λ _. return a) k (λ _ w. tt))
