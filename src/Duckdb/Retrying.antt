-- ===== src/Duckdb/Retrying.antt =====
-- `_retrying` of adapters/duckdb/continuo_duckdb_adapter/application/warehouse.py.
pub mod Laws
use continuo_python_runtime.Base.{ℕ, zero, suc, ◌-◌, Bool, true, false}

-- How an operation ends: it returns, a concurrent change conflicts with it, or it raises something else.
pub data Ending (E : Type 0) : Type 0 where
  done : Ending E
  conflicted raised : E → Ending E

abbrev pub is_conflict : {E : Type 0} → Ending E → Bool
is_conflict done = false
is_conflict (conflicted e) = true
is_conflict (raised e) = false

abbrev pub conflict_attempts : ℕ
conflict_attempts = 5

-- `sleep attempt` waits `_CONFLICT_BACKOFF_SECONDS * attempt`; others may change the lake meanwhile.
module _ {W E : Type 0} (operation : W → Ending E × W) (sleep : ℕ → W → W) where
  -- The attempts from the one numbered `attempt` on, `left` more being allowed after it.
  unfoldable pub attempts_from : ℕ → ℕ → W → Ending E × W
  attempts_from zero attempt w = operation w
  attempts_from (suc left) attempt w =
      let (ending, v) = operation w in
      elim ending [
        | done ↦ (done, v)
        | conflicted e ↦ attempts_from left (suc attempt) (sleep attempt v)
        | raised e ↦ (raised e, v)
      ]

  unfoldable pub retrying : W → Ending E × W
  unfolding attempts_from
  retrying w = attempts_from (conflict_attempts - 1) 1 w
