-- ===== src/Tests/Databases.antt =====
-- A config with two indexes on a small table, and an operation that conflicts twice.
use continuo_python_runtime.Duckdb.Retrying.{
  Ending, done, conflicted, conflict_attempts, attempts_from, retrying,
}
use continuo_python_runtime.Duckdb.Retrying.Laws.{IsRetried, retrying-IsRetried}
use continuo_python_runtime.Base.{
  ℕ, ◌+◌, ltb, eqb, if◌then◌else◌, String, ◌≡◌, refl, true, false, List, [], ◌∷◌,
}
use continuo_python_runtime.Contract.Value.{bool, str, ref, Heap, Object, mapping, sequence}
use continuo_python_runtime.Postgres.Indexes.{Index}

abbrev object : ℕ → Object
object i =
    if eqb i 0
    then mapping ((str "indexes", ref 1) ∷ [])
    else if eqb i 1
    then sequence (ref 2 ∷ ref 3 ∷ [])
    else if eqb i 2
    then mapping ((str "columns", ref 4) ∷ (str "unique", bool true) ∷ [])
    else if eqb i 3
    then mapping
        ((str "columns", ref 4) ∷ (str "type", str "hash") ∷ (str "name", str "by_id") ∷ [])
    else sequence (str "id" ∷ [])

abbrev heap : Heap
heap = record { size = 5; object = object }

abbrev columns : List String
columns = "id" ∷ "note" ∷ []

abbrev digest : String → String
digest s = "0123456789abcdef"

abbrev indexes : List Index
indexes =
    record { columns = "id" ∷ []; unique = true; type = "btree"; name = "ix_orders_id" }
    ∷ record { columns = "id" ∷ []; unique = false; type = "hash"; name = "by_id" }
    ∷ []

-- It conflicts until it has run twice.
abbrev operation : ℕ → Ending String × ℕ
operation n = if ltb n 2 then (conflicted "conflict", n + 1) else (done, n + 1)

abbrev sleep : ℕ → ℕ → ℕ
sleep attempt n = n

succeeds : retrying operation sleep 0 ≡ (done, 3)
unfolding retrying attempts_from
succeeds = refl

retrying-IsRetried_example :
    IsRetried operation sleep conflict_attempts 0 (retrying operation sleep 0)
retrying-IsRetried_example = retrying-IsRetried operation sleep 0
