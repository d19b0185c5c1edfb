-- ===== src/Harness/Executing.antt =====
-- The order of the calls of `execute`, the part of a run that has an adapter.
use continuo_python_runtime.Base.{
  ◌≡◌, refl, ap, ◌∙◌, ◌⊎◌, inl, inr, Bool, true, false, List, [], ◌∷◌, ◌++◌, all, map, Bool-cases,
}
use continuo_python_runtime.Contract.Model.{Node}
use continuo_python_runtime.Engine.{Adapter, Target}
use continuo_python_runtime.Conform.{conform}
use continuo_python_runtime.Harness.{Call, config_checked, State, config_failure, write_failure}
use continuo_python_runtime.Steps.{call, raising}
use continuo_python_runtime.Steps.Effects.{Leaves, raising-Leaves, bind-Leaves, pure_bind-Leaves}
use continuo_python_runtime.Harness.Reading.{is_declared, IsReading, no-IsReading, produce_reading}
use continuo_python_runtime.Harness.Writing.{
  IsWrite, nothing, Wrote, writer_for-IsWriter, raising_wrote,
}
use continuo_python_runtime.Harness.Run.{
  Outside, validate_config_early, writer_for, produce, execute, write_table,
}

-- The calls of a run, the newest first: the config is checked at most once; then come fetches of
-- declared reads only; then the write, complete if the run succeeded.
pub record IsRun (node : Node) (target : Target) (before : List Call) (b : Bool) (after : List Call)
    : Type 0 where
  pub checked : List Call
  pub reads : List Call
  pub writes : List Call
  pub whole : after ≡ writes ++ (reads ++ (checked ++ before))
  pub is_checked : (checked ≡ []) ⊎ (checked ≡ config_checked ∷ [])
  pub only_declared : all (is_declared node.reads) reads ≡ true
  pub is_write : IsWrite target node.primary_key node.mode_type b writes

module _ {W T : Type 0} (outside : Outside W T) (adapter : Adapter W T) (node : Node)
    (target : Target) where
  abbrev Checked : List Call → Bool → List Call → Type 0
  Checked before _ cs = (cs ≡ before) ⊎ (cs ≡ config_checked ∷ before)

  config_calls :
      (s : State W) → Leaves (Checked s.calls) (validate_config_early outside adapter node s)
  unfolding validate_config_early
  config_calls s = elim (Bool-cases adapter.has_validate_config) [
    | inl has ↦ rw has (
        raising-Leaves (Checked s.calls) config_failure
          (call config_checked
            (adapter.validate_config node.config (map (λ c. c.name) node.output_columns)))
          s (inr refl))
    | inr lacks ↦ rw lacks (inl refl)
  ]

  module _ (before cs : List Call) (c : (cs ≡ before) ⊎ (cs ≡ config_checked ∷ before)) where
    checks : (c : List Call) × (cs ≡ c ++ before) × ((c ≡ []) ⊎ (c ≡ config_checked ∷ []))
    checks = elim c [
      | inl unchecked ↦ ([], unchecked, inl refl)
      | inr one ↦ (config_checked ∷ [], one, inr refl)
    ]

    Wrote-IsRun :
        (reading after : List Call) (b : Bool)
        → IsReading node.reads cs reading
        → Wrote target node.primary_key node.mode_type reading b after
        → IsRun node target before b after
    Wrote-IsRun reading after b r w =
        let (made, whole, is) = checks in
        record {
          checked = made;
          reads = r.added;
          writes = w.added;
          whole = w.whole ∙ ap (λ cs. w.added ++ cs) (r.whole ∙ ap (λ cs. r.added ++ cs) whole);
          is_checked = is;
          only_declared = r.declared;
          is_write = w.is_write;
        }

    read-IsRun :
        (reading : List Call)
        → IsReading node.reads cs reading
        → IsRun node target before false reading
    read-IsRun reading r =
        Wrote-IsRun reading reading false r
          (record { added = []; whole = refl; is_write = nothing })

    checked-IsRun : IsRun node target before false cs
    checked-IsRun = read-IsRun cs (no-IsReading node.reads cs)

  pub execute-IsRun :
      (s : State W) → Leaves (IsRun node target s.calls) (execute outside adapter node target s)
  unfolding execute
  execute-IsRun s =
      bind-Leaves (Checked s.calls) (IsRun node target s.calls) _
        (λ _ t c.
          pure_bind-Leaves (IsRun node target s.calls) _ t (writer_for outside adapter node)
            (λ writer found.
              bind-Leaves (λ _ cs. IsReading node.reads t.calls cs) (IsRun node target s.calls) _
                (λ table u r.
                  pure_bind-Leaves (IsRun node target s.calls) _ u
                    (conform outside.frame table node.output_columns node.extra_columns)
                    (λ conformed _.
                      bind-Leaves (Wrote target node.primary_key node.mode_type u.calls)
                        (IsRun node target s.calls) _
                        (λ _ v w. Wrote-IsRun s.calls t.calls c u.calls v.calls true r w)
                        (λ after w. Wrote-IsRun s.calls t.calls c u.calls after false r w)
                        (raising write_failure
                          (write_table outside adapter node target writer conformed))
                        u
                        (raising_wrote outside adapter node target writer conformed u
                          (writer_for-IsWriter outside adapter node target writer found)))
                    (λ _. read-IsRun s.calls t.calls c u.calls r))
                (read-IsRun s.calls t.calls c) (produce outside adapter node) t
                (produce_reading outside adapter node t))
            (λ _. checked-IsRun s.calls t.calls c))
        (checked-IsRun s.calls) (validate_config_early outside adapter node) s (config_calls s)
