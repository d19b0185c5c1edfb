-- ===== src/Harness/Kept.antt =====
-- The check that guards a write into a table whose rows are kept.
use continuo_python_runtime.Base.{◌≡◌, List, ok, require-eq-ok}
use continuo_python_runtime.Contract.Model.{Node}
use continuo_python_runtime.Engine.{LiveColumn, Adapter, Target}
use continuo_python_runtime.Shape.Match.{IsMatch, shape_diff-IsMatch}
use continuo_python_runtime.Steps.{call}
use continuo_python_runtime.Steps.Effects.{>>=-ok}
use continuo_python_runtime.Harness.{inspected, State}
use continuo_python_runtime.Harness.Run.{Outside, check_shape}

module _ {W T : Type 0} (outside : Outside W T) (adapter : Adapter W T) (node : Node)
    (target : Target) where
  -- If the shape check before an append or upsert passes, the adapter reported the live columns,
  -- and these and the declared ones pair off completely, each pair with one name up to case and
  -- the same nullability.
  pub check_shape-IsMatch :
      (s : State W)
      → (check_shape outside adapter node target s).0 ≡ ok tt
      → (live : List LiveColumn) × ((adapter.table_columns target s.world).0 ≡ ok live)
        × IsMatch outside.casefold node.output_columns live
  unfolding check_shape
  check_shape-IsMatch s passed =
      let (live, found, same) =
        >>=-ok _ tt (call (inspected target) (adapter.table_columns target)) s passed in
      (
        live,
        found,
        shape_diff-IsMatch outside.casefold node.output_columns live (require-eq-ok _ _ same),
      )
