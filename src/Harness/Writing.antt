-- ===== src/Harness/Writing.antt =====
-- The calls of the `try` block that writes.
use continuo_python_runtime.Base.{
  String, ◌==◌, ◌≡◌, refl, ap, inl, inr, Bool, false, List, [], ◌∷◌, ◌++◌, Result, ok, err,
  Bool-cases, ok-injective, eq_iff, ◌∙◌, some, subst,
}
use continuo_python_runtime.Contract.Model.{Node}
use continuo_python_runtime.Engine.{Adapter, Target, upsert}
use continuo_python_runtime.Harness.{
  Call, ensured, inspected, loaded, appended, upserted, State, Step, write_failure,
}
use continuo_python_runtime.Steps.{call, pure, raising}
use continuo_python_runtime.Steps.Effects.{Leaves, raising-Leaves, bind-Leaves}
use continuo_python_runtime.Harness.Run.{
  Outside, Writer, write_replace, write_append, write_upsert, writer_of, writer_for, checked_writer,
  supports, check_shape, write_table,
}

-- The calls of a write that came to its end (`true`), or that may have stopped (`false`), the newest
-- first: the table is ensured; unless the rows are replaced its shape is looked at; then it is
-- written, once, in the node's mode.
pub data IsWrite (target : Target) (key : List String) (mode : String)
    : Bool → List Call → Type 0 where
  nothing : IsWrite target key mode false []
  only_ensured : IsWrite target key mode false (ensured target ∷ [])
  only_inspected : IsWrite target key mode false (inspected target ∷ ensured target ∷ [])
  replaced :
      (b : Bool)
      → mode ≡ "replace"
      → IsWrite target key mode b (loaded target ∷ ensured target ∷ [])
  appended_rows :
      (b : Bool)
      → mode ≡ "append"
      → IsWrite target key mode b (appended target ∷ inspected target ∷ ensured target ∷ [])
  upserted_rows :
      (b : Bool)
      → mode ≡ "upsert"
      → IsWrite target key mode b (upserted target key ∷ inspected target ∷ ensured target ∷ [])

pub record Wrote (target : Target) (key : List String) (mode : String) (before : List Call)
    (b : Bool) (after : List Call) : Type 0 where
  pub added : List Call
  pub whole : after ≡ added ++ before
  pub is_write : IsWrite target key mode b added

module _ {W T : Type 0} (outside : Outside W T) (adapter : Adapter W T) (node : Node)
    (target : Target) where
  -- The writer of a mode.
  pub data IsWriter : Writer W T → Type 0 where
    replace : node.mode_type ≡ "replace" → IsWriter (write_replace outside)
    append : node.mode_type ≡ "append" → IsWriter (write_append outside)
    upserting : node.mode_type ≡ "upsert" → IsWriter (write_upsert outside)

  abbrev Writes : List Call → Bool → List Call → Type 0
  Writes before = Wrote target node.primary_key node.mode_type before

  stop_ensured : (before cs : List Call) → cs ≡ ensured target ∷ before → Writes before false cs
  stop_ensured before cs h = record {
    added = ensured target ∷ [];
    whole = h;
    is_write = only_ensured;
  }

  stop_inspected :
      (before cs : List Call)
      → cs ≡ inspected target ∷ ensured target ∷ before
      → Writes before false cs
  stop_inspected before cs h = record {
    added = inspected target ∷ ensured target ∷ [];
    whole = h;
    is_write = only_inspected;
  }

  check_shape_calls :
      (s : State W)
      → Leaves (λ _ cs. cs ≡ inspected target ∷ s.calls) (check_shape outside adapter node target s)
  unfolding check_shape
  check_shape_calls s =
      bind-Leaves (λ _ cs. cs ≡ inspected target ∷ s.calls)
        (λ _ cs. cs ≡ inspected target ∷ s.calls) _ (λ live t h. h) (λ _ h. h)
        (call (inspected target) (adapter.table_columns target)) s refl

  -- A write that adds one call, after the table's shape was looked at.
  kept_wrote :
      (has : Adapter W T → Bool) (c : Call)
      (write : Adapter W T → Target → T → List String → Step W (Unit {0})) (rows : T) (s : State W)
      → ((b : Bool)
          → IsWrite target node.primary_key node.mode_type b
              (c ∷ inspected target ∷ ensured target ∷ []))
      → ((u : State W) → (write adapter target rows node.primary_key u).1.calls ≡ c ∷ u.calls)
      → Leaves (Writes s.calls) (
          write_table outside adapter node target
            (record { capability = some has; write = write })
            rows
            s)
  unfolding write_table
  kept_wrote has c write rows s is one =
      bind-Leaves (λ _ cs. cs ≡ ensured target ∷ s.calls) (Writes s.calls) _
        (λ _ t h.
          bind-Leaves (λ _ cs. cs ≡ inspected target ∷ ensured target ∷ s.calls) (Writes s.calls) _
            (λ _ u k. record {
              added = c ∷ inspected target ∷ ensured target ∷ [];
              whole = one u ∙ ap (λ cs. c ∷ cs) k;
              is_write = is _;
            })
            (stop_inspected s.calls) (check_shape outside adapter node target) t
            (check_shape_calls t ∙ ap (λ cs. inspected target ∷ cs) h))
        (stop_ensured s.calls)
        (call (ensured target)
          (adapter.ensure_table target node.output_columns node.config node.primary_key))
        s refl

  replaced_wrote :
      (rows : T) (s : State W)
      → node.mode_type ≡ "replace"
      → Leaves
          (Writes s.calls)
          (write_table outside adapter node target (write_replace outside) rows s)
  unfolding write_table
  replaced_wrote rows s is =
      bind-Leaves (λ _ cs. cs ≡ ensured target ∷ s.calls) (Writes s.calls) _
        (λ _ t h.
          bind-Leaves (λ _ cs. cs ≡ ensured target ∷ s.calls) (Writes s.calls) _
            (λ _ u k. record {
              added = loaded target ∷ ensured target ∷ [];
              whole = ap (λ cs. loaded target ∷ cs) k;
              is_write = replaced _ is;
            })
            (stop_ensured s.calls) (pure (ok tt)) t h)
        (stop_ensured s.calls)
        (call (ensured target)
          (adapter.ensure_table target node.output_columns node.config node.primary_key))
        s refl

  write_table_wrote :
      (writer : Writer W T) (rows : T) (s : State W)
      → IsWriter writer
      → Leaves (Writes s.calls) (write_table outside adapter node target writer rows s)
  write_table_wrote _ rows s (replace is) = replaced_wrote rows s is
  write_table_wrote _ rows s (append is) =
      kept_wrote (λ a. a.is_append_capable) (appended target)
        (λ adapter target rows key. call (appended target) (adapter.append target rows)) rows s
        (λ b. appended_rows b is) (λ u. refl)
  write_table_wrote _ rows s (upserting is) =
      kept_wrote (λ a. a.is_upsert_capable) (upserted target node.primary_key)
        (λ adapter target rows key.
          call (upserted target key) (upsert outside.arrow adapter target rows key))
        rows s (λ b. upserted_rows b is) (λ u. refl)

  writer_of-IsWriter :
      (writer : Writer W T) → writer_of outside node.mode_type ≡ ok writer → IsWriter writer
  unfolding writer_of
  writer_of-IsWriter writer e = elim (Bool-cases (node.mode_type == "replace")) [
    | inl is ↦
        subst IsWriter (ok-injective (rw is at e))
          (replace ((eq_iff node.mode_type "replace").0 is))
    | inr other ↦ elim (Bool-cases (node.mode_type == "append")) [
      | inl is ↦
          subst IsWriter (ok-injective (rw (other, is) at e))
            (append ((eq_iff node.mode_type "append").0 is))
      | inr neither ↦ elim (Bool-cases (node.mode_type == "upsert")) [
        | inl is ↦
            subst IsWriter (ok-injective (rw (other, neither, is) at e))
              (upserting ((eq_iff node.mode_type "upsert").0 is))
        | inr none_of ↦ let impossible = rw (other, neither, none_of) at e in cc
      ]
    ]
  ]

  checked_writer_ok :
      (r : Result (Writer W T)) (writer : Writer W T)
      → checked_writer outside adapter r ≡ ok writer
      → r ≡ ok writer
  checked_writer_ok (err x) writer e = cc
  checked_writer_ok (ok w) writer e = elim (Bool-cases (supports outside adapter w.capability)) [
    | inl has ↦ rw has at e
    | inr lacks ↦ let impossible = rw lacks at e in cc
  ]

  pub writer_for-IsWriter :
      (writer : Writer W T) → writer_for outside adapter node ≡ ok writer → IsWriter writer
  unfolding writer_for
  writer_for-IsWriter writer e = writer_of-IsWriter writer (checked_writer_ok _ writer e)

  pub raising_wrote :
      (writer : Writer W T) (rows : T) (s : State W)
      → IsWriter writer
      → Leaves
          (Writes s.calls)
          (raising write_failure (write_table outside adapter node target writer rows) s)
  raising_wrote writer rows s is =
      raising-Leaves (Writes s.calls) write_failure
        (write_table outside adapter node target writer rows) s (write_table_wrote writer rows s is)
