-- ===== src/Validation/Order.antt =====
-- The calls of an operation, in their order.
use mathlib.Core.List.{append_assoc}
use continuo_python_runtime.Base.{
  sym, all_append, ◌≢◌, String, ◌≡◌, refl, ap, ◌∙◌, ◌⊎◌, inl, inr, Bool, true, false, List, [], ◌∷◌,
  ◌++◌, ok, all,
}
use continuo_python_runtime.Contract.Value.{Value, str, Heap}
use continuo_python_runtime.Steps.{◌>>=◌, call}
use continuo_python_runtime.Steps.Effects.{Leaves, bind-Leaves, pure_bind-Leaves}
use continuo_python_runtime.Validation.{
  Call, header_read, schema_ensured, schema_dropped, built_from_sql, binds_checked,
  built_from_columns, cloned, State, ValidationAdapter, Services, Spec, Plan, ensure_schema,
  drop_schema, build_from_sql, check_binds, build_from_columns, clone_from_prod,
}
use continuo_python_runtime.Validation.Operation.{
  operate, node_operation, check_all_binds, check_source, reads_of,
}
use continuo_python_runtime.Validation.Checks.{
  checked, is_check, checked-append, Bound, check_all_binds-Bound, Source, check_source-Source,
  header_added,
}

-- The calls of an operation that came to its end (`true`), or that raised (`false`) and may have
-- stopped on the way, the newest first. All but `drop_schema` begin with the schema; then follows the
-- one call that the operation is, for `build_from_columns` after the check of the csv header and of
-- every declared read in order.
pub data IsOperation (h : Heap) (schema : String) : Plan → Bool → List Call → Type 0 where
  dropped : (b : Bool) → IsOperation h schema drop_schema b (schema_dropped schema ∷ [])
  no_schema : (plan : Plan) → IsOperation h schema plan false (schema_ensured schema ∷ [])
  ensured : (b : Bool) → IsOperation h schema ensure_schema b (schema_ensured schema ∷ [])
  built :
      (table sql : String) (b : Bool)
      → IsOperation h schema
          (build_from_sql table sql)
          b
          (built_from_sql (schema, table) sql ∷ schema_ensured schema ∷ [])
  explained :
      (table sql : String) (b : Bool)
      → IsOperation h schema
          (check_binds table sql)
          b
          (binds_checked (str sql) ∷ schema_ensured schema ∷ [])
  copied :
      (table prod : String) (b : Bool)
      → IsOperation h schema
          (clone_from_prod table prod)
          b
          (cloned (schema, table) prod ∷ schema_ensured schema ∷ [])
  unbuilt :
      (table : String) (spec : Spec) (checks : List Call)
      → all is_check checks ≡ true
      → IsOperation h schema
          (build_from_columns table spec)
          false
          (checks ++ (schema_ensured schema ∷ []))
  built_columns :
      (table : String) (spec : Spec) (reads : List Value) (header : List Call) (b : Bool)
      → reads_of h spec.reads ≡ ok reads
      → ((spec.csv_source ≡ "") × (header ≡ [])) ⊎ (header ≡ header_read spec.csv_source ∷ [])
      → IsOperation h schema (build_from_columns table spec) b (
          built_from_columns (schema, table)
          ∷ (checked reads header ++ (schema_ensured schema ∷ [])))

pub record Operated (h : Heap) (schema : String) (plan : Plan) (before : List Call) (b : Bool)
    (after : List Call) : Type 0 where
  pub added : List Call
  pub whole : after ≡ added ++ before
  pub is_operation : IsOperation h schema plan b added

module _ {W : Type 0} (services : Services W) (h : Heap) (adapter : ValidationAdapter W) where
  module _ (schema table : String) (spec : Spec) (before : List Call) where
    abbrev Built : Bool → List Call → Type 0
    Built = Operated h schema (build_from_columns table spec) before

    unbuilt_calls :
        (checks cs : List Call)
        → all is_check checks ≡ true
        → cs ≡ checks ++ (schema_ensured schema ∷ before)
        → Built false cs
    unbuilt_calls checks cs only e = record {
      added = checks ++ (schema_ensured schema ∷ []);
      whole = e ∙ sym (append_assoc checks (schema_ensured schema ∷ []) before);
      is_operation = unbuilt table spec checks only;
    }

    -- The reads' checks on top of the header's.
    stacked :
        (checks header between cs : List Call)
        → between ≡ header ++ (schema_ensured schema ∷ before)
        → cs ≡ checks ++ between
        → cs ≡ (checks ++ header) ++ (schema_ensured schema ∷ before)
    stacked checks header between cs e f =
        f
        ∙ ap (λ cs. checks ++ cs) e
        ∙ sym (append_assoc checks header (schema_ensured schema ∷ before))

    unbuilt_reads :
        (reads : List Value) (header between cs : List Call) (b : Bool)
        → all is_check header ≡ true
        → between ≡ header ++ (schema_ensured schema ∷ before)
        → Bound reads between b cs
        → Built false cs
    unbuilt_reads reads header between cs b only e bound =
        unbuilt_calls (bound.added ++ header) cs
          (all_append is_check bound.added header bound.only only)
          (stacked bound.added header between cs e bound.whole)

    reads_then_table :
        (reads : List Value) (header between cs : List Call) (b : Bool)
        → reads_of h spec.reads ≡ ok reads
        → ((true ≡ false)
            ⊎ ((spec.csv_source ≡ "") × (header ≡ []))
            ⊎ (header ≡ header_read spec.csv_source ∷ []))
        → between ≡ header ++ (schema_ensured schema ∷ before)
        → (bound : Bound reads between true cs) → (true ≡ false) ⊎ (bound.added ≡ checked reads [])
        → Built b (built_from_columns (schema, table) ∷ cs)
    reads_then_table reads header between cs b found (inl impossible) e bound all_of = cc
    reads_then_table reads header between cs b found (inr made) e bound (inl impossible) = cc
    reads_then_table reads header between cs b found (inr made) e bound (inr order) = record {
      added =
          built_from_columns (schema, table)
          ∷ (checked reads header ++ (schema_ensured schema ∷ []));
      whole =
          ap (λ cs. built_from_columns (schema, table) ∷ cs)
            (stacked bound.added header between cs e bound.whole
              ∙ ap (λ checks. (checks ++ header) ++ (schema_ensured schema ∷ before)) order
              ∙ ap (λ checks. checks ++ (schema_ensured schema ∷ before))
                  (sym (checked-append reads header))
              ∙ sym (append_assoc (checked reads header) (schema_ensured schema ∷ []) before));
      is_operation = built_columns table spec reads header b found made;
    }

    columns-Built :
        (s : State W)
        → s.calls ≡ schema_ensured schema ∷ before
        → Leaves Built (node_operation services h adapter schema (build_from_columns table spec) s)
    unfolding node_operation
    columns-Built s start =
        bind-Leaves (Source services h adapter spec s.calls) Built _
          (λ _ t source.
            let (header, whole, only, made) =
              header_added services h adapter spec s.calls t.calls true source in
            let stop_here : Built false t.calls =
              unbuilt_calls header t.calls only (whole ∙ ap (λ cs. header ++ cs) start) in
            pure_bind-Leaves Built _ t (reads_of h spec.reads)
              (λ reads found.
                bind-Leaves (Bound reads t.calls) Built _
                  (λ _ u bound.
                    reads_then_table reads header t.calls u.calls _ found made
                      (whole ∙ ap (λ cs. header ++ cs) start) bound bound.all_of)
                  (λ cs bound.
                    unbuilt_reads reads header t.calls cs false only
                      (whole ∙ ap (λ cs. header ++ cs) start) bound)
                  (check_all_binds services h adapter reads) t
                  (check_all_binds-Bound services h adapter reads t))
              (λ _. stop_here))
          (λ cs source.
            let (header, whole, only, made) =
              header_added services h adapter spec s.calls cs false source in
            unbuilt_calls header cs only (whole ∙ ap (λ cs. header ++ cs) start))
          (check_source services h adapter spec) s (check_source-Source services h adapter spec s)

  one_call :
      (schema : String) (plan : Plan) (before : List Call) (c : Call) (b : Bool) (cs : List Call)
      → IsOperation h schema plan b (c ∷ schema_ensured schema ∷ [])
      → cs ≡ c ∷ schema_ensured schema ∷ before
      → Operated h schema plan before b cs
  one_call schema plan before c b cs is e = record {
    added = c ∷ schema_ensured schema ∷ [];
    whole = e;
    is_operation = is;
  }

  node_operation-Operated :
      (schema : String) (plan : Plan) (before : List Call) (s : State W)
      → plan ≢ drop_schema
      → s.calls ≡ schema_ensured schema ∷ before
      → Leaves (Operated h schema plan before) (node_operation services h adapter schema plan s)
  unfolding node_operation
  node_operation-Operated schema ensure_schema before s other e = record {
    added = schema_ensured schema ∷ [];
    whole = e;
    is_operation = ensured true;
  }
  node_operation-Operated schema drop_schema before s other e = elim (other refl) [ ]
  node_operation-Operated schema (build_from_sql table sql) before s other e =
      one_call schema _ before _ _ _ (built table sql _)
        (ap (λ cs. built_from_sql (schema, table) sql ∷ cs) e)
  node_operation-Operated schema (check_binds table sql) before s other e =
      one_call schema _ before _ _ _ (explained table sql _)
        (ap (λ cs. binds_checked (str sql) ∷ cs) e)
  node_operation-Operated schema (clone_from_prod table prod) before s other e =
      one_call schema _ before _ _ _ (copied table prod _)
        (ap (λ cs. cloned (schema, table) prod ∷ cs) e)
  node_operation-Operated schema (build_from_columns table spec) before s other e =
      columns-Built schema table spec before s e

  ensured_first :
      (schema : String) (plan : Plan) (s : State W)
      → plan ≢ drop_schema
      → Leaves (Operated h schema plan s.calls) (
          (call (schema_ensured schema) (adapter.ensure_schema schema) >>= λ _.
          node_operation services h adapter schema plan)
            s)
  ensured_first schema plan s other =
      bind-Leaves (λ _ cs. cs ≡ schema_ensured schema ∷ s.calls) (Operated h schema plan s.calls) _
        (λ _ t e. node_operation-Operated schema plan s.calls t other e)
        (λ cs e. record {
          added = schema_ensured schema ∷ [];
          whole = e;
          is_operation = no_schema plan;
        })
        (call (schema_ensured schema) (adapter.ensure_schema schema)) s refl

  pub operate-Operated :
      (schema : String) (plan : Plan) (s : State W)
      → Leaves (Operated h schema plan s.calls) (operate services h adapter schema plan s)
  unfolding operate
  operate-Operated schema drop_schema s = record {
    added = schema_dropped schema ∷ [];
    whole = refl;
    is_operation = dropped _;
  }
  operate-Operated schema ensure_schema s = ensured_first schema _ s (λ e. cc)
  operate-Operated schema (build_from_sql table sql) s = ensured_first schema _ s (λ e. cc)
  operate-Operated schema (check_binds table sql) s = ensured_first schema _ s (λ e. cc)
  operate-Operated schema (build_from_columns table spec) s = ensured_first schema _ s (λ e. cc)
  operate-Operated schema (clone_from_prod table prod) s = ensured_first schema _ s (λ e. cc)
