-- ===== src/Harness/Reading.antt =====
-- A script and a csv producer read only what the node declares.
use mathlib.Core.List.{append_assoc}
use continuo_python_runtime.Base.{
  all_append, String, ◌==◌, ◌≡◌, refl, ap, sym, ◌∙◌, Bool, true, false, Option, none, some, List,
  [], ◌∷◌, ◌++◌, map, Result, ok, err, all, elem, arith, eq_iff, Bool-cases, inl, inr,
  some-injective,
}
use continuo_python_runtime.Contract.Model.{Node}
use continuo_python_runtime.Contract.Value.{str}
use continuo_python_runtime.Contract.CsvSource.{parse_csv_uri}
use continuo_python_runtime.Engine.{Adapter}
use continuo_python_runtime.Conform.{target_schema}
use continuo_python_runtime.Harness.{Call, fetched, csv_read, State, script_failure}
use continuo_python_runtime.Steps.{call, pure}
use continuo_python_runtime.Harness.Context.{
  Script, returns, raises, look, change, read, lookup, read_failed, memo_read, declared_read,
  read_name, run_script, execute_script,
}
use continuo_python_runtime.Steps.Effects.{Leaves, raising-Leaves, bind-Leaves}
use continuo_python_runtime.Harness.Run.{
  Outside, produce_from_script, produce_csv, produce, load_script, load_csv, csv_source,
  csv_failure,
}

-- The call fetches the SQL of a declared read, or the declared csv source.
abbrev pub is_declared : List (String × String) → Call → Bool
is_declared reads (fetched sql) = elem sql (map (λ r. r.1) reads)
is_declared reads (csv_read uri) = elem uri (map (λ r. r.1) reads)
is_declared reads _ = false

-- Only reads that are declared were added to the calls.
pub record IsReading (reads : List (String × String)) (before after : List Call) : Type 0 where
  pub added : List Call
  pub whole : after ≡ added ++ before
  pub declared : all (is_declared reads) added ≡ true

pub no-IsReading :
    (reads : List (String × String)) (before : List Call) → IsReading reads before before
no-IsReading reads before = record { added = []; whole = refl; declared = refl }

lookup_declared :
    (name sql : String) (reads : List (String × String))
    → lookup name reads ≡ some sql
    → elem sql (map (λ r. r.1) reads) ≡ true
unfolding lookup
lookup_declared name sql [] e = cc
lookup_declared name sql ((key, value) ∷ rest) e = elim (Bool-cases (key == name)) [
  | inl found ↦
      let same = some-injective (rw found at e) in let h = eq_iff sql value in ground arith
  | inr other ↦ let ih = lookup_declared name sql rest (rw other at e) in ground (arith, ih)
]

pub and_then :
    (reads : List (String × String)) (before between after : List Call)
    → IsReading reads before between
    → IsReading reads between after
    → IsReading reads before after
and_then reads before between after r q = record {
  added = q.added ++ r.added;
  whole = q.whole ∙ ap (λ cs. q.added ++ cs) r.whole ∙ sym (append_assoc q.added r.added before);
  declared = all_append (is_declared reads) q.added r.added q.declared r.declared;
}

one_read :
    (reads : List (String × String)) (c : Call) (before : List Call)
    → is_declared reads c ≡ true
    → IsReading reads before (c ∷ before)
one_read reads c before h = record { added = c ∷ []; whole = refl; declared = ground arith }

module _ {W T : Type 0} (adapter : Adapter W T) (reads : List (String × String)) where
  same_calls :
      (x : Result T × State W) (memo : List (String × T)) (name : String) (before : List Call)
      → IsReading reads before x.1.calls
      → IsReading reads before (read_failed adapter reads x memo name).1.calls
  same_calls (ok t, s) memo name before h = h
  same_calls (err e, s) memo name before h = h

  memo-IsReading :
      (known : Option T) (sql name : String) (memo : List (String × T)) (s : State W)
      → lookup name reads ≡ some sql
      → IsReading reads s.calls (memo_read adapter reads known sql name memo s).1.calls
  memo-IsReading (some t) sql name memo s e = no-IsReading reads s.calls
  memo-IsReading none sql name memo s e =
      same_calls (call (fetched sql) (adapter.fetch sql) s) memo name s.calls
        (one_read reads (fetched sql) s.calls (lookup_declared name sql reads e))

  declared-IsReading :
      (found : Option String) (name : String) (memo : List (String × T)) (s : State W)
      → lookup name reads ≡ found
      → IsReading reads s.calls (declared_read adapter reads found name memo s).1.calls
  declared-IsReading none name memo s e = no-IsReading reads s.calls
  declared-IsReading (some sql) name memo s e = memo-IsReading (lookup name memo) sql name memo s e

  run_script-IsReading :
      (script : Script W T) (memo : List (String × T)) (s : State W)
      → IsReading reads s.calls (run_script adapter reads script memo s).1.calls
  unfolding run_script read_name
  run_script-IsReading (returns r) memo s = no-IsReading reads s.calls
  run_script-IsReading (raises e) memo s = no-IsReading reads s.calls
  run_script-IsReading (look f) memo s = run_script-IsReading (f s.world) memo s
  run_script-IsReading (change f k) memo s =
      run_script-IsReading k memo (record { world = f s.world; calls = s.calls })
  run_script-IsReading (read name k) memo s =
      let x = read_name adapter reads name memo s in
      and_then reads s.calls x.1.calls _ (declared-IsReading (lookup name reads) name memo s refl)
        (run_script-IsReading (k x.0.0) x.0.1 x.1)

  execute_script-IsReading :
      (script : Script W T) (s : State W)
      → Leaves (λ _ cs. IsReading reads s.calls cs) (execute_script adapter reads script s)
  unfolding execute_script
  execute_script-IsReading script s =
      raising-Leaves (λ _ cs. IsReading reads s.calls cs) script_failure
        (run_script adapter reads script []) s (run_script-IsReading script [] s)

module _ {W T : Type 0} (outside : Outside W T) (adapter : Adapter W T) (node : Node) where
  abbrev Reads : List Call → Bool → List Call → Type 0
  Reads before _ cs = IsReading node.reads before cs

  script_reading :
      (s : State W) → Leaves (Reads s.calls) (produce_from_script outside adapter node s)
  unfolding produce_from_script
  script_reading s =
      bind-Leaves (Reads s.calls) (Reads s.calls) _
        (λ script t h.
          bind-Leaves (Reads s.calls) (Reads s.calls) _ (λ _ _ h. h) (λ _ h. h)
            (execute_script adapter node.reads script) t
            (and_then node.reads s.calls t.calls _ h
              (execute_script-IsReading adapter node.reads script t)))
        (λ _ h. h) (pure (load_script (outside.script_file node.script))) s
        (no-IsReading node.reads s.calls)

  load_csv_reading :
      (text : String) (s : State W)
      → lookup "csv" node.reads ≡ some text
      → Leaves (Reads s.calls) (load_csv outside node text s)
  unfolding load_csv
  load_csv_reading text s e =
      bind-Leaves (λ _ cs. cs ≡ s.calls) (Reads s.calls) _
        (λ uri t h.
          bind-Leaves (λ _ cs. cs ≡ s.calls) (Reads s.calls) _
            (λ types u k.
              raising-Leaves (Reads s.calls) csv_failure
                (call (csv_read text) (outside.read_csv uri node.output_columns types)) u
                (rw k (
                  one_read node.reads (csv_read text) s.calls
                    (lookup_declared "csv" text node.reads e))))
            untouched (pure (target_schema node.output_columns)) t h)
        untouched (pure (parse_csv_uri (str text))) s refl
    where
      untouched : (cs : List Call) → cs ≡ s.calls → IsReading node.reads s.calls cs
      untouched cs h = rw h (no-IsReading node.reads s.calls)

  csv_reading :
      (found : Option String) (s : State W)
      → lookup "csv" node.reads ≡ found
      → Leaves (Reads s.calls) (csv_source outside node found s)
  csv_reading none s e = no-IsReading node.reads s.calls
  csv_reading (some text) s e = load_csv_reading text s e

  pub produce_reading : (s : State W) → Leaves (Reads s.calls) (produce outside adapter node s)
  unfolding produce produce_csv
  produce_reading s = elim (Bool-cases (node.kind == "python-node")) [
    | inl is ↦ rw is (script_reading s)
    | inr other ↦ elim (Bool-cases (node.kind == "python-api")) [
      | inl is ↦ rw (other, is) (script_reading s)
      | inr neither ↦ elim (Bool-cases (node.kind == "python-csv")) [
        | inl is ↦ rw (other, neither, is) (csv_reading (lookup "csv" node.reads) s refl)
        | inr none_of ↦ rw (other, neither, none_of) (no-IsReading node.reads s.calls)
      ]
    ]
  ]
