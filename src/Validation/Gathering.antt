-- ===== src/Validation/Gathering.antt =====
-- Gathering the inputs of a validation only downloads.
use mathlib.Core.List.{append_assoc}
use continuo_python_runtime.Base.{
  String, ◌==◌, ◌≡◌, refl, sym, ap, ◌∙◌, inl, inr, Bool, true, false, List, [], ◌∷◌, ◌++◌,
  Exception, contract_error, read_error, script_error, conform_error, load_error,
  duplicate_key_error, value_error, other_error, not, Result, ok, err, all, ◌⊎◌, Option, none, some,
  all_append, if◌then◌else◌, ℕ,
}
use continuo_python_runtime.Contract.Value.{
  Value, null, bool, int, float, str, ref, opaque, as_str, as_dict, get, Heap, Entries, get_or,
}
use continuo_python_runtime.Validation.{Call, downloaded, State, Services, Ended, go, stop}
use continuo_python_runtime.Contract.Value.{truthy}
use continuo_python_runtime.Validation.Inputs.{
  Env, Phase, ◌>>=◌, load_candidate_sql, load_candidate_spec, check_spec, some_sql, plan_for_table,
  gather, demand, fetched, spec_body, parsed_spec, parse_s3_uri, variable, config_of, csv_source_of,
  require_variable, spec_code, spec_object, ending, is_node_op,
}

abbrev pub is_download : Call → Bool
is_download (downloaded bucket key) = true
is_download _ = false

-- Only downloads were added to the calls.
pub record OnlyDownloads (before after : List Call) : Type 0 where
  pub added : List Call
  pub whole : after ≡ added ++ before
  pub only : all is_download added ≡ true

nothing_called : (before : List Call) → OnlyDownloads before before
nothing_called before = record { added = []; whole = refl; only = refl }

-- A process that is ended has exit code 1 or 2.
abbrev pub IsFailure : {A : Type 0} → Ended A → Type 0
IsFailure (go a) = Unit
IsFailure (stop code e) = (code ≡ 1) ⊎ (code ≡ 2)

-- A phase that only downloads, and that ends the process with a failure or not at all.
abbrev Downloads : {W A : Type 0} → Phase W A → Type 0
Downloads {W} m = (s : State W) → OnlyDownloads s.calls (m s).1.calls × IsFailure (m s).0

then_more :
    (before between after : List Call)
    → OnlyDownloads before between
    → OnlyDownloads between after
    → OnlyDownloads before after
then_more before between after r q = record {
  added = q.added ++ r.added;
  whole = q.whole ∙ ap (λ cs. q.added ++ cs) r.whole ∙ sym (append_assoc q.added r.added before);
  only = all_append is_download q.added r.added q.only r.only;
}

module _ {W A B : Type 0} (f : A → Phase W B) (next : (a : A) → Downloads (f a)) where
  bound :
      (before : List Call) (x : Ended A × State W)
      → OnlyDownloads before x.1.calls × IsFailure x.0
      → OnlyDownloads before (((λ s. x) >>= f) x.1).1.calls × IsFailure (((λ s. x) >>= f) x.1).0
  unfolding ◌>>=◌
  bound before (go a, s) d = let rest = next a s in (then_more before s.calls _ d.0 rest.0, rest.1)
  bound before (stop code e, s) d = d

  bind-Downloads : (m : Phase W A) → Downloads m → Downloads (m >>= f)
  unfolding ◌>>=◌
  bind-Downloads m d s = bound s.calls (m s) (d s)

-- `demand` ends the process with code 2.
demand-Downloads : {W : Type 0} (b : Bool) (e : Exception) → Downloads {W = W} (demand b 2 e)
demand-Downloads true e s = (nothing_called s.calls, tt)
demand-Downloads false e s = (nothing_called s.calls, inr refl)

require_variable-IsFailure : (name : String) (env : Env) → IsFailure (require_variable name env)
unfolding require_variable
require_variable-IsFailure name env = either (variable name "" env == "")
  where
    either :
        (b : Bool)
        → IsFailure (
            if b
            then stop 2 (other_error "missing required env var")
            else go (variable name "" env))
    either true = inr refl
    either false = tt

spec_code-IsFailure : (e : Exception) → (spec_code e ≡ 1) ⊎ (spec_code e ≡ 2)
spec_code-IsFailure (value_error text) = inr refl
spec_code-IsFailure (contract_error label text) = inl refl
spec_code-IsFailure (read_error text) = inl refl
spec_code-IsFailure (script_error text) = inl refl
spec_code-IsFailure (conform_error text) = inl refl
spec_code-IsFailure (load_error text) = inl refl
spec_code-IsFailure (duplicate_key_error text) = inl refl
spec_code-IsFailure (other_error text) = inl refl

module _ {W : Type 0} (services : Services W) (h : Heap) where
  module _ (code : Exception → ℕ) (failure : (e : Exception) → (code e ≡ 1) ⊎ (code e ≡ 2)) where
    ending-IsFailure : {A : Type 0} (r : Result A) → IsFailure (ending code r)
    ending-IsFailure (ok a) = tt
    ending-IsFailure (err e) = failure e

    fetched-Downloads : (r : Result (String × String)) → Downloads (fetched services h code r)
    fetched-Downloads (err e) s = (nothing_called s.calls, failure e)
    fetched-Downloads (ok (bucket, key)) s = (
      record { added = downloaded bucket key ∷ []; whole = refl; only = refl },
      ending-IsFailure (services.get_object bucket key s.world).0,
    )

  parsed_spec-IsFailure : (r : Result Value) → IsFailure (parsed_spec services h r)
  parsed_spec-IsFailure (err e) = spec_code-IsFailure e
  parsed_spec-IsFailure (ok v) = object (as_dict h v)
    where
      object : (o : Option Entries) → IsFailure (spec_object services h o)
      object none = inr refl
      object (some entries) = tt

  config_of-IsFailure : (v : Value) (o : Option Entries) → IsFailure (config_of services h v o)
  config_of-IsFailure null o = tt
  config_of-IsFailure (bool b) none = inr refl
  config_of-IsFailure (int n) none = inr refl
  config_of-IsFailure (float n) none = inr refl
  config_of-IsFailure (str t) none = inr refl
  config_of-IsFailure (ref i) none = inr refl
  config_of-IsFailure (opaque c) none = inr refl
  config_of-IsFailure (bool b) (some entries) = tt
  config_of-IsFailure (int n) (some entries) = tt
  config_of-IsFailure (float n) (some entries) = tt
  config_of-IsFailure (str t) (some entries) = tt
  config_of-IsFailure (ref i) (some entries) = tt
  config_of-IsFailure (opaque c) (some entries) = tt

  csv_source_of-IsFailure : (o : Option Value) → IsFailure (csv_source_of services h o)
  csv_source_of-IsFailure none = tt
  csv_source_of-IsFailure (some v) = text (as_str v)
    where
      text :
          (o : Option String)
          → IsFailure (elim o as (λ _. Ended String) [
            | none ↦ stop 2 (other_error "candidate spec 'csv_source' must be a string")
            | some uri ↦ go uri
          ])
      text none = inr refl
      text (some uri) = tt

  choose-Downloads :
      {A : Type 0} (b : Bool) (m n : Phase W A)
      → Downloads m
      → Downloads n
      → Downloads (if b then m else n)
  choose-Downloads true m n d e = d
  choose-Downloads false m n d e = e

  load_candidate_sql-Downloads : (env : Env) → Downloads (load_candidate_sql services h env)
  unfolding load_candidate_sql
  load_candidate_sql-Downloads env =
      choose-Downloads (variable "CANDIDATE_SQL_URI" "" env == "") _ _
        (λ s. (nothing_called s.calls, tt))
        (fetched-Downloads (λ _. 1) (λ _. inl refl)
          (parse_s3_uri (variable "CANDIDATE_SQL_URI" "" env)))

  some_sql-Downloads : (env : Env) → Downloads (some_sql services h env)
  unfolding some_sql
  some_sql-Downloads env =
      bind-Downloads _
        (λ sql.
          bind-Downloads _ (λ _ s. (nothing_called s.calls, tt)) _
            (demand-Downloads (not (sql == ""))
              (other_error "CANDIDATE_SQL_URI is unset or empty")))
        _ (load_candidate_sql-Downloads env)

  spec_body-Downloads : (uri : String) → Downloads (spec_body services h uri)
  spec_body-Downloads uri =
      choose-Downloads (uri == "") _ _ (λ s. (nothing_called s.calls, inr refl))
        (fetched-Downloads spec_code spec_code-IsFailure (parse_s3_uri uri))

  load_candidate_spec-Downloads : (env : Env) → Downloads (load_candidate_spec services h env)
  unfolding load_candidate_spec
  load_candidate_spec-Downloads env =
      bind-Downloads _
        (λ body s. (nothing_called s.calls, parsed_spec-IsFailure (services.parse_json body))) _
        (spec_body-Downloads (variable "CANDIDATE_SPEC_URI" "" env))

  check_spec-Downloads : (spec : Entries) → Downloads (check_spec services h spec)
  unfolding check_spec
  check_spec-Downloads spec =
      bind-Downloads _
        (λ _.
          bind-Downloads _
            (λ config.
              bind-Downloads _ (λ source s. (nothing_called s.calls, tt)) _
                (λ s. (nothing_called s.calls, csv_source_of-IsFailure (get "csv_source" spec))))
            _
            (λ s. (
              nothing_called s.calls,
              config_of-IsFailure (get_or "config" null spec)
                  (as_dict h (get_or "config" null spec)),
            )))
        _
        (demand-Downloads (truthy h (get_or "output_columns" null spec))
          (other_error "candidate spec has no output_columns"))

  plan_for_table-Downloads :
      (op table : String) (env : Env) → Downloads (plan_for_table services h op table env)
  unfolding plan_for_table
  plan_for_table-Downloads op table env =
      choose-Downloads (op == "build_from_sql") _ _
        (bind-Downloads _ (λ sql s. (nothing_called s.calls, tt)) _ (some_sql-Downloads env))
        (choose-Downloads (op == "check_binds") _ _
          (bind-Downloads _ (λ sql s. (nothing_called s.calls, tt)) _ (some_sql-Downloads env))
          (choose-Downloads (op == "build_from_columns") _ _
            (bind-Downloads _
              (λ entries.
                bind-Downloads _ (λ spec s. (nothing_called s.calls, tt)) _
                  (check_spec-Downloads entries))
              _ (load_candidate_spec-Downloads env))
            (bind-Downloads _ (λ prod s. (nothing_called s.calls, tt)) _
              (λ s. (nothing_called s.calls, require_variable-IsFailure "PROD_SCHEMA" env)))))

  pub gather-OnlyDownloads : (env : Env) → Downloads (gather services h env)
  unfolding gather
  gather-OnlyDownloads env =
      bind-Downloads _
        (λ schema.
          bind-Downloads _ (λ plan s. (nothing_called s.calls, tt)) _
            (choose-Downloads
              (is_node_op services h (variable "VALIDATION_OP" "build_from_sql" env)) _ _
              (bind-Downloads _
                (λ table.
                  plan_for_table-Downloads (variable "VALIDATION_OP" "build_from_sql" env) table
                    env)
                _ (λ s. (nothing_called s.calls, require_variable-IsFailure "TABLE_NAME" env)))
              (choose-Downloads (variable "VALIDATION_OP" "build_from_sql" env == "ensure_schema") _
                _ (λ s. (nothing_called s.calls, tt))
                (choose-Downloads (variable "VALIDATION_OP" "build_from_sql" env == "drop_schema") _
                  _ (λ s. (nothing_called s.calls, tt))
                  (λ s. (nothing_called s.calls, inr refl))))))
        _ (λ s. (nothing_called s.calls, require_variable-IsFailure "DBT_TARGET_SCHEMA" env))
