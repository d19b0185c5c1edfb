-- ===== src/Validation/Checks.antt =====
-- The calls of the checks before the columns of a node are built.
use mathlib.Core.List.{append_assoc}
use continuo_python_runtime.Base.{
  sym, all_append, Bool-cases, ◌==◌, eq_iff, String, ◌≡◌, refl, ap, ◌∙◌, ◌⊎◌, inl, inr, Bool, true,
  false, List, [], ◌∷◌, ◌++◌, all,
}
use continuo_python_runtime.Contract.Value.{Value, str, Heap}
use continuo_python_runtime.Contract.CsvSource.{parse_csv_uri}
use continuo_python_runtime.Steps.{call}
use continuo_python_runtime.Steps.Effects.{Leaves, bind-Leaves, pure_bind-Leaves}
use continuo_python_runtime.Validation.{
  Call, header_read, binds_checked, State, ValidationAdapter, Services, Spec,
}
use continuo_python_runtime.Validation.Operation.{check_all_binds, check_source, check_csv}

-- The calls that bind-check the reads in order, the newest first.
abbrev pub checked : List Value → List Call → List Call
checked [] before = before
checked (read ∷ rest) before = checked rest (binds_checked read ∷ before)

abbrev pub is_check : Call → Bool
is_check (header_read uri) = true
is_check (binds_checked read) = true
is_check _ = false

pub checked-append :
    (reads : List Value) (before : List Call) → checked reads before ≡ checked reads [] ++ before
checked-append [] before = refl
checked-append (read ∷ rest) before =
    checked-append rest (binds_checked read ∷ before)
    ∙ sym (append_assoc (checked rest []) (binds_checked read ∷ []) before)
    ∙ ap (λ cs. cs ++ before) (sym (checked-append rest (binds_checked read ∷ [])))

pub record Bound (reads : List Value) (before : List Call) (b : Bool) (after : List Call)
    : Type 0 where
  pub added : List Call
  pub whole : after ≡ added ++ before
  pub only : all is_check added ≡ true
  pub all_of : (b ≡ false) ⊎ (added ≡ checked reads [])

Bound-cons :
    (read : Value) (rest : List Value) (before between after : List Call) (b : Bool)
    → between ≡ binds_checked read ∷ before
    → Bound rest between b after
    → Bound (read ∷ rest) before b after
Bound-cons read rest before between after b first r = record {
  added = r.added ++ (binds_checked read ∷ []);
  whole =
      r.whole
      ∙ ap (λ cs. r.added ++ cs) first
      ∙ sym (append_assoc r.added (binds_checked read ∷ []) before);
  only = all_append is_check r.added (binds_checked read ∷ []) r.only refl;
  all_of = elim r.all_of [
    | inl stopped ↦ inl stopped
    | inr whole ↦ inr (
        ap (λ cs. cs ++ (binds_checked read ∷ [])) whole
        ∙ sym (checked-append rest (binds_checked read ∷ [])))
  ];
}

module _ {W : Type 0} (services : Services W) (h : Heap) (adapter : ValidationAdapter W) where
  pub check_all_binds-Bound :
      (reads : List Value) (s : State W)
      → Leaves (Bound reads s.calls) (check_all_binds services h adapter reads s)
  unfolding check_all_binds
  check_all_binds-Bound [] s = record { added = []; whole = refl; only = refl; all_of = inr refl }
  check_all_binds-Bound (read ∷ rest) s =
      bind-Leaves (λ _ cs. cs ≡ binds_checked read ∷ s.calls) (Bound (read ∷ rest) s.calls) _
        (λ _ t e. Bound-cons read rest s.calls t.calls _ _ e (check_all_binds-Bound rest t))
        (λ cs e. record {
          added = binds_checked read ∷ [];
          whole = e;
          only = refl;
          all_of = inl refl;
        })
        (call (binds_checked read) (adapter.check_binds read)) s refl

  abbrev HeaderCalls : String → List Call → Bool → List Call → Type 0
  HeaderCalls uri before b cs = (cs ≡ header_read uri ∷ before) ⊎ ((b ≡ false) × (cs ≡ before))

  check_csv-calls :
      (uri : String) (columns : Value) (s : State W)
      → Leaves (HeaderCalls uri s.calls) (check_csv services h adapter uri columns s)
  unfolding check_csv
  check_csv-calls uri columns s =
      pure_bind-Leaves (HeaderCalls uri s.calls) _ s (parse_csv_uri (str uri))
        (λ parsed _.
          bind-Leaves (λ _ cs. cs ≡ header_read uri ∷ s.calls) (HeaderCalls uri s.calls) _
            (λ line t e. inl e) (λ cs e. inl e)
            (call (header_read uri) (services.fetch_header_line parsed)) s refl)
        (λ e. inr (refl, refl))

  abbrev pub Source : Spec → List Call → Bool → List Call → Type 0
  Source spec before b cs =
      ((spec.csv_source ≡ "") × (cs ≡ before))
      ⊎ (cs ≡ header_read spec.csv_source ∷ before)
      ⊎ ((b ≡ false) × (cs ≡ before))

  pub check_source-Source :
      (spec : Spec) (s : State W)
      → Leaves (Source spec s.calls) (check_source services h adapter spec s)
  check_source-Source spec s = elim (Bool-cases (spec.csv_source == "")) [
    | inl none_given ↦ rw none_given (inl ((eq_iff spec.csv_source "").0 none_given, refl))
    | inr given ↦ rw given (inr (check_csv-calls spec.csv_source spec.columns s))
  ]

  -- The header calls are a check.
  pub header_added :
      (spec : Spec) (before cs : List Call) (b : Bool)
      → Source spec before b cs
      → (header : List Call) × (cs ≡ header ++ before)
        × (all is_check header ≡ true)
        × ((b ≡ false)
            ⊎ ((spec.csv_source ≡ "") × (header ≡ []))
            ⊎ (header ≡ header_read spec.csv_source ∷ []))
  header_added spec before cs b (inl (given, e)) = ([], e, refl, inr (inl (given, refl)))
  header_added spec before cs b (inr (inl e)) =
      (header_read spec.csv_source ∷ [], e, refl, inr (inr refl))
  header_added spec before cs b (inr (inr (failed, e))) = ([], e, refl, inl failed)
