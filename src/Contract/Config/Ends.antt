-- ===== src/Contract/Config/Ends.antt =====
-- The walk over a `config` ends: it accepts, or refuses by a contract error.
use continuo_python_runtime.Base.{
  ℕ, zero, suc, ◌+◌, ◌<◌, String, ◌≡◌, refl, ◌⊎◌, inl, inr, List, [], ◌∷◌, arith, contract_error,
  Result, ok, err, ◌>>=◌, All, is_some, Bool-cases,
}
use continuo_python_runtime.Contract.Value.{
  Value, null, bool, int, float, str, ref, opaque, Object, mapping, sequence, Heap, Entries, as_str,
}
use continuo_python_runtime.Contract.Config.{
  active_in, check_entries, check_items, check_object, check_value,
}
use continuo_python_runtime.Contract.Config.Json.{
  InHeap, EntriesIn, ObjectIn, IsClosed, free, free-cons,
}

module _ (h : Heap) (label : String) where
  abbrev pub Check : Type 0
  Check = Result (Unit {0})

  -- Accepted, or refused by a contract error.
  abbrev pub Decides : Check → Type 0
  Decides r = (r ≡ ok tt) ⊎ ((text : String) × (r ≡ err (contract_error label text)))

  Decides-then : (r s : Check) → Decides r → Decides s → Decides (r >>= λ _. s)
  unfolding ◌>>=◌
  Decides-then r s (inl p) d = rw p d
  Decides-then r s (inr (t, p)) d = inr (t, rw p)

  check_entries-Decides :
      (c : Value → Check) (es : Entries)
      → ((v : Value) → InHeap h v → Decides (c v))
      → EntriesIn h es
      → Decides (check_entries h label c es)
  unfolding check_entries
  check_entries-Decides c [] d within = inl refl
  check_entries-Decides c ((k, v) ∷ es) d within = elim (Bool-cases (is_some (as_str k))) [
    | inl is ↦ rw is (Decides-then (c v) _ (d v within.0) (check_entries-Decides c es d within.1))
    | inr other ↦ rw other (inr ("'config' keys must be strings", refl))
  ]

  check_items-Decides :
      (c : Value → Check) (vs : List Value)
      → ((v : Value) → InHeap h v → Decides (c v))
      → All (InHeap h) vs
      → Decides (check_items h label c vs)
  unfolding check_items
  check_items-Decides c [] d within = inl refl
  check_items-Decides c (v ∷ vs) d within =
      Decides-then (c v) _ (d v within.0) (check_items-Decides c vs d within.1)

  check_object-Decides :
      (c : Value → Check) (o : Object)
      → ((v : Value) → InHeap h v → Decides (c v))
      → ObjectIn h o
      → Decides (check_object h label c o)
  unfolding check_object
  check_object-Decides c (mapping es) d within = check_entries-Decides c es d within
  check_object-Decides c (sequence vs) d within = check_items-Decides c vs d within

  -- With more fuel than ids that are not active, the walk does not run out of it.
  pub check_value-Decides :
      IsClosed h
      → (fuel : ℕ) (active : List ℕ) (v : Value) → free active h.size + 1 < fuel
      → InHeap h v
      → Decides (check_value h label fuel active v)
  unfolding check_value
  check_value-Decides closed zero active v enough within = elim enough [ ]
  check_value-Decides closed (suc fuel) active (ref i) enough within =
      elim (Bool-cases (active_in i active)) [
        | inl cycle ↦ rw (cycle, check_value) (inr ("'config' contains a circular reference", refl))
        | inr new ↦
            rw (new, check_value)
              (check_object-Decides _ (h.object i)
                (λ v inside.
                  check_value-Decides closed fuel (i ∷ active) v
                    (omega (arith, free-cons i active h.size within new)) inside)
                (closed.objects i within))
      ]
  check_value-Decides closed (suc fuel) active (opaque class) enough within =
      inr ("'config' value is not JSON-serializable", refl)
  check_value-Decides closed (suc fuel) active null enough within = inl refl
  check_value-Decides closed (suc fuel) active (bool b) enough within = inl refl
  check_value-Decides closed (suc fuel) active (int n) enough within = inl refl
  check_value-Decides closed (suc fuel) active (float n) enough within = inl refl
  check_value-Decides closed (suc fuel) active (str s) enough within = inl refl
