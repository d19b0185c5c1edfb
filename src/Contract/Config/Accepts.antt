-- ===== src/Contract/Config/Accepts.antt =====
-- The walk over a `config` accepts the JSON trees and nothing else.
use continuo_python_runtime.Base.{
  ℕ, zero, suc, String, ◌≡◌, refl, ◌⊎◌, inl, inr, Bool, true, false, List, [], ◌∷◌, arith, Result,
  ok, err, ◌>>=◌, is_some, Bool-cases, eqb, eqb_iff,
}
use continuo_python_runtime.Contract.Value.{
  Value, null, bool, int, float, str, ref, opaque, Object, mapping, sequence, Heap, Entries, as_str,
}
use continuo_python_runtime.Contract.Config.{
  active_in, recursion_error, check_entries, check_items, check_object, check_value,
}
use continuo_python_runtime.Contract.Config.Json.{
  json_at, json_entries, json_items, json_object, json_at_mono,
}

module _ (h : Heap) (label : String) where
  abbrev pub Check : Type 0
  Check = Result (Unit {0})

  -- What the walk accepts is a JSON tree.
  then-eq-ok : (r s : Check) → (r >>= λ _. s) ≡ ok tt → (r ≡ ok tt) × (s ≡ ok tt)
  unfolding ◌>>=◌
  then-eq-ok (ok tt) s e = (refl, e)
  then-eq-ok (err x) s e = cc

  check_entries-json :
      (c : Value → Check) (p : Value → Bool) (es : Entries)
      → ((v : Value) → c v ≡ ok tt → p v ≡ true)
      → check_entries h label c es ≡ ok tt
      → json_entries p es ≡ true
  unfolding check_entries
  check_entries-json c p [] d e = refl
  check_entries-json c p ((k, v) ∷ es) d e = elim (Bool-cases (is_some (as_str k))) [
    | inl is ↦
        let (first, rest) = then-eq-ok (c v) _ (rw is at e) in
        rw (is, d v first, check_entries-json c p es d rest)
    | inr other ↦ cc (rw other at e)
  ]

  check_items-json :
      (c : Value → Check) (p : Value → Bool) (vs : List Value)
      → ((v : Value) → c v ≡ ok tt → p v ≡ true)
      → check_items h label c vs ≡ ok tt
      → json_items p vs ≡ true
  unfolding check_items
  check_items-json c p [] d e = refl
  check_items-json c p (v ∷ vs) d e =
      let (first, rest) = then-eq-ok (c v) _ e in rw (d v first, check_items-json c p vs d rest)

  check_object-json :
      (c : Value → Check) (p : Value → Bool) (o : Object)
      → ((v : Value) → c v ≡ ok tt → p v ≡ true)
      → check_object h label c o ≡ ok tt
      → json_object p o ≡ true
  unfolding check_object
  check_object-json c p (mapping es) d e = check_entries-json c p es d e
  check_object-json c p (sequence vs) d e = check_items-json c p vs d e

  pub check_value-json :
      (fuel : ℕ) (active : List ℕ) (v : Value)
      → check_value h label fuel active v ≡ ok tt
      → json_at h fuel v ≡ true
  unfolding check_value json_at
  check_value-json zero active v e = cc
  check_value-json (suc fuel) active (ref i) e = elim (Bool-cases (active_in i active)) [
    | inl cycle ↦ cc (rw (cycle, check_value) at e)
    | inr new ↦
        check_object-json _ (json_at h fuel) (h.object i) (check_value-json fuel (i ∷ active))
          (rw (new, check_value) at e)
  ]
  check_value-json (suc fuel) active (opaque class) e = cc
  check_value-json (suc fuel) active null e = refl
  check_value-json (suc fuel) active (bool b) e = refl
  check_value-json (suc fuel) active (int n) e = refl
  check_value-json (suc fuel) active (float n) e = refl
  check_value-json (suc fuel) active (str s) e = refl

  -- A JSON tree is accepted, unless the fuel runs out.
  abbrev pub Passes : Check → Type 0
  Passes r = (r ≡ ok tt) ⊎ (r ≡ err recursion_error)

  Passes-then : (r s : Check) → Passes r → Passes s → Passes (r >>= λ _. s)
  unfolding ◌>>=◌
  Passes-then r s (inl p) d = rw p d
  Passes-then r s (inr p) d = inr (rw p)

  check_entries-Passes :
      (c : Value → Check) (p : Value → Bool) (es : Entries)
      → ((v : Value) → p v ≡ true → Passes (c v))
      → json_entries p es ≡ true
      → Passes (check_entries h label c es)
  unfolding check_entries
  check_entries-Passes c p [] d e = inl refl
  check_entries-Passes c p ((k, v) ∷ es) d e =
      let is : is_some (as_str k) ≡ true = ground arith in
      rw is
        (Passes-then (c v) _ (d v (ground arith)) (check_entries-Passes c p es d (ground arith)))

  check_items-Passes :
      (c : Value → Check) (p : Value → Bool) (vs : List Value)
      → ((v : Value) → p v ≡ true → Passes (c v))
      → json_items p vs ≡ true
      → Passes (check_items h label c vs)
  unfolding check_items
  check_items-Passes c p [] d e = inl refl
  check_items-Passes c p (v ∷ vs) d e =
      Passes-then (c v) _ (d v (ground arith)) (check_items-Passes c p vs d (ground arith))

  check_object-Passes :
      (c : Value → Check) (p : Value → Bool) (o : Object)
      → ((v : Value) → p v ≡ true → Passes (c v))
      → json_object p o ≡ true
      → Passes (check_object h label c o)
  unfolding check_object
  check_object-Passes c p (mapping es) d e = check_entries-Passes c p es d e
  check_object-Passes c p (sequence vs) d e = check_items-Passes c p vs d e

  -- No active container is a JSON tree of less than `n` levels.
  abbrev pub Above : ℕ → List ℕ → Type 0
  Above n active = (j : ℕ) → active_in j active ≡ true → json_at h n (ref j) ≡ false

  Above-pred : (n : ℕ) (active : List ℕ) → Above (suc n) active → Above n active
  Above-pred n active above j is = let up = json_at_mono h n (ref j) in ground (arith, above j, up)

  Above-cons :
      (n i : ℕ) (active : List ℕ)
      → json_at h n (ref i) ≡ false
      → Above n active
      → Above n (i ∷ active)
  Above-cons n i active top above j is = elim (Bool-cases (eqb j i)) [
    | inl same ↦ rw ((eqb_iff j i).0 same) top
    | inr other ↦ above j (rw other at is)
  ]

  -- An object that is re-entered would be a smaller tree than itself: the induction takes the
  -- least depth at which the object is a tree.
  pub check_value-Passes :
      (n fuel : ℕ) (active : List ℕ) (v : Value)
      → json_at h n v ≡ true
      → Above n active
      → Passes (check_value h label fuel active v)
  unfolding check_value json_at
  check_value-Passes zero fuel active v json above = cc
  check_value-Passes (suc n) zero active v json above = inr refl
  check_value-Passes (suc n) (suc fuel) active (ref i) json above =
      elim (Bool-cases (json_at h n (ref i))) [
        | inl less ↦ check_value-Passes n (suc fuel) active (ref i) less (Above-pred n active above)
        | inr least ↦
            let new : active_in i active ≡ false = ground (arith, above i) in
            rw (new, check_value)
              (check_object-Passes _ (json_at h n) (h.object i)
                (λ v smaller.
                  check_value-Passes n fuel (i ∷ active) v smaller
                    (Above-cons n i active least (Above-pred n active above)))
                json)
      ]
  check_value-Passes (suc n) (suc fuel) active (opaque class) json above = cc
  check_value-Passes (suc n) (suc fuel) active null json above = inl refl
  check_value-Passes (suc n) (suc fuel) active (bool b) json above = inl refl
  check_value-Passes (suc n) (suc fuel) active (int k) json above = inl refl
  check_value-Passes (suc n) (suc fuel) active (float k) json above = inl refl
  check_value-Passes (suc n) (suc fuel) active (str s) json above = inl refl
