-- ===== src/Contract/Config/Laws.antt =====
-- `validate_config` as a whole: it always answers, and accepts a mapping exactly if it is JSON.
use continuo_python_runtime.Base.{
  ℕ, ◌<◌, String, ◌≡◌, refl, ◌⊎◌, ◌↔◌, inl, inr, Option, none, some, [], arith, contract_error,
  Result, ok, err, ◌>>=◌,
}
use continuo_python_runtime.Contract.Value.{
  Value, null, bool, int, float, str, ref, opaque, Heap, Entries, as_dict,
}
use continuo_python_runtime.Contract.Config.{check_value, depth, check_root, validate_config}
use continuo_python_runtime.Contract.Config.Json.{IsJson, InHeap, IsClosed, free-le}
use continuo_python_runtime.Contract.Config.Ends.{Check, Decides, check_value-Decides}
use continuo_python_runtime.Contract.Config.Accepts.{Passes, check_value-json, check_value-Passes}

both :
    (h : Heap) (label : String) (r : Check h label)
    → Decides h label r
    → Passes h label r
    → r ≡ ok tt
both h label r (inl accepted) p = accepted
both h label r (inr (t, refused)) (inl accepted) = accepted
both h label r (inr (t, refused)) (inr deep) = cc

module _ (h : Heap) (label : String) (closed : IsClosed h) where
  abbrev root : Value → Check h label
  root v = check_value h label (depth h label) [] v

  root-Decides : (v : Value) → InHeap h v → Decides h label (root v)
  root-Decides v within =
      check_value-Decides h label closed (depth h label) [] v (omega (arith, free-le [] h.size))
        within

  root_iff : (v : Value) → InHeap h v → (root v ≡ ok tt) ↔ IsJson h v
  root_iff v within = (
    (λ e. (depth h label, check_value-json h label (depth h label) [] v e)),
    (λ (n, json).
        both h label (root v) (root-Decides v within)
          (check_value-Passes h label n (depth h label) [] v json (λ j is. cc))),
  )

  -- The walk ends on every graph, cyclic ones too: the config is accepted, or refused by a
  -- contract error with the node's label.
  abbrev pub Answers : Result Entries → Type 0
  Answers r =
      ((entries : Entries) × (r ≡ ok entries))
      ⊎ ((text : String) × (r ≡ err (contract_error label text)))

  check_root-Answers :
      (v : Value) (o : Option Entries) → InHeap h v → Answers (check_root h label v o)
  unfolding ◌>>=◌
  check_root-Answers v none within = inr ("'config' must be a mapping", refl)
  check_root-Answers v (some entries) within = then_answers (root v) (root-Decides v within)
    where
      then_answers : (r : Check h label) → Decides h label r → Answers (r >>= λ _. ok entries)
      then_answers r (inl p) = inl (entries, rw p)
      then_answers r (inr (t, p)) = inr (t, rw p)

  -- On a closed object graph the check of a config comes to an end, with the entries of the
  -- mapping or with a contract error.
  pub validate_config-Answers : (v : Value) → InHeap h v → Answers (validate_config h label v)
  unfolding validate_config
  validate_config-Answers null within = inl ([], refl)
  validate_config-Answers (bool b) within = check_root-Answers (bool b) none within
  validate_config-Answers (int n) within = check_root-Answers (int n) none within
  validate_config-Answers (float n) within = check_root-Answers (float n) none within
  validate_config-Answers (str s) within = check_root-Answers (str s) none within
  validate_config-Answers (ref i) within = check_root-Answers (ref i) _ within
  validate_config-Answers (opaque c) within = check_root-Answers (opaque c) none within

  then_iff :
      (r : Check h label) (entries : Entries) → ((r >>= λ _. ok entries) ≡ ok entries) ↔ (r ≡ ok tt)
  unfolding ◌>>=◌
  then_iff (ok tt) entries = ((λ e. refl), (λ e. refl))
  then_iff (err x) entries = ((λ e. cc), (λ e. cc))

  -- On a closed object graph, a mapping is accepted as a config exactly if it unfolds into a
  -- finite tree of JSON scalars, lists and mappings with string keys; shared objects are accepted,
  -- cycles are not.
  pub validate_config_iff :
      (i : ℕ) (entries : Entries)
      → i < h.size
      → as_dict h (ref i) ≡ some entries
      → (validate_config h label (ref i) ≡ ok entries) ↔ IsJson h (ref i)
  unfolding validate_config
  validate_config_iff i entries within is = rw is (
      let (there, back) = root_iff (ref i) within in
      let (into, out) = then_iff (root (ref i)) entries in
      ((λ e. there (into e)), (λ json. out (back json))))
