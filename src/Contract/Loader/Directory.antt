-- ===== src/Contract/Loader/Directory.antt =====
-- What a directory that the loader accepts satisfies.
use continuo_python_runtime.Base.{
  String, ◌≡◌, refl, sym, ◌≢◌, Bool, true, false, Option, none, some, List, [], ◌∷◌, ◌++◌, map,
  arith, ok, >>=-eq-ok, ok-injective, subst, elem, elem-append, distinct, All, eq_iff, ◌||◌,
}
use continuo_python_runtime.Contract.Value.{Value, Heap}
use continuo_python_runtime.Contract.Model.{Node, relation}
use continuo_python_runtime.Contract.Sql.{SqlParser}
use continuo_python_runtime.Contract.Loader.{
  File, Found, source_of, add_node, keep_node, add_nodes, load_files, some_nodes, load_contract_dir,
}
use continuo_python_runtime.Contract.Loader.WellFormed.{IsWellFormed, parse_node-IsWellFormed}

All-snoc {ℓ κ} :
    {A : Type ℓ} (P : A → Type κ) (xs : List A) (x : A) → All P xs → P x → All P (xs ++ (x ∷ []))
All-snoc P [] x h p = (p, tt)
All-snoc P (y ∷ xs) x h p = (h.0, All-snoc P xs x h.1 p)

distinct-snoc :
    (xs : List String) (x : String)
    → distinct xs ≡ true
    → elem x xs ≡ false
    → distinct (xs ++ (x ∷ [])) ≡ true
distinct-snoc [] x h new = refl
distinct-snoc (y ∷ xs) x h new =
    let ih = distinct-snoc xs x in
    ground (arith, elem-append y xs (x ∷ []), eq_iff x y, eq_iff y x, ih)

abbrev relations : List Node → List String
relations = map relation

relations-snoc :
    (ns : List Node) (n : Node) → relations (ns ++ (n ∷ [])) ≡ relations ns ++ (relation n ∷ [])
relations-snoc [] n = refl
relations-snoc (m ∷ ns) n = cc (relations-snoc ns n)

module _ (sqlglot : SqlParser) (lower : String → String) (h : Heap) (dialect : Option String)
    (check_reads : Bool) where
  abbrev WellFormed : Node → Type 0
  WellFormed = IsWellFormed sqlglot lower dialect check_reads

  record IsGood (f : Found) : Type 0 where
    nodes : All WellFormed f.nodes
    once : distinct (relations f.nodes) ≡ true
    known : (r : String) → source_of r f.sources ≡ none → elem r (relations f.nodes) ≡ false

  keep_node-IsGood :
      (file : String) (n : Node) (f : Found) (o : Option String) {g : Found}
      → source_of (relation n) f.sources ≡ o
      → WellFormed n
      → IsGood f
      → keep_node sqlglot lower h dialect check_reads file n f o ≡ ok g
      → IsGood g
  keep_node-IsGood file n f (some x) seen wf good e = cc
  keep_node-IsGood file n f none unseen wf good e = subst IsGood (ok-injective e) (record {
    nodes = All-snoc WellFormed f.nodes n good.nodes wf;
    once =
        rw relations-snoc
          (distinct-snoc (relations f.nodes) (relation n) good.once (good.known _ unseen));
    known = λ r absent. rw (relations-snoc, elem-append) (known_snoc r absent);
  })
    where
      known_snoc :
          (r : String)
          → source_of r ((relation n, file) ∷ f.sources) ≡ none
          → (elem r (relations f.nodes) || elem r (relation n ∷ [])) ≡ false
      known_snoc r absent =
          unfold source_of in
          ground (arith, good.known r, eq_iff (relation n) r, eq_iff r (relation n))

  add_node-IsGood :
      (file : String) (raw : Value) (f : Found) {g : Found}
      → IsGood f
      → add_node sqlglot lower h dialect check_reads file raw f ≡ ok g
      → IsGood g
  unfolding add_node
  add_node-IsGood file raw f good e =
      let (n, parsed, e1) = >>=-eq-ok _ _ e in
      keep_node-IsGood file n f _ refl
        (parse_node-IsWellFormed sqlglot lower h dialect check_reads raw file n parsed) good e1

  add_nodes-IsGood :
      (file : String) (raws : List Value) (f : Found) {g : Found}
      → IsGood f
      → add_nodes sqlglot lower h dialect check_reads file raws f ≡ ok g
      → IsGood g
  unfolding add_nodes
  add_nodes-IsGood file [] f good e = subst IsGood (ok-injective e) good
  add_nodes-IsGood file (raw ∷ raws) f good e =
      let (next, added, e1) = >>=-eq-ok _ _ e in
      add_nodes-IsGood file raws next (add_node-IsGood file raw f good added) e1

  load_files-IsGood :
      (files : List File) (f : Found) {g : Found}
      → IsGood f
      → load_files sqlglot lower h dialect check_reads files f ≡ ok g
      → IsGood g
  unfolding load_files
  load_files-IsGood [] f good e = subst IsGood (ok-injective e) good
  load_files-IsGood (file ∷ files) f good e =
      let (raws, _, e1) = >>=-eq-ok _ _ e in
      let (next, added, e2) = >>=-eq-ok _ _ e1 in
      load_files-IsGood files next (add_nodes-IsGood file.name raws f good added) e2

  some_nodes-eq-ok :
      (ns : List Node) {ms : List Node}
      → some_nodes sqlglot lower h dialect check_reads ns ≡ ok ms
      → (ms ≢ []) × (ms ≡ ns)
  some_nodes-eq-ok [] e = cc
  some_nodes-eq-ok (n ∷ ns) e = ((λ empty. cc), sym (ok-injective e))

  -- A directory that loads has at least one node, all of them well formed, and no two of one
  -- relation.
  pub load_contract_dir-lem :
      (files : List File) (nodes : List Node)
      → load_contract_dir sqlglot lower h dialect check_reads files ≡ ok nodes
      → (nodes ≢ [])
        × All (IsWellFormed sqlglot lower dialect check_reads) nodes
        × (distinct (map relation nodes) ≡ true)
  unfolding load_contract_dir
  load_contract_dir-lem files nodes e =
      let (_, _, e1) = >>=-eq-ok _ _ e in
      let (found, loaded, e2) = >>=-eq-ok _ _ e1 in
      let (some_, same) = some_nodes-eq-ok found.nodes e2 in
      let start : IsGood (record { sources = []; nodes = [] }) = record {
        nodes = tt;
        once = refl;
        known = λ r _. refl;
      } in
      let good = load_files-IsGood files _ start loaded in
      (some_, rw same good.nodes, rw same good.once)
