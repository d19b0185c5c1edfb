-- ===== src/Lint/Clean.antt =====
-- What a source satisfies on which the lint says nothing.
use mathlib.Core.Path.{fun_ext}
use continuo_python_runtime.Base.{
  ℕ, eqb, String, ◌==◌, starts_with, ◌≡◌, refl, sym, ap, ◌∙◌, Bool, true, false, ◌&&◌, ◌||◌, not,
  Option, none, some, List, [], ◌∷◌, ◌++◌, map, arith, elem, any, all, is_empty, is_empty-append,
  is_empty-flat_map, flat_map, Bool-cases, inl, inr, All,
}
use continuo_python_runtime.Base.Text.{codes}
use continuo_python_runtime.Syntax.{
  Alias, Syntax, import_names, import_from, name, attribute, text, joined, add, call, expression,
  body, other, listed, nodes, walk,
}
use continuo_python_runtime.Syntax.Walk.{all-walk}
use continuo_python_runtime.Closure.Imports.{dynamic_import_violations}
use continuo_python_runtime.Closure.Laws.{IsStatic, violations_none, is_empty-sort}
use continuo_python_runtime.Lint.Exempt.{IsExempt}
use continuo_python_runtime.Lint.Exempted.{exempt_ids, exempt_ids-IsExempt}
use continuo_python_runtime.Lint.Sql.{contains_sql}
use continuo_python_runtime.Lint.Literals.{Literal, reconstruct_joined_str, collect_parts}
use continuo_python_runtime.Lint.{
  forbidden_calls, said, driver_import, driver_module, call_imports, dynamic_entries,
  import_entries, imported_calls, docstring_ids, is_self, sql_entry, concat_entry, call_entry,
  node_entries, consumed_by, second_pass, entry_key, lint_tree,
}
use continuo_python_runtime.Lint.Allowed.{
  is_driver, no_driver, no_sql, no_sql_concat, no_access, is_allowed, Allowed, all-Allowed,
}

module _ (is_word : ℕ → Bool) where
  -- Each node of the tree is allowed, where the constants that the rule on texts leaves out are parts
  -- of larger texts or docstrings.
  pub record IsClean (tree : Syntax) : Type 0 where
    pub exempt : List ℕ
    pub only_exempt : All (IsExempt tree) exempt
    pub allowed : All (Allowed is_word exempt) (nodes tree)
    pub static : IsStatic tree

  said-none : (b : Bool) (line : ℕ) (m : String) → is_empty (said b line m) ≡ not b
  said-none true line m = refl
  said-none false line m = refl

  all-ext :
      {A : Type 0} (f g : A → Bool) (xs : List A) → ((x : A) → f x ≡ g x) → all f xs ≡ all g xs
  all-ext f g xs h = ap (λ t. all t xs) (fun_ext h)

  drivers-none :
      (line : ℕ) (names : List Alias)
      → is_empty (flat_map (λ a. driver_import line a.name) names)
        ≡ all (λ a. not (is_driver a.name)) names
  drivers-none line names =
      is_empty-flat_map (λ (a : Alias). driver_import line a.name) names
      ∙ all-ext _ _ names (λ a. said-none (is_driver a.name) line _)

  calls-none :
      (line : ℕ) (names : List Alias)
      → is_empty (call_imports line names) ≡ all (λ a. not (elem a.name forbidden_calls)) names
  calls-none line names =
      is_empty-flat_map _ names
      ∙ all-ext _ _ names (λ a. said-none (elem a.name forbidden_calls) line _)

  module-none :
      (line : ℕ) (m : Option String) → is_empty (driver_module line m) ≡ true → no_driver m ≡ true
  module-none line none h = refl
  module-none line (some m) h = elim (Bool-cases (m == "")) [
    | inl blank ↦ rw blank refl
    | inr named ↦
        let said_none = said-none (is_driver m) line _ in
        let nothing : is_empty (driver_import line m) ≡ true = rw named at h in
        rw named (sym said_none ∙ nothing)
  ]

  any-append :
      (id : ℕ) (xs ys : List ℕ) → any (eqb id) (xs ++ ys) ≡ (any (eqb id) xs || any (eqb id) ys)
  any-append id [] ys = refl
  any-append id (x ∷ xs) ys = let ih = any-append id xs ys in ground (arith, ih)

  abbrev Within : List ℕ → List ℕ → Type 0
  Within exempt ids = (id : ℕ) → any (eqb id) ids ≡ true → any (eqb id) exempt ≡ true

  access-none :
      (imported : List String) (line : ℕ) (func : Syntax)
      → is_empty (call_entry is_word imported line func) ≡ true
      → no_access is_word func ≡ true
  access-none imported line (attribute l value attr) h =
      sym (said-none (elem attr forbidden_calls) line _) ∙ h
  access-none imported line (import_names l names) h = refl
  access-none imported line (import_from l m names level) h = refl
  access-none imported line (name l id) h = refl
  access-none imported line (text id l s) h = refl
  access-none imported line (joined l values) h = refl
  access-none imported line (add l left right) h = refl
  access-none imported line (call l func arguments) h = refl
  access-none imported line (expression value) h = refl
  access-none imported line (body before statements after) h = refl
  access-none imported line (other parts) h = refl

  sql-none : (line : ℕ) (s : String) → is_empty (sql_entry is_word line s) ≡ no_sql is_word s
  sql-none line s = said-none (contains_sql is_word (codes s)) line _

  concat-none :
      (line : ℕ) (o : Option Literal)
      → is_empty (concat_entry is_word line o) ≡ true
      → no_sql_concat is_word o ≡ true
  concat-none line none h = refl
  concat-none line (some l) h = sym (sql-none line l.value) ∙ h

  private-none :
      (private own : Bool) (line : ℕ) (m : String)
      → is_empty (said (private && not own) line m) ≡ true
      → (not private || own) ≡ true
  private-none private own line m h =
      let e = said-none (private && not own) line m in ground (arith, e, h)

  -- A node of which neither pass says anything is allowed.
  node_allowed :
      (imported : List String) (docstrings consumed exempt : List ℕ) (t : Syntax)
      → Within exempt docstrings
      → Within exempt consumed
      → is_empty (import_entries t) ≡ true
      → is_empty (node_entries is_word imported docstrings consumed t) ≡ true
      → is_allowed is_word exempt t ≡ true
  unfolding import_entries node_entries
  node_allowed imported docstrings consumed exempt (import_names line names) d c h k =
      sym (drivers-none line names) ∙ h
  node_allowed imported docstrings consumed exempt (import_from line m names level) d c h k =
      let both = is_empty-append (driver_module line m) (call_imports line names) in
      let calls = calls-none line names in
      let driver = module-none line m in ground (arith, both, calls, driver, h)
  node_allowed imported docstrings consumed exempt (attribute line value attr) d c h k =
      private-none (starts_with attr "_") (is_self value) line _ k
  node_allowed imported docstrings consumed exempt (text id line s) d c h k =
      elim (Bool-cases (any (eqb id) consumed)) [
        | inl folded ↦ rw (c id folded) refl
        | inr apart ↦ elim (Bool-cases (any (eqb id) docstrings)) [
          | inl docstring ↦ rw (d id docstring) refl
          | inr plain ↦
              let quiet : no_sql is_word s ≡ true =
                sym (sql-none line s) ∙ (rw (apart, plain, node_entries) at k) in
              ground (arith, quiet)
        ]
      ]
  node_allowed imported docstrings consumed exempt (joined line values) d c h k =
      sym (sql-none line (reconstruct_joined_str (listed values)).value) ∙ k
  node_allowed imported docstrings consumed exempt (add line left right) d c h k =
      concat-none line (collect_parts (add line left right)) k
  node_allowed imported docstrings consumed exempt (call line func arguments) d c h k =
      access-none imported line func k
  node_allowed imported docstrings consumed exempt (name line id) d c h k = refl
  node_allowed imported docstrings consumed exempt (expression value) d c h k = refl
  node_allowed imported docstrings consumed exempt (body before statements after) d c h k = refl
  node_allowed imported docstrings consumed exempt (other parts) d c h k = refl

  second_pass-allowed :
      (imported : List String) (docstrings consumed exempt : List ℕ) (ts : List Syntax)
      → Within exempt docstrings
      → Within exempt consumed
      → Within exempt (flat_map (consumed_by is_word) ts)
      → all (λ t. is_empty (import_entries t)) ts ≡ true
      → is_empty (second_pass is_word imported docstrings consumed ts) ≡ true
      → all (is_allowed is_word exempt) ts ≡ true
  unfolding second_pass
  second_pass-allowed imported docstrings consumed exempt [] d c later h k = refl
  second_pass-allowed imported docstrings consumed exempt (t ∷ ts) d c later h k =
      let here = node_entries is_word imported docstrings consumed t in
      let folded = consumed_by is_word t in
      let rest = flat_map (consumed_by is_word) ts in
      let both =
        is_empty-append here (second_pass is_word imported docstrings (folded ++ consumed) ts) in
      let first =
        node_allowed imported docstrings consumed exempt t d c (ground (arith, h))
          (ground (arith, both, k)) in
      let others =
        second_pass-allowed imported docstrings (folded ++ consumed) exempt ts d
          (λ id m.
            let split = any-append id folded consumed in
            let join = any-append id folded rest in
            let old = c id in let new = later id in ground (arith, split, join, old, new, m))
          (λ id m.
            let join = any-append id folded rest in
            let new = later id in ground (arith, join, new, m))
          (ground (arith, h)) (ground (arith, both, k)) in
      ground (arith, first, others)

  is_empty-map : {A B : Type 0} (f : A → B) (xs : List A) → is_empty (map f xs) ≡ is_empty xs
  is_empty-map f [] = refl
  is_empty-map f (x ∷ xs) = refl

  -- If the lint says nothing on a tree, no node of it imports a warehouse driver or a data-access
  -- function, calls a data-access method, or takes a private attribute of anything but self and
  -- cls; no f-string, its literal parts joined with a blank for each other part, and no
  -- concatenation of texts and f-strings only holds SQL; nor does any other text but a docstring,
  -- a direct literal part of an f-string, or a literal part of such a concatenation; and nothing
  -- is imported dynamically.
  pub lint_tree-IsClean : (tree : Syntax) → is_empty (lint_tree is_word tree) ≡ true → IsClean tree
  unfolding lint_tree
  lint_tree-IsClean tree h =
      let ts = walk tree in
      let imported = flat_map imported_calls ts in
      let docstrings = flat_map docstring_ids ts in
      let folded = flat_map (consumed_by is_word) ts in
      let second = second_pass is_word imported docstrings [] ts in
      let firsts = flat_map import_entries ts in
      let found = dynamic_import_violations tree in
      let last = dynamic_entries found in
      let nothing = sym (is_empty-sort entry_key (firsts ++ (second ++ last))) ∙ h in
      let a = is_empty-append firsts (second ++ last) in
      let b = is_empty-append second last in
      let m : is_empty last ≡ is_empty found = is_empty-map _ found in
      let imports = is_empty-flat_map import_entries ts in
      let v = violations_none tree in
      let allowed =
        second_pass-allowed imported docstrings [] (exempt_ids is_word tree) ts
          (λ id m. let e = any-append id folded docstrings in ground (arith, e, m)) (λ id m. cc)
          (λ id m. let e = any-append id folded docstrings in ground (arith, e, m))
          (ground (arith, a, imports, nothing)) (ground (arith, a, b, nothing)) in
      record {
        exempt = exempt_ids is_word tree;
        only_exempt = exempt_ids-IsExempt is_word tree;
        allowed =
            all-Allowed is_word (exempt_ids is_word tree) (nodes tree)
              (sym (all-walk (is_allowed is_word (exempt_ids is_word tree)) tree) ∙ allowed);
        static = ground (arith, a, b, m, v, nothing);
      }
