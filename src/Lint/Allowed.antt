-- ===== src/Lint/Allowed.antt =====
-- What each node of a source may be by the rules of continuo_python_runtime/lint.py.
use continuo_python_runtime.Base.{
  ℕ, eqb, String, ◌==◌, starts_with, ◌≡◌, refl, Bool, true, ◌&&◌, ◌||◌, not, Option, none, some,
  List, [], ◌∷◌, elem, any, all, inl, inr, All, ◌⊎◌, subst, and_parts,
}
use continuo_python_runtime.Base.Text.{codes}
use continuo_python_runtime.Syntax.{
  Syntax, import_names, import_from, name, attribute, text, joined, add, call, expression, body,
  other, listed,
}
use continuo_python_runtime.Closure.Imports.{root_module}
use continuo_python_runtime.Lint.Exempt.{
  JoinedAs, ConcatAs, reconstruct-JoinedAs, Collected, collect_parts-ConcatAs, ConcatAs-collected,
}
use continuo_python_runtime.Lint.Sql.{contains_sql}
use continuo_python_runtime.Lint.Literals.{Literal, reconstruct_joined_str, collect_parts}
use continuo_python_runtime.Lint.{forbidden_drivers, forbidden_calls, is_self}

abbrev pub is_driver : String → Bool
is_driver module_name = elem (root_module module_name) forbidden_drivers

abbrev pub no_driver : Option String → Bool
no_driver none = true
no_driver (some module_name) = (module_name == "") || not (is_driver module_name)

module _ (is_word : ℕ → Bool) where
  abbrev pub no_sql : String → Bool
  no_sql s = not (contains_sql is_word (codes s))

  abbrev pub no_sql_concat : Option Literal → Bool
  no_sql_concat none = true
  no_sql_concat (some l) = no_sql l.value

  abbrev pub no_access : Syntax → Bool
  no_access (attribute line value attr) = not (elem attr forbidden_calls)
  no_access _ = true

  -- The test that a node passes of which the lint says nothing, given the ids of the constants that
  -- are part of a larger text or a docstring.
  abbrev pub is_allowed : List ℕ → Syntax → Bool
  is_allowed exempt (import_names line names) = all (λ a. not (is_driver a.name)) names
  is_allowed exempt (import_from line module_name names level) =
      no_driver module_name && all (λ a. not (elem a.name forbidden_calls)) names
  is_allowed exempt (attribute line value attr) = not (starts_with attr "_") || is_self value
  is_allowed exempt (text id line s) = any (eqb id) exempt || no_sql s
  is_allowed exempt (joined line values) = no_sql (reconstruct_joined_str (listed values)).value
  is_allowed exempt (add line left right) = no_sql_concat (collect_parts (add line left right))
  is_allowed exempt (call line func arguments) = no_access func
  is_allowed exempt (name line id) = true
  is_allowed exempt (expression value) = true
  is_allowed exempt (body before statements after) = true
  is_allowed exempt (other parts) = true

  -- What a node may be: no f-string and no concatenation of texts and f-strings holds SQL, and the
  -- other nodes pass their tests.
  abbrev pub Allowed : List ℕ → Syntax → Type 0
  Allowed exempt (joined line values) =
      (s : String) × (ids : List ℕ) × JoinedAs values s ids × (no_sql s ≡ true)
  Allowed exempt (add line left right) =
      ((s : String) × (ids : List ℕ) × ConcatAs (add line left right) s ids × (no_sql s ≡ true))
      ⊎ (¬ ((s : String) × (ids : List ℕ) × ConcatAs (add line left right) s ids))
  Allowed exempt (import_names line names) = is_allowed exempt (import_names line names) ≡ true
  Allowed exempt (import_from line m names level) =
      is_allowed exempt (import_from line m names level) ≡ true
  Allowed exempt (name line id) = is_allowed exempt (name line id) ≡ true
  Allowed exempt (attribute line value attr) = is_allowed exempt (attribute line value attr) ≡ true
  Allowed exempt (text id line s) = is_allowed exempt (text id line s) ≡ true
  Allowed exempt (call line func arguments) = is_allowed exempt (call line func arguments) ≡ true
  Allowed exempt (expression value) = is_allowed exempt (expression value) ≡ true
  Allowed exempt (body before statements after) =
      is_allowed exempt (body before statements after) ≡ true
  Allowed exempt (other parts) = is_allowed exempt (other parts) ≡ true

  is_allowed-Allowed :
      (exempt : List ℕ) (t : Syntax) → is_allowed exempt t ≡ true → Allowed exempt t
  is_allowed-Allowed exempt (joined line values) h = (_, _, reconstruct-JoinedAs values, h)
  is_allowed-Allowed exempt (add line left right) h =
      collected (collect_parts (add line left right)) refl
    where
      collected :
          (o : Option Literal)
          → collect_parts (add line left right) ≡ o
          → Allowed exempt (add line left right)
      collected none is =
          inr
            (λ (s, ids, c). let (l, found) = ConcatAs-collected (add line left right) s ids c in cc)
      collected (some l) is = inl (
        l.value,
        l.ids,
        subst (Collected (add line left right)) is (collect_parts-ConcatAs (add line left right)),
        subst (λ o. no_sql_concat o ≡ true) is h,
      )
  is_allowed-Allowed exempt (import_names line names) h = h
  is_allowed-Allowed exempt (import_from line m names level) h = h
  is_allowed-Allowed exempt (name line id) h = h
  is_allowed-Allowed exempt (attribute line value attr) h = h
  is_allowed-Allowed exempt (text id line s) h = h
  is_allowed-Allowed exempt (call line func arguments) h = h
  is_allowed-Allowed exempt (expression value) h = h
  is_allowed-Allowed exempt (body before statements after) h = h
  is_allowed-Allowed exempt (other parts) h = h

  pub all-Allowed :
      (exempt : List ℕ) (ts : List Syntax)
      → all (is_allowed exempt) ts ≡ true
      → All (Allowed exempt) ts
  all-Allowed exempt [] h = tt
  all-Allowed exempt (t ∷ ts) h =
      let (first, others) = and_parts (is_allowed exempt t) (all (is_allowed exempt) ts) h in
      (is_allowed-Allowed exempt t first, all-Allowed exempt ts others)
