-- ===== src/Lint/Exempted.antt =====
-- The constants that `lint_source` of continuo_python_runtime/lint.py leaves out are exempt.
use mathlib.Core.List.{Mem, mem-cons_self, mem-cons_of_mem}
use mathlib.Core.List.Perm
use continuo_python_runtime.Base.{
  ℕ, eqb, ◌≡◌, Bool, true, Option, none, some, List, [], ◌∷◌, ◌++◌, All, any, flat_map, arith,
}
use continuo_python_runtime.Syntax.{
  Syntax, import_names, import_from, name, attribute, text, joined, add, call, expression, body,
  other, Syntaxes, nil, cons, walk,
}
use continuo_python_runtime.Syntax.Walk.{walk-Perm}
use continuo_python_runtime.Lint.Literals.{Literal, collect_parts}
use continuo_python_runtime.Lint.Exempt.{
  Exempts, in_joined, in_concat, docstring, IsExempt, reconstruct-JoinedAs, Collected,
  collect_parts-ConcatAs,
}
use continuo_python_runtime.Lint.{ids_of, consumed_by, docstring_of, docstring_ids}

-- What holds of every id in a list holds of all of it.
all_ids : (P : ℕ → Type 0) (ids : List ℕ) → ((id : ℕ) → any (eqb id) ids ≡ true → P id) → All P ids
all_ids P [] h = tt
all_ids P (x ∷ ids) h =
    let here : any (eqb x) (x ∷ ids) ≡ true = ground arith in
    (
      h x here,
      all_ids P ids
          (λ id m. let later : any (eqb id) (x ∷ ids) ≡ true = ground (arith, m) in h id later),
    )

consumed_by-Exempts : (is_word : ℕ → Bool) (t : Syntax) → All (Exempts t) (consumed_by is_word t)
unfolding consumed_by
consumed_by-Exempts is_word (joined line values) =
    all_ids (Exempts (joined line values)) _
      (λ id m. in_joined line values _ _ id (reconstruct-JoinedAs values) m)
consumed_by-Exempts is_word (add line left right) =
    of_parts (collect_parts (add line left right)) (collect_parts-ConcatAs (add line left right))
  where
    of_parts :
        (o : Option Literal)
        → Collected (add line left right) o
        → All (Exempts (add line left right)) (ids_of is_word o)
    of_parts none h = tt
    of_parts (some l) h =
        all_ids (Exempts (add line left right)) l.ids
          (λ id m. in_concat line left right l.value l.ids id h m)
consumed_by-Exempts is_word (text id line s) = tt
consumed_by-Exempts is_word (call line func arguments) = tt
consumed_by-Exempts is_word (attribute line value attr) = tt
consumed_by-Exempts is_word (import_names line names) = tt
consumed_by-Exempts is_word (import_from line m names level) = tt
consumed_by-Exempts is_word (name line id) = tt
consumed_by-Exempts is_word (expression value) = tt
consumed_by-Exempts is_word (body before statements after) = tt
consumed_by-Exempts is_word (other parts) = tt

docstring_of-Exempts :
    (before statements after : Syntaxes)
    → All (Exempts (body before statements after)) (docstring_of statements)
docstring_of-Exempts before nil after = tt
docstring_of-Exempts before (cons (expression (text id line s)) rest) after =
    (docstring before id line s rest after, tt)
docstring_of-Exempts before (cons (expression (import_names line names)) rest) after = tt
docstring_of-Exempts before (cons (expression (import_from line m names level)) rest) after = tt
docstring_of-Exempts before (cons (expression (name line id)) rest) after = tt
docstring_of-Exempts before (cons (expression (attribute line value attr)) rest) after = tt
docstring_of-Exempts before (cons (expression (joined line values)) rest) after = tt
docstring_of-Exempts before (cons (expression (add line left right)) rest) after = tt
docstring_of-Exempts before (cons (expression (call line func arguments)) rest) after = tt
docstring_of-Exempts before (cons (expression (expression inner)) rest) after = tt
docstring_of-Exempts before (cons (expression (body first statements last)) rest) after = tt
docstring_of-Exempts before (cons (expression (other parts)) rest) after = tt
docstring_of-Exempts before (cons (import_names line names) rest) after = tt
docstring_of-Exempts before (cons (import_from line m names level) rest) after = tt
docstring_of-Exempts before (cons (name line id) rest) after = tt
docstring_of-Exempts before (cons (attribute line value attr) rest) after = tt
docstring_of-Exempts before (cons (text i line s) rest) after = tt
docstring_of-Exempts before (cons (joined line values) rest) after = tt
docstring_of-Exempts before (cons (add line left right) rest) after = tt
docstring_of-Exempts before (cons (call line func arguments) rest) after = tt
docstring_of-Exempts before (cons (body first statements last) rest) after = tt
docstring_of-Exempts before (cons (other parts) rest) after = tt

docstring_ids-Exempts : (t : Syntax) → All (Exempts t) (docstring_ids t)
unfolding docstring_ids
docstring_ids-Exempts (body before statements after) = docstring_of-Exempts before statements after
docstring_ids-Exempts (import_names line names) = tt
docstring_ids-Exempts (import_from line m names level) = tt
docstring_ids-Exempts (name line id) = tt
docstring_ids-Exempts (attribute line value attr) = tt
docstring_ids-Exempts (text i line s) = tt
docstring_ids-Exempts (joined line values) = tt
docstring_ids-Exempts (add line left right) = tt
docstring_ids-Exempts (call line func arguments) = tt
docstring_ids-Exempts (expression value) = tt
docstring_ids-Exempts (other parts) = tt

module _ (P : ℕ → Type 0) where
  All-append : (xs ys : List ℕ) → All P xs → All P ys → All P (xs ++ ys)
  All-append [] ys h k = k
  All-append (x ∷ xs) ys (first, rest) k = (first, All-append xs ys rest k)

  All-flat_map :
      (f : Syntax → List ℕ) (ts : List Syntax)
      → ((t : Syntax) → Mem t ts → All P (f t))
      → All P (flat_map f ts)
  All-flat_map f [] h = tt
  All-flat_map f (t ∷ ts) h =
      All-append (f t) (flat_map f ts) (h t mem-cons_self)
        (All-flat_map f ts (λ u m. h u (mem-cons_of_mem t m)))

All-weaken : (P Q : ℕ → Type 0) (xs : List ℕ) → ((id : ℕ) → P id → Q id) → All P xs → All Q xs
All-weaken P Q [] f h = tt
All-weaken P Q (x ∷ xs) f (first, rest) = (f x first, All-weaken P Q xs f rest)

-- The constants that some text of the tree is put together from, and the docstrings.
abbrev pub exempt_ids : (ℕ → Bool) → Syntax → List ℕ
exempt_ids is_word tree =
    flat_map (consumed_by is_word) (walk tree) ++ flat_map docstring_ids (walk tree)

-- The walk of a tree finds in it whatever exempts a constant.
found-IsExempt :
    (tree : Syntax) (f : Syntax → List ℕ)
    → ((t : Syntax) → All (Exempts t) (f t))
    → All (IsExempt tree) (flat_map f (walk tree))
found-IsExempt tree f h = All-flat_map (IsExempt tree) f (walk tree) (λ t m.
    All-weaken (Exempts t) (IsExempt tree) (f t) (λ id e. (t, Perm.subset (walk-Perm tree) t m, e))
      (h t))

pub exempt_ids-IsExempt :
    (is_word : ℕ → Bool) (tree : Syntax) → All (IsExempt tree) (exempt_ids is_word tree)
exempt_ids-IsExempt is_word tree =
    All-append (IsExempt tree) (flat_map (consumed_by is_word) (walk tree))
      (flat_map docstring_ids (walk tree))
      (found-IsExempt tree (consumed_by is_word) (consumed_by-Exempts is_word))
      (found-IsExempt tree docstring_ids docstring_ids-Exempts)
