-- ===== src/Lint/Exempt.antt =====
-- What the texts of a source are, told apart from how lint.py collects them: the text of an f-string,
-- the text of a concatenation, and the constants that the rule on plain texts leaves out.
use mathlib.Core.List.{Mem}
use continuo_python_runtime.Base.{
  ℕ, eqb, String, ◌<>◌, ◌≡◌, refl, Bool, true, false, Option, none, some, List, [], ◌∷◌, ◌++◌, any,
}
use continuo_python_runtime.Syntax.{
  Syntax, import_names, import_from, name, attribute, text, joined, add, call, expression, body,
  other, Syntaxes, nil, cons, listed, nodes,
}
use continuo_python_runtime.Lint.Literals.{
  Literal, both, joined_with, reconstruct_joined_str, collect_parts,
}

abbrev pub is_text : Syntax → Bool
is_text (text id line s) = true
is_text _ = false

-- The text of an f-string's values, with a blank for each that is no literal part, and the ids of the
-- literal parts.
pub data JoinedAs : Syntaxes → String → List ℕ → Type 0 where
  no_values : JoinedAs nil "" []
  literal_part :
      (id line : ℕ) (s rest_text : String) (rest : Syntaxes) (ids : List ℕ)
      → JoinedAs rest rest_text ids
      → JoinedAs (cons (text id line s) rest) (s <> rest_text) (id ∷ ids)
  formatted_part :
      (t : Syntax) (rest_text : String) (rest : Syntaxes) (ids : List ℕ)
      → is_text t ≡ false
      → JoinedAs rest rest_text ids
      → JoinedAs (cons t rest) (" " <> rest_text) ids

-- The text of a concatenation of texts and f-strings only, and the ids of its literal parts.
pub data ConcatAs : Syntax → String → List ℕ → Type 0 where
  one_text : (id line : ℕ) (s : String) → ConcatAs (text id line s) s (id ∷ [])
  one_joined :
      (line : ℕ) (values : Syntaxes) (s : String) (ids : List ℕ)
      → JoinedAs values s ids
      → ConcatAs (joined line values) s ids
  both_sides :
      (line : ℕ) (left right : Syntax) (s t : String) (ids others : List ℕ)
      → ConcatAs left s ids
      → ConcatAs right t others
      → ConcatAs (add line left right) (s <> t) (ids ++ others)

-- The constants that a node exempts: the literal parts of an f-string or of a concatenation, and a
-- docstring.
pub data Exempts : Syntax → ℕ → Type 0 where
  in_joined :
      (line : ℕ) (values : Syntaxes) (s : String) (ids : List ℕ) (id : ℕ)
      → JoinedAs values s ids
      → any (eqb id) ids ≡ true
      → Exempts (joined line values) id
  in_concat :
      (line : ℕ) (left right : Syntax) (s : String) (ids : List ℕ) (id : ℕ)
      → ConcatAs (add line left right) s ids
      → any (eqb id) ids ≡ true
      → Exempts (add line left right) id
  docstring :
      (before : Syntaxes) (id line : ℕ) (s : String) (rest after : Syntaxes)
      → Exempts (body before (cons (expression (text id line s)) rest) after) id

-- Some node of the tree exempts the constant.
abbrev pub IsExempt : Syntax → ℕ → Type 0
IsExempt tree id = (node : Syntax) × Mem node (nodes tree) × Exempts node id

pub reconstruct-JoinedAs :
    (values : Syntaxes)
    → JoinedAs values
        (reconstruct_joined_str (listed values)).value
        (reconstruct_joined_str (listed values)).ids
unfolding reconstruct_joined_str
reconstruct-JoinedAs nil = no_values
reconstruct-JoinedAs (cons (text id line s) rest) =
    literal_part id line s _ rest _ (reconstruct-JoinedAs rest)
reconstruct-JoinedAs (cons (import_names line names) rest) =
    formatted_part (import_names line names) _ rest _ refl (reconstruct-JoinedAs rest)
reconstruct-JoinedAs (cons (import_from line m names level) rest) =
    formatted_part (import_from line m names level) _ rest _ refl (reconstruct-JoinedAs rest)
reconstruct-JoinedAs (cons (name line id) rest) =
    formatted_part (name line id) _ rest _ refl (reconstruct-JoinedAs rest)
reconstruct-JoinedAs (cons (attribute line value attr) rest) =
    formatted_part (attribute line value attr) _ rest _ refl (reconstruct-JoinedAs rest)
reconstruct-JoinedAs (cons (joined line values) rest) =
    formatted_part (joined line values) _ rest _ refl (reconstruct-JoinedAs rest)
reconstruct-JoinedAs (cons (add line left right) rest) =
    formatted_part (add line left right) _ rest _ refl (reconstruct-JoinedAs rest)
reconstruct-JoinedAs (cons (call line func arguments) rest) =
    formatted_part (call line func arguments) _ rest _ refl (reconstruct-JoinedAs rest)
reconstruct-JoinedAs (cons (expression value) rest) =
    formatted_part (expression value) _ rest _ refl (reconstruct-JoinedAs rest)
reconstruct-JoinedAs (cons (body before statements after) rest) =
    formatted_part (body before statements after) _ rest _ refl (reconstruct-JoinedAs rest)
reconstruct-JoinedAs (cons (other parts) rest) =
    formatted_part (other parts) _ rest _ refl (reconstruct-JoinedAs rest)

abbrev pub Collected : Syntax → Option Literal → Type 0
Collected t none = Unit
Collected t (some l) = ConcatAs t l.value l.ids

pub collect_parts-ConcatAs : (t : Syntax) → Collected t (collect_parts t)
unfolding collect_parts
collect_parts-ConcatAs (text id line s) = one_text id line s
collect_parts-ConcatAs (joined line values) =
    one_joined line values _ _ (reconstruct-JoinedAs values)
collect_parts-ConcatAs (add line left right) =
    sides (collect_parts left) (collect_parts right) (collect_parts-ConcatAs left)
      (collect_parts-ConcatAs right)
  where
    sides :
        (a b : Option Literal)
        → Collected left a
        → Collected right b
        → Collected (add line left right) (both a b)
    sides (some a) (some b) h k = both_sides line left right _ _ _ _ h k
    sides (some a) none h k = tt
    sides none b h k = tt
collect_parts-ConcatAs (import_names line names) = tt
collect_parts-ConcatAs (import_from line m names level) = tt
collect_parts-ConcatAs (name line id) = tt
collect_parts-ConcatAs (attribute line value attr) = tt
collect_parts-ConcatAs (call line func arguments) = tt
collect_parts-ConcatAs (expression value) = tt
collect_parts-ConcatAs (body before statements after) = tt
collect_parts-ConcatAs (other parts) = tt

-- A concatenation of texts and f-strings is collected.
pub ConcatAs-collected :
    (t : Syntax) (s : String) (ids : List ℕ)
    → ConcatAs t s ids
    → (l : Literal) × (collect_parts t ≡ some l)
unfolding collect_parts
ConcatAs-collected _ _ _ (one_text id line s) = (_, refl)
ConcatAs-collected _ _ _ (one_joined line values s ids j) = (_, refl)
ConcatAs-collected _ _ _ (both_sides line left right s t ids others h k) =
    let (a, left_is) = ConcatAs-collected left s ids h in
    let (b, right_is) = ConcatAs-collected right t others k in
    (joined_with a b, rw (left_is, right_is) refl)
