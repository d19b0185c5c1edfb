-- ===== src/Closure/Imports.antt =====
-- What closure.py reads off a syntax tree: its dynamic imports, and the names that it imports.
use continuo_python_runtime.Base.{
  ℕ, ◌-◌, String, ◌==◌, ◌<>◌, not, Option, none, some, List, [], ◌∷◌, ◌++◌, map, Result, ok, err,
  other_error, value_error, ◌>>=◌, elem, flat_map, keep, take, init, length, ltb, eqb,
  if◌then◌else◌,
}
use continuo_python_runtime.Base.Text.{codes, split, join}
use continuo_python_runtime.Base.Sorting.{Text, sort}
use continuo_python_runtime.Syntax.{
  Alias, Syntax, import_names, import_from, name, attribute, text, joined, add, call, expression,
  body, other, walk,
}
use continuo_python_runtime.Closure.Paths.{FilePath, relative_to}

abbrev pub dynamic_import_modules : List String
dynamic_import_modules = "importlib" ∷ "builtins" ∷ []

abbrev pub dynamic_import_names : List String
dynamic_import_names = "__import__" ∷ "exec" ∷ "eval" ∷ "__builtins__" ∷ []

abbrev pub dynamic_import_attrs : List String
dynamic_import_attrs = "import_module" ∷ "__import__" ∷ []

abbrev first_of : List String → String
first_of [] = ""
first_of (part ∷ parts) = part

-- `name.split(".")[0]`
unfoldable pub root_module : String → String
unfolding split
root_module module_name = first_of (split b'.' module_name)

-- A construct, and the line that it stands on.
abbrev pub Violation : Type 0
Violation = ℕ × String

abbrev flagged : List String → ℕ → String → List Violation
flagged refused line construct = if elem construct refused then (line, construct) ∷ [] else []

abbrev of_aliases : ℕ → List Alias → List Violation
of_aliases line names = flat_map (λ alias. flagged dynamic_import_names line alias.name) names

-- One statement, one violation: where the module is refused, the names are not looked at.
abbrev of_module : ℕ → Option String → List Alias → List Violation
of_module line none names = of_aliases line names
of_module line (some module_name) names =
    if elem (root_module module_name) dynamic_import_modules
    then (line, root_module module_name) ∷ []
    else of_aliases line names

-- What one node adds to the violations.
unfoldable pub node_violations : Syntax → List Violation
unfolding root_module
node_violations (import_names line names) =
    flat_map (λ alias. flagged dynamic_import_modules line (root_module alias.name)) names
node_violations (import_from line module_name names level) = of_module line module_name names
node_violations (name line id) = flagged dynamic_import_names line id
node_violations (attribute line value attr) = flagged dynamic_import_attrs line attr
node_violations (text id line s) = []
node_violations (joined line values) = []
node_violations (add line left right) = []
node_violations (call line func arguments) = []
node_violations (expression value) = []
node_violations (body before statements after) = []
node_violations (other parts) = []

abbrev pub violation_key : Violation → Text
violation_key (line, construct) = line ∷ codes construct

unfoldable pub dynamic_import_violations : Syntax → List Violation
unfolding node_violations walk sort
dynamic_import_violations tree = sort violation_key (flat_map node_violations (walk tree))

-- `importing_file.parent.relative_to(repo_root).parts`
unfoldable pub package_components : FilePath → FilePath → Result (List String)
package_components importing_file repo_root = elim (relative_to (init importing_file) repo_root) [
  | none ↦ err (value_error "is not in the subpath")
  | some parts ↦ ok parts
]

abbrev dotted : String → String → String
dotted base attr = if base == "" then attr else base <> "." <> attr

abbrev base_of : String → List String
base_of base = if base == "" then [] else base ∷ []

abbrev text_of : Option String → String
text_of none = ""
text_of (some s) = s

-- Relative imports, with `walk_up` one less than the level.
unfoldable pub relative_names : ℕ → Option String → List Alias → List String → List String
unfolding join
relative_names walk_up module_name names components =
    if ltb (length components) walk_up
    then []
    else let prefix = join "." (take (length components - walk_up) components) in
      let base = join "." (keep (λ part. not (part == "")) (prefix ∷ text_of module_name ∷ [])) in
      base_of base ++ map (λ alias. dotted base alias.name) names

abbrev absolute_names : Option String → List Alias → Result (List String)
absolute_names none names = err (other_error "AssertionError")
absolute_names (some base) names = ok (base ∷ map (λ alias. base <> "." <> alias.name) names)

unfoldable pub names_from_import_from :
    ℕ → Option String → List Alias → FilePath → FilePath → Result (List String)
unfolding package_components relative_names
names_from_import_from level module_name names importing_file repo_root =
    if eqb level 0 then absolute_names module_name names else do
      components ← package_components importing_file repo_root
      ok (relative_names (level - 1) module_name names components)

-- What one node adds to the names.
unfoldable pub node_names : FilePath → FilePath → Syntax → Result (List String)
unfolding names_from_import_from
node_names importing_file repo_root (import_names line names) = ok (map (λ alias. alias.name) names)
node_names importing_file repo_root (import_from line module_name names level) =
    names_from_import_from level module_name names importing_file repo_root
node_names importing_file repo_root (name line id) = ok []
node_names importing_file repo_root (attribute line value attr) = ok []
node_names importing_file repo_root (text id line s) = ok []
node_names importing_file repo_root (joined line values) = ok []
node_names importing_file repo_root (add line left right) = ok []
node_names importing_file repo_root (call line func arguments) = ok []
node_names importing_file repo_root (expression value) = ok []
node_names importing_file repo_root (body before statements after) = ok []
node_names importing_file repo_root (other parts) = ok []

unfoldable pub names_of_nodes : FilePath → FilePath → List Syntax → Result (List String)
unfolding node_names
names_of_nodes importing_file repo_root [] = ok []
names_of_nodes importing_file repo_root (t ∷ ts) = do
  names ← node_names importing_file repo_root t
  more ← names_of_nodes importing_file repo_root ts
  ok (names ++ more)

unfoldable pub collect_import_names : Syntax → FilePath → FilePath → Result (List String)
unfolding names_of_nodes walk
collect_import_names tree importing_file repo_root =
    names_of_nodes importing_file repo_root (walk tree)
