-- ===== src/Tests/Closures.antt =====
-- A repository of a script and a package of two files: its trees, its closure, its lint, and the
-- contract of the script's node.
use continuo_python_runtime.Base.{
  String, ◌==◌, ◌≡◌, refl, true, none, some, List, [], ◌∷◌, Result, ok, err, other_error,
  if◌then◌else◌, ◌>>=◌,
}
use continuo_python_runtime.Base.Text.{split, join}
use continuo_python_runtime.Base.Sorting.{insert, sort, text_le}
use continuo_python_runtime.Syntax.{
  Syntax, import_from, name, text, joined, add, call, expression, body, other, nil, cons, nodes,
  walk_queue, walk, Parsed, parsed, syntax_error,
}
use continuo_python_runtime.Closure.Paths.{FilePath, same_path, mem}
use continuo_python_runtime.Closure.Imports.{
  root_module, node_violations, dynamic_import_violations, package_components, relative_names,
  names_from_import_from, node_names, names_of_nodes, collect_import_names,
}
use continuo_python_runtime.Closure.Files.{
  FileSystem, Match, under_roots, resolve_name, enclosing_inits, candidates,
}
use continuo_python_runtime.Closure.Search.{
  imports_of, enqueue, search_from, roots_of, resolve_closure,
}
use continuo_python_runtime.Closure.Laws.{IsResolved, resolve_closure-IsResolved}
use continuo_python_runtime.Closure.Packages.{candidates-mem_init}

-- `from lib.shared import clean`, and `clean("a" + f"{x} b")`.
abbrev pub main_tree : Syntax
main_tree =
    body nil
      (cons (import_from 1 (some "lib.shared") (record { name = "clean"; asname = none } ∷ []) 0) (
        cons
          (expression (
            call 2 (name 2 "clean") (
              cons
                (add 2 (text 1 2 "a")
                  (joined 2 (cons (other (cons (name 2 "x") nil)) (cons (text 2 2 " b") nil))))
                nil)))
          nil))
      nil

abbrev pub parse : String → Parsed
parse s =
    if s == "main"
    then parsed main_tree
    else if s == "shared"
    then parsed (body nil nil nil)
    else syntax_error 1

abbrev pub main_path : FilePath
main_path = "repo" ∷ "scripts" ∷ "orders.py" ∷ []

abbrev pub shared_path : FilePath
shared_path = "repo" ∷ "lib" ∷ "shared.py" ∷ []

abbrev pub package_path : FilePath
package_path = "repo" ∷ "lib" ∷ "__init__.py" ∷ []

abbrev pub all_files : List FilePath
all_files = main_path ∷ shared_path ∷ package_path ∷ []

abbrev read : FilePath → Result String
read p =
    if same_path p main_path
    then ok "main"
    else if mem p all_files
    then ok "shared"
    else err (other_error "FileNotFoundError")

abbrev pub fs : FileSystem String
fs = record { is_file = λ p. mem p all_files; resolve = λ p. p; read_bytes = read }

closure_found :
    resolve_closure fs parse 4 main_path ("repo" ∷ []) ≡ some (ok (package_path ∷ shared_path ∷ []))
unfolding resolve_closure search_from enqueue imports_of candidates enclosing_inits resolve_name
    under_roots collect_import_names names_of_nodes node_names names_from_import_from relative_names
    package_components dynamic_import_violations node_violations root_module walk walk_queue nodes
    split join insert sort text_le ◌>>=◌
closure_found = refl

resolve_closure-IsResolved_example :
    (r : Result (List FilePath)) × (resolve_closure fs parse 4 main_path ("repo" ∷ []) ≡ some r)
    × IsResolved fs parse
        ("repo" ∷ [])
        (roots_of fs parse ("repo" ∷ []) ("repo" ∷ "scripts" ∷ []))
        main_path
        r
resolve_closure-IsResolved_example =
    resolve_closure-IsResolved fs parse all_files (λ p h. h) main_path ("repo" ∷ [])

abbrev shared_match : Match
shared_match = record { root = "repo" ∷ []; file = shared_path; parts = "lib" ∷ "shared" ∷ [] }

shared_found : resolve_name fs "lib.shared" (("repo" ∷ []) ∷ []) ≡ some shared_match
unfolding resolve_name under_roots split
shared_found = refl

candidates-mem_init_example :
    mem package_path (candidates fs (("repo" ∷ []) ∷ []) "lib.shared") ≡ true
candidates-mem_init_example =
    candidates-mem_init fs (("repo" ∷ []) ∷ []) "lib.shared" shared_match "lib" [] "shared" []
      shared_found refl refl
