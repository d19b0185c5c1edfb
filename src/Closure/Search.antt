-- ===== src/Closure/Search.antt =====
-- `resolve_closure` of closure.py: the breadth-first search from a script. The parser is a parameter.
use continuo_python_runtime.Base.{
  ℕ, zero, suc, String, not, Option, none, some, List, [], ◌∷◌, ◌++◌, contract_error, value_error,
  Result, ok, err, ◌>>=◌, ◌>>◌, require, flat_map, keep, is_empty, init, if◌then◌else◌,
}
use continuo_python_runtime.Base.Text.{join}
use continuo_python_runtime.Base.Sorting.{sort}
use continuo_python_runtime.Syntax.{Syntax, Parsed, parsed, syntax_error, parser_raised}
use continuo_python_runtime.Closure.Paths.{
  FilePath, same_path, mem, relative_to, is_relative_to, path_key,
}
use continuo_python_runtime.Closure.Imports.{dynamic_import_violations, collect_import_names}
use continuo_python_runtime.Closure.Files.{FileSystem, candidates}

-- `seen` and the queue.
pub record Frontier : Type 0 where
  pub seen : List FilePath
  pub queue : List FilePath

abbrev pub visit : FilePath → Frontier → Frontier
visit p f = if mem p f.seen then f else record { seen = p ∷ f.seen; queue = f.queue ++ p ∷ [] }

unfoldable pub enqueue : List FilePath → Frontier → Frontier
enqueue [] f = f
enqueue (p ∷ ps) f = enqueue ps (visit p f)

module _ {Bytes : Type 0} (fs : FileSystem Bytes) (parse : Bytes → Parsed) (repo_root : FilePath)
    (search_roots : List FilePath) where
  abbrev relative : Option FilePath → Result String
  relative none = err (value_error "is not in the subpath")
  relative (some rel) = ok (join "/" rel)

  abbrev pub tree_of : String → Parsed → Result Syntax
  tree_of rel (parsed tree) = ok tree
  tree_of rel (syntax_error line) = err (contract_error rel "syntax error")
  tree_of rel (parser_raised e) = err e

  -- The body of the loop for one file: the files in the repository that its imports lead to.
  unfoldable pub imports_of : FilePath → Result (List FilePath)
  unfolding dynamic_import_violations collect_import_names candidates join
  imports_of current = do
    rel ← relative (relative_to current repo_root)
    source ← fs.read_bytes current
    tree ← tree_of rel (parse source)
    require (is_empty (dynamic_import_violations tree))
        (contract_error rel "dynamic import construct is not allowed")
    names ← collect_import_names tree current repo_root
    ok (keep (λ p. is_relative_to p repo_root) (flat_map (candidates fs search_roots) names))

  -- The `while` loop, with the set of files seen at its end; `none` means that the fuel ran out.
  unfoldable pub search_from : ℕ → List FilePath → List FilePath → Option (Result (List FilePath))
  unfolding imports_of enqueue
  search_from fuel seen [] = some (ok seen)
  search_from zero seen (current ∷ queue) = none
  search_from (suc fuel) seen (current ∷ queue) = elim (imports_of current) [
    | err e ↦ some (err e)
    | ok files ↦
        let next = enqueue files (record { seen = seen; queue = queue }) in
        search_from fuel next.seen next.queue
  ]

module _ {Bytes : Type 0} (fs : FileSystem Bytes) (parse : Bytes → Parsed) where
  abbrev pub roots_of : FilePath → FilePath → List FilePath
  roots_of repo_root script_dir =
      if same_path script_dir repo_root then repo_root ∷ [] else repo_root ∷ script_dir ∷ []

  abbrev pub members : FilePath → Option (Result (List FilePath)) → Option (Result (List FilePath))
  members script none = none
  members script (some (err e)) = some (err e)
  members script (some (ok seen)) =
      some (ok (sort path_key (keep (λ p. not (same_path p script)) seen)))

  unfoldable pub resolve_closure : ℕ → FilePath → FilePath → Option (Result (List FilePath))
  unfolding search_from sort
  resolve_closure fuel script_path repo =
      let repo_root = fs.resolve repo in
      let script = fs.resolve script_path in
      members script (
        search_from fs parse repo_root (roots_of repo_root (init script)) fuel (script ∷ [])
          (script ∷ []))
