-- ===== src/Lint/Files.antt =====
-- `lint_paths` of continuo_python_runtime/lint.py. The file system is a parameter.
pub mod Laws
use continuo_python_runtime.Base.{
  ℕ, String, Bool, true, false, List, [], ◌∷◌, ◌++◌, flat_map, Exception, Result, ok, err, ◌>>=◌,
  if◌then◌else◌,
}
use continuo_python_runtime.Base.Sorting.{sort}
use continuo_python_runtime.Base.Text.{join}
use continuo_python_runtime.Syntax.{Parsed}
use continuo_python_runtime.Closure.Paths.{FilePath, path_key}
use continuo_python_runtime.Lint.{Report, lint_source}

-- What `Path.read_text(encoding="utf-8")` comes to; `unreadable` stands for an `OSError` or a
-- `UnicodeDecodeError`.
pub data Reading : Type 0 where
  contents : String → Reading
  unreadable : Reading

-- `python_files` is `rglob("*.py")`, in any order; `shown` is `str(path)`.
pub record Tree : Type 0 where
  pub exists : FilePath → Bool
  pub is_dir : FilePath → Bool
  pub python_files : FilePath → List FilePath
  pub read_text : FilePath → Reading
  pub shown : FilePath → String

-- A report on a path as a whole has no line.
pub data Problem : Type 0 where
  missing unread : String → Problem
  reported : Report → Problem

abbrev reported_all : List Report → List Problem
reported_all [] = []
reported_all (r ∷ rs) = reported r ∷ reported_all rs

module _ (is_word : ℕ → Bool) (parse : String → Parsed) (tree : Tree) where
  abbrev pub missing_of : FilePath → List Problem
  missing_of path = if tree.exists path then [] else missing (tree.shown path) ∷ []

  abbrev pub files_of : FilePath → List FilePath
  files_of path =
      if tree.exists path
      then if tree.is_dir path then sort path_key (tree.python_files path) else path ∷ []
      else []

  abbrev pub lint_reading : FilePath → Reading → Result (List Problem)
  lint_reading path unreadable = ok (unread (tree.shown path) ∷ [])
  lint_reading path (contents source) = do
    found ← lint_source is_word (parse source) (tree.shown path)
    ok (reported_all found)

  -- The loop over the files.
  unfoldable pub lint_files : List FilePath → Result (List Problem)
  unfolding lint_source
  lint_files [] = ok []
  lint_files (path ∷ paths) = do
    here ← lint_reading path (tree.read_text path)
    rest ← lint_files paths
    ok (here ++ rest)

  unfoldable pub lint_paths : List FilePath → Result (List Problem)
  unfolding lint_files sort
  lint_paths paths = do
    found ← lint_files (flat_map files_of paths)
    ok (flat_map missing_of paths ++ found)
