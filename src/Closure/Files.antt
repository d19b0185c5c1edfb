-- ===== src/Closure/Files.antt =====
-- How closure.py finds the file of a module. The file system is a parameter.
use continuo_python_runtime.Base.{
  String, Bool, Option, none, some, List, [], ◌∷◌, ◌++◌, Result, if◌then◌else◌,
}
use continuo_python_runtime.Base.Text.{split}
use continuo_python_runtime.Closure.Paths.{FilePath, joinpath, with_py}

-- `Path.is_file`, `Path.resolve` and `Path.read_bytes`.
pub record FileSystem (Bytes : Type 0) : Type 0 where
  pub is_file : FilePath → Bool
  pub resolve : FilePath → FilePath
  pub read_bytes : FilePath → Result Bytes

-- The root that a name was found under, the file, and the parts of the name.
pub record Match : Type 0 where
  pub root : FilePath
  pub file : FilePath
  pub parts : List String

module _ {Bytes : Type 0} (fs : FileSystem Bytes) where
  abbrev pub package_init : FilePath → List String → FilePath
  package_init root parts = joinpath root (parts ++ "__init__.py" ∷ [])

  -- The loop over the search roots: a package before a module file, in each.
  unfoldable pub under_roots : List String → List FilePath → Option Match
  under_roots parts [] = none
  under_roots parts (root ∷ roots) =
      if fs.is_file (package_init root parts)
      then some (record { root = root; file = fs.resolve (package_init root parts); parts = parts })
      else if fs.is_file (with_py (joinpath root parts))
      then some
          (record { root = root; file = fs.resolve (with_py (joinpath root parts)); parts = parts })
      else under_roots parts roots

  unfoldable pub resolve_name : String → List FilePath → Option Match
  unfolding under_roots split
  resolve_name name search_roots = under_roots (split b'.' name) search_roots

  -- The packages that enclose a module, from the outermost; `outer` holds the parts before.
  unfoldable pub enclosing_inits : FilePath → List String → List String → List FilePath
  enclosing_inits root outer [] = []
  enclosing_inits root outer (part ∷ []) = []
  enclosing_inits root outer (part ∷ next ∷ parts) =
      let here = outer ++ part ∷ [] in
      (if fs.is_file (package_init root here) then fs.resolve (package_init root here) ∷ [] else [])
      ++ enclosing_inits root here (next ∷ parts)

  abbrev pub of_match : Option Match → List FilePath
  of_match none = []
  of_match (some m) = m.file ∷ enclosing_inits m.root [] m.parts

  -- The files that the import of a name adds.
  unfoldable pub candidates : List FilePath → String → List FilePath
  unfolding resolve_name enclosing_inits
  candidates search_roots name = of_match (resolve_name name search_roots)
