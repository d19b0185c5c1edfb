-- ===== src/Merge/Sources.antt =====
-- What is hashed of a node's source: `_script_hash_inputs`, `_csv_hash_inputs`, `_HASH_INPUTS` and
-- `_lint_node_closure` of continuo_python_runtime/contract/merge.py, and `resolve_script_path` of
-- contract/paths.py. The file system, the parser and the codecs are parameters.
pub mod Laws
pub mod Wire
use continuo_python_runtime.Base.{
  ℕ, suc, String, ◌==◌, starts_with, Bool, true, false, ◌||◌, not, Option, none, some, List, [],
  ◌∷◌, ◌++◌, keep, is_empty, length, Exception, contract_error, value_error, other_error, Result,
  ok, err, ◌>>=◌, ◌>>◌, require, if◌then◌else◌,
}
use continuo_python_runtime.Base.Text.{split, join}
use continuo_python_runtime.Syntax.{Parsed}
use continuo_python_runtime.Contract.Model.{Node, relation}
use continuo_python_runtime.Harness.Context.{lookup}
use continuo_python_runtime.Closure.Paths.{FilePath, relative_to, is_relative_to}
use continuo_python_runtime.Closure.Files.{FileSystem}
use continuo_python_runtime.Closure.Search.{resolve_closure}
use continuo_python_runtime.Lint.{Report, lint_source}

-- `decode` is `bytes.decode("utf-8-sig")`, with `none` for a `UnicodeDecodeError`; `encode` is
-- `str.encode()`; the two parsers are `ast.parse` on bytes and on a text; `is_word` is `\w`.
pub record Sources (Bytes : Type 0) : Type 0 where
  pub fs : FileSystem Bytes
  pub decode : Bytes → Option String
  pub encode : String → Bytes
  pub parse_bytes : Bytes → Parsed
  pub parse_text : String → Parsed
  pub is_word : ℕ → Bool

-- The parts of a path that is written as a text.
unfoldable pub parts_of : String → FilePath
unfolding split
parts_of script = keep (λ part. not ((part == "") || (part == "."))) (split b'/' script)

module _ {Bytes : Type 0} (sources : Sources Bytes) where
  unfoldable pub resolve_script_path : String → FilePath → String → Result FilePath
  unfolding parts_of
  resolve_script_path script repo_root context = do
    require (not (starts_with script "/"))
        (contract_error context "script path must be relative to the repository root")
    let script_path = sources.fs.resolve (repo_root ++ parts_of script)
    require (is_relative_to script_path (sources.fs.resolve repo_root))
        (contract_error context "script path escapes the repository root")
    require (sources.fs.is_file script_path) (contract_error context "script not found")
    ok script_path

  abbrev pub decoded : String → Option String → Result String
  decoded context none = err (contract_error context "not valid UTF-8")
  decoded context (some source) = ok source

  abbrev relative : Option FilePath → Result String
  relative none = err (value_error "is not in the subpath")
  relative (some rel) = ok (join "/" rel)

  -- The loop over the files and their bytes.
  unfoldable pub lint_members : String → FilePath → List (FilePath × Bytes) → Result (List Report)
  unfolding lint_source join
  lint_members context root [] = ok []
  lint_members context root ((path, bytes) ∷ files) = do
    rel ← relative (relative_to path root)
    source ← decoded context (sources.decode bytes)
    here ← lint_source sources.is_word (sources.parse_text source) rel
    rest ← lint_members context root files
    ok (here ++ rest)

  unfoldable pub lint_node_closure : String → FilePath → List (FilePath × Bytes) → Result (Unit {0})
  unfolding lint_members
  lint_node_closure context root files = do
    violations ← lint_members context root files
    require (is_empty violations)
        (contract_error context "lint violations in script or import closure")

  -- `[member.read_bytes() for member in closure]`, each with its path.
  unfoldable pub read_members : List FilePath → Result (List (FilePath × Bytes))
  read_members [] = ok []
  read_members (path ∷ paths) = do
    bytes ← sources.fs.read_bytes path
    rest ← read_members paths
    ok ((path, bytes) ∷ rest)

  abbrev pub bytes_of : List (FilePath × Bytes) → List Bytes
  bytes_of [] = []
  bytes_of ((path, bytes) ∷ files) = bytes ∷ bytes_of files

  -- The search needs no more fuel than there are files (`resolve_closure-IsResolved`).
  abbrev pub ended : Option (Result (List FilePath)) → Result (List FilePath)
  ended none = err (other_error "out of fuel")
  ended (some r) = r

  module _ (fuel : ℕ) (repo_root : FilePath) where
    unfoldable pub script_hash_inputs : Node → Result (Bytes × List Bytes)
    unfolding resolve_script_path resolve_closure lint_node_closure read_members relation
    script_hash_inputs node = do
      script_path ← resolve_script_path node.script repo_root (relation node)
      script_bytes ← sources.fs.read_bytes script_path
      closure ← ended (resolve_closure sources.fs sources.parse_bytes fuel script_path repo_root)
      members ← read_members closure
      lint_node_closure (relation node) (sources.fs.resolve repo_root)
          ((script_path, script_bytes) ∷ members)
      ok (script_bytes, bytes_of members)

    abbrev csv_found : Option String → Result (Bytes × List Bytes)
    csv_found none = err (other_error "KeyError")
    csv_found (some uri) = ok (sources.encode uri, [])

    unfoldable pub csv_hash_inputs : Node → Result (Bytes × List Bytes)
    unfolding lookup
    csv_hash_inputs node = csv_found (lookup "csv" node.reads)

    -- `_HASH_INPUTS[node.kind](node, repo_root)`
    unfoldable pub hash_inputs : Node → Result (Bytes × List Bytes)
    unfolding script_hash_inputs csv_hash_inputs
    hash_inputs node =
        if (node.kind == "python-node") || (node.kind == "python-api")
        then script_hash_inputs node
        else if node.kind == "python-csv"
        then csv_hash_inputs node
        else err (other_error "KeyError")
