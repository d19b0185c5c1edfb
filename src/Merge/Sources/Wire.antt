-- ===== src/Merge/Sources/Wire.antt =====
-- The sources of all the nodes of a contract that is built.
use continuo_python_runtime.Base.{suc, String, ◌≡◌, ◌⊎◌, true, some, List, [], length, Result, ok}
use continuo_python_runtime.Contract.Model.{Node}
use continuo_python_runtime.Harness.Context.{lookup}
use continuo_python_runtime.Closure.Paths.{FilePath, mem}
use continuo_python_runtime.Merge.Sources.{Sources, hash_inputs}
use continuo_python_runtime.Merge.Sources.Laws.{IsHashed}

module _ {Bytes : Type 0} (sources : Sources Bytes) (files : List FilePath)
    (finite : (p : FilePath)
      → sources.fs.is_file p ≡ true
      → mem (sources.fs.resolve p) files ≡ true)
    (repo_root : FilePath) where
  -- What is hashed of a node: a csv node's uri, or a script with its closure.
  pub record IsSourced (node : Node) : Type 0 where
    pub primary : Bytes
    pub members : List Bytes
    pub hashed : hash_inputs sources (suc (length files)) repo_root node ≡ ok (primary, members)
    pub kinds :
        ((node.kind ≡ "python-csv")
          × ((uri : String) × (lookup "csv" node.reads ≡ some uri)
              × (primary ≡ sources.encode uri)
              × (members ≡ [])))
        ⊎ (((node.kind ≡ "python-node") ⊎ (node.kind ≡ "python-api"))
            × IsHashed sources files finite repo_root node.script primary members)

  abbrev inputs : Node → Result (Bytes × List Bytes)
  inputs = hash_inputs sources (suc (length files)) repo_root
