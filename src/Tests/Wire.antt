-- ===== src/Tests/Wire.antt =====
-- A wire contract of one node.
use mathlib.Core.List.Perm
use continuo_python_runtime.Base.{◌≡◌, List, [], ◌∷◌, map, Result, ok}
use continuo_python_runtime.Base.Sorting.{Text}
use continuo_python_runtime.Contract.Model.{Node}
use continuo_python_runtime.Merge.Hashes.{Hashing, shared_code_hash, config_hash}
use continuo_python_runtime.Merge.{node_entry, emitted, Document}
use continuo_python_runtime.Merge.Laws.{shared_code_hash_perm, emitted-config_hash}
use continuo_python_runtime.Tests.Contracts.{orders}

-- Bytes are texts, and a digest is the text itself.
abbrev hashing : Hashing Text
hashing = record { sha256 = λ b. b; encode = λ t. t; dumps = λ e. map (λ _. 1) e }

shared_code_hash_perm_example :
    shared_code_hash hashing ((1 ∷ []) ∷ (2 ∷ []) ∷ [])
    ≡ shared_code_hash hashing ((2 ∷ []) ∷ (1 ∷ []) ∷ [])
shared_code_hash_perm_example =
    shared_code_hash_perm hashing ((1 ∷ []) ∷ (2 ∷ []) ∷ []) ((2 ∷ []) ∷ (1 ∷ []) ∷ [])
      (Perm.swap (2 ∷ []) (1 ∷ []) [])

abbrev inputs : Node → Result (Text × List Text)
inputs node = ok (1 ∷ [], [])

emitted-config_hash_example :
    config_hash hashing (emitted hashing inputs orders (1 ∷ [], [])).entry
    ≡ config_hash hashing (node_entry orders)
emitted-config_hash_example = emitted-config_hash hashing inputs orders (1 ∷ [], [])

abbrev document : Document
document = record {
  version = 1;
  service = "orders";
  nodes = emitted hashing inputs orders (1 ∷ [], []) ∷ [];
}
