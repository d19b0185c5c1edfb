-- ===== src/Merge/Laws.antt =====
-- What the wire contract promises.
use mathlib.Core.List.{Perm, append-nil}
use mathlib.Core.List.Perm
use continuo_python_runtime.Base.{
  ℕ, ◌≡◌, refl, ap, ◌∙◌, true, Option, none, some, List, [], ◌∷◌, ◌++◌, map, Result, ok, elem,
  Bool-cases, inl, inr,
}
use continuo_python_runtime.Base.Sorting.{in_order, sort_perm}
use continuo_python_runtime.Contract.Model.{Node, contract_version}
use continuo_python_runtime.Merge.Hashes.{
  Entry, Hashing, canonical_entry, shared_code_hash, config_hash, hash_parts, unhashed,
  normalize_reads,
}
use continuo_python_runtime.Merge.{
  node_entry, WireNode, Document, relation_key, emitted, timeout_entry,
}

canonical_entry-append :
    (e f : Entry) → canonical_entry (e ++ f) ≡ canonical_entry e ++ canonical_entry f
unfolding canonical_entry
canonical_entry-append [] f = refl
canonical_entry-append ((key, value) ∷ e) f = elim (Bool-cases (elem key unhashed)) [
  | inl dropped ↦ rw (dropped, canonical_entry) (canonical_entry-append e f)
  | inr kept ↦
      rw (kept, canonical_entry)
        (ap (λ l. normalize_reads (key, value) ∷ l) (canonical_entry-append e f))
]

module _ {Bytes : Type 0} (hashing : Hashing Bytes) where
  -- The hash of the code that a node shares does not depend on the order of its files.
  pub shared_code_hash_perm :
      (members others : List Bytes)
      → Perm members others
      → shared_code_hash hashing members ≡ shared_code_hash hashing others
  unfolding shared_code_hash
  shared_code_hash_perm members others p = cc (sort_perm (Perm.map hashing.sha256 p))

  hash_parts-canonical_entry :
      (e : Entry) (script : Bytes) (members : List Bytes)
      → canonical_entry (hash_parts hashing e script members) ≡ []
  unfolding hash_parts canonical_entry
  hash_parts-canonical_entry e script members = refl

  timeout_dropped : (o : Option ℕ) → canonical_entry (timeout_entry o) ≡ []
  unfolding canonical_entry
  timeout_dropped none = refl
  timeout_dropped (some m) = refl

  -- The config hash that a reader computes of a node as it was written, its hashes and its timeout
  -- included, is the one that was computed of the node's own entry.
  pub emitted-config_hash :
      (inputs : Node → Result (Bytes × List Bytes)) (node : Node) (found : Bytes × List Bytes)
      → config_hash hashing (emitted hashing inputs node found).entry
        ≡ config_hash hashing (node_entry node)
  unfolding config_hash
  emitted-config_hash inputs node (primary, members) =
      let e = node_entry node in
      let hashes = hash_parts hashing e primary members in
      let timeout = timeout_entry node.timeout_minutes in
      let same : canonical_entry (e ++ (hashes ++ timeout)) ≡ canonical_entry e =
        canonical_entry-append e (hashes ++ timeout)
        ∙ ap (λ l. canonical_entry e ++ l)
            (canonical_entry-append hashes timeout
              ∙ ap (λ l. l ++ canonical_entry timeout)
                  (hash_parts-canonical_entry e primary members)
              ∙ timeout_dropped node.timeout_minutes)
        ∙ append-nil (canonical_entry e) in
      ap (λ c. hashing.sha256 (hashing.encode (hashing.dumps c))) same

-- Each node of the first list, in its order, written with what is hashed of it.
pub data AreEmitted {Bytes : Type 0} (hashing : Hashing Bytes)
    (inputs : Node → Result (Bytes × List Bytes)) : List Node → List WireNode → Type 0 where
  no_nodes : AreEmitted hashing inputs [] []
  next_node :
      (node : Node) (rest : List Node) (found : Bytes × List Bytes) (written : List WireNode)
      → inputs node ≡ ok found
      → AreEmitted hashing inputs rest written
      → AreEmitted hashing inputs (node ∷ rest) (emitted hashing inputs node found ∷ written)

-- The nodes are all of the given ones, each with its hashes, in the order of their relations.
pub record IsWireOf (Bytes : Type 0) (hashing : Hashing Bytes)
    (inputs : Node → Result (Bytes × List Bytes)) (nodes : List Node) (doc : Document)
    : Type 0 where
  pub versioned : doc.version ≡ contract_version
  pub unsorted : List WireNode
  pub written : AreEmitted hashing inputs nodes unsorted
  pub same : Perm doc.nodes unsorted
  pub ordered : in_order relation_key doc.nodes ≡ true
