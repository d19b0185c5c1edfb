-- ===== src/Merge.antt =====
-- continuo_python_runtime/hashing.py and contract/merge.py: the wire contract. sha256, the encoding of
-- texts, `json.dumps` and what is hashed of a script are parameters.
pub mod Hashes
pub mod Laws
pub mod Sources
use continuo_python_runtime.Base.{
  ℕ, String, ◌==◌, ◌<>◌, Bool, true, false, not, Option, none, some, List, [], ◌∷◌, ◌++◌, map,
  Result, ok, err, ◌>>=◌, keep, elem, if◌then◌else◌,
}
use continuo_python_runtime.Base.Text.{codes, is_space}
use continuo_python_runtime.Base.Sorting.{Text, sort}
use continuo_python_runtime.Contract.Value.{Heap, Entries}
use continuo_python_runtime.Contract.Model.{Column, Node, default_mode_type, contract_version}
use continuo_python_runtime.Contract.Sql.{SqlParser}
use continuo_python_runtime.Contract.Loader.{File, load_contract_dir}
use continuo_python_runtime.Merge.Hashes.{
  Field, text, queries, columns, names, settings, minutes, Entry, Hashing, hash_parts,
}

-- `if value: entry[key] = value`
abbrev when : Bool → String → Field → Entry
when true key value = (key, value) ∷ []
when false key value = []

-- `node_entry`
unfoldable pub node_entry : Node → Entry
node_entry node =
    (("schema", text node.schema)
      ∷ ("table", text node.table)
      ∷ ("owner", text node.owner)
      ∷ ("schedule", text node.schedule)
      ∷ ("criticality", text node.criticality)
      ∷ ("kind", text node.kind)
      ∷ ("script", text node.script)
      ∷ ("reads", queries (map (λ (name, sql). (name, codes sql)) node.reads))
      ∷ ("output_columns", columns node.output_columns)
      ∷ ("description", text node.description)
      ∷ ("extra_columns", text node.extra_columns)
      ∷ ("config", settings node.config)
      ∷ [])
    ++ (when (not (node.secret_ref == "")) "secret_ref" (text node.secret_ref)
        ++ (when (not (node.mode_type == default_mode_type)) "mode_type" (text node.mode_type)
            ++ when (node.mode_type == "upsert") "primary_key" (names node.primary_key)))

abbrev timeout_entry : Option ℕ → Entry
timeout_entry none = []
timeout_entry (some m) = ("timeout_minutes", minutes m) ∷ []

-- A node of the document: its relation, by which it is sorted, and its entry.
pub record WireNode : Type 0 where
  pub schema : String
  pub table : String
  pub entry : Entry

pub record Document : Type 0 where
  pub version : ℕ
  pub service : String
  pub nodes : List WireNode

abbrev pub relation_key : WireNode → Text
relation_key n = codes (n.schema <> "." <> n.table)

module _ {Bytes : Type 0} (hashing : Hashing Bytes)
    (inputs : Node → Result (Bytes × List Bytes)) where
  abbrev pub emitted : Node → Bytes × List Bytes → WireNode
  emitted node (primary, members) = record {
    schema = node.schema;
    table = node.table;
    entry =
        node_entry node
        ++ (hash_parts hashing (node_entry node) primary members
            ++ timeout_entry node.timeout_minutes);
  }

  -- The body of the loop over the nodes.
  unfoldable pub wire_node : Node → Result WireNode
  wire_node node = do found ← inputs node; ok (emitted node found)

  unfoldable pub wire_nodes : List Node → Result (List WireNode)
  wire_nodes [] = ok []
  wire_nodes (node ∷ rest) = do
    first ← wire_node node
    others ← wire_nodes rest
    ok (first ∷ others)

  unfoldable pub build_wire_contract :
      SqlParser → (String → String) → Heap → Option String → List File → String → Result Document
  build_wire_contract sqlglot lower h dialect files service = do
    nodes ← load_contract_dir sqlglot lower h dialect true files
    emitted ← wire_nodes nodes
    ok (record { version = contract_version; service = service; nodes = sort relation_key emitted })
