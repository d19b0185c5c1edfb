-- ===== src/Contract/Loader/WellFormed.antt =====
-- What a node that the loader accepts satisfies.
use continuo_python_runtime.Base.{
  ℕ, ◌≤◌, String, ◌≡◌, refl, ◌≢◌, ◌⊎◌, inl, inr, Bool, true, false, Option, none, some, [], arith,
  ok, elem, distinct, All, eq_iff,
}
use continuo_python_runtime.Base.Text.{is_blank}
use continuo_python_runtime.Contract.Value.{Value, Heap, Entries, as_dict}
use continuo_python_runtime.Contract.Model.{Node, criticalities, extra_columns_policies, mode_types}
use continuo_python_runtime.Contract.Sql.{SqlParser}
use continuo_python_runtime.Contract.Kinds.Laws.{
  IsRules, rules_for-IsRules, IsCsvReads, IsSqlRead, validate_csv-IsCsvReads, validate_sql-reads,
  validate_no_reads-eq-nil,
}
use continuo_python_runtime.Contract.Columns.Laws.{IsColumn, names, output_columns-lem}
use continuo_python_runtime.Contract.PrimaryKey.Laws.{IsPrimaryKey, validate_primary_key-KeyOfMode}
use continuo_python_runtime.Contract.Fields.{
  node_label, max_timeout_minutes, criticality_of, extra_columns_of,
}
use continuo_python_runtime.Contract.Fields.Laws.{
  required_string-not-blank, choice-elem, script_of-required, script_of-forbidden,
  timeout_of-bounds, mode_type_of-elem, secret_ref_of-forbidden,
}
use continuo_python_runtime.Contract.Loader.{parse_entries, parse_node}
use continuo_python_runtime.Contract.Loader.Inversion.{Accepted, parse_mapping-Accepted}

module _ (sqlglot : SqlParser) (lower : String → String) (dialect : Option String)
    (check_reads : Bool) (n : Node) where
  -- A script node with SQL reads.
  pub record IsScriptNode : Type 0 where
    pub kind : n.kind ≡ "python-node"
    pub script : is_blank n.script ≡ false
    pub some_read : n.reads ≢ []
    pub reads : All (IsSqlRead sqlglot dialect check_reads) n.reads
    pub no_secret : n.secret_ref ≡ ""

  -- A contract-only csv node: no script, one uri, and only replace.
  pub record IsCsvNode : Type 0 where
    pub kind : n.kind ≡ "python-csv"
    pub script : n.script ≡ ""
    pub reads : IsCsvReads n.reads
    pub mode : n.mode_type ≡ "replace"
    pub no_secret : n.secret_ref ≡ ""

  -- A script node that fetches its own data.
  pub record IsApiNode : Type 0 where
    pub kind : n.kind ≡ "python-api"
    pub script : is_blank n.script ≡ false
    pub reads : n.reads ≡ []

  pub record IsWellFormed : Type 0 where
    pub schema : is_blank n.schema ≡ false
    pub table : is_blank n.table ≡ false
    pub owner : is_blank n.owner ≡ false
    pub schedule : is_blank n.schedule ≡ false
    pub kind : IsScriptNode ⊎ IsCsvNode ⊎ IsApiNode
    pub criticality : elem n.criticality criticalities ≡ true
    pub extra_columns : elem n.extra_columns extra_columns_policies ≡ true
    pub mode : elem n.mode_type mode_types ≡ true
    pub some_column : n.output_columns ≢ []
    pub columns : All IsColumn n.output_columns
    pub distinct_columns : distinct (names n.output_columns) ≡ true
    pub key :
        ((n.mode_type ≡ "upsert") × IsPrimaryKey lower n.output_columns n.primary_key)
        ⊎ ((n.mode_type ≢ "upsert") × (n.primary_key ≡ []))
    pub timeout :
        (n.timeout_minutes ≡ none)
        ⊎ ((t : ℕ) × (n.timeout_minutes ≡ some t) × (1 ≤ t) × (t ≤ max_timeout_minutes))

module _ (sqlglot : SqlParser) (lower : String → String) (h : Heap) (dialect : Option String)
    (check_reads : Bool) (raw : Entries) (label : String) (n : Node)
    (a : Accepted sqlglot lower h dialect check_reads raw label n) where
  by_kind :
      IsRules n.kind a.rules
      → IsScriptNode sqlglot lower dialect check_reads n
        ⊎ IsCsvNode sqlglot lower dialect check_reads n
        ⊎ IsApiNode sqlglot lower dialect check_reads n
  by_kind (inl (kind, rules)) =
      let reads = validate_sql-reads sqlglot label dialect check_reads h _ (rw rules at a.reads) in
      inl (record {
        kind = kind;
        script = script_of-required raw label a.rules (rw rules) a.script;
        some_read = reads.0;
        reads = reads.1;
        no_secret = secret_ref_of-forbidden raw label a.rules (rw rules) a.secret_ref;
      })
  by_kind (inr (inl (kind, rules))) =
      let replace_only = mode_type_of-elem raw label a.rules a.mode_type in
      inr (
        inl (record {
          kind = kind;
          script = script_of-forbidden raw label a.rules (rw rules) a.script;
          reads =
              validate_csv-IsCsvReads sqlglot label dialect check_reads h _ (rw rules at a.reads);
          mode = ground (arith, replace_only, eq_iff n.mode_type "replace", rules);
          no_secret = secret_ref_of-forbidden raw label a.rules (rw rules) a.secret_ref;
        }))
  by_kind (inr (inr (kind, rules))) = inr (
      inr (record {
        kind = kind;
        script = script_of-required raw label a.rules (rw rules) a.script;
        reads =
            validate_no_reads-eq-nil sqlglot label dialect check_reads h _ (rw rules at a.reads);
      }))

  mode_elem : IsRules n.kind a.rules → elem n.mode_type mode_types ≡ true
  mode_elem (inl (_, rules)) = rw rules at (mode_type_of-elem raw label a.rules a.mode_type)
  mode_elem (inr (inl (_, rules))) =
      let replace_only = mode_type_of-elem raw label a.rules a.mode_type in
      ground (arith, replace_only, eq_iff n.mode_type "replace", rules)
  mode_elem (inr (inr (_, rules))) = rw rules at (mode_type_of-elem raw label a.rules a.mode_type)

  timeout_bounds :
      (t : Option ℕ)
      → n.timeout_minutes ≡ t
      → (n.timeout_minutes ≡ none)
        ⊎ ((t : ℕ) × (n.timeout_minutes ≡ some t) × (1 ≤ t) × (t ≤ max_timeout_minutes))
  timeout_bounds none e = inl e
  timeout_bounds (some t) e =
      let (low, high) = timeout_of-bounds raw label t (rw e at a.timeout_minutes) in
      inr (t, e, low, high)

  accepted-IsWellFormed : IsWellFormed sqlglot lower dialect check_reads n
  unfolding criticality_of extra_columns_of
  accepted-IsWellFormed =
      let rules = rules_for-IsRules _ label a.kind in
      let columns = output_columns-lem h label raw a.columns in
      record {
        schema = required_string-not-blank raw label "schema" a.schema;
        table = required_string-not-blank raw label "table" a.table;
        owner = required_string-not-blank raw label "owner" a.owner;
        schedule = required_string-not-blank raw label "schedule" a.schedule;
        kind = by_kind rules;
        criticality = choice-elem raw label _ _ _ a.criticality;
        extra_columns = choice-elem raw label _ _ _ a.extra_columns;
        mode = mode_elem rules;
        some_column = columns.0;
        columns = columns.1;
        distinct_columns = columns.2;
        key =
            validate_primary_key-KeyOfMode lower n.output_columns label h raw n.mode_type
              a.primary_key;
        timeout = timeout_bounds n.timeout_minutes refl;
      }

module _ (sqlglot : SqlParser) (lower : String → String) (h : Heap) (dialect : Option String)
    (check_reads : Bool) where
  parse_entries-IsWellFormed :
      (o : Option Entries) (source : String) (n : Node)
      → parse_entries sqlglot lower h dialect check_reads o source ≡ ok n
      → IsWellFormed sqlglot lower dialect check_reads n
  parse_entries-IsWellFormed none source n e = cc
  parse_entries-IsWellFormed (some entries) source n e =
      accepted-IsWellFormed sqlglot lower h dialect check_reads entries (node_label entries source)
        n
        (parse_mapping-Accepted sqlglot lower h dialect check_reads entries
          (node_label entries source) n e)

  -- A node that the loader accepts is well formed: its required strings are not blank, its fields
  -- are those of its kind, its choices are allowed ones, its columns are distinct with types that
  -- parse, its primary key is one exactly for an upsert, and its timeout is in bounds.
  pub parse_node-IsWellFormed :
      (raw : Value) (source : String) (n : Node)
      → parse_node sqlglot lower h dialect check_reads raw source ≡ ok n
      → IsWellFormed sqlglot lower dialect check_reads n
  unfolding parse_node
  parse_node-IsWellFormed raw source n e = parse_entries-IsWellFormed (as_dict h raw) source n e
