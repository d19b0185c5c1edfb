-- ===== src/Contract/Loader/Inversion.antt =====
-- What each step of `parse_mapping` returned for an accepted node.
use continuo_python_runtime.Base.{String, ◌≡◌, Bool, Option, ok, subst, >>=-eq-ok, ok-injective}
use continuo_python_runtime.Contract.Value.{null, str, Heap, Entries, get_or}
use continuo_python_runtime.Contract.Model.{Node, default_kind}
use continuo_python_runtime.Contract.Sql.{SqlParser}
use continuo_python_runtime.Contract.Kinds.{KindRules, rules_for, validate_reads}
use continuo_python_runtime.Contract.PrimaryKey.{validate_primary_key}
use continuo_python_runtime.Contract.Config.{validate_config}
use continuo_python_runtime.Contract.Columns.{unknown_keys, refuse_unknown, output_columns}
use continuo_python_runtime.Contract.Fields.{
  allowed_keys, required_string, script_of, criticality_of, extra_columns_of, secret_ref_of,
  timeout_of, mode_type_of, description_of, content_hash_of,
}
use continuo_python_runtime.Contract.Loader.{parse_mapping}

module _ (sqlglot : SqlParser) (lower : String → String) (h : Heap) (dialect : Option String)
    (check_reads : Bool) (raw : Entries) (label : String) where
  pub record Accepted (n : Node) : Type 0 where
    pub rules : KindRules
    pub no_unknown : refuse_unknown label (unknown_keys allowed_keys raw) ≡ ok tt
    pub kind : rules_for (get_or "kind" (str default_kind) raw) label ≡ ok (n.kind, rules)
    pub schema : required_string raw label "schema" ≡ ok n.schema
    pub table : required_string raw label "table" ≡ ok n.table
    pub owner : required_string raw label "owner" ≡ ok n.owner
    pub schedule : required_string raw label "schedule" ≡ ok n.schedule
    pub script : script_of raw label rules ≡ ok n.script
    pub criticality : criticality_of raw label ≡ ok n.criticality
    pub extra_columns : extra_columns_of raw label ≡ ok n.extra_columns
    pub reads :
        validate_reads sqlglot label dialect check_reads rules.reads h (get_or "reads" null raw)
        ≡ ok n.reads
    pub secret_ref : secret_ref_of raw label rules ≡ ok n.secret_ref
    pub timeout_minutes : timeout_of raw label ≡ ok n.timeout_minutes
    pub mode_type : mode_type_of raw label rules ≡ ok n.mode_type
    pub columns : output_columns h label raw ≡ ok n.output_columns
    pub primary_key :
        validate_primary_key lower n.output_columns label h raw n.mode_type ≡ ok n.primary_key
    pub description : description_of raw label ≡ ok n.description
    pub config : validate_config h label (get_or "config" null raw) ≡ ok n.config
    pub content_hash : content_hash_of raw label ≡ ok n.content_hash

  pub parse_mapping-Accepted :
      (n : Node) → parse_mapping sqlglot lower h dialect check_reads raw label ≡ ok n → Accepted n
  unfolding parse_mapping
  parse_mapping-Accepted n e =
      let (_, unknown, e1) = >>=-eq-ok _ _ e in
      let (k, kind, e2) = >>=-eq-ok _ _ e1 in
      let (_, schema, e3) = >>=-eq-ok _ _ e2 in
      let (_, table, e4) = >>=-eq-ok _ _ e3 in
      let (_, owner, e5) = >>=-eq-ok _ _ e4 in
      let (_, schedule, e6) = >>=-eq-ok _ _ e5 in
      let (_, script, e7) = >>=-eq-ok _ _ e6 in
      let (_, criticality, e8) = >>=-eq-ok _ _ e7 in
      let (_, extra, e9) = >>=-eq-ok _ _ e8 in
      let (_, reads, e10) = >>=-eq-ok _ _ e9 in
      let (_, secret, e11) = >>=-eq-ok _ _ e10 in
      let (_, timeout, e12) = >>=-eq-ok _ _ e11 in
      let (_, mode, e13) = >>=-eq-ok _ _ e12 in
      let (_, columns, e14) = >>=-eq-ok _ _ e13 in
      let (_, key, e15) = >>=-eq-ok _ _ e14 in
      let (_, description, e16) = >>=-eq-ok _ _ e15 in
      let (_, config, e17) = >>=-eq-ok _ _ e16 in
      let (_, hash, e18) = >>=-eq-ok _ _ e17 in
      subst Accepted (ok-injective e18) (record {
        rules = k.1;
        no_unknown = unknown;
        kind = kind;
        schema = schema;
        table = table;
        owner = owner;
        schedule = schedule;
        script = script;
        criticality = criticality;
        extra_columns = extra;
        reads = reads;
        secret_ref = secret;
        timeout_minutes = timeout;
        mode_type = mode;
        columns = columns;
        primary_key = key;
        description = description;
        config = config;
        content_hash = hash;
      })
