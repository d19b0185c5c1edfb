-- ===== src/Contract/Kinds/Laws.antt =====
-- The rules of a kind, and what an accepted `reads` of each kind is.
use continuo_python_runtime.Base.{
  String, ◌≡◌, refl, ◌≢◌, ◌⊎◌, inl, inr, Bool, true, false, Option, none, some, [], ◌∷◌, arith,
  Exception, Result, ok, err, >>=-eq-ok, ok-injective, subst, eq_iff, if◌then◌else◌,
}
use continuo_python_runtime.Base.{All, Bool-cases, sym, is_empty}
use continuo_python_runtime.Base.Text.{is_blank}
use continuo_python_runtime.Contract.Value.{
  Value, null, bool, int, float, str, ref, opaque, Heap, Entries, as_dict, is_key,
}
use continuo_python_runtime.Contract.CsvSource.{CsvUri, parse_csv_uri}
use continuo_python_runtime.Contract.Sql.{SqlParser, ensure_single_read}
use continuo_python_runtime.Contract.Kinds.{
  KindRules, Reads, python_node, python_csv, python_api, rules_for, sql_reads, csv_read, no_reads,
  validate_reads, validate_sql_reads, validate_csv_read, validate_csv_entries, validate_no_reads,
  check_read, check_all_reads, csv_error, csv_shape_error, sql_error, gate_error, non_empty_string,
}

pub non_empty_string-not-blank :
    (v : Value) (x : Exception) {s : String} → non_empty_string v x ≡ ok s → is_blank s ≡ false
non_empty_string-not-blank v x e = ground arith

-- The three entries of `RULES`.
abbrev pub IsRules : String → KindRules → Type 0
IsRules kind rules =
    ((kind ≡ "python-node") × (rules ≡ python_node))
    ⊎ ((kind ≡ "python-csv") × (rules ≡ python_csv))
    ⊎ ((kind ≡ "python-api") × (rules ≡ python_api))

pub rules_for-IsRules :
    (v : Value) (label : String) {kind : String} {rules : KindRules}
    → rules_for v label ≡ ok (kind, rules)
    → IsRules kind rules
unfolding rules_for
rules_for-IsRules (str s) label e =
    ground (arith, eq_iff s "python-node", eq_iff s "python-csv", eq_iff s "python-api")
rules_for-IsRules null label e = cc
rules_for-IsRules (bool b) label e = cc
rules_for-IsRules (int n) label e = cc
rules_for-IsRules (float n) label e = cc
rules_for-IsRules (ref i) label e = cc
rules_for-IsRules (opaque c) label e = cc

csv_error-eq-ok {ℓ} :
    {A : Type ℓ} (label : String) (r : Result A) {a : A} → csv_error label r ≡ ok a → r ≡ ok a
csv_error-eq-ok label (ok a) e = e
csv_error-eq-ok label (err x) e = ground arith

parse_csv_uri-raw :
    (v : Value) {u : CsvUri} → parse_csv_uri v ≡ ok u → parse_csv_uri (str u.raw) ≡ ok u
unfolding parse_csv_uri
parse_csv_uri-raw (str s) e = ground arith
parse_csv_uri-raw null e = cc
parse_csv_uri-raw (bool b) e = cc
parse_csv_uri-raw (int n) e = cc
parse_csv_uri-raw (float n) e = cc
parse_csv_uri-raw (ref i) e = cc
parse_csv_uri-raw (opaque c) e = cc

-- The one read of a csv node, a uri that parses.
pub record IsCsvReads (reads : Reads) : Type 0 where
  pub uri : CsvUri
  pub parses : parse_csv_uri (str uri.raw) ≡ ok uri
  pub only : reads ≡ ("csv", uri.raw) ∷ []

-- A read's name and text are not blank; if reads are checked, the gate accepts the text.
pub record IsSqlRead (sqlglot : SqlParser) (dialect : Option String) (check_reads : Bool)
    (read : String × String) : Type 0 where
  pub named : is_blank read.0 ≡ false
  pub written : is_blank read.1 ≡ false
  pub gated : (if check_reads then ensure_single_read sqlglot read.1 dialect else ok tt) ≡ ok tt

module _ (sqlglot : SqlParser) (label : String) (dialect : Option String) (check_reads : Bool) where
  pub validate_no_reads-eq-nil :
      (h : Heap) (v : Value) {reads : Reads}
      → validate_reads sqlglot label dialect check_reads no_reads h v ≡ ok reads
      → reads ≡ []
  unfolding validate_reads validate_no_reads
  validate_no_reads-eq-nil h v e = ground arith

  csv_entries-IsCsvReads :
      (entries : Entries) {reads : Reads}
      → validate_csv_entries sqlglot label dialect check_reads entries ≡ ok reads
      → IsCsvReads reads
  unfolding validate_csv_entries
  csv_entries-IsCsvReads [] e = cc
  csv_entries-IsCsvReads ((k, v) ∷ x ∷ rest) e = cc
  csv_entries-IsCsvReads ((k, v) ∷ []) e = elim (Bool-cases (is_key "csv" k)) [
    | inr other ↦ cc (rw other at e)
    | inl csv ↦
        let (u, parsed, out) = >>=-eq-ok _ _ (rw csv at e) in
        record {
          uri = u;
          parses = parse_csv_uri-raw v (csv_error-eq-ok label _ parsed);
          only = sym (ok-injective out);
        }
  ]

  pub validate_csv-IsCsvReads :
      (h : Heap) (v : Value) {reads : Reads}
      → validate_reads sqlglot label dialect check_reads csv_read h v ≡ ok reads
      → IsCsvReads reads
  unfolding validate_reads validate_csv_read
  validate_csv-IsCsvReads h v e = on_entries (as_dict h v) e
    where
      on_entries :
          (o : Option Entries) {reads : Reads}
          → (elim o as (λ _. Result Reads) [
            | none ↦ err (csv_shape_error sqlglot label dialect check_reads)
            | some entries ↦ validate_csv_entries sqlglot label dialect check_reads entries
          ])
            ≡ ok reads
          → IsCsvReads reads
      on_entries none e = cc
      on_entries (some entries) e = csv_entries-IsCsvReads entries e

  abbrev IsRead : String × String → Type 0
  IsRead = IsSqlRead sqlglot dialect check_reads

  gate-eq-ok :
      (b : Bool) (r : Result (Unit {0})) {u : Unit {0}}
      → (if b then gate_error label r else ok tt) ≡ ok u
      → (if b then r else ok tt) ≡ ok tt
  gate-eq-ok false r e = refl
  gate-eq-ok true (ok tt) e = refl
  gate-eq-ok true (err x) e = ground arith

  check_read-IsSqlRead :
      (name sql : Value) {read : String × String}
      → check_read sqlglot label dialect check_reads name sql ≡ ok read
      → IsRead read
  unfolding check_read
  check_read-IsSqlRead name sql e =
      let (n, named, e1) = >>=-eq-ok _ _ e in
      let (s, written, e2) = >>=-eq-ok _ _ e1 in
      let (_, gated, e3) = >>=-eq-ok _ _ e2 in
      subst IsRead (ok-injective e3) (record {
        named = non_empty_string-not-blank name _ named;
        written = non_empty_string-not-blank sql _ written;
        gated = gate-eq-ok check_reads _ gated;
      })

  check_all_reads-All :
      (entries : Entries) {reads : Reads}
      → check_all_reads sqlglot label dialect check_reads entries ≡ ok reads
      → All IsRead reads
  unfolding check_all_reads
  check_all_reads-All [] e = subst (All IsRead) (ok-injective e) tt
  check_all_reads-All ((name, sql) ∷ rest) e =
      let (r, first, e1) = >>=-eq-ok _ _ e in
      let (rs, more, e2) = >>=-eq-ok _ _ e1 in
      subst (All IsRead) (ok-injective e2)
        (check_read-IsSqlRead name sql first, check_all_reads-All rest more)

  check_all_reads-ne-nil :
      (name sql : Value) (rest : Entries) {reads : Reads}
      → check_all_reads sqlglot label dialect check_reads ((name, sql) ∷ rest) ≡ ok reads
      → reads ≢ []
  unfolding check_all_reads
  check_all_reads-ne-nil name sql rest e empty =
      let (_, _, e1) = >>=-eq-ok _ _ e in let (_, _, e2) = >>=-eq-ok _ _ e1 in cc

  pub validate_sql-reads :
      (h : Heap) (v : Value) {reads : Reads}
      → validate_reads sqlglot label dialect check_reads sql_reads h v ≡ ok reads
      → (reads ≢ []) × All IsRead reads
  unfolding validate_reads validate_sql_reads
  validate_sql-reads h v e = on_entries (as_dict h v) e
    where
      on_entries :
          (o : Option Entries) {reads : Reads}
          → (elim o as (λ _. Result Reads) [
            | none ↦ err (sql_error sqlglot label dialect check_reads)
            | some entries ↦
                if is_empty entries
                then err (sql_error sqlglot label dialect check_reads)
                else check_all_reads sqlglot label dialect check_reads entries
          ])
            ≡ ok reads
          → (reads ≢ []) × All IsRead reads
      on_entries none e = cc
      on_entries (some []) e = cc
      on_entries (some ((name, sql) ∷ rest)) e =
          (check_all_reads-ne-nil name sql rest e, check_all_reads-All ((name, sql) ∷ rest) e)
