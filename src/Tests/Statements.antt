-- ===== src/Tests/Statements.antt =====
-- The statements that the warehouse renders, told apart from those that start or end a transaction.
use continuo_python_runtime.Base.{
  ◌≡◌, refl, Bool, false, ◌||◌, String, [], ◌∷◌, List, subst, ok-injective, ok,
}
use continuo_python_runtime.Base.Sorting.{Text}
use continuo_python_runtime.Contract.Types.Grammar.{text_eq}
use continuo_python_runtime.Contract.Value.{Heap}
use continuo_python_runtime.Contract.Sql.{SqlParser}
use continuo_python_runtime.Engine.{Target}
use continuo_python_runtime.Duckdb.Ddl.Tables.{
  drop_table_if_exists, create_table, create_empty_table_as, create_empty_clone, set_partitioned_by,
  set_sorted_by, delete_all, insert_select, merge_from,
}
use continuo_python_runtime.Duckdb.Session.{begin, commit, rollback_text}
use continuo_python_runtime.Duckdb.Session.Gateway.{catalog_alias}
use continuo_python_runtime.Duckdb.Warehouse.Statements.{
  IsStatement, drops, deletes, creates, creates_as, clones, partitions, sorts, inserts, merges,
}

-- The statements that start or end a transaction.
unfoldable pub is_control : Text → Bool
unfolding text_eq
is_control sql = text_eq sql begin || text_eq sql commit || text_eq sql rollback_text

merge-plain :
    (t : Target) (columns key : List String) (view : String) (sql : Text)
    → merge_from catalog_alias t columns key view ≡ ok sql
    → is_control sql ≡ false
unfolding is_control merge_from
merge-plain t columns [] view sql e = cc
merge-plain t columns (k ∷ key) view sql e = subst (λ s. is_control s ≡ false) (ok-injective e) refl

module _ (sqlglot : SqlParser) (lower : String → String) (h : Heap) where
  pub rendered-plain : (sql : Text) → IsStatement sqlglot lower h sql → is_control sql ≡ false
  unfolding is_control drop_table_if_exists delete_all create_table create_empty_table_as
      create_empty_clone set_partitioned_by set_sorted_by insert_select
  rendered-plain _ (drops t) = refl
  rendered-plain _ (deletes t) = refl
  rendered-plain _ (creates t raw defs e) = refl
  rendered-plain _ (creates_as t sql e) = refl
  rendered-plain _ (clones t source) = refl
  rendered-plain _ (partitions t defs config layout e) = refl
  rendered-plain _ (sorts t defs config layout e) = refl
  rendered-plain _ (inserts t names view) = refl
  rendered-plain sql (merges t columns key view _ e) = merge-plain t columns key view sql e
