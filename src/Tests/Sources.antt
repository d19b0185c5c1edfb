-- ===== src/Tests/Sources.antt =====
-- The lint of a script and of its repository, and the contract of its node.
use continuo_python_runtime.Base.{
  ℕ, leb, String, ◌≡◌, refl, true, false, Bool, some, List, [], ◌∷◌, Result, ok, All, if◌then◌else◌,
  ◌>>=◌, map,
}
use continuo_python_runtime.Base.Text.{codes, split, is_space}
use continuo_python_runtime.Base.Sorting.{insert, sort, text_le}
use continuo_python_runtime.Syntax.{nodes, walk_queue, walk}
use continuo_python_runtime.Contract.Model.{Node}
use continuo_python_runtime.Closure.Paths.{same_path}
use continuo_python_runtime.Closure.Imports.{
  root_module, node_violations, dynamic_import_violations,
}
use continuo_python_runtime.Closure.Search.{search_from}
use continuo_python_runtime.Lint.Sql
use continuo_python_runtime.Lint.Sql.{after_keyword, spaces_keyword, later_keyword, contains_sql}
use continuo_python_runtime.Lint.Literals.{reconstruct_joined_str, collect_parts}
use continuo_python_runtime.Lint.{
  import_entries, imported_calls, docstring_ids, node_entries, consumed_by, second_pass, lint_tree,
  lint_source,
}
use continuo_python_runtime.Lint.Clean.{IsClean, lint_tree-IsClean}
use continuo_python_runtime.Lint.Files.{contents, Tree, lint_files, lint_paths}
use continuo_python_runtime.Lint.Files.Laws.{IsCleanPath, lint_paths-IsCleanPath}
use continuo_python_runtime.Merge.Hashes.{Hashing}
use continuo_python_runtime.Merge.{Document, emitted}
use continuo_python_runtime.Merge.Sources.{Sources, hash_inputs}
use continuo_python_runtime.Tests.Closures.{main_tree, parse, main_path, shared_path, fs}
use continuo_python_runtime.Tests.Contracts.{orders}

abbrev is_word : ℕ → Bool
is_word c = leb b'0' c

sql_found : contains_sql is_word (codes "x = SELECT a, b  FROM t") ≡ true
unfolding contains_sql Sql.search_from after_keyword spaces_keyword later_keyword is_space
sql_found = refl

sql_absent : contains_sql is_word (codes "preselect a from b; selection from c") ≡ false
unfolding contains_sql Sql.search_from after_keyword spaces_keyword later_keyword is_space
sql_absent = refl

main_quiet : lint_tree is_word main_tree ≡ []
unfolding lint_tree second_pass consumed_by node_entries docstring_ids imported_calls import_entries
    collect_parts reconstruct_joined_str contains_sql Sql.search_from after_keyword spaces_keyword
    later_keyword is_space dynamic_import_violations node_violations root_module walk walk_queue
    nodes split insert sort
main_quiet = refl

lint_tree-IsClean_example : IsClean is_word main_tree
lint_tree-IsClean_example = lint_tree-IsClean is_word main_tree (rw main_quiet refl)

abbrev tree : Tree
tree = record {
  exists = λ p. true;
  is_dir = λ p. same_path p ("repo" ∷ []);
  python_files = λ p. main_path ∷ shared_path ∷ [];
  read_text = λ p. if same_path p main_path then contents "main" else contents "shared";
  shown = λ p. "file";
}

repository_quiet : lint_paths is_word parse tree (("repo" ∷ []) ∷ []) ≡ ok []
unfolding lint_paths lint_files lint_source lint_tree second_pass consumed_by node_entries
    docstring_ids imported_calls import_entries collect_parts reconstruct_joined_str contains_sql
    Sql.search_from after_keyword spaces_keyword later_keyword is_space dynamic_import_violations
    node_violations root_module walk walk_queue nodes split insert sort text_le ◌>>=◌
repository_quiet = refl

lint_paths-IsCleanPath_example : All (IsCleanPath is_word parse tree) (("repo" ∷ []) ∷ [])
lint_paths-IsCleanPath_example =
    lint_paths-IsCleanPath is_word parse tree (("repo" ∷ []) ∷ []) repository_quiet

-- Bytes are texts.
abbrev sources : Sources String
sources = record {
  fs = fs;
  decode = λ b. some b;
  encode = λ s. s;
  parse_bytes = parse;
  parse_text = parse;
  is_word = is_word;
}

abbrev hashing : Hashing String
hashing = record { sha256 = codes; encode = λ t. "encoded"; dumps = λ e. map (λ _. 1) e }

abbrev inputs : Node → Result (String × List String)
inputs = hash_inputs sources 4 ("repo" ∷ [])

abbrev document : Document
document = record {
  version = 1;
  service = "orders";
  nodes = emitted hashing inputs orders ("main", "shared" ∷ "shared" ∷ []) ∷ [];
}
