-- ===== src/Lint/Files/Laws.antt =====
-- What `lint_paths` has looked at when it says nothing.
use continuo_python_runtime.Base.{
  ℕ, append-nil_parts, String, ◌≡◌, refl, ◌∙◌, subst, Bool, true, false, ◌⊎◌, List, [], ◌∷◌, ◌++◌,
  All, is_empty, flat_map, ok, >>=-eq-ok, ok-injective, Bool-cases, inl, inr,
}
use continuo_python_runtime.Base.Sorting.{Text, text_le, insert, sort}
use continuo_python_runtime.Syntax.{Syntax, Parsed, parsed, syntax_error, parser_raised}
use continuo_python_runtime.Closure.Paths.{FilePath, path_key}
use continuo_python_runtime.Lint.{Entry, Report, lint_tree, lint_source, reports}
use continuo_python_runtime.Lint.Clean.{IsClean, lint_tree-IsClean}
use continuo_python_runtime.Lint.Files.{
  Tree, Reading, contents, unreadable, Problem, reported_all, missing_of, files_of, lint_reading,
  lint_files, lint_paths,
}

reports-nil : (filename : String) (es : List Entry) → reports filename es ≡ [] → is_empty es ≡ true
reports-nil filename [] h = refl
reports-nil filename (e ∷ es) h = cc

module _ {A : Type 0} (P : A → Type 0) where
  all_of_append : (xs ys : List A) → All P (xs ++ ys) → All P xs × All P ys
  all_of_append [] ys h = (tt, h)
  all_of_append (x ∷ xs) ys (first, rest) =
      let (left, right) = all_of_append xs ys rest in ((first, left), right)

  all_of_insert : (key : A → Text) (x : A) (ys : List A) → All P (insert key x ys) → All P (x ∷ ys)
  unfolding insert
  all_of_insert key x [] h = h
  all_of_insert key x (y ∷ ys) h = elim (Bool-cases (text_le (key x) (key y))) [
    | inl before ↦ rw before at h
    | inr after ↦
        let moved = rw after at h in
        let (first, rest) = all_of_insert key x ys moved.1 in (first, (moved.0, rest))
  ]

  all_of_sort : (key : A → Text) (xs : List A) → All P (sort key xs) → All P xs
  unfolding sort
  all_of_sort key [] h = h
  all_of_sort key (x ∷ xs) h =
      let (first, rest) = all_of_insert key x (sort key xs) h in (first, all_of_sort key xs rest)

module _ (is_word : ℕ → Bool) where
  -- A source on which the lint says nothing parses, and its tree is clean.
  pub record IsCleanSource (p : Parsed) : Type 0 where
    pub tree : Syntax
    pub parses : p ≡ parsed tree
    pub clean : IsClean is_word tree

  pub lint_source-IsCleanSource :
      (p : Parsed) (filename : String) → lint_source is_word p filename ≡ ok [] → IsCleanSource p
  unfolding lint_source
  lint_source-IsCleanSource (parsed tree) filename h = record {
    tree = tree;
    parses = refl;
    clean =
        lint_tree-IsClean is_word tree
          (reports-nil filename (lint_tree is_word tree) (ok-injective h));
  }
  lint_source-IsCleanSource (syntax_error line) filename h = cc
  lint_source-IsCleanSource (parser_raised e) filename h = cc

  module _ (parse : String → Parsed) (tree : Tree) where
    pub record IsCleanFile (path : FilePath) : Type 0 where
      pub source : String
      pub read : tree.read_text path ≡ contents source
      pub clean : IsCleanSource (parse source)

    reported_all-nil : (rs : List Report) → reported_all rs ≡ [] → rs ≡ []
    reported_all-nil [] h = refl
    reported_all-nil (r ∷ rs) h = cc

    reading_clean :
        (path : FilePath) (r : Reading)
        → tree.read_text path ≡ r
        → lint_reading is_word parse tree path r ≡ ok []
        → IsCleanFile path
    reading_clean path unreadable is h = cc
    reading_clean path (contents source) is h =
        let (found, linted, e) = >>=-eq-ok _ _ h in
        let none_found = reported_all-nil found (ok-injective e) in
        record {
          source = source;
          read = is;
          clean = lint_source-IsCleanSource (parse source) (tree.shown path) (
              subst (λ l. lint_source is_word (parse source) (tree.shown path) ≡ ok l) none_found
                linted);
        }

    lint_files-clean :
        (paths : List FilePath) (found : List Problem)
        → lint_files is_word parse tree paths ≡ ok found
        → found ≡ []
        → All IsCleanFile paths
    unfolding lint_files
    lint_files-clean [] found h e = tt
    lint_files-clean (path ∷ paths) found h e =
        let (here, first, h1) = >>=-eq-ok _ _ h in
        let (rest, others, h2) = >>=-eq-ok _ _ h1 in
        let (a, b) = append-nil_parts here rest (ok-injective h2 ∙ e) in
        (
          reading_clean path (tree.read_text path) refl (
              subst (λ l. lint_reading is_word parse tree path (tree.read_text path) ≡ ok l) a
                first),
          lint_files-clean paths rest others b,
        )

    all_exist :
        (paths : List FilePath)
        → flat_map (missing_of is_word parse tree) paths ≡ []
        → All (λ path. tree.exists path ≡ true) paths
    all_exist [] h = tt
    all_exist (path ∷ paths) h =
        let (here, rest) = append-nil_parts (missing_of is_word parse tree path) _ h in
        (
          elim (Bool-cases (tree.exists path)) [
            | inl there ↦ there
            | inr absent ↦ let impossible = rw absent at here in cc
          ],
          all_exist paths rest,
        )

    -- A path that was given: a directory in which every Python file is clean, or a clean file.
    pub record IsCleanPath (path : FilePath) : Type 0 where
      pub exists : tree.exists path ≡ true
      pub holds :
          ((tree.is_dir path ≡ true) × All IsCleanFile (tree.python_files path))
          ⊎ ((tree.is_dir path ≡ false) × IsCleanFile path)

    path_holds :
        (path : FilePath)
        → tree.exists path ≡ true
        → All IsCleanFile (files_of is_word parse tree path)
        → IsCleanPath path
    path_holds path there clean = elim (Bool-cases (tree.is_dir path)) [
      | inl dir ↦ record {
        exists = there;
        holds = inl (
          dir,
          all_of_sort IsCleanFile path_key (tree.python_files path) (rw (there, dir) at clean),
        );
      }
      | inr file ↦ record {
        exists = there;
        holds = let alone = rw (there, file) at clean in inr (file, alone.0);
      }
    ]

    paths_hold :
        (paths : List FilePath)
        → All (λ path. tree.exists path ≡ true) paths
        → All IsCleanFile (flat_map (files_of is_word parse tree) paths)
        → All IsCleanPath paths
    paths_hold [] there clean = tt
    paths_hold (path ∷ paths) (first, others) clean =
        let (here, rest) =
          all_of_append IsCleanFile (files_of is_word parse tree path)
            (flat_map (files_of is_word parse tree) paths) clean in
        (path_holds path first here, paths_hold paths others rest)

    -- If lint_paths reports nothing, every path that it was given exists, and is either a
    -- directory of which each Python file was read and parses to a clean tree, or a file that was
    -- read and parses to a clean tree.
    pub lint_paths-IsCleanPath :
        (paths : List FilePath)
        → lint_paths is_word parse tree paths ≡ ok []
        → All IsCleanPath paths
    unfolding lint_paths
    lint_paths-IsCleanPath paths h =
        let (found, linted, e) = >>=-eq-ok _ _ h in
        let (none_missing, none_found) =
          append-nil_parts (flat_map (missing_of is_word parse tree) paths) found
            (ok-injective e) in
        paths_hold paths (all_exist paths none_missing)
          (lint_files-clean (flat_map (files_of is_word parse tree) paths) found linted none_found)
