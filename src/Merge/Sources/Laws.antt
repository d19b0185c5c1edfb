-- ===== src/Merge/Sources/Laws.antt =====
-- What a node's source satisfies when a contract with it is built.
use continuo_python_runtime.Base.{
  ℕ, append-nil_parts, suc, String, ◌≡◌, refl, sym, ap, ◌∙◌, subst, true, Option, none, some, List,
  [], ◌∷◌, ◌++◌, All, map, is_empty, length, ok, >>=-eq-ok, require-eq-ok, ok-injective, init,
}
use continuo_python_runtime.Contract.Model.{Node, relation}
use continuo_python_runtime.Closure.Paths.{FilePath, mem, is_relative_to}
use continuo_python_runtime.Closure.Search.{roots_of, resolve_closure}
use continuo_python_runtime.Closure.Laws.{IsClosure, IsResolved, resolve_closure-IsResolved}
use continuo_python_runtime.Lint.{Report, lint_source}
use continuo_python_runtime.Lint.Files.Laws.{IsCleanSource, lint_source-IsCleanSource}
use continuo_python_runtime.Merge.Sources.{
  Sources, resolve_script_path, parts_of, decoded, lint_members, lint_node_closure, read_members,
  bytes_of, ended, script_hash_inputs,
}

module _ {Bytes : Type 0} (sources : Sources Bytes) where
  -- Bytes that decode to a source on which the lint says nothing.
  pub record IsCleanMember (bytes : Bytes) : Type 0 where
    pub source : String
    pub decodes : sources.decode bytes ≡ some source
    pub clean : IsCleanSource sources.is_word (sources.parse_text source)

  abbrev AreClean : List (FilePath × Bytes) → Type 0
  AreClean = All (λ (f : FilePath × Bytes). IsCleanMember f.1)

  decoded-some :
      (context : String) (o : Option String) (source : String)
      → decoded sources context o ≡ ok source
      → o ≡ some source
  decoded-some context none source e = cc
  decoded-some context (some s) source e = ap some (ok-injective e)

  lint_members-AreClean :
      (context : String) (root : FilePath) (files : List (FilePath × Bytes)) (found : List Report)
      → lint_members sources context root files ≡ ok found
      → found ≡ []
      → AreClean files
  unfolding lint_members
  lint_members-AreClean context root [] found h e = tt
  lint_members-AreClean context root ((path, bytes) ∷ files) found h e =
      let (rel, _, h1) = >>=-eq-ok _ _ h in
      let (source, decodes, h2) = >>=-eq-ok _ _ h1 in
      let (here, first, h3) = >>=-eq-ok _ _ h2 in
      let (rest, others, h4) = >>=-eq-ok _ _ h3 in
      let (a, b) = append-nil_parts here rest (ok-injective h4 ∙ e) in
      (
        record {
          source = source;
          decodes = decoded-some context (sources.decode bytes) source decodes;
          clean = lint_source-IsCleanSource sources.is_word (sources.parse_text source) rel (
              subst (λ l. lint_source sources.is_word (sources.parse_text source) rel ≡ ok l) a
                first);
        },
        lint_members-AreClean context root files rest others b,
      )

  is_empty-nil : {A : Type 0} (xs : List A) → is_empty xs ≡ true → xs ≡ []
  is_empty-nil [] h = refl
  is_empty-nil (x ∷ xs) h = cc

  lint_node_closure-AreClean :
      (context : String) (root : FilePath) (files : List (FilePath × Bytes))
      → lint_node_closure sources context root files ≡ ok tt
      → AreClean files
  unfolding lint_node_closure
  lint_node_closure-AreClean context root files h =
      let (found, linted, e) = >>=-eq-ok _ _ h in
      lint_members-AreClean context root files found linted
        (is_empty-nil found (require-eq-ok _ _ e))

  -- The bytes of the members are those of the closure's files, in its order.
  abbrev AreRead : List FilePath → List (FilePath × Bytes) → Type 0
  AreRead paths files =
      (map (λ (f : FilePath × Bytes). f.0) files ≡ paths)
      × All (λ (f : FilePath × Bytes). sources.fs.read_bytes f.0 ≡ ok f.1) files

  read_members-AreRead :
      (paths : List FilePath) (files : List (FilePath × Bytes))
      → read_members sources paths ≡ ok files
      → AreRead paths files
  unfolding read_members
  read_members-AreRead [] files h = subst (AreRead []) (ok-injective h) (refl, tt)
  read_members-AreRead (path ∷ paths) files h =
      let (bytes, read, h1) = >>=-eq-ok _ _ h in
      let (rest, others, h2) = >>=-eq-ok _ _ h1 in
      let (same, all_read) = read_members-AreRead paths rest others in
      subst (AreRead (path ∷ paths)) (ok-injective h2) (ap (λ l. path ∷ l) same, (read, all_read))

  module _ (files : List FilePath)
      (finite : (p : FilePath)
        → sources.fs.is_file p ≡ true
        → mem (sources.fs.resolve p) files ≡ true)
      (repo_root : FilePath) where
    -- The script is a file of the repository, what is hashed are its bytes and those of the files of
    -- its import closure, and the lint says nothing on any of them.
    pub record IsHashed (script : String) (primary : Bytes) (members : List Bytes) : Type 0 where
      pub path : FilePath
      pub resolved : path ≡ sources.fs.resolve (repo_root ++ parts_of script)
      pub inside : is_relative_to path (sources.fs.resolve repo_root) ≡ true
      pub is_file : sources.fs.is_file path ≡ true
      pub read : sources.fs.read_bytes path ≡ ok primary
      pub closure : List (FilePath × Bytes)
      pub closed :
          IsClosure sources.fs sources.parse_bytes
            (sources.fs.resolve repo_root)
            (roots_of sources.fs sources.parse_bytes
              (sources.fs.resolve repo_root)
              (init (sources.fs.resolve path)))
            (sources.fs.resolve path)
            (map (λ (f : FilePath × Bytes). f.0) closure)
      pub closure_read : All (λ (f : FilePath × Bytes). sources.fs.read_bytes f.0 ≡ ok f.1) closure
      pub hashed : members ≡ bytes_of sources closure
      pub clean : IsCleanMember primary × All (λ (f : FilePath × Bytes). IsCleanMember f.1) closure

    abbrev fuel : ℕ
    fuel = suc (length files)

    ended-IsClosure :
        (path : FilePath) (found : List FilePath)
        → ended sources (resolve_closure sources.fs sources.parse_bytes fuel path repo_root)
          ≡ ok found
        → IsClosure sources.fs sources.parse_bytes
            (sources.fs.resolve repo_root)
            (roots_of sources.fs sources.parse_bytes
              (sources.fs.resolve repo_root)
              (init (sources.fs.resolve path)))
            (sources.fs.resolve path)
            found
    ended-IsClosure path found e =
        let (r, is, resolved) =
          resolve_closure-IsResolved sources.fs sources.parse_bytes files finite path repo_root in
        let same : r ≡ ok found = (rw is at e) in
        subst
          (IsResolved sources.fs sources.parse_bytes (sources.fs.resolve repo_root)
            (roots_of sources.fs sources.parse_bytes (sources.fs.resolve repo_root)
              (init (sources.fs.resolve path)))
            (sources.fs.resolve path))
          same resolved

    script_path-parts :
        (script context : String) (path : FilePath)
        → resolve_script_path sources script repo_root context ≡ ok path
        → (path ≡ sources.fs.resolve (repo_root ++ parts_of script))
          × (is_relative_to path (sources.fs.resolve repo_root) ≡ true)
          × (sources.fs.is_file path ≡ true)
    unfolding resolve_script_path
    script_path-parts script context path h =
        let (_, _, h1) = >>=-eq-ok _ _ h in
        let (_, inside, h2) = >>=-eq-ok _ _ h1 in
        let (_, file, h3) = >>=-eq-ok _ _ h2 in
        let same = ok-injective h3 in
        (
          sym same,
          subst (λ p. is_relative_to p (sources.fs.resolve repo_root) ≡ true) same
              (require-eq-ok _ _ inside),
          subst (λ p. sources.fs.is_file p ≡ true) same (require-eq-ok _ _ file),
        )

    pub script_hash_inputs-IsHashed :
        (node : Node) (primary : Bytes) (members : List Bytes)
        → script_hash_inputs sources fuel repo_root node ≡ ok (primary, members)
        → IsHashed node.script primary members
    unfolding script_hash_inputs
    script_hash_inputs-IsHashed node primary members h =
        let (path, found, h1) = >>=-eq-ok _ _ h in
        let (bytes, read, h2) = >>=-eq-ok _ _ h1 in
        let (closure, closed, h3) = >>=-eq-ok _ _ h2 in
        let (pairs, pairs_read, h4) = >>=-eq-ok _ _ h3 in
        let (_, linted, h5) = >>=-eq-ok _ _ h4 in
        let (paths, all_read) = read_members-AreRead closure pairs pairs_read in
        let (resolved, inside, file) = script_path-parts node.script (relation node) path found in
        let pair = ok-injective h5 in
        let same : bytes ≡ primary = ap (λ p. p.0) pair in
        record {
          path = path;
          resolved = resolved;
          inside = inside;
          is_file = file;
          read = subst (λ b. sources.fs.read_bytes path ≡ ok b) same read;
          closure = pairs;
          closed = rw paths (ended-IsClosure path closure closed);
          closure_read = all_read;
          hashed = sym (ap (λ p. p.1) pair);
          clean =
              subst (λ b. IsCleanMember b × AreClean pairs) same
                (lint_node_closure-AreClean (relation node) (sources.fs.resolve repo_root)
                  ((path, bytes) ∷ pairs) linted);
        }
