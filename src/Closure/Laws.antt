-- ===== src/Closure/Laws.antt =====
-- What `resolve_closure` promises.
use continuo_python_runtime.Base.{
  ℕ, zero, suc, ◌+◌, ◌≤◌, String, ◌≡◌, ◌≢◌, ◌↔◌, refl, ap, sym, ◌∙◌, subst, inl, inr, true, false,
  not, some, List, [], ◌∷◌, Result, ok, err, arith, Bool-cases, length, keep, all, is_empty,
  is_empty-flat_map, require-eq-ok, >>=-eq-ok, ok-injective, some-injective, init,
}
use continuo_python_runtime.Base.Sorting.{sort, in_order, sort-in_order, insert}
use continuo_python_runtime.Syntax.{
  Syntax, Parsed, parsed, syntax_error, parser_raised, nodes, walk,
}
use continuo_python_runtime.Syntax.Walk.{all-walk}
use continuo_python_runtime.Closure.Paths.{
  FilePath, same_path, same_path_iff, mem, mem-sort, mem-keep, path_key, once, once-sort, once-keep,
}
use continuo_python_runtime.Closure.Imports.{
  node_violations, violation_key, dynamic_import_violations,
}
use continuo_python_runtime.Closure.Files.{FileSystem}
use continuo_python_runtime.Closure.Search.{
  imports_of, tree_of, Frontier, visit, enqueue, search_from, roots_of, members, resolve_closure,
}
use continuo_python_runtime.Closure.Correct.{
  Reach, Inv-start, search_from-Inv, search_from-error, seen_iff, all_read, Result-cases,
}
use continuo_python_runtime.Closure.Ends.{search_from_ends}

-- No node of the tree is a construct of dynamic import.
abbrev pub IsStatic : Syntax → Type 0
IsStatic tree = all (λ t. is_empty (node_violations t)) (nodes tree) ≡ true

is_empty-insert :
    {A : Type 0} (key : A → List ℕ) (x : A) (ys : List A) → is_empty (insert key x ys) ≡ false
unfolding insert
is_empty-insert key x [] = refl
is_empty-insert key x (y ∷ ys) = ground arith

pub is_empty-sort :
    {A : Type 0} (key : A → List ℕ) (xs : List A) → is_empty (sort key xs) ≡ is_empty xs
unfolding sort
is_empty-sort key [] = refl
is_empty-sort key (x ∷ xs) = is_empty-insert key x (sort key xs)

pub violations_none :
    (tree : Syntax)
    → is_empty (dynamic_import_violations tree)
      ≡ all (λ t. is_empty (node_violations t)) (nodes tree)
unfolding dynamic_import_violations
violations_none tree =
    is_empty-sort violation_key _
    ∙ is_empty-flat_map node_violations (walk tree)
    ∙ all-walk (λ t. is_empty (node_violations t)) tree

module _ {Bytes : Type 0} (fs : FileSystem Bytes) (parse : Bytes → Parsed) (repo_root : FilePath)
    (roots : List FilePath) where
  -- A file that was read: it parses, and imports nothing dynamically.
  pub record IsRead (file : FilePath) : Type 0 where
    pub source : Bytes
    pub tree : Syntax
    pub read : fs.read_bytes file ≡ ok source
    pub parses : parse source ≡ parsed tree
    pub static : IsStatic tree

  tree_of-parsed :
      (rel : String) (p : Parsed) (tree : Syntax)
      → tree_of fs parse repo_root roots rel p ≡ ok tree
      → p ≡ parsed tree
  tree_of-parsed rel (parsed t) tree e = ap parsed (ok-injective e)
  tree_of-parsed rel (syntax_error line) tree e = cc
  tree_of-parsed rel (parser_raised x) tree e = cc

  imports_of-IsRead :
      (file : FilePath) (files : List FilePath)
      → imports_of fs parse repo_root roots file ≡ ok files
      → IsRead file
  unfolding imports_of
  imports_of-IsRead file files e =
      let (rel, _, e1) = >>=-eq-ok _ _ e in
      let (source, read, e2) = >>=-eq-ok _ _ e1 in
      let (tree, parses, e3) = >>=-eq-ok _ _ e2 in
      let (_, none_found, e4) = >>=-eq-ok _ _ e3 in
      record {
        source = source;
        tree = tree;
        read = read;
        parses = tree_of-parsed rel (parse source) tree parses;
        static = sym (violations_none tree) ∙ require-eq-ok _ _ none_found;
      }

  -- The members are the files that the script reaches, the script left out, each once, in order.
  pub record IsClosure (script : FilePath) (found : List FilePath) : Type 0 where
    pub reached_iff :
        (v : FilePath)
        → (mem v found ≡ true) ↔ (Reach fs parse repo_root roots script v × (v ≢ script))
    pub each_once : once found ≡ true
    pub ordered : in_order path_key found ≡ true
    pub all_read_static : (v : FilePath) → Reach fs parse repo_root roots script v → IsRead v

  abbrev pub IsResolved : FilePath → Result (List FilePath) → Type 0
  IsResolved script (ok found) = IsClosure script found
  IsResolved script (err x) =
      (u : FilePath) × Reach fs parse repo_root roots script u
      × (imports_of fs parse repo_root roots u ≡ err x)

  once-visit : (p : FilePath) (f : Frontier) → once f.seen ≡ true → once (visit p f).seen ≡ true
  once-visit p f h = ground (arith, h)

  once-enqueue :
      (ps : List FilePath) (f : Frontier) → once f.seen ≡ true → once (enqueue ps f).seen ≡ true
  unfolding enqueue
  once-enqueue [] f h = h
  once-enqueue (p ∷ ps) f h = once-enqueue ps (visit p f) (once-visit p f h)

  search_from-once :
      (fuel : ℕ) (seen queue result : List FilePath)
      → once seen ≡ true
      → search_from fs parse repo_root roots fuel seen queue ≡ some (ok result)
      → once result ≡ true
  unfolding search_from
  search_from-once zero seen [] result h e =
      subst (λ l. once l ≡ true) (ok-injective (some-injective e)) h
  search_from-once (suc fuel) seen [] result h e =
      subst (λ l. once l ≡ true) (ok-injective (some-injective e)) h
  search_from-once zero seen (current ∷ queue) result h e = cc
  search_from-once (suc fuel) seen (current ∷ queue) result h e =
      elim (Result-cases (imports_of fs parse repo_root roots current)) [
        | inr (x, fails) ↦ let impossible = rw (fails, search_from) at e in cc
        | inl (files, found) ↦
            let f : Frontier = record { seen = seen; queue = queue } in
            let next = enqueue files f in
            search_from-once fuel next.seen next.queue result (once-enqueue files f h)
              (rw (found, search_from) at e)
      ]

  abbrev without : FilePath → List FilePath → List FilePath
  without script seen = keep (λ p. not (same_path p script)) seen

  without_iff :
      (script : FilePath) (seen : List FilePath) (v : FilePath)
      → (mem v (sort path_key (without script seen)) ≡ true) ↔ ((mem v seen ≡ true) × (v ≢ script))
  without_iff script seen v =
      let sorted = mem-sort v (without script seen) in
      let kept = mem-keep (λ p. not (same_path p script)) v seen in
      let is = same_path_iff v script in
      (
        λ m. (
          ground (arith, sorted, kept, m),
          λ e. let same = is.1 e in ground (arith, sorted, kept, m, same),
        ),
        λ (m, other). elim (Bool-cases (same_path v script)) [
          | inl same ↦ absurd (other (is.0 same))
          | inr apart ↦ ground (arith, sorted, kept, m, apart)
        ],
      )

  found-IsResolved :
      (fuel : ℕ) (script : FilePath) (r : Result (List FilePath))
      → search_from fs parse repo_root roots fuel (script ∷ []) (script ∷ []) ≡ some r
      → (r' : Result (List FilePath)) × (members fs parse script (some r) ≡ some r')
        × IsResolved script r'
  found-IsResolved fuel script (err x) e = (
    err x,
    refl,
    search_from-error fs parse repo_root roots script fuel (script ∷ []) (script ∷ []) x
        (Inv-start fs parse repo_root roots script) e,
  )
  found-IsResolved fuel script (ok seen) e =
      let inv =
        search_from-Inv fs parse repo_root roots script fuel (script ∷ []) (script ∷ []) seen
          (Inv-start fs parse repo_root roots script) e in
      (
        ok (sort path_key (without script seen)),
        refl,
        record {
          reached_iff = λ v.
              let all = seen_iff fs parse repo_root roots script seen v inv in
              let (to, from) = without_iff script seen v in
              (λ m. let (s, other) = to m in (all.0 s, other), λ (r, other). from (all.1 r, other));
          each_once =
              once-sort (without script seen)
                (once-keep _ seen (search_from-once fuel (script ∷ []) (script ∷ []) seen refl e));
          ordered = sort-in_order path_key (without script seen);
          all_read_static = λ v r.
              let m = (seen_iff fs parse repo_root roots script seen v inv).1 r in
              let (files, found) = all_read fs parse repo_root roots script seen v inv m in
              imports_of-IsRead v files found;
        },
      )

module _ {Bytes : Type 0} (fs : FileSystem Bytes) (parse : Bytes → Parsed) (files : List FilePath)
    (finite : (p : FilePath) → fs.is_file p ≡ true → mem (fs.resolve p) files ≡ true) where
  -- On a file system of finitely many files the search for a script's import closure ends: either
  -- with the files that its imports lead to in any number of steps, the script left out, each once
  -- and in order, every file on the way having been read, parsed and found without dynamic
  -- imports; or with the error of a file that the script reaches.
  pub resolve_closure-IsResolved :
      (script repo : FilePath)
      → (r : Result (List FilePath)) × (resolve_closure fs parse (suc (length files)) script repo
          ≡ some r)
        × IsResolved fs parse
            (fs.resolve repo)
            (roots_of fs parse (fs.resolve repo) (init (fs.resolve script)))
            (fs.resolve script)
            r
  unfolding resolve_closure
  resolve_closure-IsResolved script repo =
      let root = fs.resolve repo in
      let start = fs.resolve script in
      let roots = roots_of fs parse root (init start) in
      let (r, ends) =
        search_from_ends fs files finite parse root roots (suc (length files)) (start ∷ [])
          (start ∷ []) (few files start) in
      let (r', is, resolved) =
        found-IsResolved fs parse root roots (suc (length files)) start r ends in
      (r', rw ends is, resolved)
    where
      few :
          (all : List FilePath) (start : FilePath)
          → length (keep (λ p. not (mem p (start ∷ []))) all) + 1 ≤ suc (length all)
      few [] start = omega arith
      few (p ∷ all) start = let ih = few all start in ground (arith, ih)
