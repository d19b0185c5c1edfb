-- ===== src/Closure/Packages.antt =====
-- The packages that Python runs on the way to a module are among the files that its import adds.
use mathlib.Core.List.{append_assoc}
use continuo_python_runtime.Base.{
  String, ◌≡◌, sym, ◌∙◌, subst, true, some, List, [], ◌∷◌, ◌++◌, arith, if◌then◌else◌,
}
use continuo_python_runtime.Closure.Paths.{FilePath, mem, mem_self, mem-append}
use continuo_python_runtime.Closure.Files.{
  FileSystem, Match, package_init, resolve_name, enclosing_inits, candidates,
}

module _ {Bytes : Type 0} (fs : FileSystem Bytes) (root : FilePath) where
  enclosing_inits-mem :
      (outer : List String) (part : String) (inner : List String) (next : String)
      (rest : List String)
      → fs.is_file (package_init fs root (outer ++ part ∷ inner)) ≡ true
      → mem
          (fs.resolve (package_init fs root (outer ++ part ∷ inner)))
          (enclosing_inits fs root outer ((part ∷ inner) ++ next ∷ rest))
        ≡ true
  unfolding enclosing_inits
  enclosing_inits-mem outer part [] next rest there =
      let init = fs.resolve (package_init fs root (outer ++ part ∷ [])) in
      let here = mem_self init [] in
      rw there (
        rw
          (mem-append init (init ∷ []) (enclosing_inits fs root (outer ++ part ∷ []) (next ∷ rest)))
          (ground (arith, here)))
  enclosing_inits-mem outer part (second ∷ inner) next rest there =
      let inside = outer ++ part ∷ [] in
      let same : inside ++ second ∷ inner ≡ outer ++ part ∷ second ∷ inner =
        append_assoc outer (part ∷ []) (second ∷ inner) in
      let file = λ (l : List String). fs.resolve (package_init fs root l) in
      let later = enclosing_inits fs root inside ((second ∷ inner) ++ next ∷ rest) in
      let ih =
        enclosing_inits-mem inside second inner next rest
          (subst (λ l. fs.is_file (package_init fs root l) ≡ true) (sym same) there) in
      let found : mem (file (outer ++ part ∷ second ∷ inner)) later ≡ true =
        subst (λ l. mem (file l) later ≡ true) same ih in
      let here = if fs.is_file (package_init fs root inside) then file inside ∷ [] else [] in
      mem-append (file (outer ++ part ∷ second ∷ inner)) here later ∙ ground (arith, found)

module _ {Bytes : Type 0} (fs : FileSystem Bytes) (search_roots : List FilePath) where
  -- If a dotted name resolves under a root, the `__init__` file under that root of every package
  -- that encloses the module is among the files that the import adds, where there is one.
  pub candidates-mem_init :
      (name : String) (m : Match) (part : String) (inner : List String) (next : String)
      (rest : List String)
      → resolve_name fs name search_roots ≡ some m
      → m.parts ≡ (part ∷ inner) ++ next ∷ rest
      → fs.is_file (package_init fs m.root (part ∷ inner)) ≡ true
      → mem (fs.resolve (package_init fs m.root (part ∷ inner))) (candidates fs search_roots name)
        ≡ true
  unfolding candidates
  candidates-mem_init name m part inner next rest found parts there =
      let inside = enclosing_inits-mem fs m.root [] part inner next rest there in
      let p = fs.resolve (package_init fs m.root (part ∷ inner)) in
      let same : mem p (enclosing_inits fs m.root [] m.parts) ≡ true = rw parts inside in
      rw found (ground (arith, same))
