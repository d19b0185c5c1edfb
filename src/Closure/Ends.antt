-- ===== src/Closure/Ends.antt =====
-- The search ends: on a file system of finitely many files each file waits once.
use continuo_python_runtime.Base.{
  ℕ, zero, suc, ◌+◌, ◌≤◌, ◌<◌, ◌≡◌, refl, ap, sym, subst, inl, inr, true, false, not, Option, none,
  some, List, [], ◌∷◌, ◌++◌, Result, ok, err, arith, Bool-cases, length, length-append, keep,
  flat_map, String, >>=-eq-ok, ok-injective,
}
use continuo_python_runtime.Base.Text.{split}
use continuo_python_runtime.Syntax.{Parsed}
use continuo_python_runtime.Closure.Paths.{
  FilePath, same_path, same_path_iff, mem, mem_self, mem-append, mem-keep, is_relative_to, joinpath,
  with_py,
}
use continuo_python_runtime.Closure.Files.{
  FileSystem, Match, package_init, under_roots, resolve_name, enclosing_inits, of_match, candidates,
}
use continuo_python_runtime.Closure.Search.{imports_of, Frontier, visit, enqueue, search_from}
use continuo_python_runtime.Closure.Correct.{Result-cases}

-- The files not seen yet.
abbrev unseen : List FilePath → List FilePath → List FilePath
unseen files seen = keep (λ p. not (mem p seen)) files

unseen-cons-le :
    (files seen : List FilePath) (p : FilePath)
    → length (unseen files (p ∷ seen)) ≤ length (unseen files seen)
unseen-cons-le [] seen p = omega arith
unseen-cons-le (q ∷ files) seen p = let ih = unseen-cons-le files seen p in ground (arith, ih)

-- Seeing one of the files that was not seen leaves fewer.
unseen-cons-lt :
    (files seen : List FilePath) (p : FilePath)
    → mem p files ≡ true
    → mem p seen ≡ false
    → length (unseen files (p ∷ seen)) < length (unseen files seen)
unseen-cons-lt [] seen p there new = cc
unseen-cons-lt (q ∷ files) seen p there new = elim (Bool-cases (same_path p q)) [
  | inl same ↦
      let is = (same_path_iff p q).0 same in
      let le = unseen-cons-le files seen p in
      let here : mem q seen ≡ false = rw (← is) new in
      let itself : same_path q p ≡ true = (same_path_iff q p).1 (sym is) in
      ground (arith, le, here, itself)
  | inr other ↦
      let rest : mem p files ≡ true = ground (arith, other, there) in
      let ih = unseen-cons-lt files seen p rest new in ground (arith, ih)
]

-- The files not seen and the files that wait.
abbrev work : List FilePath → Frontier → ℕ
work files f = length (unseen files f.seen) + length f.queue

abbrev AllMem : List FilePath → List FilePath → Type 0
AllMem files ps = (p : FilePath) → mem p ps ≡ true → mem p files ≡ true

visit-work :
    (files : List FilePath) (p : FilePath) (f : Frontier)
    → mem p files ≡ true
    → work files (visit p f) ≤ work files f
visit-work files p f there = elim (Bool-cases (mem p f.seen)) [
  | inl old ↦ rw old (omega arith)
  | inr new ↦
      let fewer = unseen-cons-lt files f.seen p there new in
      let longer = length-append f.queue (p ∷ []) in rw new (omega (arith, fewer, longer))
]

enqueue-work :
    (files ps : List FilePath) (f : Frontier)
    → AllMem files ps
    → work files (enqueue ps f) ≤ work files f
unfolding enqueue
enqueue-work files [] f all = omega arith
enqueue-work files (p ∷ ps) f all =
    let first = visit-work files p f (all p (mem_self p ps)) in
    let rest = enqueue-work files ps (visit p f) (λ q m. all q (ground (arith, m))) in
    omega (arith, first, rest)

module _ {Bytes : Type 0} (fs : FileSystem Bytes) (files : List FilePath)
    (finite : (p : FilePath) → fs.is_file p ≡ true → mem (fs.resolve p) files ≡ true) where
  of_match-mem :
      (parts : List String) (roots : List FilePath) (m : Match)
      → under_roots fs parts roots ≡ some m
      → mem m.file files ≡ true
  unfolding under_roots
  of_match-mem parts [] m e = cc
  of_match-mem parts (root ∷ roots) m e =
      elim (Bool-cases (fs.is_file (package_init fs root parts))) [
        | inl packaged ↦
            let file = finite (package_init fs root parts) packaged in
            let same =
              ap (λ o. elim o as (λ x. FilePath) [ none ↦ [] | some n ↦ n.file ])
                (rw (packaged, under_roots) at e) in
            subst (λ p. mem p files ≡ true) same file
        | inr none_there ↦ elim (Bool-cases (fs.is_file (with_py (joinpath root parts)))) [
          | inl module_file ↦
              let file = finite (with_py (joinpath root parts)) module_file in
              let same =
                ap (λ o. elim o as (λ x. FilePath) [ none ↦ [] | some n ↦ n.file ])
                  (rw (none_there, module_file, under_roots) at e) in
              subst (λ p. mem p files ≡ true) same file
          | inr neither ↦ of_match-mem parts roots m (rw (none_there, neither, under_roots) at e)
        ]
      ]

  enclosing_inits-mem :
      (root : FilePath) (outer parts : List String) (p : FilePath)
      → mem p (enclosing_inits fs root outer parts) ≡ true
      → mem p files ≡ true
  unfolding enclosing_inits
  enclosing_inits-mem root outer [] p m = cc
  enclosing_inits-mem root outer (part ∷ []) p m = cc
  enclosing_inits-mem root outer (part ∷ next ∷ parts) p m =
      let inside = outer ++ part ∷ [] in
      let ih = enclosing_inits-mem root inside (next ∷ parts) p in
      elim (Bool-cases (fs.is_file (package_init fs root inside))) [
        | inl packaged ↦
            let file = finite (package_init fs root inside) packaged in
            elim (Bool-cases (same_path p (fs.resolve (package_init fs root inside)))) [
              | inl same ↦
                  let is = (same_path_iff p (fs.resolve (package_init fs root inside))).0 same in
                  rw is file
              | inr other ↦ ih (
                  let opened = rw (packaged, enclosing_inits) at m in ground (arith, opened, other))
            ]
        | inr absent ↦ ih (rw (absent, enclosing_inits) at m)
      ]

  of_found-mem :
      (o : Option Match) (p : FilePath)
      → ((m : Match) → o ≡ some m → mem m.file files ≡ true)
      → mem p (of_match fs o) ≡ true
      → mem p files ≡ true
  of_found-mem none p known h = cc
  of_found-mem (some m) p known h = elim (Bool-cases (same_path p m.file)) [
    | inl same ↦ rw ((same_path_iff p m.file).0 same) (known m refl)
    | inr other ↦ enclosing_inits-mem m.root [] m.parts p (ground (arith, h, other))
  ]

  candidates-mem :
      (roots : List FilePath) (names : List String) (p : FilePath)
      → mem p (flat_map (candidates fs roots) names) ≡ true
      → mem p files ≡ true
  unfolding candidates resolve_name
  candidates-mem roots [] p m = cc
  candidates-mem roots (name ∷ names) p m = elim (Bool-cases (mem p (candidates fs roots name))) [
    | inl here ↦
        of_found-mem (resolve_name fs name roots) p
          (λ n e. of_match-mem (split b'.' name) roots n e) here
    | inr later ↦
        let both = mem-append p (candidates fs roots name) (flat_map (candidates fs roots) names) in
        candidates-mem roots names p (ground (arith, both, m, later))
  ]

  module _ (parse : Bytes → Parsed) (repo_root : FilePath) (roots : List FilePath) where
    pub imports_of-mem :
        (current : FilePath) (found : List FilePath)
        → imports_of fs parse repo_root roots current ≡ ok found
        → AllMem files found
    unfolding imports_of
    imports_of-mem current found e =
        let (_, _, e1) = >>=-eq-ok _ _ e in
        let (_, _, e2) = >>=-eq-ok _ _ e1 in
        let (_, _, e3) = >>=-eq-ok _ _ e2 in
        let (_, _, e4) = >>=-eq-ok _ _ e3 in
        let (names, _, e5) = >>=-eq-ok _ _ e4 in
        subst (AllMem files) (ok-injective e5) (λ p m.
          let both =
            mem-keep (λ q. is_relative_to q repo_root) p (flat_map (candidates fs roots) names) in
          candidates-mem roots names p (ground (arith, both, m)))

    -- With fuel for what is left to do the search comes to a result.
    pub search_from_ends :
        (fuel : ℕ) (seen queue : List FilePath)
        → work files (record { seen = seen; queue = queue }) ≤ fuel
        → (r : Result (List FilePath)) × (search_from fs parse repo_root roots fuel seen queue
            ≡ some r)
    unfolding search_from
    search_from_ends zero seen [] h = (ok seen, refl)
    search_from_ends (suc fuel) seen [] h = (ok seen, refl)
    search_from_ends zero seen (current ∷ queue) h = absurd (omega (arith, h))
    search_from_ends (suc fuel) seen (current ∷ queue) h =
        elim (Result-cases (imports_of fs parse repo_root roots current)) [
          | inr (x, fails) ↦ (err x, rw (fails, search_from) refl)
          | inl (found, is) ↦
              let f : Frontier = record { seen = seen; queue = queue } in
              let next = enqueue found f in
              let less = enqueue-work files found f (imports_of-mem current found is) in
              let (r, ends) = search_from_ends fuel next.seen next.queue (omega (arith, h, less)) in
              (r, rw (is, search_from) ends)
        ]
