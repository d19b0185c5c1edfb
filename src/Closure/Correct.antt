-- ===== src/Closure/Correct.antt =====
-- The search comes to the files that the script reaches, and to no other.
use continuo_python_runtime.Base.{
  ℕ, zero, suc, ◌≡◌, refl, ap, sym, ◌∙◌, subst, ◌⊎◌, ◌↔◌, inl, inr, true, false, ◌||◌, ◌&&◌, not,
  some, List, [], ◌∷◌, Exception, Result, ok, err, arith, Bool-cases, some-injective, ok-injective,
}
use continuo_python_runtime.Syntax.{Parsed}
use continuo_python_runtime.Closure.Paths.{
  FilePath, same_path, same_path_iff, mem, mem_self, mem-append,
}
use continuo_python_runtime.Closure.Files.{FileSystem}
use continuo_python_runtime.Closure.Search.{imports_of, Frontier, visit, enqueue, search_from}

seen-visit :
    (v p : FilePath) (f : Frontier) → mem v (visit p f).seen ≡ (mem v f.seen || same_path v p)
seen-visit v p f = elim (Bool-cases (mem p f.seen)) [
  | inl old ↦ elim (Bool-cases (same_path v p)) [
    | inl same ↦
        let is = (same_path_iff v p).0 same in
        let there : mem v f.seen ≡ true = rw is old in rw old (rw (same, there) refl)
    | inr other ↦ rw old (rw other (ground arith))
  ]
  | inr new ↦ rw new (ground arith)
]

queue-visit :
    (v p : FilePath) (f : Frontier)
    → mem v (visit p f).queue ≡ (mem v f.queue || (same_path v p && not (mem v f.seen)))
queue-visit v p f = elim (Bool-cases (mem p f.seen)) [
  | inl old ↦ elim (Bool-cases (same_path v p)) [
    | inl same ↦
        let is = (same_path_iff v p).0 same in
        let there : mem v f.seen ≡ true = rw is old in rw old (rw (same, there) (ground arith))
    | inr other ↦ rw old (rw other (ground arith))
  ]
  | inr new ↦ elim (Bool-cases (same_path v p)) [
    | inl same ↦
        let is = (same_path_iff v p).0 same in
        let there : mem v f.seen ≡ false = rw is new in
        rw new (rw (mem-append v f.queue (p ∷ []), same, there) refl)
    | inr other ↦ rw new (rw (mem-append v f.queue (p ∷ []), other) refl)
  ]
]

-- A file is seen after the queueing if it was before, or is one of the files offered.
pub seen-enqueue :
    (v : FilePath) (ps : List FilePath) (f : Frontier)
    → mem v (enqueue ps f).seen ≡ (mem v f.seen || mem v ps)
unfolding enqueue
seen-enqueue v [] f = ground arith
seen-enqueue v (p ∷ ps) f = seen-enqueue v ps (visit p f) ∙ (rw (seen-visit v p f) (ground arith))

-- It waits if it did before, or is one of the files offered that had not been seen.
pub queue-enqueue :
    (v : FilePath) (ps : List FilePath) (f : Frontier)
    → mem v (enqueue ps f).queue ≡ (mem v f.queue || (mem v ps && not (mem v f.seen)))
unfolding enqueue
queue-enqueue v [] f = ground arith
queue-enqueue v (p ∷ ps) f =
    queue-enqueue v ps (visit p f) ∙ (rw (seen-visit v p f, queue-visit v p f) (ground arith))

pub Result-cases :
    {A : Type 0} (r : Result A) → ((a : A) × (r ≡ ok a)) ⊎ ((e : Exception) × (r ≡ err e))
Result-cases (ok a) = inl (a, refl)
Result-cases (err e) = inr (e, refl)

module _ {Bytes : Type 0} (fs : FileSystem Bytes) (parse : Bytes → Parsed) (repo_root : FilePath)
    (search_roots : List FilePath) where
  abbrev imports : FilePath → Result (List FilePath)
  imports = imports_of fs parse repo_root search_roots

  -- The imports of `u` lead to `v`.
  abbrev pub Imports : FilePath → FilePath → Type 0
  Imports u v = (files : List FilePath) × (imports u ≡ ok files) × (mem v files ≡ true)

  -- The files that the imports of the script lead to, in any number of steps.
  pub data Reach (script : FilePath) : FilePath → Type 0 where
    here : Reach script script
    step : {u v : FilePath} → Reach script u → Imports u v → Reach script v

  module _ (script : FilePath) where
    -- What every file seen satisfies: it waits, or its imports have been read and are seen.
    pub record Inv (f : Frontier) : Type 0 where
      pub source : mem script f.seen ≡ true
      pub sound : (v : FilePath) → mem v f.seen ≡ true → Reach script v
      pub queued : (v : FilePath) → mem v f.queue ≡ true → mem v f.seen ≡ true
      pub closed :
          (u : FilePath)
          → mem u f.seen ≡ true
          → (mem u f.queue ≡ true)
            ⊎ ((files : List FilePath) × (imports u ≡ ok files)
                × ((v : FilePath) → mem v files ≡ true → mem v f.seen ≡ true))

    pub Inv-start : Inv (record { seen = script ∷ []; queue = script ∷ [] })
    Inv-start = record {
      source = mem_self script [];
      sound = λ v m. let is = (same_path_iff v script).0 (ground (arith, m)) in rw is here;
      queued = λ v m. m;
      closed = λ u m. inl m;
    }

    -- A file that was closed before stays so, and the current one becomes it.
    kept_closed :
        (current : FilePath) (seen queue files : List FilePath) (u : FilePath)
        → Inv (record { seen = seen; queue = current ∷ queue })
        → imports current ≡ ok files
        → (mem u (current ∷ queue) ≡ true)
          ⊎ ((others : List FilePath) × (imports u ≡ ok others)
              × ((v : FilePath) → mem v others ≡ true → mem v seen ≡ true))
        → (mem u (enqueue files (record { seen = seen; queue = queue })).queue ≡ true)
          ⊎ ((others : List FilePath) × (imports u ≡ ok others)
              × ((v : FilePath)
                  → mem v others ≡ true
                  → mem v (enqueue files (record { seen = seen; queue = queue })).seen ≡ true))
    kept_closed current seen queue files u inv found (inr (others, again, all_seen)) = inr (
      others,
      again,
      λ v m.
          let e = seen-enqueue v files (record { seen = seen; queue = queue }) in
          let before = all_seen v m in ground (arith, e, before),
    )
    kept_closed current seen queue files u inv found (inl waits) =
        elim (Bool-cases (same_path u current)) [
          | inl same ↦
              let is = (same_path_iff u current).0 same in
              inr (
                files,
                rw is found,
                λ v m.
                    let e = seen-enqueue v files (record { seen = seen; queue = queue }) in
                    ground (arith, e, m),
              )
          | inr other ↦
              let q = queue-enqueue u files (record { seen = seen; queue = queue }) in
              inl (ground (arith, q, waits, other))
        ]

    Inv-enqueue :
        (current : FilePath) (seen queue files : List FilePath)
        → Inv (record { seen = seen; queue = current ∷ queue })
        → imports current ≡ ok files
        → Inv (enqueue files (record { seen = seen; queue = queue }))
    Inv-enqueue current seen queue files inv found =
        let f : Frontier = record { seen = seen; queue = queue } in
        let reached = inv.sound current (inv.queued current (mem_self current queue)) in
        record {
          source =
              let e = seen-enqueue script files f in let s = inv.source in ground (arith, e, s);
          sound = λ v m. elim (Bool-cases (mem v seen)) [
            | inl old ↦ inv.sound v old
            | inr new ↦
                let e = seen-enqueue v files f in
                step reached (files, found, ground (arith, e, m, new))
          ];
          queued = λ v m.
              let e = queue-enqueue v files f in
              let d = seen-enqueue v files f in let q = inv.queued v in ground (arith, e, d, m, q);
          closed = λ u m. elim (Bool-cases (mem u seen)) [
            | inr new ↦
                let e = seen-enqueue u files f in
                let q = queue-enqueue u files f in inl (ground (arith, e, q, m, new))
            | inl old ↦ kept_closed current seen queue files u inv found (inv.closed u old)
          ];
        }

    -- The search ends with all that is reached, or with the error of a file that is reached.
    pub search_from-Inv :
        (fuel : ℕ) (seen queue result : List FilePath)
        → Inv (record { seen = seen; queue = queue })
        → search_from fs parse repo_root search_roots fuel seen queue ≡ some (ok result)
        → Inv (record { seen = result; queue = [] })
    unfolding search_from
    search_from-Inv zero seen [] result inv e =
        let same = ok-injective (some-injective e) in
        subst (λ l. Inv (record { seen = l; queue = [] })) same inv
    search_from-Inv (suc fuel) seen [] result inv e =
        let same = ok-injective (some-injective e) in
        subst (λ l. Inv (record { seen = l; queue = [] })) same inv
    search_from-Inv zero seen (current ∷ queue) result inv e = cc
    search_from-Inv (suc fuel) seen (current ∷ queue) result inv e =
        elim (Result-cases (imports current)) [
          | inr (x, fails) ↦ let impossible = rw (fails, search_from) at e in cc
          | inl (files, found) ↦
              let f : Frontier = record { seen = seen; queue = queue } in
              let next = enqueue files f in
              search_from-Inv fuel next.seen next.queue result
                (Inv-enqueue current seen queue files inv found) (rw (found, search_from) at e)
        ]

    pub search_from-error :
        (fuel : ℕ) (seen queue : List FilePath) (x : Exception)
        → Inv (record { seen = seen; queue = queue })
        → search_from fs parse repo_root search_roots fuel seen queue ≡ some (err x)
        → (u : FilePath) × Reach script u × (imports u ≡ err x)
    unfolding search_from
    search_from-error zero seen [] x inv e = cc
    search_from-error (suc fuel) seen [] x inv e = cc
    search_from-error zero seen (current ∷ queue) x inv e = cc
    search_from-error (suc fuel) seen (current ∷ queue) x inv e =
        elim (Result-cases (imports current)) [
          | inr (y, fails) ↦
              let same : y ≡ x = let opened = rw (fails, search_from) at e in cc in
              let reached = inv.sound current (inv.queued current (mem_self current queue)) in
              (current, reached, fails ∙ ap (λ z. err z) same)
          | inl (files, found) ↦
              let f : Frontier = record { seen = seen; queue = queue } in
              let next = enqueue files f in
              search_from-error fuel next.seen next.queue x
                (Inv-enqueue current seen queue files inv found) (rw (found, search_from) at e)
        ]

    complete :
        (seen : List FilePath) {v : FilePath}
        → Inv (record { seen = seen; queue = [] })
        → Reach script v
        → mem v seen ≡ true
    complete seen inv here = inv.source
    complete seen inv (step {u} {v} before (files, found, there)) =
        elim (inv.closed u (complete seen inv before)) [
          | inl waits ↦ cc
          | inr (others, again, all_seen) ↦
              let same : files ≡ others = ok-injective (sym found ∙ again) in
              all_seen v (rw (← same) there)
        ]

    pub seen_iff :
        (seen : List FilePath) (v : FilePath)
        → Inv (record { seen = seen; queue = [] })
        → (mem v seen ≡ true) ↔ Reach script v
    seen_iff seen v inv = (inv.sound v, λ r. complete seen inv r)

    -- Every file reached could be read.
    pub all_read :
        (seen : List FilePath) (v : FilePath)
        → Inv (record { seen = seen; queue = [] })
        → mem v seen ≡ true
        → (files : List FilePath) × (imports v ≡ ok files)
    all_read seen v inv m = elim (inv.closed v m) [
      | inl waits ↦ cc
      | inr (files, found, all_seen) ↦ (files, found)
    ]
