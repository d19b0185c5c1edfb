-- ===== src/Closure/Paths.antt =====
-- What the code uses of `pathlib` on absolute paths: a path is the list of its parts below the root.
use continuo_python_runtime.Base.{
  String, ◌==◌, ◌<>◌, ◌≡◌, ◌↔◌, refl, Bool, true, false, ◌&&◌, ◌||◌, not, Option, none, some, List,
  [], ◌∷◌, ◌++◌, arith, if◌then◌else◌, keep, eq_iff, Bool-cases, inl, inr,
}
use continuo_python_runtime.Base.Text.{codes}
use continuo_python_runtime.Base.Sorting.{Text, insert, sort, text_le}

abbrev pub FilePath : Type 0
FilePath = List String

abbrev pub same_path : FilePath → FilePath → Bool
same_path [] [] = true
same_path [] (b ∷ q) = false
same_path (a ∷ p) [] = false
same_path (a ∷ p) (b ∷ q) = (a == b) && same_path p q

pub same_path_iff : (p q : FilePath) → (same_path p q ≡ true) ↔ (p ≡ q)
same_path_iff [] [] = (λ h. refl, λ h. refl)
same_path_iff [] (b ∷ q) = (λ h. cc, λ h. cc)
same_path_iff (a ∷ p) [] = (λ h. cc, λ h. cc)
same_path_iff (a ∷ p) (b ∷ q) = let ih = same_path_iff p q in ground (arith, ih, eq_iff a b)

-- Membership in a set of paths.
abbrev pub mem : FilePath → List FilePath → Bool
mem p [] = false
mem p (q ∷ qs) = same_path p q || mem p qs

-- `path.relative_to(root)`, where there is one.
abbrev pub relative_to : FilePath → FilePath → Option FilePath
relative_to p [] = some p
relative_to [] (b ∷ root) = none
relative_to (a ∷ p) (b ∷ root) = if a == b then relative_to p root else none

abbrev pub is_relative_to : FilePath → FilePath → Bool
is_relative_to p root = elim (relative_to p root) [ none ↦ false | some rest ↦ true ]

-- `root.joinpath(*parts)`: an empty part adds nothing.
abbrev pub joinpath : FilePath → List String → FilePath
joinpath root parts = root ++ keep (λ part. not (part == "")) parts

-- `path.with_suffix(".py")`, for a last part without a suffix.
abbrev pub with_py : FilePath → FilePath
with_py [] = []
with_py (a ∷ []) = (a <> ".py") ∷ []
with_py (a ∷ b ∷ p) = a ∷ with_py (b ∷ p)

-- Paths are ordered by their parts. No part holds the code point 0, which therefore ends each.
abbrev pub path_key : FilePath → Text
path_key [] = []
path_key (a ∷ p) = codes a ++ 0 ∷ path_key p

pub mem_self : (p : FilePath) (qs : List FilePath) → mem p (p ∷ qs) ≡ true
mem_self p qs = rw ((same_path_iff p p).1 refl) refl

pub mem-append : (p : FilePath) (qs rs : List FilePath) → mem p (qs ++ rs) ≡ (mem p qs || mem p rs)
mem-append p [] rs = refl
mem-append p (q ∷ qs) rs = let ih = mem-append p qs rs in ground (arith, ih)

mem-insert :
    (p q : FilePath) (qs : List FilePath)
    → mem p (insert path_key q qs) ≡ (same_path p q || mem p qs)
unfolding insert
mem-insert p q [] = refl
mem-insert p q (r ∷ qs) = elim (Bool-cases (text_le (path_key q) (path_key r))) [
  | inl le ↦ rw le refl
  | inr gt ↦ let ih = mem-insert p q qs in rw gt (ground (arith, ih))
]

pub mem-sort : (p : FilePath) (qs : List FilePath) → mem p (sort path_key qs) ≡ mem p qs
unfolding sort
mem-sort p [] = refl
mem-sort p (q ∷ qs) = rw (mem-insert p q (sort path_key qs), mem-sort p qs) refl

pub mem-keep :
    (f : FilePath → Bool) (p : FilePath) (qs : List FilePath)
    → mem p (keep f qs) ≡ (mem p qs && f p)
mem-keep f p [] = refl
mem-keep f p (q ∷ qs) = elim (Bool-cases (same_path p q)) [
  | inl same ↦
      let is = (same_path_iff p q).0 same in
      let ih = mem-keep f p qs in
      let e : f p ≡ f q = rw is refl in
      elim (Bool-cases (f q)) [
        | inl kept ↦ rw (kept, same, e, kept) refl
        | inr dropped ↦ rw (dropped, same, ih, e, dropped) (ground arith)
      ]
  | inr other ↦
      let ih = mem-keep f p qs in
      elim (Bool-cases (f q)) [
        | inl kept ↦ rw (kept, other, ih) refl
        | inr dropped ↦ rw (dropped, other, ih) refl
      ]
]

-- No path twice.
abbrev pub once : List FilePath → Bool
once [] = true
once (p ∷ ps) = not (mem p ps) && once ps

once-insert :
    (p : FilePath) (qs : List FilePath)
    → mem p qs ≡ false
    → once qs ≡ true
    → once (insert path_key p qs) ≡ true
unfolding insert
once-insert p [] new h = refl
once-insert p (q ∷ qs) new h = elim (Bool-cases (text_le (path_key p) (path_key q))) [
  | inl le ↦ rw le (ground (arith, new, h))
  | inr gt ↦
      let ih = once-insert p qs in
      let inside = mem-insert q p qs in
      let back = same_path_iff q p in
      let forth = same_path_iff p q in rw gt (ground (arith, ih, inside, new, h, back, forth))
]

pub once-sort : (qs : List FilePath) → once qs ≡ true → once (sort path_key qs) ≡ true
unfolding sort
once-sort [] h = refl
once-sort (q ∷ qs) h =
    let there = mem-sort q qs in
    once-insert q (sort path_key qs) (ground (arith, there, h)) (once-sort qs (ground (arith, h)))

pub once-keep :
    (f : FilePath → Bool) (qs : List FilePath) → once qs ≡ true → once (keep f qs) ≡ true
once-keep f [] h = refl
once-keep f (q ∷ qs) h = elim (Bool-cases (f q)) [
  | inl kept ↦
      let there = mem-keep f q qs in
      let ih = once-keep f qs in rw kept (ground (arith, there, ih, h))
  | inr dropped ↦ rw dropped (once-keep f qs (ground (arith, h)))
]
