-- ===== src/Base/Sorting.antt =====
-- Python's order of texts, by code points, and a stable sort by a key.
use Prim.Native.Nat.{ℕ}
use mathlib.Core.Path.{◌≡◌, refl, sym, ap, ◌∙◌}
use mathlib.Core.Logic.{inl, inr}
use mathlib.Core.Bool.{Bool, true, false, ◌&&◌, ◌||◌}
use mathlib.Core.List.{List, [], ◌∷◌}
use mathlib.Core.List.{Perm, Permᴰ}
use mathlib.Core.List.Perm
use mathlib.Core.Logic.{∥∥₁_elim}
use native.Mathlib.Omega.{arith}
use continuo_python_runtime.Base.Tests.{ltb, eqb, if◌then◌else◌, Bool-cases}

abbrev pub Text : Type 0
Text = List ℕ

-- `s <= t`
unfoldable pub text_le : Text → Text → Bool
text_le [] t = true
text_le (a ∷ s) [] = false
text_le (a ∷ s) (b ∷ t) = ltb a b || (eqb a b && text_le s t)

pub text_le-total : (s t : Text) → text_le s t ≡ false → text_le t s ≡ true
unfolding text_le
text_le-total [] t h = cc
text_le-total (a ∷ s) [] h = refl
text_le-total (a ∷ s) (b ∷ t) h = let ih = text_le-total s t in ground (arith, ih)

pub text_le_antisymm : (s t : Text) → text_le s t ≡ true → text_le t s ≡ true → s ≡ t
unfolding text_le
text_le_antisymm [] [] h k = refl
text_le_antisymm [] (b ∷ t) h k = cc
text_le_antisymm (a ∷ s) [] h k = cc
text_le_antisymm (a ∷ s) (b ∷ t) h k = let ih = text_le_antisymm s t in grind (arith, ih)

pub text_le_trans : (s t u : Text) → text_le s t ≡ true → text_le t u ≡ true → text_le s u ≡ true
unfolding text_le
text_le_trans [] t u h k = refl
text_le_trans (a ∷ s) [] u h k = cc
text_le_trans (a ∷ s) (b ∷ t) [] h k = cc
text_le_trans (a ∷ s) (b ∷ t) (c ∷ u) h k = let ih = text_le_trans s t u in ground (arith, ih)

module _ {ℓ} {A : Type ℓ} (key : A → Text) where
  -- Before the first element that is not smaller.
  unfoldable pub insert : A → List A → List A
  insert x [] = x ∷ []
  insert x (y ∷ ys) = if text_le (key x) (key y) then x ∷ y ∷ ys else y ∷ insert x ys

  -- `sorted(xs, key=key)`
  unfoldable pub sort : List A → List A
  unfolding insert
  sort [] = []
  sort (x ∷ xs) = insert x (sort xs)

  unfoldable pub in_order : List A → Bool
  in_order [] = true
  in_order (x ∷ []) = true
  in_order (x ∷ y ∷ ys) = text_le (key x) (key y) && in_order (y ∷ ys)

  pub insert-in_order : (x : A) (ys : List A) → in_order ys ≡ true → in_order (insert x ys) ≡ true
  unfolding insert in_order
  insert-in_order x [] h = refl
  insert-in_order x (y ∷ []) h = let t = text_le-total (key x) (key y) in ground (arith, t)
  insert-in_order x (y ∷ z ∷ ys) h =
      let t = text_le-total (key x) (key y) in
      let ih = insert-in_order x (z ∷ ys) in ground (arith, t, ih)

  pub sort-in_order : (xs : List A) → in_order (sort xs) ≡ true
  unfolding sort in_order
  sort-in_order [] = refl
  sort-in_order (x ∷ xs) = insert-in_order x (sort xs) (sort-in_order xs)

  insert-Perm : (x : A) (ys : List A) → Perm (insert x ys) (x ∷ ys)
  unfolding insert
  insert-Perm x [] = Perm.refl (x ∷ [])
  insert-Perm x (y ∷ ys) = elim (Bool-cases (text_le (key x) (key y))) [
    | inl le ↦ rw le (Perm.refl (x ∷ y ∷ ys))
    | inr gt ↦ rw gt (Perm.trans (Perm.cons y (insert-Perm x ys)) (Perm.swap x y ys))
  ]

  pub sort-Perm : (xs : List A) → Perm (sort xs) xs
  unfolding sort
  sort-Perm [] = Perm.refl []
  sort-Perm (x ∷ xs) = Perm.trans (insert-Perm x (sort xs)) (Perm.cons x (sort-Perm xs))

-- Elements whose keys are themselves: the sort forgets the order it is given.
abbrev pub itself : Text → Text
itself s = s

-- Of a smaller and a larger text.
insert_comm_less :
    (x y : Text) (zs : List Text)
    → text_le x y ≡ true
    → text_le y x ≡ false
    → insert itself x (insert itself y zs) ≡ insert itself y (insert itself x zs)
unfolding insert
insert_comm_less x y [] le gt = rw (le, gt) refl
insert_comm_less x y (z ∷ zs) le gt = elim (Bool-cases (text_le y z)) [
  | inl yz ↦
      let xz = text_le_trans x y z le yz in rw (yz, xz, insert) (rw (le, gt, yz, insert) refl)
  | inr zy ↦ elim (Bool-cases (text_le x z)) [
    | inl xz ↦ rw (zy, xz, insert) (rw (gt, zy, insert) refl)
    | inr zx ↦
        rw (zy, zx, insert) (rw (zy, insert) (ap (λ l. z ∷ l) (insert_comm_less x y zs le gt)))
  ]
]

insert_comm :
    (x y : Text) (zs : List Text)
    → insert itself x (insert itself y zs) ≡ insert itself y (insert itself x zs)
insert_comm x y zs = elim (Bool-cases (text_le x y)) [
  | inr gt ↦ sym (insert_comm_less y x zs (text_le-total x y gt) gt)
  | inl le ↦ elim (Bool-cases (text_le y x)) [
    | inr gt ↦ insert_comm_less x y zs le gt
    | inl ge ↦ cc (text_le_antisymm x y le ge)
  ]
]

sort-Permᴰ : {xs ys : List Text} → Permᴰ xs ys → sort itself xs ≡ sort itself ys
unfolding sort
sort-Permᴰ Permᴰ.nil = refl
sort-Permᴰ (Permᴰ.cons e p) = cc (e, sort-Permᴰ p)
sort-Permᴰ (Permᴰ.swap {a} {b} {l = l} e f) = cc (e, f, insert_comm a b (sort itself l))
sort-Permᴰ (Permᴰ.trans p q) = sort-Permᴰ p ∙ sort-Permᴰ q

Texts-IsSet : IsSet (List Text)
Texts-IsSet = hlevel

-- Texts sort to the same list in whichever order they come.
pub sort_perm : {xs ys : List Text} → Perm xs ys → sort itself xs ≡ sort itself ys
sort_perm p = ∥∥₁_elim p (Texts-IsSet _ _) sort-Permᴰ
