-- ===== src/Syntax/Walk.antt =====
-- `ast.walk`, which closure.py and lint.py use, measured against the nodes of a tree.
use mathlib.Core.List.{Perm, Permᴰ, append-nil, append_assoc}
use mathlib.Core.List.Permᴰ
use mathlib.Core.Logic.{∥∥₁_elim}
use mathlib.Core.List.Perm
use continuo_python_runtime.Base.{
  ℕ, zero, suc, ◌≤◌, ◌≡◌, refl, sym, ap, ◌∙◌, subst, List, [], ◌∷◌, ◌++◌, arith, length,
  length-append, Bool, all, ◌&&◌,
}
use continuo_python_runtime.Syntax.{
  Syntax, import_names, import_from, name, attribute, text, joined, add, call, expression, body,
  other, Syntaxes, nil, cons, listed, children, nodes, nodes_of, walk_queue, walk,
}

-- The nodes of several trees.
abbrev pub all_nodes : List Syntax → List Syntax
all_nodes [] = []
all_nodes (t ∷ ts) = nodes t ++ all_nodes ts

all_nodes-append : (ts us : List Syntax) → all_nodes (ts ++ us) ≡ all_nodes ts ++ all_nodes us
all_nodes-append [] us = refl
all_nodes-append (t ∷ ts) us =
    ap (λ l. nodes t ++ l) (all_nodes-append ts us)
    ∙ sym (append_assoc (nodes t) (all_nodes ts) (all_nodes us))

all_nodes-listed : (ts : Syntaxes) → all_nodes (listed ts) ≡ nodes_of ts
unfolding nodes
all_nodes-listed nil = refl
all_nodes-listed (cons t ts) = ap (λ l. nodes t ++ l) (all_nodes-listed ts)

pub nodes-children : (t : Syntax) → nodes t ≡ t ∷ all_nodes (children t)
unfolding nodes
nodes-children (import_names line names) = refl
nodes-children (import_from line module_name names level) = refl
nodes-children (name line id) = refl
nodes-children (attribute line value attr) = rw (append-nil (nodes value)) refl
nodes-children (text id line s) = refl
nodes-children (joined line values) = rw (all_nodes-listed values) refl
nodes-children (add line left right) = rw (append-nil (nodes right)) refl
nodes-children (call line func arguments) = rw (all_nodes-listed arguments) refl
nodes-children (expression value) = rw (append-nil (nodes value)) refl
nodes-children (body before statements after) = simp (all_nodes-append, all_nodes-listed)
nodes-children (other parts) = rw (all_nodes-listed parts) refl

walk_queue-Perm :
    (left : ℕ) (queue : List Syntax)
    → length (all_nodes queue) ≤ left
    → Perm (walk_queue left queue) (all_nodes queue)
unfolding walk_queue
walk_queue-Perm zero [] h = Perm.nil
walk_queue-Perm zero (t ∷ queue) h =
    let e = ap length (nodes-children t) in
    let n = length-append (nodes t) (all_nodes queue) in absurd (omega (arith, e, n))
walk_queue-Perm (suc left) [] h = Perm.nil
walk_queue-Perm (suc left) (t ∷ queue) h =
    let e = nodes-children t in
    let later = all_nodes-append queue (children t) in
    let size = ap length e in
    let here = length-append (nodes t) (all_nodes queue) in
    let there = length-append (all_nodes queue) (all_nodes (children t)) in
    let there2 = ap length later in
    let ih =
      walk_queue-Perm left (queue ++ children t) (omega (arith, size, here, there, there2)) in
    rw e (
      Perm.cons t (
        Perm.trans (subst (λ l. Perm (walk_queue left (queue ++ children t)) l) later ih)
          ∣ Permᴰ.append_comm (all_nodes queue) (all_nodes (children t)) ∣₁))

-- The queue of ast.walk comes to an end, and gives every node of the tree exactly once.
pub walk-Perm : (t : Syntax) → Perm (walk t) (nodes t)
unfolding walk
walk-Perm t =
    let one = append-nil (nodes t) in
    subst (Perm (walk t)) one (walk_queue-Perm (length (nodes t)) (t ∷ []) (rw one (omega arith)))

all-Permᴰ : (p : Syntax → Bool) {xs ys : List Syntax} → Permᴰ xs ys → all p xs ≡ all p ys
all-Permᴰ p Permᴰ.nil = refl
all-Permᴰ p (Permᴰ.cons e q) = cc (e, all-Permᴰ p q)
all-Permᴰ p (Permᴰ.swap {a} {b} {l = l} e f) =
    let swapped : (p a && (p b && all p l)) ≡ (p b && (p a && all p l)) = ground arith in
    cc (e, f, swapped)
all-Permᴰ p (Permᴰ.trans q r) = all-Permᴰ p q ∙ all-Permᴰ p r

Bool-IsSet : IsSet Bool
Bool-IsSet = hlevel

-- A test that every node passes is one that the walk passes.
pub all-walk : (p : Syntax → Bool) (t : Syntax) → all p (walk t) ≡ all p (nodes t)
all-walk p t = ∥∥₁_elim (walk-Perm t) (Bool-IsSet _ _) (all-Permᴰ p)
