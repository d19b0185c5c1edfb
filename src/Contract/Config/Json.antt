-- ===== src/Contract/Config/Json.antt =====
-- The independent description of what a `config` may hold: a value that unfolds, through the object
-- graph, into a finite tree of JSON scalars, lists, and mappings with string keys.
use continuo_python_runtime.Base.{
  ℕ, zero, suc, ◌+◌, ◌≤◌, ◌<◌, ◌≡◌, refl, Bool, true, false, ◌&&◌, List, [], ◌∷◌, arith, All,
  is_some, if◌then◌else◌,
}
use continuo_python_runtime.Contract.Value.{
  Value, null, bool, int, float, str, ref, opaque, Object, mapping, sequence, Heap, Entries, as_str,
}
use continuo_python_runtime.Contract.Config.{active_in}

abbrev pub json_entries : (Value → Bool) → Entries → Bool
json_entries p [] = true
json_entries p ((k, v) ∷ rest) = is_some (as_str k) && p v && json_entries p rest

abbrev pub json_items : (Value → Bool) → List Value → Bool
json_items p [] = true
json_items p (v ∷ rest) = p v && json_items p rest

abbrev pub json_object : (Value → Bool) → Object → Bool
json_object p (mapping entries) = json_entries p entries
json_object p (sequence items) = json_items p items

-- The value is a JSON tree of less than `n` levels.
unfoldable pub json_at : Heap → ℕ → Value → Bool
json_at h zero v = false
json_at h (suc n) (ref i) = json_object (json_at h n) (h.object i)
json_at h (suc n) (opaque class) = false
json_at h (suc n) null = true
json_at h (suc n) (bool b) = true
json_at h (suc n) (int k) = true
json_at h (suc n) (float k) = true
json_at h (suc n) (str s) = true

abbrev pub IsJson : Heap → Value → Type 0
IsJson h v = (n : ℕ) × (json_at h n v ≡ true)

-- A reference names an object of the heap.
abbrev pub InHeap : Heap → Value → Type 0
InHeap h (ref i) = i < h.size
InHeap h (opaque class) = Unit
InHeap h null = Unit
InHeap h (bool b) = Unit
InHeap h (int k) = Unit
InHeap h (float k) = Unit
InHeap h (str s) = Unit

abbrev pub EntriesIn : Heap → Entries → Type 0
EntriesIn h [] = Unit
EntriesIn h ((k, v) ∷ rest) = InHeap h v × EntriesIn h rest

abbrev pub ObjectIn : Heap → Object → Type 0
ObjectIn h (mapping entries) = EntriesIn h entries
ObjectIn h (sequence items) = All (InHeap h) items

-- No reference leads out of the heap.
pub record IsClosed (h : Heap) : Type 0 where
  pub objects : (i : ℕ) → i < h.size → ObjectIn h (h.object i)

-- A deeper bound accepts no less.
json_entries_mono :
    (p q : Value → Bool)
    → ((v : Value) → p v ≡ true → q v ≡ true)
    → (es : Entries) → json_entries p es ≡ true
    → json_entries q es ≡ true
json_entries_mono p q m [] h = refl
json_entries_mono p q m ((k, v) ∷ es) h =
    let ih = json_entries_mono p q m es in ground (arith, ih, m v)

json_items_mono :
    (p q : Value → Bool)
    → ((v : Value) → p v ≡ true → q v ≡ true)
    → (vs : List Value) → json_items p vs ≡ true
    → json_items q vs ≡ true
json_items_mono p q m [] h = refl
json_items_mono p q m (v ∷ vs) h = let ih = json_items_mono p q m vs in ground (arith, ih, m v)

json_object_mono :
    (p q : Value → Bool)
    → ((v : Value) → p v ≡ true → q v ≡ true)
    → (o : Object) → json_object p o ≡ true
    → json_object q o ≡ true
json_object_mono p q m (mapping es) h = json_entries_mono p q m es h
json_object_mono p q m (sequence vs) h = json_items_mono p q m vs h

pub json_at_mono :
    (h : Heap) (n : ℕ) (v : Value) → json_at h n v ≡ true → json_at h (suc n) v ≡ true
unfolding json_at
json_at_mono h zero v e = cc
json_at_mono h (suc n) (ref i) e =
    json_object_mono (json_at h n) (json_at h (suc n)) (json_at_mono h n) (h.object i) e
json_at_mono h (suc n) (opaque class) e = e
json_at_mono h (suc n) null e = refl
json_at_mono h (suc n) (bool b) e = refl
json_at_mono h (suc n) (int k) e = refl
json_at_mono h (suc n) (float k) e = refl
json_at_mono h (suc n) (str s) e = refl

-- How many ids below `n` are not active.
pub free : List ℕ → ℕ → ℕ
free active zero = 0
free active (suc n) = (if active_in n active then 0 else 1) + free active n

pub free-le : (active : List ℕ) (n : ℕ) → free active n ≤ n
unfolding free
free-le active zero = omega arith
free-le active (suc n) = ground (arith, free-le active n)

free-cons_le : (i : ℕ) (active : List ℕ) (n : ℕ) → free (i ∷ active) n ≤ free active n
unfolding free
free-cons_le i active zero = omega arith
free-cons_le i active (suc n) = ground (arith, free-cons_le i active n)

pub free-cons :
    (i : ℕ) (active : List ℕ) (n : ℕ)
    → i < n
    → active_in i active ≡ false
    → free (i ∷ active) n < free active n
unfolding free
free-cons i active zero lt new = elim lt [ ]
free-cons i active (suc n) lt new = ground (arith, free-cons i active n, free-cons_le i active n)
