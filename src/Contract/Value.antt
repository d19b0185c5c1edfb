-- ===== src/Contract/Value.antt =====
-- What `yaml.load` builds: scalars, and references into a graph of lists and dicts. An alias in
-- the document makes two references to one object, so the graph may share objects and have cycles.
use continuo_python_runtime.Base.{
  ◌||◌, not, eqb, is_empty, ℕ, String, Bool, true, false, Option, none, some, List, [], ◌∷◌, ◌==◌,
  all, if◌then◌else◌,
}

-- `negsuc n` is -(n + 1).
pub data ℤ : Type 0 where
  pos : ℕ → ℤ
  negsuc : ℕ → ℤ

-- A float is its bit pattern (nothing here computes with it). `opaque` is any other Python object
-- that YAML can build (a date, bytes, a set), by the name of its class.
pub data Value : Type 0 where
  null : Value
  bool : Bool → Value
  int : ℤ → Value
  float : ℕ → Value
  str : String → Value
  ref : ℕ → Value
  opaque : String → Value

abbrev pub Entries : Type 0
Entries = List (Value × Value)

pub data Object : Type 0 where
  mapping : Entries → Object
  sequence : List Value → Object

-- The objects of the loaded documents; `id(x)` is the number of `x`, below `size`.
pub record Heap : Type 0 where
  pub size : ℕ
  pub object : ℕ → Object

abbrev mapping_of : Object → Option Entries
mapping_of (mapping entries) = some entries
mapping_of (sequence items) = none

abbrev sequence_of : Object → Option (List Value)
sequence_of (mapping entries) = none
sequence_of (sequence items) = some items

-- `isinstance(v, dict)`, with its items.
abbrev pub as_dict : Heap → Value → Option Entries
as_dict h (ref i) = mapping_of (h.object i)
as_dict h null = none
as_dict h (bool b) = none
as_dict h (int n) = none
as_dict h (float n) = none
as_dict h (str s) = none
as_dict h (opaque s) = none

-- `isinstance(v, list)`, with its items.
abbrev pub as_list : Heap → Value → Option (List Value)
as_list h (ref i) = sequence_of (h.object i)
as_list h null = none
as_list h (bool b) = none
as_list h (int n) = none
as_list h (float n) = none
as_list h (str s) = none
as_list h (opaque s) = none

abbrev pub as_str : Value → Option String
as_str (str s) = some s
as_str null = none
as_str (bool b) = none
as_str (int n) = none
as_str (float n) = none
as_str (ref i) = none
as_str (opaque s) = none

abbrev pub as_bool : Value → Option Bool
as_bool (bool b) = some b
as_bool null = none
as_bool (int n) = none
as_bool (float n) = none
as_bool (str s) = none
as_bool (ref i) = none
as_bool (opaque s) = none

abbrev pub is_key : String → Value → Bool
is_key k (str j) = j == k
is_key k null = false
is_key k (bool b) = false
is_key k (int n) = false
is_key k (float n) = false
is_key k (ref i) = false
is_key k (opaque s) = false

-- `raw.get(k)`, with `none` for a missing key.
unfoldable pub get : String → Entries → Option Value
get k [] = none
get k ((j, v) ∷ rest) = if is_key k j then some v else get k rest

-- `raw.get(k, default)`
abbrev pub get_or : String → Value → Entries → Value
get_or k default raw = elim (get k raw) [ none ↦ default | some v ↦ v ]

-- The class by which Python orders a value; values of two classes cannot be compared. A datetime with
-- an offset counts as of a class of its own, since Python does not compare it with one without.
pub data Order : Type 0 where
  number text unordered : Order
  named : String → Order

abbrev order_of : Value → Order
order_of null = unordered
order_of (bool b) = number
order_of (int n) = number
order_of (float n) = number
order_of (str s) = text
order_of (ref i) = unordered
order_of (opaque class) = named class

abbrev same_order : Order → Order → Bool
same_order number number = true
same_order text text = true
same_order (named a) (named b) = a == b
same_order _ _ = false

-- Whether `sorted` of these keys returns; it raises `TypeError` where two of them have no order.
unfoldable pub sortable : List Value → Bool
sortable [] = true
sortable (v ∷ vs) = all (λ w. same_order (order_of v) (order_of w)) vs

-- `bool(value)` of what `json.loads` gives. A float is zero by its bits, of either sign.
abbrev is_full : Object → Bool
is_full (mapping entries) = not (is_empty entries)
is_full (sequence items) = not (is_empty items)

unfoldable pub truthy : Heap → Value → Bool
truthy h null = false
truthy h (bool b) = b
truthy h (int (pos n)) = not (eqb n 0)
truthy h (int (negsuc n)) = true
truthy h (float bits) = not (eqb bits 0 || eqb bits 9223372036854775808)
truthy h (str s) = not (s == "")
truthy h (ref i) = is_full (h.object i)
truthy h (opaque class) = true
