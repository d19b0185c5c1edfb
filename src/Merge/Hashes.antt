-- ===== src/Merge/Hashes.antt =====
-- continuo_python_runtime/hashing.py. Digests are texts, as their code points.
use continuo_python_runtime.Base.{
  ℕ, String, ◌==◌, Bool, true, false, not, List, [], ◌∷◌, ◌++◌, map, keep, elem, if◌then◌else◌,
}
use continuo_python_runtime.Base.Text.{codes, is_space}
use continuo_python_runtime.Base.Sorting.{Text, sort, itself}
use continuo_python_runtime.Contract.Value.{Entries}
use continuo_python_runtime.Contract.Model.{Column}

-- The value of a wire entry's key.
pub data Field : Type 0 where
  text : String → Field
  digest : Text → Field
  queries : List (String × Text) → Field
  columns : List Column → Field
  names : List String → Field
  settings : Entries → Field
  minutes : ℕ → Field

abbrev pub Entry : Type 0
Entry = List (String × Field)

abbrev pub hash_part_fields : List String
hash_part_fields = "source_hash" ∷ "shared_code_hash" ∷ "config_hash" ∷ []

abbrev pub non_hashed_fields : List String
non_hashed_fields = "timeout_minutes" ∷ []

abbrev pub unhashed : List String
unhashed = "content_hash" ∷ (hash_part_fields ++ non_hashed_fields)

abbrev grow : ℕ → List Text → List Text
grow c [] = (c ∷ []) ∷ []
grow c (w ∷ ws) = (c ∷ w) ∷ ws

abbrev extended : Bool → ℕ → List Text → List Text
extended true c ws = grow c ws
extended false c ws = (c ∷ []) ∷ ws

abbrev is_inside : Text → Bool
is_inside [] = false
is_inside (d ∷ s) = not (is_space d)

-- `s.split()`: the runs of characters that are no space.
unfoldable pub words : Text → List Text
unfolding is_space
words [] = []
words (c ∷ s) = if is_space c then words s else extended (is_inside s) c (words s)

-- `" ".join(ws)`
abbrev pub spaced : List Text → Text
spaced [] = []
spaced (w ∷ []) = w
spaced (w ∷ v ∷ ws) = w ++ (b' ' ∷ spaced (v ∷ ws))

abbrev pub normalize : Field → Field
normalize (queries reads) = queries (map (λ (name, sql). (name, spaced (words sql))) reads)
normalize field = field

abbrev pub normalize_reads : String × Field → String × Field
normalize_reads (key, value) = if key == "reads" then (key, normalize value) else (key, value)

-- `canonical_entry`
unfoldable pub canonical_entry : Entry → Entry
unfolding words
canonical_entry entry = map normalize_reads (keep (λ (key, _). not (elem key unhashed)) entry)

-- sha256 as a hex digest, `str.encode` and `json.dumps` with sorted keys.
pub record Hashing (Bytes : Type 0) : Type 0 where
  pub sha256 : Bytes → Text
  pub encode : Text → Bytes
  pub dumps : Entry → Text

abbrev join : List Text → Text
join [] = []
join (t ∷ ts) = t ++ join ts

module _ {Bytes : Type 0} (hashing : Hashing Bytes) where
  abbrev pub source_hash : Bytes → Text
  source_hash script = hashing.sha256 script

  abbrev folded : List Text → Text
  folded [] = []
  folded (d ∷ ds) = hashing.sha256 (hashing.encode (join (d ∷ ds)))

  unfoldable pub shared_code_hash : List Bytes → Text
  shared_code_hash members = folded (sort itself (map hashing.sha256 members))

  unfoldable pub config_hash : Entry → Text
  config_hash entry = hashing.sha256 (hashing.encode (hashing.dumps (canonical_entry entry)))

  unfoldable pub content_hash_fold : Text → Text → Text → Text
  content_hash_fold source shared config =
      codes "sha256:"
      ++ hashing.sha256 (hashing.encode (source ++ (b'|' ∷ (shared ++ (b'|' ∷ config)))))

  unfoldable pub hash_parts : Entry → Bytes → List Bytes → Entry
  hash_parts entry script members =
      let s = source_hash script in
      let sh = shared_code_hash members in
      let c = config_hash entry in
      ("source_hash", digest s)
      ∷ ("shared_code_hash", digest sh)
      ∷ ("config_hash", digest c)
      ∷ ("content_hash", digest (content_hash_fold s sh c))
      ∷ []
