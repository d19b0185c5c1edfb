-- ===== src/Shape.antt =====
-- continuo_python_runtime/shape.py. `str.casefold` is a parameter.
pub mod Match
use continuo_python_runtime.Base.{
  String, ◌==◌, Bool, true, false, ◌&&◌, Option, none, some, List, [], ◌∷◌, map, is_empty, beq,
  if◌then◌else◌,
}
use continuo_python_runtime.Contract.Model.{Column}
use continuo_python_runtime.Engine.{LiveColumn}

pub record NullabilityDiff : Type 0 where
  pub name : String
  pub declared : Bool
  pub live : Bool

pub record ShapeDiff : Type 0 where
  pub missing : List String
  pub unexpected : List String
  pub nullability : List NullabilityDiff

-- `not diff`
abbrev pub is_match : ShapeDiff → Bool
is_match d = is_empty d.missing && is_empty d.unexpected && is_empty d.nullability

abbrev skipped :
    LiveColumn → Option (LiveColumn × List LiveColumn) → Option (LiveColumn × List LiveColumn)
skipped c none = none
skipped c (some (found, rest)) = some (found, c ∷ rest)

-- The first column that passes the test, and the others once it is removed.
unfoldable pub take_first :
    (LiveColumn → Bool) → List LiveColumn → Option (LiveColumn × List LiveColumn)
take_first p [] = none
take_first p (c ∷ cs) = if p c then some (c, cs) else skipped c (take_first p cs)

abbrev pub or_else : {A : Type 0} → Option A → Option A → Option A
or_else none o = o
or_else (some a) o = some a

abbrev found_none : String → ShapeDiff → ShapeDiff
found_none name d = record {
  missing = name ∷ d.missing;
  unexpected = d.unexpected;
  nullability = d.nullability;
}

abbrev pub found_live : Column → LiveColumn → ShapeDiff → ShapeDiff
found_live declared live d = if beq live.nullable declared.nullable then d else record {
  missing = d.missing;
  unexpected = d.unexpected;
  nullability =
      record { name = declared.name; declared = declared.nullable; live = live.nullable }
      ∷ d.nullability;
}

module _ (casefold : String → String) where
  -- The live column that a declared one is paired with, exact names first, and the remaining ones.
  unfoldable pub pick : Column → List LiveColumn → Option (LiveColumn × List LiveColumn)
  pick declared remaining =
      or_else (take_first (λ c. c.name == declared.name) remaining)
        (take_first (λ c. casefold c.name == casefold declared.name) remaining)

  unfoldable pub shape_diff : List Column → List LiveColumn → ShapeDiff
  shape_diff [] remaining = record {
    missing = [];
    unexpected = map (λ c. c.name) remaining;
    nullability = [];
  }
  shape_diff (declared ∷ rest) remaining = elim (pick declared remaining) [
    | none ↦ found_none declared.name (shape_diff rest remaining)
    | some (live, others) ↦ found_live declared live (shape_diff rest others)
  ]
