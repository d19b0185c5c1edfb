-- ===== src/Base/Exceptions.antt =====
-- continuo_python_runtime/errors.py, and results of code that may raise. An exception keeps the
-- constant text of its message (and the label of a contract error); the values that the source
-- interpolates into it are left out.
use Prim.Native.String.{String}
use mathlib.Core.Path.{◌≡◌, refl}
use mathlib.Core.Bool.{Bool, true, false}

-- The five classes below `HarnessError`, and the ones outside it that the runtime tells apart.
pub data Exception : Type 0 where
  contract_error : String → String → Exception
  read_error script_error conform_error load_error : String → Exception
  duplicate_key_error value_error other_error : String → Exception

unfoldable pub is_harness_error : Exception → Bool
is_harness_error (contract_error label text) = true
is_harness_error (read_error text) = true
is_harness_error (script_error text) = true
is_harness_error (conform_error text) = true
is_harness_error (load_error text) = true
is_harness_error _ = false

pub data Result {ℓ} (X : Type ℓ) : Type ℓ where
  ok : X → Result X
  err : Exception → Result X

-- `if not test: raise problem`
abbrev pub require : Bool → Exception → Result (Unit {0})
require false problem = err problem
require true problem = ok tt

pub require-eq-ok : (test : Bool) (problem : Exception) → require test problem ≡ ok tt → test ≡ true
require-eq-ok false problem passed = cc
require-eq-ok true problem passed = refl

pub ok-injective {ℓ} : {X : Type ℓ} {x y : X} → ok x ≡ ok y → x ≡ y
ok-injective same = cc

infixl 5 ◌>>=◌ ◌>>◌
-- Shut where proofs split a chain by `>>=-eq-ok`; what runs a chain names it on its `unfolding` line.
unfoldable pub ◌>>=◌ {ℓ κ} : {X : Type ℓ} {Y : Type κ} → Result X → (X → Result Y) → Result Y
err problem >>= next = err problem
ok x >>= next = next x

pub >>=-eq-ok {ℓ κ} :
    {X : Type ℓ} {Y : Type κ} {y : Y} (first : Result X) (next : X → Result Y)
    → (first >>= next) ≡ ok y
    → (x : X) × (first ≡ ok x) × (next x ≡ ok y)
unfolding ◌>>=◌
>>=-eq-ok (err problem) next passed = cc
>>=-eq-ok (ok x) next passed = (x, refl, passed)

abbrev pub ◌>>◌ {κ} : {Y : Type κ} → Result (Unit {0}) → Result Y → Result Y
first >> next = first >>= λ _. next

pub >>=-ok {ℓ κ} :
    {X : Type ℓ} {Y : Type κ} {x : X} {r : Result Y} (first : Result X) (next : X → Result Y)
    → first ≡ ok x
    → next x ≡ r
    → (first >>= next) ≡ r
unfolding ◌>>=◌
>>=-ok first next h k = rw h k
