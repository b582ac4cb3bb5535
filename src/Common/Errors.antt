-- ===== src/Common/Errors.antt =====
-- How a C++ call can end early: a failed `assert` (the build is a debug build, so it aborts), an
-- explicit `abort()`, or an exception of the standard library. `Result` carries it.
use mathlib.Core.Path.{◌≡◌, refl}
use mathlib.Core.Bool.{Bool, true, false}

pub data Fault : Type 0 where
  assertion : Fault
  length_error : Fault
  aborted : Fault
  null_pointer : Fault

-- A call ends with its value or early.
pub data Result {ℓ} (T : Type ℓ) : Type ℓ where
  err : Fault → Result T
  ok : T → Result T

infixl 5 ◌>>=◌
-- The calls of a function one after the other; a fault skips the rest.
abbrev pub ◌>>=◌ {ℓ κ} : {S : Type ℓ} {T : Type κ} → Result S → (S → Result T) → Result T
◌>>=◌ (err fault) rest = err fault
◌>>=◌ (ok value) rest = rest value

infixl 5 ◌>>◌
-- The same after an assertion, which has no value.
abbrev pub ◌>>◌ {κ} : {T : Type κ} → Result (Unit {0}) → Result T → Result T
first >> rest = first >>= λ checked. rest

-- `assert(b)`
abbrev pub assert : Bool → Result (Unit {0})
assert true = ok tt
assert false = err assertion

pub assert-eq-ok : (b : Bool) {u : Unit {0}} → assert b ≡ ok u → b ≡ true
assert-eq-ok true h = refl
assert-eq-ok false h = cc
