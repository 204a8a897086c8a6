-- ===== src/Base/Results.antt =====
-- Fallible C++ code. A failed `Is_True` (trace/u_trace.h) ends the process with a message, and
-- what the C++ standard leaves undefined is a fault of its own.
use mathlib.Core.Path.{◌≡◌, refl}
use mathlib.Core.Logic.{◌≢◌, ◌⊎◌, inl, inr}
use mathlib.Core.Bool.{Bool, true, false}
use mathlib.Core.Option.{Option, none, some}

pub data Fault : Type 0 where
  assertion undefined : Fault

pub data Result {ℓ} (A : Type ℓ) : Type ℓ where
  ok : A → Result A
  err : Fault → Result A

infixl 5 ◌>>=◌ ◌>>◌
abbrev pub ◌>>=◌ {ℓ κ} : {A : Type ℓ} {B : Type κ} → Result A → (A → Result B) → Result B
ok value >>= next = next value
err fault >>= next = err fault

-- `Is_True(cond, msg)` of the debug build.
abbrev pub is_true : Bool → Result (Unit {0})
is_true true = ok tt
is_true false = err Fault.assertion

abbrev pub ◌>>◌ {ℓ} : {B : Type ℓ} → Result (Unit {0}) → Result B → Result B
first >> rest = first >>= λ done. rest

-- A use that is defined only where the test holds.
abbrev pub defined_if : Bool → Result (Unit {0})
defined_if true = ok tt
defined_if false = err Fault.undefined

-- An array access, undefined out of bounds.
abbrev pub in_bounds {ℓ} : {A : Type ℓ} → Option A → Result A
in_bounds (some a) = ok a
in_bounds none = err Fault.undefined

-- A successful bind, taken apart where the parts stay shut.
pub >>=-eq-ok {ℓ κ} :
    {A : Type ℓ} {B : Type κ} (first : Result A) (next : A → Result B) {b : B}
    → (first >>= next) ≡ ok b
    → (value : A) × (first ≡ ok value) × (next value ≡ ok b)
>>=-eq-ok (ok value) next bound = (value, refl, bound)
>>=-eq-ok (err fault) next bound = cc

pub ok-injective {ℓ} : {A : Type ℓ} {a b : A} → ok a ≡ ok b → a ≡ b
ok-injective h = cc

pub Result-cases {ℓ} :
    {A : Type ℓ} (r : Result A) → ((a : A) × (r ≡ ok a)) ⊎ ((f : Fault) × (r ≡ err f))
Result-cases (ok a) = inl (a, refl)
Result-cases (err f) = inr (f, refl)

pub err-ne-ok {ℓ} : {A : Type ℓ} {f : Fault} {a : A} → err f ≢ ok a
err-ne-ok h = cc
