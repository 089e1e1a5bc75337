-- ===== src/Prelude/Outcome.antt =====
-- Outcomes of the C++ code: `CHECK` and `throwErr` of common_utils/check.h throw, and a read
-- outside an object is undefined behaviour.
use mathlib.Core.Bool.{Bool, true, false}
use mathlib.Core.Option.{Option, none, some}
use mathlib.Core.Path.{◌≡◌, refl}
use mathlib.Core.Logic.{◌⊎◌, inl, inr}

-- What is thrown, one constructor for each kind of message.
pub data Error : Type 0 where
  incorrect_raw : Error
  out_of_range : Error
  incorrect_type : Error
  not_set : Error
  empty_hash : Error
  empty_name : Error
  already_exists : Error
  not_found : Error
  ups : Error
  incorrect_count : Error
  end_of_array : Error
  unsupported : Error
  not_success : Error

-- `fault` is undefined behaviour.
pub data Result {ℓ} (A : Type ℓ) : Type ℓ where
  ok : A → Result A
  err : Error → Result A
  fault : Result A

infixl 5 ◌>>=◌ ◌>>◌
abbrev pub ◌>>=◌ {ℓ κ} : {A : Type ℓ} {B : Type κ} → Result A → (A → Result B) → Result B
ok a >>= f = f a
err e >>= f = err e
fault >>= f = fault

abbrev pub ◌>>◌ {ℓ} : {B : Type ℓ} → Result (Unit {0}) → Result B → Result B
m >> k = m >>= λ _. k

-- CHECK(condition, message)
abbrev pub check : Bool → Error → Result (Unit {0})
check true e = ok tt
check false e = err e

abbrev pub or_fail {ℓ} : {A : Type ℓ} → Option A → Error → Result A
or_fail none e = err e
or_fail (some a) e = ok a

-- A chain that returns ran through both of its parts.
pub chain_ok {ℓ κ} :
    {A : Type ℓ} {B : Type κ} (first : Result A) (rest : A → Result B) {last : B}
    → (do a ← first; rest a) ≡ ok last
    → (middle : A) × (first ≡ ok middle) × (rest middle ≡ ok last)
chain_ok fault rest = λ h. cc
chain_ok (err thrown) rest = λ h. cc
chain_ok (ok middle) rest = λ h. (middle, refl, h)

pub check-eq-ok : (b : Bool) (e : Error) {u : Unit {0}} → check b e ≡ ok u → b ≡ true
check-eq-ok true e h = refl
check-eq-ok false e h = cc

pub Result-cases {ℓ} :
    {A : Type ℓ} (r : Result A)
    → ((a : A) × (r ≡ ok a)) ⊎ (((e : Error) × (r ≡ err e)) ⊎ (r ≡ fault))
Result-cases (ok a) = inl (a, refl)
Result-cases (err e) = inr (inl (e, refl))
Result-cases fault = inr (inr refl)
