-- ===== src/Base/Outcome.antt =====
-- Runs of C code: a value, or undefined behaviour, which ends the model's run.
use mathlib.Core.Logic.{◌⊎◌, inl, inr}
use mathlib.Core.Option.{Option, none, some}
use mathlib.Core.Path.{◌≡◌, refl}

-- What goes wrong in memory: a null pointer is followed, an array or a buffer is written or read
-- past its end, or an object that no longer exists is used.
pub data Fault : Type 0 where
  null_pointer overflow out_of_bounds dangling : Fault

pub data Run {ℓ} (A : Type ℓ) : Type ℓ where
  fault : (reason : Fault) → Run A
  ok : (value : A) → Run A

-- What follows a run that ended in a value; `do` stands for it.
infixl 5 ◌>>=◌
abbrev pub ◌>>=◌ {ℓ κ} : {A : Type ℓ} {B : Type κ} (m : Run A) (next : (value : A) → Run B) → Run B
fault reason >>= next = fault reason
ok value >>= next = next value

-- Following a pointer that may be null.
abbrev pub deref {ℓ} : {A : Type ℓ} → Option A → Run A
deref none = fault null_pointer
deref (some a) = ok a

-- The run ends without a fault, in a value of which `P` holds.
abbrev pub Returns {ℓ κ} : {A : Type ℓ} (run : Run A) (P : A → Type κ) → Type (ℓ ⊔ κ)
Returns {A} run P = (value : A) × (run ≡ ok value) × P value

-- Inversion of a bind that returned.
pub >>=-eq-ok {ℓ κ} :
    {A : Type ℓ} {B : Type κ} (run : Run A) (next : A → Run B) {result : B}
    → (run >>= next) ≡ ok result
    → (value : A) × (run ≡ ok value) × (next value ≡ ok result)
>>=-eq-ok (fault reason) next ended = cc
>>=-eq-ok (ok value) next ended = (value, refl, ended)

pub Run-cases {ℓ} :
    {A : Type ℓ} (r : Run A) → ((a : A) × (r ≡ ok a)) ⊎ ((e : Fault) × (r ≡ fault e))
Run-cases (ok a) = inl (a, refl)
Run-cases (fault e) = inr (e, refl)
