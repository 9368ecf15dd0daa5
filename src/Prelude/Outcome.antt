-- ===== src/Prelude/Outcome.antt =====
-- What a run of kernel code comes to. `panic` is a failed ASSERT, KERNEL_PANIC, TODO or
-- UNREACHABLE, none of which returns; `fault` is an access outside the storage that the code was
-- given, which the language leaves undefined; `timeout` says that a model's fuel ran out, and is
-- excluded by theorem wherever fuel is given.
use mathlib.Core.Path.{◌≡◌, refl}
use mathlib.Core.Bool.{Bool, true, false}
use mathlib.Core.Option.{Option, none, some}
use mathlib.Core.List.{List}
use Prim.Native.Nat.{ℕ}
use bunos.Prelude.Tests.{ltb, if◌then◌else◌}
use bunos.Prelude.Lists.{length, set}

pub data Result {ℓ} (A : Type ℓ) : Type ℓ where
  timeout panic fault : Result A
  ok : A → Result A

module _ {ℓ κ} {A : Type ℓ} {B : Type κ} where
  infixl 5 ◌>>=◌
  -- The first step that does not return ends the run.
  abbrev pub ◌>>=◌ : (m : Result A) (next : A → Result B) → Result B
  timeout >>= next = timeout
  panic >>= next = panic
  fault >>= next = fault
  ok a >>= next = next a

  -- A run that returned has returned from its first step.
  pub >>=-eq-ok :
      (m : Result A) (next : A → Result B) {b : B}
      → (m >>= next) ≡ ok b
      → (a : A) × (next a ≡ ok b) × (m ≡ ok a)
  >>=-eq-ok timeout next h = cc
  >>=-eq-ok panic next h = cc
  >>=-eq-ok fault next h = cc
  >>=-eq-ok (ok a) next h = (a, h, refl)

-- Runs that agree after their first step agree.
pub >>=_ext {ℓ κ} :
    {A : Type ℓ} {B : Type κ} (m : Result A) (f g : A → Result B)
    → ((a : A) → f a ≡ g a)
    → (m >>= f) ≡ (m >>= g)
>>=_ext timeout f g h = refl
>>=_ext panic f g h = refl
>>=_ext fault f g h = refl
>>=_ext (ok a) f g h = h a

module _ {ℓ} {B : Type ℓ} where
  infixl 5 ◌>>◌
  abbrev pub ◌>>◌ : (first : Result (Unit {0})) (rest : Result B) → Result B
  first >> rest = elim first [ ok _ ↦ rest | timeout ↦ timeout | panic ↦ panic | fault ↦ fault ]

-- ASSERT and its variants.
abbrev pub check : Bool → Result (Unit {0})
check true = ok tt
check false = panic

-- A read that may miss.
abbrev pub access {ℓ} : {A : Type ℓ} → Option A → Result A
access none = fault
access (some a) = ok a

-- A store into an array, checked against its length.
abbrev pub store {ℓ} : {A : Type ℓ} → List A → ℕ → A → Result (List A)
store xs i v = if ltb i (length xs) then ok (set xs i v) else fault
