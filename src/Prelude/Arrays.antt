-- ===== src/Prelude/Arrays.antt =====
-- Overwriting a part of an array, the result of the block copies of libc.
use Prim.Native.Nat.{ℕ, zero, suc, ◌+◌, ◌-◌, ◌≤◌}
use mathlib.Core.Path.{◌≡◌, refl, ap}
use mathlib.Core.Bool.{◌&&◌}
use mathlib.Core.List.{List, [], ◌∷◌, ◌++◌}
use mathlib.Core.Option.{some}
use native.Mathlib.Omega.{arith}
use bunos.Prelude.Tests.{ltb, leb, if◌then◌else◌}
use bunos.Prelude.Lists.{
  length, get_elem?, set, take, drop, length-take, length-drop, get_elem?-take, get_elem?-drop,
}

module _ {ℓ} {A : Type ℓ} where
  -- `xs` written over `ys` from index `d` on; what falls off the end is dropped.
  abbrev pub overwrite : List A → ℕ → List A → List A
  overwrite [] d xs = []
  overwrite (y ∷ ys) (suc d) xs = y ∷ overwrite ys d xs
  overwrite (y ∷ ys) zero [] = y ∷ ys
  overwrite (y ∷ ys) zero (x ∷ xs) = x ∷ overwrite ys zero xs

module _ {ℓ} {A : Type ℓ} where
  pub length-overwrite :
      (ys : List A) (d : ℕ) (xs : List A) → length (overwrite ys d xs) ≡ length ys
  length-overwrite [] d xs = refl
  length-overwrite (y ∷ ys) (suc d) xs = ap suc (length-overwrite ys d xs)
  length-overwrite (y ∷ ys) zero [] = refl
  length-overwrite (y ∷ ys) zero (x ∷ xs) = ap suc (length-overwrite ys zero xs)

  pub overwrite-nil : (ys : List A) (d : ℕ) → overwrite ys d [] ≡ ys
  overwrite-nil [] d = refl
  overwrite-nil (y ∷ ys) zero = refl
  overwrite-nil (y ∷ ys) (suc d) = ap (λ t. y ∷ t) (overwrite-nil ys d)

  pub overwrite-set :
      (ys : List A) (p : ℕ) (x : A) (xs : List A)
      → overwrite (set ys p x) (suc p) xs ≡ overwrite ys p (x ∷ xs)
  overwrite-set [] p x xs = refl
  overwrite-set (y ∷ ys) zero x xs = refl
  overwrite-set (y ∷ ys) (suc p) x xs = ap (λ t. y ∷ t) (overwrite-set ys p x xs)

  pub take-drop-suc :
      (k p : ℕ) (xs : List A) {x : A}
      → get_elem? xs p ≡ some x
      → take (suc k) (drop p xs) ≡ x ∷ take k (drop (suc p) xs)
  take-drop-suc k p [] h = cc
  take-drop-suc k zero (x ∷ xs) h = ground arith
  take-drop-suc k (suc p) (x ∷ xs) h = take-drop-suc k p xs h

-- At `Type 0`, where the arithmetic of the index can be split on.
module _ {A : Type 0} where
  pub get_elem?-overwrite :
      (ys : List A) (d : ℕ) (xs : List A) (j : ℕ)
      → d + length xs ≤ length ys
      → get_elem? (overwrite ys d xs) j
        ≡ (if leb d j && ltb j (d + length xs) then get_elem? xs (j - d) else get_elem? ys j)
  get_elem?-overwrite [] d [] j h = ground arith
  get_elem?-overwrite [] d (x ∷ xs) j h = absurd (omega arith)
  get_elem?-overwrite (y ∷ ys) (suc d) xs zero h = ground arith
  get_elem?-overwrite (y ∷ ys) (suc d) xs (suc j) h = ground (arith, get_elem?-overwrite ys d xs j)
  get_elem?-overwrite (y ∷ ys) zero [] j h = ground arith
  get_elem?-overwrite (y ∷ ys) zero (x ∷ xs) zero h = ground arith
  get_elem?-overwrite (y ∷ ys) zero (x ∷ xs) (suc j) h =
      ground (arith, get_elem?-overwrite ys zero xs j)

  pub length-block :
      (k s : ℕ) (src : List A) → s + k ≤ length src → length (take k (drop s src)) ≡ k
  length-block k s src h = omega (arith, length-take {0} k (drop s src), length-drop {0} s src)

  -- A block of `src` written over `ys`, index by index.
  pub get_elem?-overwrite_block :
      (ys : List A) (d k s : ℕ) (src : List A) (j : ℕ)
      → d + k ≤ length ys
      → s + k ≤ length src
      → get_elem? (overwrite ys d (take k (drop s src))) j
        ≡ (if leb d j && ltb j (d + k) then get_elem? src (s + (j - d)) else get_elem? ys j)
  get_elem?-overwrite_block ys d k s src j h e = ground (
    arith,
    length-block k s src e,
    get_elem?-overwrite ys d (take k (drop s src)) j,
    get_elem?-take k (drop s src) (j - d),
    get_elem?-drop s src (j - d),
  )

-- Two pieces, one behind the other.
pub overwrite-overwrite {ℓ} :
    {A : Type ℓ} (ys : List A) (d : ℕ) (xs zs : List A)
    → overwrite (overwrite ys d xs) (d + length xs) zs ≡ overwrite ys d (xs ++ zs)
overwrite-overwrite [] d xs zs = refl
overwrite-overwrite (y ∷ ys) (suc d) xs zs =
    let e : suc d + length xs ≡ suc (d + length xs) = omega arith in
    rw e (ap (λ t. y ∷ t) (overwrite-overwrite ys d xs zs))
overwrite-overwrite (y ∷ ys) zero [] zs = let e : 0 + length {A = ℕ} [] ≡ 0 = omega arith in refl
overwrite-overwrite (y ∷ ys) zero (x ∷ xs) zs =
    let e : 0 + suc (length xs) ≡ suc (0 + length xs) = omega arith in
    rw e (ap (λ t. x ∷ t) (overwrite-overwrite ys zero xs zs))

-- All of it.
pub overwrite_all {ℓ} :
    {A : Type ℓ} (ys xs : List A) → length ys ≡ length xs → overwrite ys 0 xs ≡ xs
overwrite_all [] [] h = refl
overwrite_all [] (x ∷ xs) h = absurd (omega arith)
overwrite_all (y ∷ ys) [] h = absurd (omega arith)
overwrite_all (y ∷ ys) (x ∷ xs) h = ap (λ t. x ∷ t) (overwrite_all ys xs (omega arith))
