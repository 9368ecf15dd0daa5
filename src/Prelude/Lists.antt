-- ===== src/Prelude/Lists.antt =====
-- Arrays as lists, measured and indexed by native numbers, under the library's names.
use Prim.Native.Nat.{ℕ, zero, suc, ◌+◌, ◌-◌, ◌≤◌, ◌<◌, min}
use mathlib.Core.Path.{◌≡◌, refl, ap}
use mathlib.Core.Logic.{◌≢◌}
use mathlib.Core.List.{List, [], ◌∷◌, ◌++◌, map}
use mathlib.Core.Option.{Option, none, some}
use native.Mathlib.Omega.{arith}
use bunos.Prelude.Tests.{ltb, if◌then◌else◌}

module _ {ℓ} {A : Type ℓ} where
  abbrev pub length : List A → ℕ
  length [] = 0
  length (x ∷ xs) = suc (length xs)

  abbrev pub get_elem? : List A → ℕ → Option A
  get_elem? [] i = none
  get_elem? (x ∷ xs) zero = some x
  get_elem? (x ∷ xs) (suc i) = get_elem? xs i

  abbrev pub get_or : List A → ℕ → A → A
  get_or [] i d = d
  get_or (x ∷ xs) zero d = x
  get_or (x ∷ xs) (suc i) d = get_or xs i d

  -- A write out of bounds changes nothing.
  abbrev pub set : List A → ℕ → A → List A
  set [] i v = []
  set (x ∷ xs) zero v = v ∷ xs
  set (x ∷ xs) (suc i) v = x ∷ set xs i v

  abbrev pub take : ℕ → List A → List A
  take zero xs = []
  take (suc n) [] = []
  take (suc n) (x ∷ xs) = x ∷ take n xs

  abbrev pub drop : ℕ → List A → List A
  drop zero xs = xs
  drop (suc n) [] = []
  drop (suc n) (x ∷ xs) = drop n xs

  abbrev pub replicate : ℕ → A → List A
  replicate zero a = []
  replicate (suc n) a = a ∷ replicate n a

  -- f i, f (i + 1), ..., n values.
  abbrev pub tabulate : (ℕ → A) → ℕ → ℕ → List A
  tabulate f i zero = []
  tabulate f i (suc n) = f i ∷ tabulate f (i + 1) n

module _ {ℓ} {A : Type ℓ} where
  pub length-append : (xs ys : List A) → length (xs ++ ys) ≡ length xs + length ys
  length-append [] ys = omega arith
  length-append (x ∷ xs) ys = omega (arith, length-append xs ys)

  pub length-set : (xs : List A) (i : ℕ) (v : A) → length (set xs i v) ≡ length xs
  length-set [] i v = refl
  length-set (x ∷ xs) zero v = refl
  length-set (x ∷ xs) (suc i) v = ap suc (length-set xs i v)

  pub length-take : (n : ℕ) (xs : List A) → length (take n xs) ≡ min n (length xs)
  length-take zero xs = omega arith
  length-take (suc n) [] = omega arith
  length-take (suc n) (x ∷ xs) = omega (arith, length-take n xs)

  pub length-drop : (n : ℕ) (xs : List A) → length (drop n xs) ≡ length xs - n
  length-drop zero xs = omega arith
  length-drop (suc n) [] = omega arith
  length-drop (suc n) (x ∷ xs) = omega (arith, length-drop n xs)

  pub length-replicate : (n : ℕ) (a : A) → length (replicate n a) ≡ n
  length-replicate zero a = refl
  length-replicate (suc n) a = ap suc (length-replicate n a)

  pub length-tabulate : (f : ℕ → A) (i n : ℕ) → length (tabulate f i n) ≡ n
  length-tabulate f i zero = refl
  length-tabulate f i (suc n) = ap suc (length-tabulate f (i + 1) n)

module _ {ℓ} {A : Type ℓ} where
  pub get_elem?-some : (xs : List A) (i : ℕ) → i < length xs → (x : A) × (get_elem? xs i ≡ some x)
  get_elem?-some [] i h = absurd (omega arith)
  get_elem?-some (x ∷ xs) zero h = (x, refl)
  get_elem?-some (x ∷ xs) (suc i) h = get_elem?-some xs i (omega arith)

  pub get_elem?-none : (xs : List A) (i : ℕ) → length xs ≤ i → get_elem? xs i ≡ none
  get_elem?-none [] i h = refl
  get_elem?-none (x ∷ xs) zero h = absurd (omega arith)
  get_elem?-none (x ∷ xs) (suc i) h = get_elem?-none xs i (omega arith)

  pub get_elem?-eq-get_or :
      (xs : List A) (i : ℕ) (d : A) → i < length xs → get_elem? xs i ≡ some (get_or xs i d)
  get_elem?-eq-get_or [] i d h = absurd (omega arith)
  get_elem?-eq-get_or (x ∷ xs) zero d h = refl
  get_elem?-eq-get_or (x ∷ xs) (suc i) d h = get_elem?-eq-get_or xs i d (omega arith)

  pub get_elem?-set_self :
      (xs : List A) (i : ℕ) (v : A) → i < length xs → get_elem? (set xs i v) i ≡ some v
  get_elem?-set_self [] i v h = absurd (omega arith)
  get_elem?-set_self (x ∷ xs) zero v h = refl
  get_elem?-set_self (x ∷ xs) (suc i) v h = get_elem?-set_self xs i v (omega arith)

  pub get_elem?-set_ne :
      (xs : List A) (i j : ℕ) (v : A) → i ≢ j → get_elem? (set xs i v) j ≡ get_elem? xs j
  get_elem?-set_ne [] i j v ne = refl
  get_elem?-set_ne (x ∷ xs) zero zero v ne = absurd (ne refl)
  get_elem?-set_ne (x ∷ xs) zero (suc j) v ne = refl
  get_elem?-set_ne (x ∷ xs) (suc i) zero v ne = refl
  get_elem?-set_ne (x ∷ xs) (suc i) (suc j) v ne = get_elem?-set_ne xs i j v (λ e. ne (ap suc e))

  pub get_elem?-append :
      (xs ys : List A) (i : ℕ)
      → get_elem? (xs ++ ys) i
        ≡ (if ltb i (length xs) then get_elem? xs i else get_elem? ys (i - length xs))
  get_elem?-append [] ys i = ground arith
  get_elem?-append (x ∷ xs) ys zero = ground arith
  get_elem?-append (x ∷ xs) ys (suc i) = ground (arith, get_elem?-append xs ys i)

  pub get_elem?-take :
      (n : ℕ) (xs : List A) (i : ℕ)
      → get_elem? (take n xs) i ≡ (if ltb i n then get_elem? xs i else none)
  get_elem?-take zero xs i = ground arith
  get_elem?-take (suc n) [] i = ground arith
  get_elem?-take (suc n) (x ∷ xs) zero = ground arith
  get_elem?-take (suc n) (x ∷ xs) (suc i) = ground (arith, get_elem?-take n xs i)

  pub get_elem?-drop :
      (n : ℕ) (xs : List A) (i : ℕ) → get_elem? (drop n xs) i ≡ get_elem? xs (n + i)
  get_elem?-drop zero xs i = ap (get_elem? xs) (omega arith)
  get_elem?-drop (suc n) [] i = refl
  get_elem?-drop (suc n) (x ∷ xs) i =
      let e : suc n + i ≡ suc (n + i) = omega arith in rw e (get_elem?-drop n xs i)

  pub get_elem?-tabulate :
      (f : ℕ → A) (k n i : ℕ)
      → get_elem? (tabulate f k n) i ≡ (if ltb i n then some (f (k + i)) else none)
  get_elem?-tabulate f k zero i = ground arith
  get_elem?-tabulate f k (suc n) zero = let e : k + 0 ≡ k = omega arith in rw e (ground arith)
  get_elem?-tabulate f k (suc n) (suc i) =
      let e : k + suc i ≡ k + 1 + i = omega arith in
      rw e (ground (arith, get_elem?-tabulate f (k + 1) n i))

  pub list_ext : (xs ys : List A) → ((i : ℕ) → get_elem? xs i ≡ get_elem? ys i) → xs ≡ ys
  list_ext [] [] h = refl
  list_ext [] (y ∷ ys) h = cc (h 0)
  list_ext (x ∷ xs) [] h = cc (h 0)
  list_ext (x ∷ xs) (y ∷ ys) h = ground (arith, h 0, list_ext xs ys (λ i. h (suc i)))

  pub take_all : (n : ℕ) (xs : List A) → length xs ≤ n → take n xs ≡ xs
  take_all zero [] h = refl
  take_all zero (x ∷ xs) h = absurd (omega arith)
  take_all (suc n) [] h = refl
  take_all (suc n) (x ∷ xs) h = ap (λ t. x ∷ t) (take_all n xs (omega arith))

  pub take-append-drop : (n : ℕ) (xs : List A) → take n xs ++ drop n xs ≡ xs
  take-append-drop zero xs = refl
  take-append-drop (suc n) [] = refl
  take-append-drop (suc n) (x ∷ xs) = rw (take-append-drop n xs)

  pub drop_all : (n : ℕ) (xs : List A) → length xs ≤ n → drop n xs ≡ []
  drop_all zero [] h = refl
  drop_all zero (x ∷ xs) h = absurd (omega arith)
  drop_all (suc n) [] h = refl
  drop_all (suc n) (x ∷ xs) h = drop_all n xs (omega arith)

module _ {ℓ} {A : Type ℓ} where
  pub drop-drop : (m n : ℕ) (xs : List A) → drop m (drop n xs) ≡ drop (n + m) xs
  drop-drop m zero xs = ap (λ k. drop k xs) (omega arith)
  drop-drop m (suc n) [] =
      let e : suc n + m ≡ suc (n + m) = omega arith in rw e (drop_all m [] (omega arith))
  drop-drop m (suc n) (x ∷ xs) =
      let e : suc n + m ≡ suc (n + m) = omega arith in rw e (drop-drop m n xs)

  pub take-append_exact : (n : ℕ) (xs ys : List A) → length xs ≡ n → take n (xs ++ ys) ≡ xs
  take-append_exact zero [] ys h = refl
  take-append_exact zero (x ∷ xs) ys h = absurd (omega arith)
  take-append_exact (suc n) [] ys h = absurd (omega arith)
  take-append_exact (suc n) (x ∷ xs) ys h =
      ap (λ t. x ∷ t) (take-append_exact n xs ys (omega arith))

  -- What is cut off in between is cut off at the end.
  pub take-append_take : (n : ℕ) (xs ys : List A) → take n (take n xs ++ ys) ≡ take n (xs ++ ys)
  take-append_take zero xs ys = refl
  take-append_take (suc n) [] ys = refl
  take-append_take (suc n) (x ∷ xs) ys = ap (λ t. x ∷ t) (take-append_take n xs ys)

  pub append_assoc : (xs ys zs : List A) → (xs ++ ys) ++ zs ≡ xs ++ (ys ++ zs)
  append_assoc [] ys zs = refl
  append_assoc (x ∷ xs) ys zs = ap (λ t. x ∷ t) (append_assoc xs ys zs)

pub length-map {ℓ κ} :
    {A : Type ℓ} {B : Type κ} (f : A → B) (xs : List A) → length (map f xs) ≡ length xs
length-map f [] = refl
length-map f (x ∷ xs) = ap suc (length-map f xs)
