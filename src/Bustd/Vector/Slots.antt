-- ===== src/Bustd/Vector/Slots.antt =====
-- A vector as the list of its elements, with the slots that are free behind them.
use bunos.Prelude.{
  ℕ, suc, ◌+◌, ◌<◌, ◌≡◌, refl, ap, true, Option, some, List, [], ◌∷◌, ◌++◌, ok, store, arith, ltb,
  length, length-append, get_elem?, set,
}
use bunos.Bustd.Vector.{Vector, at, put_slot}

module _ {A : Type 0} where
  abbrev pub filled : List A → List (Option A)
  filled [] = []
  filled (x ∷ xs) = some x ∷ filled xs

  pub record IsVector (v : Vector A) (xs : List A) : Type 0 where
    pub free : List (Option A)
    pub size_eq : v.size ≡ length xs
    pub slots_eq : v.slots ≡ filled xs ++ free
    pub capacity_eq : v.capacity ≡ length xs + length free

  pub length-filled : (xs : List A) → length (filled xs) ≡ length xs
  length-filled [] = refl
  length-filled (x ∷ xs) = ap suc (length-filled xs)

  pub filled-append :
      (xs ys : List A) (rest : List (Option A))
      → filled (xs ++ ys) ++ rest ≡ filled xs ++ (filled ys ++ rest)
  filled-append [] ys rest = refl
  filled-append (x ∷ xs) ys rest = ap (λ t. some x ∷ t) (filled-append xs ys rest)

  pub get_elem?-middle :
      (xs : List A) (c : Option A) (rest : List (Option A))
      → get_elem? (filled xs ++ c ∷ rest) (length xs) ≡ some c
  get_elem?-middle [] c rest = refl
  get_elem?-middle (x ∷ xs) c rest = get_elem?-middle xs c rest

  set_middle :
      (xs : List A) (c c' : Option A) (rest : List (Option A))
      → set (filled xs ++ c ∷ rest) (length xs) c' ≡ filled xs ++ c' ∷ rest
  set_middle [] c c' rest = refl
  set_middle (x ∷ xs) c c' rest = ap (λ t. some x ∷ t) (set_middle xs c c' rest)

  -- A write behind the elements `xs`.
  pub store_middle :
      (xs : List A) (c c' : Option A) (rest : List (Option A))
      → store (filled xs ++ c ∷ rest) (length xs) c' ≡ ok (filled xs ++ c' ∷ rest)
  store_middle xs c c' rest =
      let n = length-append (filled xs) (c ∷ rest) in
      let m = length-filled xs in
      let inside : ltb (length xs) (length (filled xs ++ c ∷ rest)) ≡ true = ground (arith, n, m) in
      rw (inside, set_middle xs c c' rest)

  pub put_slot_lem :
      (v : Vector A) (i : ℕ) (xs : List A) (c c' : Option A) (rest : List (Option A))
      → i ≡ length xs
      → length xs < v.capacity
      → v.slots ≡ filled xs ++ c ∷ rest
      → put_slot v i c' ≡ ok (record v { slots = filled xs ++ c' ∷ rest })
  unfolding put_slot
  put_slot_lem v i xs c c' rest e room shape =
      let inside : ltb (length xs) v.capacity ≡ true = ground arith in
      rw (e, inside, shape, store_middle xs c c' rest)

  -- `at` returns the element at an index.
  pub at_lem :
      (v : Vector A) (xs : List A) (x : A) (ys : List A)
      → IsVector v (xs ++ x ∷ ys)
      → at v (length xs) ≡ ok x
  unfolding at
  at_lem v xs x ys h =
      let n = length-append xs (x ∷ ys) in
      let inside : ltb (length xs) v.size ≡ true = ground (arith, h.size_eq, n) in
      rw (
        inside,
        h.slots_eq,
        filled-append xs (x ∷ ys) h.free,
        get_elem?-middle xs (some x) (filled ys ++ h.free),
      )
