-- ===== src/Bustd/LinkedList/Walk.antt =====
-- Reading by index.
use bunos.Prelude.{
  ℕ, ◌≡◌, refl, true, Option, some, none, List, [], ◌∷◌, ◌++◌, ok, arith, ltb, length,
  length-append,
}
use bunos.Bustd.LinkedList.{Node, Store, LinkedList, deref, walk, at_index, get}
use bunos.Bustd.LinkedList.Chain.{first_or, last_or, Seg, IsList, Seg-split}

module _ {A : Type 0} where
  pub deref_lem :
      (s : Store A) (p : ℕ) (n : Node A) → s.cell p ≡ some n → deref s (some p) ≡ ok (p, n)
  unfolding deref
  deref_lem s p n e = rw e

  pub walk_lem :
      (s : Store A) (back : Option ℕ) (xs : List (ℕ × A)) (p : ℕ) (v : A) (ys : List (ℕ × A))
      → Seg s.cell back (xs ++ (p, v) ∷ ys) none
      → walk s (first_or (xs ++ (p, v) ∷ ys) none) (length xs) ≡ ok (some p)
  unfolding walk
  walk_lem s back [] p v ys h = refl
  walk_lem s back ((q, w) ∷ xs) p v ys (h, hs) = rw (h, walk_lem s (some q) xs p v ys hs)

  -- The node at the place `length xs` of a row, and what it holds.
  pub at_index_lem :
      {s : Store A} {l : LinkedList} (xs : List (ℕ × A)) (p : ℕ) (v : A) (ys : List (ℕ × A))
      → IsList s l (xs ++ (p, v) ∷ ys)
      → (at_index s l (length xs) ≡ ok (some p))
        × (s.cell p ≡ some (record { prev = last_or xs none; next = first_or ys none; val = v }))
        × (ltb (length xs) l.size ≡ true)
  unfolding at_index
  at_index_lem {s} {l} xs p v ys i =
      let n = length-append xs ((p, v) ∷ ys) in
      let inside : ltb (length xs) l.size ≡ true = ground (arith, i.size_eq, n) in
      (
        rw (inside, i.head_eq, walk_lem s none xs p v ys i.linked),
        (Seg-split s.cell none xs ((p, v) ∷ ys) none i.linked).1.0,
        inside,
      )

  -- `get` returns the value at an index of the row.
  pub get_lem :
      {s : Store A} {l : LinkedList} (xs : List (ℕ × A)) (p : ℕ) (v : A) (ys : List (ℕ × A))
      → IsList s l (xs ++ (p, v) ∷ ys)
      → get s l (length xs) ≡ ok v
  unfolding get
  get_lem {s} xs p v ys i = let (e, c, _) = at_index_lem xs p v ys i in rw (e, deref_lem s p _ c)
