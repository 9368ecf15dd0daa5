-- ===== src/Bustd/LinkedList/Looping.antt =====
-- The looping iterator on a row: where it stands, where it goes and what it reads and writes.
use bunos.Prelude.{
  ℕ, ◌≡◌, refl, ◌∙◌, Option, some, none, List, [], ◌∷◌, ◌++◌, ok, arith, length-append,
}
use bunos.Bustd.LinkedList.{Node, Store, LinkedList, put, advance, current, assign}
use bunos.Bustd.LinkedList.Chain.{
  first_or, last_or, NotIn, Distinct, Below, Distinct-middle, update_self, Seg-update, Seg-append,
  Seg-split, IsList,
}
use bunos.Bustd.LinkedList.Walk.{deref_lem}

module _ {A : Type 0} where
  pub advance_next :
      (s : Store A) (start : Option ℕ) (p q : ℕ) (n : Node A)
      → s.cell p ≡ some n
      → n.next ≡ some q
      → advance s (record { this = some p; start = start })
        ≡ ok (record { this = some q; start = start })
  unfolding advance
  advance_next s start p q n e f = rw (deref_lem s p n e, f)

  pub advance_wrap :
      (s : Store A) (start : Option ℕ) (p : ℕ) (n : Node A)
      → s.cell p ≡ some n
      → n.next ≡ none
      → advance s (record { this = some p; start = start })
        ≡ ok (record { this = start; start = start })
  unfolding advance
  advance_wrap s start p n e f = rw (deref_lem s p n e, f)

  pub current_lem :
      (s : Store A) (start : Option ℕ) (p : ℕ) (n : Node A)
      → s.cell p ≡ some n
      → current s (record { this = some p; start = start }) ≡ ok n.val
  unfolding current
  current_lem s start p n e = rw (deref_lem s p n e)

  pub assign_lem :
      (s : Store A) (start : Option ℕ) (p : ℕ) (n : Node A) (v : A)
      → s.cell p ≡ some n
      → assign s (record { this = some p; start = start }) v
        ≡ ok (put s p (some (record n { val = v })))
  unfolding assign
  assign_lem s start p n v e = rw (deref_lem s p n e)

  pub first_or-value :
      (xs : List (ℕ × A)) (p : ℕ) (v v' : A) (ys : List (ℕ × A)) (other : Option ℕ)
      → first_or (xs ++ (p, v) ∷ ys) other ≡ first_or (xs ++ (p, v') ∷ ys) other
  first_or-value [] p v v' ys other = refl
  first_or-value (x ∷ xs) p v v' ys other = refl

  last_or-value :
      (xs : List (ℕ × A)) (p : ℕ) (v v' : A) (ys : List (ℕ × A)) (other : Option ℕ)
      → last_or (xs ++ (p, v) ∷ ys) other ≡ last_or (xs ++ (p, v') ∷ ys) other
  last_or-value [] p v v' ys other = refl
  last_or-value ((q, w) ∷ xs) p v v' ys other = last_or-value xs p v v' ys (some q)

  NotIn-value :
      (a : ℕ) (xs : List (ℕ × A)) (p : ℕ) (v v' : A) (ys : List (ℕ × A))
      → NotIn a (xs ++ (p, v) ∷ ys)
      → NotIn a (xs ++ (p, v') ∷ ys)
  NotIn-value a [] p v v' ys h = h
  NotIn-value a ((q, w) ∷ xs) p v v' ys (h, hs) = (h, NotIn-value a xs p v v' ys hs)

  Distinct-value :
      (xs : List (ℕ × A)) (p : ℕ) (v v' : A) (ys : List (ℕ × A))
      → Distinct (xs ++ (p, v) ∷ ys)
      → Distinct (xs ++ (p, v') ∷ ys)
  Distinct-value [] p v v' ys h = h
  Distinct-value ((q, w) ∷ xs) p v v' ys (h, hs) =
      (NotIn-value q xs p v v' ys h, Distinct-value xs p v v' ys hs)

  Below-value :
      (a : ℕ) (xs : List (ℕ × A)) (p : ℕ) (v v' : A) (ys : List (ℕ × A))
      → Below a (xs ++ (p, v) ∷ ys)
      → Below a (xs ++ (p, v') ∷ ys)
  Below-value a [] p v v' ys h = h
  Below-value a ((q, w) ∷ xs) p v v' ys (h, hs) = (h, Below-value a xs p v v' ys hs)

  -- The node at a place of a row.
  pub IsList-cell :
      {s : Store A} {l : LinkedList} (xs : List (ℕ × A)) (p : ℕ) (v : A) (ys : List (ℕ × A))
      → IsList s l (xs ++ (p, v) ∷ ys)
      → s.cell p ≡ some (record { prev = last_or xs none; next = first_or ys none; val = v })
  IsList-cell {s} xs p v ys i = (Seg-split s.cell none xs ((p, v) ∷ ys) none i.linked).1.0

  -- The row with one value written anew.
  pub IsList-value :
      (s : Store A) (l : LinkedList) (xs : List (ℕ × A)) (p : ℕ) (v v' : A) (ys : List (ℕ × A))
      → IsList s l (xs ++ (p, v) ∷ ys)
      → IsList
          (put s p (some (record { prev = last_or xs none; next = first_or ys none; val = v' })))
          l
          (xs ++ (p, v') ∷ ys)
  IsList-value s l xs p v v' ys i =
      let (_, nx, ny) = Distinct-middle xs p v ys i.distinct in
      let c : Option (Node A) =
        some (record { prev = last_or xs none; next = first_or ys none; val = v' }) in
      let (left, (_, right)) = Seg-split s.cell none xs ((p, v) ∷ ys) none i.linked in
      let s' : Store A = put s p c in
      record {
        head_eq = i.head_eq ∙ first_or-value xs p v v' ys none;
        tail_eq = i.tail_eq ∙ last_or-value xs p v v' ys none;
        size_eq =
            omega
              (arith, i.size_eq, length-append xs ((p, v) ∷ ys), length-append xs ((p, v') ∷ ys));
        linked =
            Seg-append s'.cell none xs ((p, v') ∷ ys) none
              (Seg-update s.cell none xs (some p) p c nx left)
              (update_self s.cell p c, Seg-update s.cell (some p) ys none p c ny right);
        distinct = Distinct-value xs p v v' ys i.distinct;
        below = Below-value s.fresh xs p v v' ys i.below;
      }
