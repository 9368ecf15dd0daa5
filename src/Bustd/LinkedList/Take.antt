-- ===== src/Bustd/LinkedList/Take.antt =====
-- `take_node` and `remove` take one node out of the row.
use mathlib.Core.Path.{subst}
use bunos.Prelude.{
  ℕ, suc, ◌+◌, ◌^◌, ◌≤◌, ◌<◌, ◌≡◌, ◌≢◌, refl, sym, ◌∙◌, true, false, Option, some, none, List, [],
  ◌∷◌, ◌++◌, Result, ok, panic, arith, ◌==◌, if◌then◌else◌, length, length-append, append_assoc,
  sub32,
}
use bunos.Bustd.LinkedList.{
  Node, Store, LinkedList, put, is_some, same_pointer, set_next, set_prev, take_node, remove,
  append_back,
}
use bunos.Bustd.LinkedList.Chain.{
  first_or, last_or, Seg, NotIn, Distinct, Below-append, Below-left, NotIn-append, Distinct-middle,
  Seg-update, Seg-append, Seg-split, Seg-set_next, Seg-set_prev, IsList, snoc, last_or-snoc,
}
use bunos.Bustd.LinkedList.Insert.{Gives, set_next_lem, set_prev_lem}
use bunos.Bustd.LinkedList.Walk.{deref_lem, at_index_lem}

same_pointer_ne : (p q : ℕ) → q ≢ p → same_pointer (some p) (some q) ≡ false
unfolding same_pointer
same_pointer_ne p q ne = ground arith

same_pointer_self : (p : ℕ) → same_pointer (some p) (some p) ≡ true
unfolding same_pointer
same_pointer_self p = ground arith

sub32_test : (size n : ℕ) → n < 2 ^ 32 → size ≡ n → 2 ≤ n → (sub32 size 1 == 0) ≡ false
sub32_test size n small e two = ground arith

module _ {A : Type 0} where
  -- The row around a node that is taken out, with the neighbours linked to each other.
  record Joined (s : Store A) (run : Result (Store A)) (back : Option ℕ) (xs ys : List (ℕ × A))
      : Type 0 where
    pub store : Store A
    pub returned : run ≡ ok store
    pub left : Seg store.cell none xs (first_or ys none)
    pub right : Seg store.cell back ys none
    pub same_fresh : store.fresh ≡ s.fresh

  -- The first half of `unlink`.
  join_left :
      (s : Store A) (p : ℕ) (xs ys : List (ℕ × A))
      → Distinct (xs ++ ys)
      → Seg s.cell none xs (some p)
      → Seg s.cell (some p) ys none
      → Joined s
          (if is_some (last_or xs none)
            then set_next s (last_or xs none) (first_or ys none)
            else ok s)
          (some p)
          xs
          ys
  join_left s p [] ys d left right = record {
    store = s;
    returned = refl;
    left = tt;
    right = right;
    same_fresh = refl;
  }
  join_left s p ((q, w) ∷ xs) ys d left right =
      let r = snoc q w xs in
      subst
        (λ qs.
          Joined s
            (if is_some (last_or qs none)
              then set_next s (last_or qs none) (first_or ys none)
              else ok s)
            (some p) qs ys)
        (sym r.split_eq)
        (go r.others r.last r.value (subst (λ qs. Distinct (qs ++ ys)) r.split_eq d)
          (subst (λ qs. Seg s.cell none qs (some p)) r.split_eq left))
    where
      go :
          (zs : List (ℕ × A)) (t : ℕ) (w : A)
          → Distinct ((zs ++ (t, w) ∷ []) ++ ys)
          → Seg s.cell none (zs ++ (t, w) ∷ []) (some p)
          → Joined s
              (if is_some (last_or (zs ++ (t, w) ∷ []) none)
                then set_next s (last_or (zs ++ (t, w) ∷ []) none) (first_or ys none)
                else ok s)
              (some p)
              (zs ++ (t, w) ∷ [])
              ys
      go zs t w d left =
          let (_, nz, ny) =
            Distinct-middle zs t w ys
              (subst (λ qs. Distinct qs) (append_assoc zs ((t, w) ∷ []) ys) d) in
          let at_t = (Seg-split s.cell none zs ((t, w) ∷ []) (some p) left).1.0 in
          let node : Node A = record { prev = last_or zs none; next = first_or ys none; val = w } in
          record {
            store = put s t (some node);
            returned = rw (last_or-snoc zs t w none) (set_next_lem s t _ (first_or ys none) at_t);
            left = Seg-set_next s.cell none zs t w (some p) (first_or ys none) nz left;
            right = Seg-update s.cell (some p) ys none t _ ny right;
            same_fresh = refl;
          }

  -- The second half.
  join_right :
      (s : Store A) (p : ℕ) (xs ys : List (ℕ × A))
      → Distinct (xs ++ ys)
      → Seg s.cell none xs (first_or ys none)
      → Seg s.cell (some p) ys none
      → Joined s
          (if is_some (first_or ys none)
            then set_prev s (first_or ys none) (last_or xs none)
            else ok s)
          (last_or xs none)
          xs
          ys
  join_right s p xs [] d left right = record {
    store = s;
    returned = refl;
    left = left;
    right = tt;
    same_fresh = refl;
  }
  join_right s p xs ((u, z) ∷ us) d left right =
      let (_, nx, nu) = Distinct-middle xs u z us d in
      record {
        store =
            put s u (some (record { prev = last_or xs none; next = first_or us none; val = z }));
        returned = set_prev_lem s u _ (last_or xs none) right.0;
        left = Seg-update s.cell none xs (some u) u _ nx left;
        right = Seg-set_prev s.cell (some p) (last_or xs none) u z us none nu right;
        same_fresh = refl;
      }

  last_or-append :
      (xs ys : List (ℕ × A)) (other : Option ℕ)
      → last_or (xs ++ ys) other ≡ last_or ys (last_or xs other)
  last_or-append [] ys other = refl
  last_or-append ((q, w) ∷ xs) ys other = last_or-append xs ys (some q)

  -- The last of a row without `p` is not `p`.
  last_is_other :
      (p u : ℕ) (z : A) (us : List (ℕ × A)) (other : Option ℕ)
      → NotIn p ((u, z) ∷ us)
      → same_pointer (some p) (last_or ((u, z) ∷ us) other) ≡ false
  last_is_other p u z [] other (ne, n) = same_pointer_ne p u ne
  last_is_other p u z ((a, b) ∷ us) other (ne, n) = last_is_other p a b us (some u) n

  -- The new head.
  head_after :
      (xs : List (ℕ × A)) (p : ℕ) (v : A) (ys : List (ℕ × A))
      → NotIn p xs
      → (if same_pointer (some p) (first_or (xs ++ (p, v) ∷ ys) none)
          then first_or ys none
          else first_or (xs ++ (p, v) ∷ ys) none)
        ≡ first_or (xs ++ ys) none
  head_after [] p v ys n = rw (same_pointer_self p)
  head_after ((q, w) ∷ xs) p v ys (ne, n) = rw (same_pointer_ne p q ne)

  -- The new tail, which is the row's last node where the node taken out is not the last of several.
  tail_after :
      (xs : List (ℕ × A)) (p : ℕ) (v : A) (ys : List (ℕ × A))
      → NotIn p ys
      → (ys ≡ [] → xs ≡ [])
      → (if same_pointer (some p) (last_or (xs ++ (p, v) ∷ ys) none)
          then first_or ys none
          else last_or (xs ++ (p, v) ∷ ys) none)
        ≡ last_or (xs ++ ys) none
  tail_after xs p v [] n keeps =
      subst
        (λ qs.
          (if same_pointer (some p) (last_or (qs ++ (p, v) ∷ []) none)
            then none
            else last_or (qs ++ (p, v) ∷ []) none)
          ≡ last_or (qs ++ []) none)
        (sym (keeps refl)) (rw (same_pointer_self p))
  tail_after xs p v ((u, z) ∷ us) n keeps = rw (
    last_or-append xs ((p, v) ∷ (u, z) ∷ us) none,
    last_or-append xs ((u, z) ∷ us) none,
    last_is_other p u z us (some p) n,
  )

  -- `take_node` has taken the node at `p` out of the row, and `ps` are left.
  pub record Takes (s : Store A) (run : Result (ℕ × Store A × LinkedList)) (p : ℕ)
      (ps : List (ℕ × A)) : Type 0 where
    pub store : Store A
    pub list : LinkedList
    pub returned : run ≡ ok (p, store, list)
    pub valid : IsList store list ps
    pub same_fresh : store.fresh ≡ s.fresh

  -- The links and the returned object, whatever the tail has become.
  record Unlinked (s : Store A) (l : LinkedList) (xs : List (ℕ × A)) (p : ℕ) (v : A)
      (ys : List (ℕ × A)) : Type 0 where
    pub store : Store A
    pub returned :
        take_node s l (length xs)
        ≡ ok (
          p,
          store,
          record {
            head = if same_pointer (some p) l.head then first_or ys none else l.head;
            tail = if same_pointer (some p) l.tail then first_or ys none else l.tail;
            size = sub32 l.size 1;
          },
        )
    pub linked : Seg store.cell none (xs ++ ys) none
    pub same_fresh : store.fresh ≡ s.fresh

  unlinked :
      (s : Store A) (l : LinkedList) (xs : List (ℕ × A)) (p : ℕ) (v : A) (ys : List (ℕ × A))
      → IsList s l (xs ++ (p, v) ∷ ys)
      → Unlinked s l xs p v ys
  unfolding take_node
  unlinked s l xs p v ys i =
      let (found, held, inside) = at_index_lem xs p v ys i in
      let d = (Distinct-middle xs p v ys i.distinct).0 in
      let (left, (_, right)) = Seg-split s.cell none xs ((p, v) ∷ ys) none i.linked in
      let j = join_left s p xs ys d left right in
      let k = join_right j.store p xs ys d j.left j.right in
      record {
        store = k.store;
        returned = rw (found, inside, deref_lem s p _ held, j.returned, k.returned);
        linked = Seg-append k.store.cell none xs ys none k.left k.right;
        same_fresh = k.same_fresh ∙ j.same_fresh;
      }

  -- On a list object for a row whose length fits `usize`, `take_node` at an index of the row returns
  -- the node there and a list object for the row without it, unless that node is the last of several.
  pub take_node_lem :
      (s : Store A) (l : LinkedList) (xs : List (ℕ × A)) (p : ℕ) (v : A) (ys : List (ℕ × A))
      → length xs + length ys + 1 < 2 ^ 32
      → (ys ≡ [] → xs ≡ [])
      → IsList s l (xs ++ (p, v) ∷ ys)
      → Takes s (take_node s l (length xs)) p (xs ++ ys)
  take_node_lem s l xs p v ys small keeps i =
      let (d, nx, ny) = Distinct-middle xs p v ys i.distinct in
      let u = unlinked s l xs p v ys i in
      let (bx, by) = Below-left s.fresh xs ((p, v) ∷ ys) i.below in
      record {
        store = u.store;
        list = _;
        returned = u.returned;
        valid = record {
          head_eq = rw (i.head_eq) (head_after xs p v ys nx);
          tail_eq = rw (i.tail_eq) (tail_after xs p v ys ny keeps);
          size_eq = omega (arith, i.size_eq, length-append xs ((p, v) ∷ ys), length-append xs ys);
          linked = u.linked;
          distinct = d;
          below = rw u.same_fresh (Below-append s.fresh xs ys bx by.1);
        };
        same_fresh = u.same_fresh;
      }

  -- `remove` frees that node as well.
  pub remove_lem :
      (s : Store A) (l : LinkedList) (xs : List (ℕ × A)) (p : ℕ) (v : A) (ys : List (ℕ × A))
      → length xs + length ys + 1 < 2 ^ 32
      → (ys ≡ [] → xs ≡ [])
      → IsList s l (xs ++ (p, v) ∷ ys)
      → Gives (remove s l (length xs)) (xs ++ ys)
  unfolding remove
  remove_lem s l xs p v ys small keeps i =
      let t = take_node_lem s l xs p v ys small keeps i in
      let (_, nx, ny) = Distinct-middle xs p v ys i.distinct in
      record {
        store = put t.store p none;
        list = t.list;
        returned = rw t.returned;
        valid = record {
          head_eq = t.valid.head_eq;
          tail_eq = t.valid.tail_eq;
          size_eq = t.valid.size_eq;
          linked =
              Seg-update t.store.cell none (xs ++ ys) none p none (NotIn-append p xs ys nx ny)
                t.valid.linked;
          distinct = t.valid.distinct;
          below = t.valid.below;
        };
      }

  -- Where the node is the last of several, on a row whose length fits `usize`, `remove` returns, with a
  -- null `tail`, and the next `append_back` stops at its assertion.
  pub remove-last :
      (s : Store A) (l : LinkedList) (q : ℕ) (w : A) (xs : List (ℕ × A)) (p : ℕ) (v z : A)
      → length xs + 2 < 2 ^ 32
      → IsList s l ((q, w) ∷ xs ++ (p, v) ∷ [])
      → (s' : Store A) × (l' : LinkedList) × (remove s l (suc (length xs)) ≡ ok (s', l'))
        × (l'.tail ≡ none)
        × (append_back s' l' z ≡ panic)
  unfolding remove append_back
  remove-last s l q w xs p v z small i =
      let u = unlinked s l ((q, w) ∷ xs) p v [] i in
      let n = length-append xs ((p, v) ∷ []) in
      let test =
        sub32_test l.size (length xs + 2) small (omega (arith, i.size_eq, n)) (omega arith) in
      let e = i.tail_eq ∙ last_or-append xs ((p, v) ∷ []) (some q) in
      let cut : (if same_pointer (some p) l.tail then none else l.tail) ≡ none =
        rw (e, same_pointer_self p) in
      let l' : LinkedList = record {
        head = if same_pointer (some p) l.head then none else l.head;
        tail = if same_pointer (some p) l.tail then none else l.tail;
        size = sub32 l.size 1;
      } in
      (put u.store p none, l', rw (u.returned), cut, rw (cut, test))
