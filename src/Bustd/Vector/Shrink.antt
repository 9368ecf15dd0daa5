-- ===== src/Bustd/Vector/Shrink.antt =====
-- `pop`, `clear` and `remove`.
use mathlib.Core.Path.{subst}
use bunos.Prelude.{
  ℕ, zero, suc, ◌+◌, ◌-◌, ◌^◌, ◌≤◌, ◌<◌, ◌≡◌, refl, sym, ap, ◌∙◌, true, false, Option, some, none,
  List, [], ◌∷◌, ◌++◌, append-nil, Result, ok, panic, arith, ltb, ◌==◌, if◌then◌else◌, length,
  length-append, get_elem?, take, drop, overwrite, length-drop, take-append_exact, sub32,
}
use bunos.Bustd.Vector.{Vector, pop, drop_last, clear_loop, clear, move_down, shift_loop, remove}
use bunos.Bustd.Vector.Slots.{
  filled, IsVector, length-filled, filled-append, get_elem?-middle, put_slot_lem,
}
use bunos.Bustd.Vector.Grow.{Holds}

module _ {A : Type 0} where
  last_slots :
      (v : Vector A) (xs : List A) (x : A)
      → (h : IsVector v (xs ++ x ∷ [])) → v.slots ≡ filled xs ++ some x ∷ h.free
  last_slots v xs x h = h.slots_eq ∙ filled-append xs (x ∷ []) h.free

  -- `pop` returns the last element and leaves the others.
  pub record Popped (run : Result (A × Vector A)) (xs : List A) (x : A) : Type 0 where
    pub vector : Vector A
    pub returned : run ≡ ok (x, vector)
    pub valid : IsVector vector xs

  -- What the sizes say where `x` is the last element.
  last_size :
      (v : Vector A) (xs : List A) (x : A)
      → length xs + 1 < 2 ^ 32
      → IsVector v (xs ++ x ∷ [])
      → (sub32 v.size 1 ≡ length xs) × (length xs < v.capacity) × (ltb 0 v.size ≡ true)
  last_size v xs x small h =
      let n = length-append xs (x ∷ []) in
      (omega (arith, h.size_eq, n), omega (arith, h.capacity_eq, n), ground (arith, h.size_eq, n))

  without_last :
      (v : Vector A) (xs : List A) (x : A) (size : ℕ)
      → size ≡ length xs
      → (h : IsVector v (xs ++ x ∷ []))
      → IsVector
          (record { size = size; capacity = v.capacity; slots = filled xs ++ none ∷ h.free })
          xs
  without_last v xs x size e h = record {
    free = none ∷ h.free;
    size_eq = e;
    slots_eq = refl;
    capacity_eq = omega (arith, h.capacity_eq, length-append xs (x ∷ []));
  }

  pub pop_lem :
      (v : Vector A) (xs : List A) (x : A)
      → length xs + 1 < 2 ^ 32
      → IsVector v (xs ++ x ∷ [])
      → Popped (pop v) xs x
  unfolding pop
  pop_lem v xs x small h =
      let (e, inside, some_left) = last_size v xs x small h in
      let at_last : ltb (length xs) v.capacity ≡ true = ground arith in
      let shape = last_slots v xs x h in
      let read : get_elem? v.slots (length xs) ≡ some (some x) =
        rw shape (get_elem?-middle xs (some x) h.free) in
      let written = put_slot_lem v (length xs) xs (some x) none h.free refl inside shape in
      record {
        vector = record {
          size = length xs;
          capacity = v.capacity;
          slots = filled xs ++ none ∷ h.free;
        };
        returned = rw (some_left, e, written, at_last, read);
        valid = without_last v xs x (length xs) refl h;
      }

  drop_last_lem :
      (v : Vector A) (xs : List A) (x : A)
      → length xs + 1 < 2 ^ 32
      → IsVector v (xs ++ x ∷ [])
      → Holds (drop_last v) xs
  unfolding drop_last
  drop_last_lem v xs x small h =
      let (e, inside, some_left) = last_size v xs x small h in
      let written =
        put_slot_lem v (length xs) xs (some x) none h.free refl inside (last_slots v xs x h) in
      record {
        vector = record {
          size = length xs;
          capacity = v.capacity;
          slots = filled xs ++ none ∷ h.free;
        };
        returned = rw (some_left, e, written);
        valid = without_last v xs x (length xs) refl h;
      }

  -- A list that is not empty has a last element.
  record Snoc (xs : List A) : Type 0 where
    pub others : List A
    pub last : A
    pub split_eq : xs ≡ others ++ last ∷ []

  snoc : (x : A) (xs : List A) → Snoc (x ∷ xs)
  snoc x [] = record { others = []; last = x; split_eq = refl }
  snoc x (y ∷ ys) =
      let r = snoc y ys in
      record { others = x ∷ r.others; last = r.last; split_eq = ap (λ t. x ∷ t) r.split_eq }

  clear_loop_lem :
      (fuel : ℕ) (v : Vector A) (xs : List A)
      → length xs ≤ fuel
      → length xs < 2 ^ 32
      → IsVector v xs
      → Holds (clear_loop fuel v) []
  unfolding clear_loop
  clear_loop_lem zero v [] enough small h =
      let none_left : (v.size == 0) ≡ true = ground (arith, h.size_eq) in
      record { vector = v; returned = rw none_left; valid = h }
  clear_loop_lem zero v (x ∷ xs) enough small h = absurd (omega arith)
  clear_loop_lem (suc fuel) v [] enough small h =
      let none_left : (v.size == 0) ≡ true = ground (arith, h.size_eq) in
      record { vector = v; returned = rw none_left; valid = h }
  clear_loop_lem (suc fuel) v (x ∷ xs) enough small h =
      let r = snoc x xs in
      let n = ap length r.split_eq in
      let m = length-append r.others (r.last ∷ []) in
      let some_left : (v.size == 0) ≡ false = ground (arith, h.size_eq) in
      let one =
        drop_last_lem v r.others r.last (omega (arith, n, m))
          (subst (λ t. IsVector v t) r.split_eq h) in
      let rest =
        clear_loop_lem fuel one.vector r.others (omega (arith, n, m)) (omega (arith, n, m))
          one.valid in
      record {
        vector = rest.vector;
        returned = rw (some_left, one.returned, rest.returned);
        valid = rest.valid;
      }

  -- `clear` ends and leaves no element.
  pub clear_lem :
      (v : Vector A) (xs : List A) → length xs < 2 ^ 32 → IsVector v xs → Holds (clear v) []
  unfolding clear
  clear_lem v xs small h =
      let r = clear_loop_lem v.size v xs (omega (arith, h.size_eq)) small h in
      record { vector = r.vector; returned = r.returned; valid = r.valid }

  overwrite_front :
      (ws zs : List (Option A))
      → length ws ≤ length zs
      → overwrite zs 0 ws ≡ ws ++ drop (length ws) zs
  overwrite_front [] [] h = refl
  overwrite_front [] (z ∷ zs) h = refl
  overwrite_front (w ∷ ws) [] h = absurd (omega arith)
  overwrite_front (w ∷ ws) (z ∷ zs) h = ap (λ t. w ∷ t) (overwrite_front ws zs (omega arith))

  overwrite_middle :
      (xs : List A) (zs ws : List (Option A))
      → overwrite (filled xs ++ zs) (length xs) ws ≡ filled xs ++ overwrite zs 0 ws
  overwrite_middle [] zs ws = refl
  overwrite_middle (x ∷ xs) zs ws = ap (λ t. some x ∷ t) (overwrite_middle xs zs ws)

  drop_middle :
      (xs : List A) (c : Option A) (rest : List (Option A))
      → drop (suc (length xs)) (filled xs ++ c ∷ rest) ≡ rest
  drop_middle [] c rest = refl
  drop_middle (x ∷ xs) c rest = drop_middle xs c rest

  -- The slots behind the gap moved down by one.
  moved :
      (xs ys : List A) (free : List (Option A))
      → overwrite
          (filled xs ++ none ∷ (filled ys ++ free))
          (length xs)
          (take (length ys) (drop (suc (length xs)) (filled xs ++ none ∷ (filled ys ++ free))))
        ≡ filled xs ++ (filled ys ++ drop (length (filled ys)) (none ∷ (filled ys ++ free)))
  moved xs ys free =
      let rest = filled ys ++ free in
      let n = length-append (filled ys) free in
      rw
        (
          drop_middle xs none rest,
          take-append_exact (length ys) (filled ys) free (length-filled ys),
          overwrite_middle xs (none ∷ rest) (filled ys),
        )
        (ap (λ t. filled xs ++ t) (overwrite_front (filled ys) (none ∷ rest) (omega (arith, n))))

  -- The gap that the removed element leaves is closed.
  record Closed (run : Result (Vector A)) (xs : List A) (capacity left : ℕ) : Type 0 where
    pub vector : Vector A
    pub free : List (Option A)
    pub returned : run ≡ ok vector
    pub slots_eq : vector.slots ≡ filled xs ++ free
    pub capacity_eq : vector.capacity ≡ capacity
    pub free_eq : length free ≡ left

  with_gap : ℕ → ℕ → List A → List A → List (Option A) → Vector A
  with_gap size capacity xs ys free = record {
    size = size;
    capacity = capacity;
    slots = filled xs ++ none ∷ (filled ys ++ free);
  }

  close_gap :
      (size capacity : ℕ) (xs ys : List A) (free : List (Option A))
      → size ≡ length xs + length ys + 1
      → capacity ≡ size + length free
      → Closed
          (if ltb (length xs + 1) size
            then move_down (with_gap size capacity xs ys free) (length xs)
            else ok (with_gap size capacity xs ys free))
          (xs ++ ys)
          capacity
          (length free + 1)
  unfolding move_down with_gap
  close_gap size capacity xs [] free e room =
      let at_end : ltb (length xs + 1) size ≡ false = ground arith in
      record {
        vector = with_gap size capacity xs [] free;
        free = none ∷ free;
        returned = rw at_end;
        slots_eq = sym (ap (λ t. filled t ++ none ∷ free) (append-nil xs));
        capacity_eq = refl;
        free_eq = omega arith;
      }
  close_gap size capacity xs (y ∷ ys) free e room =
      let zs = y ∷ ys in
      let inside : ltb (length xs + 1) size ≡ true = ground arith in
      let slot : ltb (length xs + 1) capacity ≡ true = ground arith in
      let count : size - length xs - 1 ≡ length zs = omega arith in
      let next : length xs + 1 ≡ suc (length xs) = omega arith in
      let all : List (Option A) = none ∷ (filled zs ++ free) in
      let free' : List (Option A) = drop (length (filled zs)) all in
      let n = length-append (filled zs) free in
      record {
        vector = record {
          size = size;
          capacity = capacity;
          slots = filled xs ++ (filled zs ++ free');
        };
        free = free';
        returned =
            rw (inside, slot, count)
              (ap (λ t. ok (record { size = size; capacity = capacity; slots = t }))
                (rw next (moved xs zs free)));
        slots_eq = sym (filled-append xs zs free');
        capacity_eq = refl;
        free_eq = omega (arith, length-drop (length (filled zs)) all, n);
      }

  -- For a trivially copyable type, `remove` at an index takes that element out of the list.
  pub remove_lem :
      (v : Vector A) (xs : List A) (x : A) (ys : List A)
      → length xs + length ys + 1 < 2 ^ 32
      → IsVector v (xs ++ x ∷ ys)
      → Holds (remove true v (length xs)) (xs ++ ys)
  unfolding remove with_gap
  remove_lem v xs x ys small h =
      let n = length-append xs (x ∷ ys) in
      let inside : ltb (length xs) v.size ≡ true = ground (arith, h.size_eq, n) in
      let emptied =
        put_slot_lem v (length xs) xs (some x) none (filled ys ++ h.free) refl
          (omega (arith, h.capacity_eq, n)) (h.slots_eq ∙ filled-append xs (x ∷ ys) h.free) in
      let c =
        close_gap v.size v.capacity xs ys h.free (omega (arith, h.size_eq, n))
          (omega (arith, h.size_eq, h.capacity_eq)) in
      record {
        vector = record {
          size = sub32 v.size 1;
          capacity = c.vector.capacity;
          slots = c.vector.slots;
        };
        returned = rw (emptied, inside, c.returned);
        valid = record {
          free = c.free;
          size_eq = omega (arith, h.size_eq, n, length-append xs ys);
          slots_eq = c.slots_eq;
          capacity_eq =
              omega (arith, c.capacity_eq, c.free_eq, h.capacity_eq, n, length-append xs ys);
        };
      }

  -- For another type, `remove` of the last element of a vector that is full stops at a panic: it reads
  -- the slot behind the array.
  pub remove-full :
      (v : Vector A) (xs : List A) (x : A)
      → IsVector v (xs ++ x ∷ [])
      → v.capacity ≡ v.size
      → remove false v (length xs) ≡ panic
  unfolding remove shift_loop
  remove-full v xs x h full =
      let n = length-append xs (x ∷ []) in
      let inside : ltb (length xs) v.size ≡ true = ground (arith, h.size_eq, n) in
      let emptied =
        put_slot_lem v (length xs) xs (some x) none h.free refl (omega (arith, h.capacity_eq, n))
          (h.slots_eq ∙ filled-append xs (x ∷ []) h.free) in
      let one : v.size - length xs ≡ suc 0 = omega (arith, h.size_eq, n) in
      let outside : ltb (length xs + 1) v.capacity ≡ false = ground (arith, h.size_eq, n) in
      rw (emptied, inside, one, outside)
