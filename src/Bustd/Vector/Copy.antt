-- ===== src/Bustd/Vector/Copy.antt =====
-- Copies of a vector.
use mathlib.Core.Path.{subst}
use bunos.Prelude.{
  ℕ, zero, suc, ◌+◌, ◌*◌, ◌^◌, ◌≤◌, ◌<◌, ◌≡◌, refl, sym, ap, ◌∙◌, Bool, false, List, [], ◌∷◌, ◌++◌,
  append-nil, ok, arith, ◌==◌, length, length-append, append_assoc,
}
use bunos.Bustd.Vector.{Vector, empty_vector, at, copy_loop, assign, preallocated, copy}
use bunos.Bustd.Vector.Slots.{IsVector, at_lem}
use bunos.Bustd.Vector.Grow.{Room, Holds, push_lem, set_size_lem, IsVector-assoc}
use bunos.Bustd.Vector.Shrink.{clear_lem}

module _ {A : Type 0} (size_of : ℕ) (has_room : ℕ → Bool) where
  copy_loop_lem :
      (bound : ℕ)
      → bound * 2 + 1 < 2 ^ 32
      → ((n : ℕ) → 0 < n → n ≤ bound * 2 + 1 → Room size_of has_room n)
      → (i : ℕ) (other v : Vector A) (pre ys : List A) → i ≡ length pre
      → length (pre ++ ys) ≤ bound
      → IsVector other (pre ++ ys)
      → IsVector v pre
      → Holds (copy_loop size_of has_room (length ys) i other v) (pre ++ ys)
  unfolding copy_loop
  copy_loop_lem bound small room i other v pre [] e within h g = record {
    vector = v;
    returned = refl;
    valid = subst (λ t. IsVector v t) (sym (append-nil pre)) g;
  }
  copy_loop_lem bound small room i other v pre (y ∷ ys) e within h g =
      let n = length-append pre (y ∷ ys) in
      let same = append_assoc pre (y ∷ []) ys in
      let read : at other i ≡ ok y = ap (λ k. at other k) e ∙ at_lem other pre y ys h in
      let p =
        push_lem size_of has_room v pre y (omega (arith, n))
          (room _ (ground arith) (ground (arith, n))) g in
      let rest =
        copy_loop_lem bound small room (i + 1) other p.vector (pre ++ y ∷ []) ys
          (omega (arith, length-append pre (y ∷ []))) (rw same within)
          (IsVector-assoc other pre y ys h) p.valid in
      record {
        vector = rest.vector;
        returned = rw (read, p.returned, rest.returned);
        valid = subst (λ t. IsVector rest.vector t) same rest.valid;
      }

  -- Where malloc finds room for every number of elements from 1 to one more than twice as many as
  -- the other vector has, an assignment ends, and the vector then has the elements of the other
  -- one, whatever it held. Both are below 2 ^ 32.
  pub assign_lem :
      (v other : Vector A) (xs ys : List A)
      → length xs < 2 ^ 32
      → length ys * 2 + 1 < 2 ^ 32
      → ((n : ℕ) → 0 < n → n ≤ length ys * 2 + 1 → Room size_of has_room n)
      → IsVector v xs
      → IsVector other ys
      → Holds (assign size_of has_room v other) ys
  unfolding assign
  assign_lem v other xs ys small smaller room g h =
      let c = clear_lem v xs small g in
      let r =
        copy_loop_lem (length ys) smaller room 0 other c.vector [] ys refl (omega arith) h
          c.valid in
      record {
        vector = r.vector;
        returned = rw (c.returned) (
            subst (λ k. copy_loop size_of has_room k 0 other c.vector ≡ ok r.vector) (sym h.size_eq)
              r.returned);
        valid = r.valid;
      }

  preallocated_lem :
      (n : ℕ)
      → (0 < n → Room size_of has_room n)
      → Holds (preallocated {A = A} size_of has_room n) []
  unfolding preallocated
  preallocated_lem zero room = record {
    vector = empty_vector;
    returned = refl;
    valid = record { free = []; size_eq = refl; slots_eq = refl; capacity_eq = refl };
  }
  preallocated_lem (suc n) room =
      let some_asked : (suc n == 0) ≡ false = ground arith in
      let r =
        set_size_lem size_of has_room (empty_vector {A = A}) [] (suc n) (omega arith) (omega arith)
          (room (omega arith))
          (record { free = []; size_eq = refl; slots_eq = refl; capacity_eq = refl }) in
      record { vector = r.vector; returned = rw (some_asked, r.returned); valid = r.valid }

  -- A copy has the same elements.
  pub copy_lem :
      (other : Vector A) (ys : List A)
      → length ys * 2 + 1 < 2 ^ 32
      → ((n : ℕ) → 0 < n → n ≤ length ys * 2 + 1 → Room size_of has_room n)
      → IsVector other ys
      → Holds (copy size_of has_room other) ys
  unfolding copy
  copy_lem other ys small room h =
      let p =
        preallocated_lem other.size
          (λ some_element. room other.size some_element (omega (arith, h.size_eq))) in
      let r = assign_lem p.vector other [] ys (omega arith) small room p.valid h in
      record { vector = r.vector; returned = rw (p.returned, r.returned); valid = r.valid }
