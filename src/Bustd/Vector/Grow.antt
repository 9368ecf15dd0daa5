-- ===== src/Bustd/Vector/Grow.antt =====
-- `set_size`, `grow` and `push`.
use mathlib.Core.Path.{subst}
use native.Mathlib.Nat.{mul-pos, mul-div_cancel, mod-eq_of_lt}
use bunos.Prelude.{
  ℕ, ◌+◌, ◌*◌, ◌/◌, ◌^◌, ◌≤◌, ◌<◌, ◌≡◌, refl, sym, max, Bool, true, Option, some, none, List, [],
  ◌∷◌, ◌++◌, append-nil, Result, ok, ◌>>=◌, arith, ltb, leb, ◌!=◌, inl, inr, Bool-cases, length,
  length-append, append_assoc, length-replicate, length-drop, drop, replicate, add32, mul32,
}
use bunos.Bustd.Vector.{Vector, put_slot, move_loop, set_size, grow, push}
use bunos.Bustd.Vector.Slots.{filled, IsVector, filled-append, store_middle, put_slot_lem, at_lem}

-- malloc has room for an array of `n` elements, and its size fits `usize`.
abbrev pub Room : ℕ → (ℕ → Bool) → ℕ → Type 0
Room size_of has_room n = (0 < size_of) × (n * size_of < 2 ^ 32) × (has_room (n * size_of) ≡ true)

module _ {A : Type 0} where
  pub IsVector-assoc :
      (v : Vector A) (pre : List A) (y : A) (ys : List A)
      → IsVector v (pre ++ y ∷ ys)
      → IsVector v ((pre ++ y ∷ []) ++ ys)
  IsVector-assoc v pre y ys h = subst (λ t. IsVector v t) (sym (append_assoc pre (y ∷ []) ys)) h

  -- The loop copies the elements `ys` behind `pre`.
  move_loop_lem :
      (v : Vector A) (i : ℕ) (pre ys : List A) (fresh junk : List (Option A))
      → i ≡ length pre
      → fresh ≡ filled pre ++ junk
      → length ys ≤ length junk
      → IsVector v (pre ++ ys)
      → move_loop (length ys) i v fresh ≡ ok (filled (pre ++ ys) ++ drop (length ys) junk)
  unfolding move_loop
  move_loop_lem v i pre [] fresh junk e shape room h = rw (append-nil pre, shape)
  move_loop_lem v i pre (y ∷ ys) fresh [] e shape room h = absurd (omega arith)
  move_loop_lem v i pre (y ∷ ys) fresh (c ∷ junk) e shape room h =
      let rest =
        move_loop_lem v (length pre + 1) (pre ++ y ∷ []) ys (filled pre ++ some y ∷ junk) junk
          (omega (arith, length-append pre (y ∷ []))) (sym (filled-append pre (y ∷ []) junk))
          (omega arith) (IsVector-assoc v pre y ys h) in
      rw (
        e,
        shape,
        at_lem v pre y ys h,
        store_middle pre c (some y) junk,
        rest,
        append_assoc pre (y ∷ []) ys,
      )

  -- A run that returns a vector with the elements `xs`.
  pub record Holds (run : Result (Vector A)) (xs : List A) : Type 0 where
    pub vector : Vector A
    pub returned : run ≡ ok vector
    pub valid : IsVector vector xs

  -- The same vector with the capacity `n`.
  pub record Resized (run : Result (Vector A)) (xs : List A) (n : ℕ) : Type 0 where
    pub vector : Vector A
    pub returned : run ≡ ok vector
    pub valid : IsVector vector xs
    pub capacity_eq : vector.capacity ≡ n

  module _ (size_of : ℕ) (has_room : ℕ → Bool) where
    -- Where there is room, `set_size` to a size that holds the elements keeps them and makes the
    -- capacity that size.
    pub set_size_lem :
        (v : Vector A) (xs : List A) (n : ℕ)
        → length xs ≤ n
        → 0 < n
        → Room size_of has_room n
        → IsVector v xs
        → Resized (set_size size_of has_room v n) xs n
    unfolding set_size
    set_size_lem v xs n fits positive (some_bytes, small, room) h =
        let inside : leb v.size n ≡ true = ground (arith, h.size_eq) in
        let bytes : mul32 n size_of ≡ n * size_of = mod-eq_of_lt small in
        let cells : n * size_of / size_of ≡ n = mul-div_cancel n some_bytes in
        let asked : (n * size_of != 0) ≡ true =
          (let p : 0 < n * size_of = mul-pos positive some_bytes in ground arith) in
        let junk : List (Option A) = replicate n none in
        let e : length junk ≡ n = length-replicate n none in
        let moved =
          subst (λ k. move_loop k 0 v junk ≡ ok (filled xs ++ drop (length xs) junk))
            (sym h.size_eq) (move_loop_lem v 0 [] xs junk junk refl refl (omega (arith, e)) h) in
        record {
          vector = record {
            size = v.size;
            capacity = n;
            slots = filled xs ++ drop (length xs) junk;
          };
          returned = rw (inside, bytes, asked, room, cells, moved);
          valid = record {
            free = drop (length xs) junk;
            size_eq = h.size_eq;
            slots_eq = refl;
            capacity_eq = omega (arith, e, length-drop (length xs) junk);
          };
          capacity_eq = refl;
        }

    grow_lem :
        (v : Vector A) (xs : List A)
        → length xs * 2 < 2 ^ 32
        → Room size_of has_room (max (length xs * 2) 1)
        → IsVector v xs
        → Resized (grow size_of has_room v) xs (max (length xs * 2) 1)
    unfolding grow
    grow_lem v xs small room h =
        let n = max (length xs * 2) 1 in
        let new_size : max (mul32 v.size 2) 1 ≡ n = ground (arith, h.size_eq) in
        let r = set_size_lem v xs n (ground arith) (ground arith) room h in
        let larger : ltb v.size n ≡ true = ground (arith, h.size_eq) in
        record {
          vector = r.vector;
          returned = rw (new_size, r.returned, larger);
          valid = r.valid;
          capacity_eq = r.capacity_eq;
        }

    -- The last step of `push`.
    push_free :
        (v : Vector A) (xs : List A) (x : A)
        → length xs + 1 < 2 ^ 32
        → length xs < v.capacity
        → IsVector v xs
        → Holds
            (do v' ← put_slot v v.size (some x); ok (record v' { size = add32 v'.size 1 }))
            (xs ++ x ∷ [])
    push_free v xs x small room h = go h.free h.slots_eq h.capacity_eq
      where
        go :
            (free : List (Option A))
            → v.slots ≡ filled xs ++ free
            → v.capacity ≡ length xs + length free
            → Holds
                (do v' ← put_slot v v.size (some x); ok (record v' { size = add32 v'.size 1 }))
                (xs ++ x ∷ [])
        go [] shape cap = absurd (omega arith)
        go (c ∷ free) shape cap =
            let n = length-append xs (x ∷ []) in
            record {
              vector = record {
                size = add32 v.size 1;
                capacity = v.capacity;
                slots = filled xs ++ some x ∷ free;
              };
              returned = rw (put_slot_lem v v.size xs c (some x) free h.size_eq room shape);
              valid = record {
                free = free;
                size_eq = omega (arith, h.size_eq, n);
                slots_eq = sym (filled-append xs (x ∷ []) free);
                capacity_eq = omega (arith, n);
              };
            }

    -- Where malloc has room for twice as many elements, `push` puts a new element behind the others.
    pub push_lem :
        (v : Vector A) (xs : List A) (x : A)
        → length xs * 2 + 1 < 2 ^ 32
        → Room size_of has_room (max (length xs * 2) 1)
        → IsVector v xs
        → Holds (push size_of has_room v x) (xs ++ x ∷ [])
    unfolding push
    push_lem v xs x small room h =
        let next : add32 v.size 1 ≡ length xs + 1 = omega (arith, h.size_eq) in
        elim (Bool-cases (ltb v.capacity (add32 v.size 1))) [
          | inl full ↦
              let g = grow_lem v xs (omega arith) room h in
              let p =
                push_free g.vector xs x (omega arith) (ground (arith, g.capacity_eq)) g.valid in
              record {
                vector = p.vector;
                returned = rw (full, g.returned) p.returned;
                valid = p.valid;
              }
          | inr free ↦
              let p = push_free v xs x (omega arith) (ground (arith, next)) h in
              record { vector = p.vector; returned = rw free p.returned; valid = p.valid }
        ]
