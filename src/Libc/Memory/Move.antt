-- ===== src/Libc/Memory/Move.antt =====
-- `memmove` in closed form, for the positions of the two blocks where it copies and for those
-- where it does not.
use bunos.Prelude.{
  ℕ, zero, suc, ◌+◌, ◌-◌, ◌≤◌, ◌<◌, ◌≡◌, refl, ap, ◌∙◌, ◌⊎◌, List, [], ◌∷◌, ok, arith, length,
  get_elem?, set, take, drop, overwrite, length-set, get_elem?-some, overwrite-nil, overwrite-set,
  take-drop-suc, leb, ◌==◌, Bool-cases, some, inl, inr, true, ◌≢◌, sym, list_ext,
  get_elem?-overwrite_block, get_elem?-set_self, get_elem?-set_ne,
}
use bunos.Libc.Memory.{forward_loop, backward_loop, memmove}
use bunos.Libc.Memory.Copy.{store_ok}

-- Writing outside of a block does not change it.
take-drop-set :
    (k p : ℕ) (xs : List ℕ) (d v : ℕ)
    → (d < p) ⊎ (p + k ≤ d)
    → take k (drop p (set xs d v)) ≡ take k (drop p xs)
take-drop-set k p [] d v h = refl
take-drop-set zero zero (x ∷ xs) zero v h = refl
take-drop-set (suc k) zero (x ∷ xs) zero v h = absurd (omega arith)
take-drop-set k (suc p) (x ∷ xs) zero v h = refl
take-drop-set zero zero (x ∷ xs) (suc d) v h = refl
take-drop-set (suc k) zero (x ∷ xs) (suc d) v h =
    ap (λ t. x ∷ t) (take-drop-set k zero xs d v (omega arith))
take-drop-set k (suc p) (x ∷ xs) (suc d) v h = take-drop-set k p xs d v (omega arith)

forward_loop_lem :
    (k : ℕ) (mem : List ℕ) (d s : ℕ)
    → d + k ≤ length mem
    → s + k ≤ length mem
    → (d ≤ s) ⊎ (s + k ≤ d)
    → forward_loop mem d s k ≡ ok (overwrite mem d (take k (drop s mem)))
unfolding forward_loop
forward_loop_lem zero mem d s hd hs h = rw overwrite-nil
forward_loop_lem (suc k) mem d s hd hs h =
    let (b, eb) = get_elem?-some mem s (omega arith) in
    let e : d + 1 ≡ suc d = omega arith in
    let f : s + 1 ≡ suc s = omega arith in
    let rest =
      forward_loop_lem k (set mem d b) (d + 1) (s + 1) (rw length-set (omega arith))
        (rw length-set (omega arith)) (omega arith) in
    let rest' : forward_loop (set mem d b) (suc d) (suc s) k
        ≡ ok (overwrite (set mem d b) (suc d) (take k (drop (suc s) (set mem d b)))) =
      rw (e, f) at rest in
    rw (
      eb,
      store_ok mem d b (omega arith),
      e,
      f,
      rest',
      take-drop-set k (suc s) mem d b (omega arith),
      take-drop-suc k s mem eb,
      overwrite-set,
    )

-- The last byte of a block, written before the others.
last_byte :
    (mem : List ℕ) (d s k b j : ℕ)
    → d + suc k < s
    → s + suc k < length mem
    → get_elem? mem (s + suc k) ≡ some b
    → get_elem? (overwrite (set mem (d + suc k) b) (d + 1) (take k (drop (s + 1) mem))) j
      ≡ get_elem? (overwrite mem (d + 1) (take (suc k) (drop (s + 1) mem))) j
last_byte mem d s k b j h hs eb =
    let before =
      get_elem?-overwrite_block (set mem (d + suc k) b) (d + 1) k (s + 1) mem j
        (rw length-set (omega arith)) (omega arith) in
    let after =
      get_elem?-overwrite_block mem (d + 1) (suc k) (s + 1) mem j (omega arith) (omega arith) in
    elim (Bool-cases (d + suc k == j)) [
      | inl t ↦
          let e : d + suc k ≡ j = ground (arith, t) in
          let i : s + 1 + (j - (d + 1)) ≡ s + suc k = omega arith in
          let self : get_elem? (set mem (d + suc k) b) j ≡ some b =
            ap (get_elem? (set mem (d + suc k) b)) (sym e)
            ∙ get_elem?-set_self mem (d + suc k) b (omega arith) in
          let after' = rw (i, eb) at after in ground (arith, before, after', self)
      | inr t ↦
          let ne : d + suc k ≢ j = ground (arith, t) in
          ground (arith, before, after, get_elem?-set_ne mem (d + suc k) j b ne)
    ]

backward_loop_lem :
    (k : ℕ) (mem : List ℕ) (d s : ℕ)
    → d + k < s
    → s + k < length mem
    → backward_loop mem (d + k) (s + k) k ≡ ok (overwrite mem (d + 1) (take k (drop (s + 1) mem)))
unfolding backward_loop
backward_loop_lem zero mem d s h hs = rw overwrite-nil
backward_loop_lem (suc k) mem d s h hs =
    let (b, eb) = get_elem?-some mem (s + suc k) (omega arith) in
    let e : d + suc k - 1 ≡ d + k = omega arith in
    let f : s + suc k - 1 ≡ s + k = omega arith in
    let rest =
      backward_loop_lem k (set mem (d + suc k) b) d s (omega arith) (rw length-set (omega arith)) in
    rw
      (
        eb,
        store_ok mem (d + suc k) b (omega arith),
        e,
        f,
        rest,
        take-drop-set k (s + 1) mem (d + suc k) b (omega arith),
      )
      (ap ok (list_ext _ _ (λ j. last_byte mem d s k b j h hs eb)))

overwrite_self :
    (mem : List ℕ) (d n : ℕ) → d + n ≤ length mem → overwrite mem d (take n (drop d mem)) ≡ mem
overwrite_self mem d n h = list_ext _ _ (λ j.
    let i : leb d j ≡ true → d + (j - d) ≡ j = λ t. ground (arith, t) in
    ground (arith, get_elem?-overwrite_block mem d n d mem j h h, i))

-- When the destination begins inside the source's reach from below (`d ≤ s ≤ d + n`) or lies
-- behind the whole source (`s + n ≤ d`), `memmove` returns, the `n` bytes from `d` on are those
-- that stood from `s` on, and every other byte is as it was.
pub memmove_lem :
    (mem : List ℕ) (d s n : ℕ)
    → d + n ≤ length mem
    → s + n ≤ length mem
    → s ≤ d + n
    → (d ≤ s) ⊎ (s + n ≤ d)
    → memmove mem d s n ≡ ok (overwrite mem d (take n (drop s mem)))
unfolding memmove
memmove_lem mem d s n hd hs g h = elim (Bool-cases (d == s)) [
  | inl t ↦ let e : s ≡ d = ground (arith, t) in ground (arith, overwrite_self mem d n hd, e, t)
  | inr t ↦ ground (arith, t, forward_loop_lem n mem d s hd hs h, overwrite-nil {0} mem d)
]

-- When the whole destination lies below the source with a gap (`d + n < s`), `memmove` of at least
-- one byte copies from the back, one byte too far: the block that stood from `s + 1` on is written
-- from `d + 1` on, and nothing else.
pub memmove_gap :
    (mem : List ℕ) (d s n : ℕ)
    → 0 < n
    → d + n < s
    → s + n < length mem
    → memmove mem d s n ≡ ok (overwrite mem (d + 1) (take n (drop (s + 1) mem)))
unfolding memmove
memmove_gap mem d s n pos h hs = ground (arith, backward_loop_lem n mem d s h hs)
