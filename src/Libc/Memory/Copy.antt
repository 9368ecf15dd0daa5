-- ===== src/Libc/Memory/Copy.antt =====
-- `memcpy` and `memset` in closed form.
use bunos.Prelude.{
  ℕ, zero, suc, ◌+◌, ◌≤◌, ◌<◌, ◌≡◌, List, ok, fault, store, ltb, Bool-cases, inl, inr, arith,
  length, set, take, drop, replicate, overwrite, length-set, get_elem?-some, overwrite-nil,
  overwrite-set, take-drop-suc, lt→ltb, u8,
}
use bunos.Libc.Memory.{copy_loop, memcpy, set_loop, memset}

pub store_ok {ℓ} :
    {A : Type ℓ} (xs : List A) (i : ℕ) (v : A) → i < length xs → store xs i v ≡ ok (set xs i v)
store_ok xs i v h = rw (lt→ltb i (length xs) h)

copy_loop_lem :
    (k : ℕ) (dest : List ℕ) (d : ℕ) (src : List ℕ) (s i : ℕ)
    → d + i + k ≤ length dest
    → s + i + k ≤ length src
    → copy_loop dest d src s k i ≡ ok (overwrite dest (d + i) (take k (drop (s + i) src)))
unfolding copy_loop
copy_loop_lem zero dest d src s i hd hs = rw overwrite-nil
copy_loop_lem (suc k) dest d src s i hd hs =
    let (b, eb) = get_elem?-some src (s + i) (omega arith) in
    let e : d + (i + 1) ≡ suc (d + i) = omega arith in
    let f : s + (i + 1) ≡ suc (s + i) = omega arith in
    let rest =
      copy_loop_lem k (set dest (d + i) b) d src s (i + 1) (rw length-set (omega arith))
        (omega arith) in
    let rest' : copy_loop (set dest (d + i) b) d src s k (i + 1)
        ≡ ok (overwrite (set dest (d + i) b) (suc (d + i)) (take k (drop (suc (s + i)) src))) =
      rw (e, f) at rest in
    rw (
      eb,
      store_ok dest (d + i) b (omega arith),
      rest',
      take-drop-suc k (s + i) src eb,
      overwrite-set,
    )

-- Inside both arrays `memcpy` returns, and the `n` bytes from `dest + d` on are those from
-- `src + s` on; every other byte of `dest` is as it was.
pub memcpy_lem :
    (dest : List ℕ) (d : ℕ) (src : List ℕ) (s n : ℕ)
    → d + n ≤ length dest
    → s + n ≤ length src
    → memcpy dest d src s n ≡ ok (overwrite dest d (take n (drop s src)))
unfolding memcpy
memcpy_lem dest d src s n hd hs =
    let e : d + 0 ≡ d = omega arith in
    let f : s + 0 ≡ s = omega arith in
    rw (e, f) at (copy_loop_lem n dest d src s 0 (omega arith) (omega arith))

set_loop_lem :
    (k : ℕ) (buf : List ℕ) (p value i : ℕ)
    → p + i + k ≤ length buf
    → set_loop buf p value k i ≡ ok (overwrite buf (p + i) (replicate k (u8 value)))
unfolding set_loop
set_loop_lem zero buf p value i h = rw overwrite-nil
set_loop_lem (suc k) buf p value i h =
    let e : p + (i + 1) ≡ suc (p + i) = omega arith in
    let rest =
      set_loop_lem k (set buf (p + i) (u8 value)) p value (i + 1) (rw length-set (omega arith)) in
    let rest' : set_loop (set buf (p + i) (u8 value)) p value k (i + 1)
        ≡ ok (overwrite (set buf (p + i) (u8 value)) (suc (p + i)) (replicate k (u8 value))) =
      rw e at rest in
    rw (store_ok buf (p + i) (u8 value) (omega arith), rest', overwrite-set)

copy_loop_past :
    (dest : List ℕ) (d : ℕ) (src : List ℕ) (s k i : ℕ)
    → d + i ≤ length dest
    → length dest < d + i + k
    → s + i + k ≤ length src
    → copy_loop dest d src s k i ≡ fault
unfolding copy_loop
copy_loop_past dest d src s zero i room past h = absurd (omega arith)
copy_loop_past dest d src s (suc k) i room past h =
    let (b, eb) = get_elem?-some src (s + i) (omega arith) in
    elim (Bool-cases (ltb (d + i) (length dest))) [
      | inr full ↦ rw (eb, full)
      | inl free ↦
          rw (eb, free)
            (copy_loop_past (set dest (d + i) b) d src s k (i + 1) (rw length-set (ground arith))
              (rw length-set (omega arith)) (omega arith))
    ]

-- A copy that is longer than what is left of the destination runs past its end.
pub memcpy_past :
    (dest : List ℕ) (d : ℕ) (src : List ℕ) (s n : ℕ)
    → d ≤ length dest
    → length dest < d + n
    → s + n ≤ length src
    → memcpy dest d src s n ≡ fault
unfolding memcpy
memcpy_past dest d src s n room past h =
    copy_loop_past dest d src s n 0 (omega arith) (omega arith) (omega arith)

-- Inside the array `memset` returns with `n` copies of the value's low byte written.
pub memset_lem :
    (buf : List ℕ) (p value n : ℕ)
    → p + n ≤ length buf
    → memset buf p value n ≡ ok (overwrite buf p (replicate n (u8 value)))
unfolding memset
memset_lem buf p value n h =
    let e : p + 0 ≡ p = omega arith in rw e at (set_loop_lem n buf p value 0 (omega arith))
