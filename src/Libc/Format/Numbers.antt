-- ===== src/Libc/Format/Numbers.antt =====
-- The loops of `to_string_hex` and `to_string_unsigned` store these digits.
use bunos.Prelude.{
  ℕ, zero, suc, ◌+◌, ◌-◌, ◌*◌, ◌/◌, ◌%◌, ◌^◌, ◌≤◌, ◌<◌, ◌≡◌, refl, sym, ap₂, ◌∙◌, Bool, true, false,
  not, ◌&&◌, ◌||◌, List, ◌∷◌, Result, ok, ◌>>=◌, store, length, set, overwrite, overwrite-nil,
  overwrite-set, length-set, arith, ltb, ltb→lt, ◌==◌, ◌!=◌, if◌then◌else◌, Bool-cases, inl, inr,
  holds_below, holds_below_lem, ==_iff,
}
use mathlib.Core.List.{map}
use native.Mathlib.Nat.{zero-add}
use bunos.Libc.Memory.Copy.{store_ok}
use bunos.Libc.Format.{
  size_pow, nibble_char, hex_loop, to_string_hex, decimal_loop, to_string_unsigned,
}
use bunos.Libc.Format.Digits.{
  digits_of, trim, trim_keep, length-digits_of, decimal, hexadecimal, value_from, value-decimal,
  value-hexadecimal,
}

ten_powers : holds_below (λ k. size_pow 10 k == 10 ^ k) 10 ≡ true
unfolding holds_below size_pow
ten_powers = refl

size_pow_ten : (k : ℕ) → k < 10 → size_pow 10 k ≡ 10 ^ k
size_pow_ten k h = (==_iff _ _).0 (holds_below_lem (λ k. size_pow 10 k == 10 ^ k) 10 ten_powers k h)

-- The digits still to be stored.
abbrev pending : ℕ → Bool → List ℕ → List ℕ
pending padding true ds = ds
pending padding false ds = trim padding ds

-- One digit stored, and then the others.
put_lem :
    (show : ℕ → ℕ) (base index d : ℕ) (ds buffer : List ℕ) (f : List ℕ → Result (ℕ × List ℕ))
    → base + index + length (d ∷ ds) ≤ length buffer
    → (base + (index + 1) + length ds ≤ length (set buffer (base + index) (show d))
        → f (set buffer (base + index) (show d))
          ≡ ok (
            index + 1 + length ds,
            overwrite (set buffer (base + index) (show d)) (base + (index + 1)) (map show ds),
          ))
    → (store buffer (base + index) (show d) >>= f)
      ≡ ok (index + length (d ∷ ds), overwrite buffer (base + index) (map show (d ∷ ds)))
put_lem show base index d ds buffer f room rest =
    let p = base + index in
    let e : base + (index + 1) ≡ suc p = omega arith in
    let n : index + 1 + length ds ≡ index + length (d ∷ ds) = omega arith in
    rw (
      store_ok buffer p (show d) (omega arith),
      rest (rw length-set (omega arith)),
      e,
      overwrite-set buffer p (show d) (map show ds),
      n,
    )

-- Both loops, by what a round does. `weight` and `b` give the digits, `top` is one more than the
-- number of rounds.
module _ (weight : ℕ → ℕ) (b v padding base top : ℕ) (show : ℕ → ℕ)
    (loop : ℕ → ℕ → List ℕ → ℕ → Bool → Result (ℕ × List ℕ))
    (stop : (i : ℕ) (buffer : List ℕ) (index : ℕ) (has_written : Bool)
      → loop 0 i buffer index has_written ≡ ok (index, buffer))
    (round : (k i : ℕ) (buffer : List ℕ) (index : ℕ) (has_written : Bool)
      → i + suc k ≡ top
      → 0 < i
      → let d = v / weight k % b in
        loop (suc k) i buffer index has_written ≡ (
          if d == 0 && not has_written && not (ltb k padding)
          then loop k (i + 1) buffer index has_written
          else (store buffer (base + index) (show d) >>= λ buffer'.
              loop k (i + 1) buffer' (index + 1) (has_written || d != 0)))) where
  abbrev ds : ℕ → List ℕ
  ds k = digits_of weight b k v

  loop_lem :
      (k i : ℕ) (buffer : List ℕ) (index : ℕ) (has_written : Bool)
      → i + k ≡ top
      → 0 < i
      → base + index + length (pending padding has_written (ds k)) ≤ length buffer
      → loop k i buffer index has_written
        ≡ ok (
          index + length (pending padding has_written (ds k)),
          overwrite buffer (base + index) (map show (pending padding has_written (ds k))),
        )
  unfolding trim
  loop_lem zero i buffer index true e pos room =
      stop i buffer index true
      ∙ ap₂ (λ n b. ok (n, b)) (omega arith) (sym (overwrite-nil buffer (base + index)))
  loop_lem zero i buffer index false e pos room =
      stop i buffer index false
      ∙ ap₂ (λ n b. ok (n, b)) (omega arith) (sym (overwrite-nil buffer (base + index)))
  loop_lem (suc k) i buffer index true e pos room =
      let d = v / weight k % b in
      let put = λ (nz : Bool).
        put_lem show base index d (ds k) buffer (λ b. loop k (i + 1) b (index + 1) nz) room in
      let next =
        loop_lem k (i + 1) (set buffer (base + index) (show d)) (index + 1) true (omega arith)
          (omega arith) in
      round k i buffer index true e pos
      ∙ elim (Bool-cases (d == 0)) [ inl z ↦ rw z (put true next) | inr z ↦ rw z (put true next) ]
  loop_lem (suc k) i buffer index false e pos room =
      let d = v / weight k % b in
      let here = set buffer (base + index) (show d) in
      let n = length-digits_of weight b k v in
      round k i buffer index false e pos ∙ elim (Bool-cases (d == 0)) [
        | inl z ↦
            let z' : (d != 0) ≡ false = ground (arith, z) in
            elim (Bool-cases (ltb k padding)) [
              | inl short ↦
                  let kept = trim_keep padding (ds k) (omega (arith, n, ltb→lt k padding short)) in
                  let next =
                    loop_lem k (i + 1) here (index + 1) false (omega arith) (omega arith) in
                  rw (z, z', n, short)
                    (put_lem show base index d (ds k) buffer
                      (λ b. loop k (i + 1) b (index + 1) false) (rw (z, n, short) at room)
                      (rw kept at next))
              | inr long ↦
                  rw (z, n, long)
                    (loop_lem k (i + 1) buffer index false (omega arith) (omega arith)
                      (rw (z, n, long) at room))
            ]
        | inr z ↦
            let z' : (d != 0) ≡ true = ground (arith, z) in
            rw (z, z')
              (put_lem show base index d (ds k) buffer (λ b. loop k (i + 1) b (index + 1) true)
                (rw z at room)
                (loop_lem k (i + 1) here (index + 1) true (omega arith) (omega arith)))
      ]

-- With room for its text, `to_string_unsigned` stores exactly the decimal digits of the number,
-- leading zeros left out but for the padding, and returns their number.
pub to_string_unsigned_lem :
    (buffer : List ℕ) (base v padding : ℕ)
    → base + length (decimal v padding) ≤ length buffer
    → to_string_unsigned buffer base v padding
      ≡ ok (
        length (decimal v padding),
        overwrite buffer base (map (λ d. 0x30 + d) (decimal v padding)),
      )
unfolding to_string_unsigned decimal decimal_loop
to_string_unsigned_lem buffer base v padding room =
    let e : base + 0 ≡ base = omega arith in
    loop_lem (λ k. 10 ^ k) 10 v padding base 11 (λ d. 0x30 + d) (decimal_loop v padding base)
      (λ i buffer index has_written. refl)
      (λ k i buffer index has_written e pos.
        let j : 10 - i ≡ k = omega arith in rw (j, size_pow_ten k (omega arith)))
      10 1 buffer 0 false (omega arith) (omega arith) (rw e room)
    ∙ ap₂ (λ n p. ok (n, overwrite buffer p (map (λ d. 0x30 + d) (decimal v padding))))
        (zero-add (length (decimal v padding))) e

-- The same of `to_string_hex` and the hexadecimal digits, in either case.
pub to_string_hex_lem :
    (buffer : List ℕ) (base v padding : ℕ) (uppercase : Bool)
    → base + length (hexadecimal v padding) ≤ length buffer
    → to_string_hex buffer base v padding uppercase
      ≡ ok (
        length (hexadecimal v padding),
        overwrite buffer base (map (λ d. nibble_char d uppercase) (hexadecimal v padding)),
      )
unfolding to_string_hex hexadecimal hex_loop
to_string_hex_lem buffer base v padding uppercase room =
    let e : base + 0 ≡ base = omega arith in
    loop_lem (λ k. 2 ^ (k * 4)) 16 v padding base 9 (λ d. nibble_char d uppercase)
      (hex_loop v padding uppercase base) (λ i buffer index has_written. refl)
      (λ k i buffer index has_written e pos. let j : 8 - i ≡ k = omega arith in rw j) 8 1 buffer 0
      false (omega arith) (omega arith) (rw e room)
    ∙ ap₂
        (λ n p.
          ok (n, overwrite buffer p (map (λ d. nibble_char d uppercase) (hexadecimal v padding))))
        (zero-add (length (hexadecimal v padding))) e

-- With room for them, `to_string_unsigned` stores for a number of 32 bits the characters of digits that
-- stand for that number, to the base 10, and nothing else.
pub to_string_unsigned-value :
    (buffer : List ℕ) (base v padding : ℕ)
    → v < 2 ^ 32
    → base + length (decimal v padding) ≤ length buffer
    → (to_string_unsigned buffer base v padding
        ≡ ok (
          length (decimal v padding),
          overwrite buffer base (map (λ d. 0x30 + d) (decimal v padding)),
        ))
      × (value_from 10 0 (decimal v padding) ≡ v)
to_string_unsigned-value buffer base v padding h room =
    (to_string_unsigned_lem buffer base v padding room, value-decimal v padding h)

-- With room for them, `to_string_hex` stores for a number of 32 bits the characters of digits that
-- stand for that number, to the base 16 and in either case, and nothing else.
pub to_string_hex-value :
    (buffer : List ℕ) (base v padding : ℕ) (uppercase : Bool)
    → v < 2 ^ 32
    → base + length (hexadecimal v padding) ≤ length buffer
    → (to_string_hex buffer base v padding uppercase
        ≡ ok (
          length (hexadecimal v padding),
          overwrite buffer base (map (λ d. nibble_char d uppercase) (hexadecimal v padding)),
        ))
      × (value_from 16 0 (hexadecimal v padding) ≡ v)
to_string_hex-value buffer base v padding uppercase h room =
    (to_string_hex_lem buffer base v padding uppercase room, value-hexadecimal v padding h)
