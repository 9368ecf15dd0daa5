-- ===== src/Libc/Numbers/RoundTrip.antt =====
-- What the formatter prints of a number, read back.
use mathlib.Core.List.{map}
use native.Mathlib.Nat.{pow-le-pow_right}
use bunos.Prelude.{
  true, ℕ, zero, suc, ◌+◌, ◌-◌, ◌^◌, ◌≤◌, ◌<◌, ◌≡◌, refl, ap, ◌∙◌, Bool, Bool-cases, inl, inr, not,
  ◌&&◌, List, [], ◌∷◌, ◌++◌, ok, ◌>>=◌, arith, ltb, ◌==◌, length, replicate, length-replicate,
  overwrite, length-map,
}
use bunos.Libc.Format.{to_string_unsigned}
use bunos.Libc.Format.Numbers.{to_string_unsigned_lem}
use bunos.Libc.Format.Digits.{
  digits_of, trim, decimal, value_from, value-decimal, length-digits_of, length-trim-le,
}
use bunos.Libc.Numbers.{strtoll, pos}
use bunos.Libc.Numbers.Parse.{Digits, none_left, digit, digit_char, strtoll_lem}

digits_of-Digits : (weight : ℕ → ℕ) (k v : ℕ) → Digits 10 (digits_of weight 10 k v)
digits_of-Digits weight zero v = none_left
digits_of-Digits weight (suc k) v = digit (omega arith) (digits_of-Digits weight k v)

trim-Digits : (ds : List ℕ) → Digits 10 ds → Digits 10 (trim 1 ds)
unfolding trim
trim-Digits [] none_left = none_left
trim-Digits (d ∷ ds) (digit less more) = elim (Bool-cases (d == 0 && not (ltb (length ds) 1))) [
  | inl drops ↦ rw drops (trim-Digits ds more)
  | inr keeps ↦ rw keeps (digit less more)
]

trim_some : (ds : List ℕ) → 0 < length ds → 0 < length (trim 1 ds)
unfolding trim
trim_some [] h = h
trim_some (d ∷ ds) h = ground (arith, trim_some ds)

decimal-Digits : (v : ℕ) → Digits 10 (decimal v 1)
unfolding decimal
decimal-Digits v = trim-Digits _ (digits_of-Digits (λ k. 10 ^ k) 10 v)

decimal-length : (v : ℕ) → (0 < length (decimal v 1)) × (length (decimal v 1) ≤ 10)
unfolding decimal
decimal-length v =
    let all = length-digits_of (λ k. 10 ^ k) 10 10 v in
    let short = length-trim-le 1 (digits_of (λ k. 10 ^ k) 10 10 v) in
    (trim_some (digits_of (λ k. 10 ^ k) 10 10 v) (omega (arith, all)), omega (arith, all, short))

map-digit_char : (ds : List ℕ) → Digits 10 ds → map (λ d. 0x30 + d) ds ≡ map digit_char ds
unfolding digit_char
map-digit_char [] none_left = refl
map-digit_char (d ∷ ds) (digit less more) =
    let t : ltb d 10 ≡ true = ground arith in
    rw t (ap (λ l. (0x30 + d) ∷ l) (map-digit_char ds more))

overwrite_blank :
    (n : ℕ) (xs : List ℕ)
    → length xs ≤ n
    → overwrite (replicate n 0) 0 xs ≡ xs ++ replicate (n - length xs) 0
overwrite_blank zero [] h = refl
overwrite_blank zero (x ∷ xs) h = absurd (omega arith)
overwrite_blank (suc n) [] h = let e : suc n - 0 ≡ suc n = omega arith in rw e refl
overwrite_blank (suc n) (x ∷ xs) h =
    let e : suc n - suc (length xs) ≡ n - length xs = omega arith in
    rw e (ap (λ l. x ∷ l) (overwrite_blank n xs (omega arith)))

read_back :
    (ds tail : List ℕ) (has_endptr : Bool) (v : ℕ)
    → Digits 10 ds
    → 0 < length ds
    → length ds ≤ 10
    → value_from 10 0 ds ≡ v
    → v < 2 ^ 31
    → strtoll (map digit_char ds ++ 0 ∷ tail) has_endptr 10 ≡ ok (pos v, length ds)
read_back [] tail has_endptr v digits some_digit few value small = absurd (omega arith)
read_back (d ∷ ds) tail has_endptr v digits some_digit few value small =
    let power : 10 ^ length ds ≤ 10 ^ 9 =
      pow-le-pow_right (omega arith) {i = length ds} {j = 9} (omega arith) in
    strtoll_lem 10 d ds tail has_endptr digits (omega arith) (omega arith) (omega arith)
      (omega arith) (rw value small)
    ∙ ap (λ n. ok (pos n, suc (length ds))) value

printed_text :
    (ds : List ℕ)
    → length ds ≤ 10
    → overwrite (replicate 11 0) 0 (map digit_char ds)
      ≡ map digit_char ds ++ 0 ∷ replicate (10 - length ds) 0
printed_text ds few =
    let n : length (map digit_char ds) ≡ length ds = length-map digit_char ds in
    let left : 11 - length (map digit_char ds) ≡ suc (10 - length ds) = omega arith in
    overwrite_blank 11 (map digit_char ds) (omega arith)
    ∙ ap (λ k. map digit_char ds ++ replicate k 0) left

-- A number below 2 ^ 31 that to_string_unsigned prints into a blank buffer of 11 bytes is read back
-- by strtoll to the base 10, which ends behind its last digit.
pub strtoll-to_string_unsigned :
    (v : ℕ) (has_endptr : Bool)
    → v < 2 ^ 31
    → (to_string_unsigned (replicate 11 0) 0 v 1 >>= λ r. strtoll r.1 has_endptr 10)
      ≡ ok (pos v, length (decimal v 1))
strtoll-to_string_unsigned v has_endptr small =
    let (some_digit, few) = decimal-length v in
    let digits = decimal-Digits v in
    let printed =
      to_string_unsigned_lem (replicate 11 0) 0 v 1
        (omega (arith, length-replicate {A = ℕ} 11 0, few)) in
    let back =
      read_back (decimal v 1) (replicate (10 - length (decimal v 1)) 0) has_endptr v digits
        some_digit few (value-decimal v 1 (omega arith)) small in
    let same = map-digit_char (decimal v 1) digits in
    let text : overwrite (replicate 11 0) 0 (map (λ d. 0x30 + d) (decimal v 1))
        ≡ map digit_char (decimal v 1) ++ 0 ∷ replicate (10 - length (decimal v 1)) 0 =
      rw same (printed_text (decimal v 1) few) in
    rw (printed, text) back
