-- ===== src/Libc/Numbers/Overflow.antt =====
-- Digits that stand for more than an int holds.
use mathlib.Core.List.{map}
use native.Mathlib.Nat.{pow-suc, pow-le-pow_right, mul-le-mul_left}
use bunos.Prelude.{
  ℕ, zero, suc, ◌+◌, ◌-◌, ◌*◌, ◌^◌, ◌≤◌, ◌<◌, ◌≡◌, ap, ◌∙◌, Bool, false, List, ◌∷◌, ◌++◌, fault,
  arith, ltb, length, get_or,
}
use bunos.Libc.Numbers.{mul_int, add_digits, strtoll}
use bunos.Libc.Numbers.Parse.{
  Digits, digit_char, Digits-get_or, digit_char_lem, char_at, pow_int_lem, add_digits_round,
  strtoll_runs,
}

mul_int_fault : (a b : ℕ) → 2 ^ 31 ≤ a * b → mul_int a b ≡ fault
unfolding mul_int
mul_int_fault a b h = let t : ltb (a * b) (2 ^ 31) ≡ false = ground arith in rw t

add_digits_fault :
    (base : ℕ) (ds tail : List ℕ) (k i out : ℕ)
    → Digits base ds
    → 1 < base
    → base < 37
    → suc k + i ≡ length ds
    → base ^ (length ds - 1) < 2 ^ 31
    → 2 ^ 31 ≤ base ^ (length ds - 1) * get_or ds 0 0
    → add_digits (map digit_char ds ++ tail) base (length ds - 1) (suc k) i out ≡ fault
unfolding add_digits
add_digits_fault base ds tail zero i out digits low high place short big =
    let last : length ds - 1 ≡ i = omega arith in
    let index : i - i ≡ 0 = omega arith in
    let d = Digits-get_or base ds 0 digits (omega arith) in
    let (value, hex, space, minus, plus) = digit_char_lem (get_or ds 0 0) (omega arith) in
    let big' : 2 ^ 31 ≤ base ^ i * get_or ds 0 0 = rw last at big in
    let short' : base ^ i < 2 ^ 31 = rw last at short in
    rw (
      last,
      pow_int_lem base i (omega arith) short',
      index,
      char_at ds tail 0 (omega arith),
      value,
      mul_int_fault (base ^ i) (get_or ds 0 0) big',
    )
add_digits_fault base ds tail (suc k) i out digits low high place short big =
    let d = Digits-get_or base ds (suc k) digits (omega arith) in
    let power : base ^ (i + 1) ≤ base ^ (length ds - 1) =
      pow-le-pow_right (omega arith) {i = i + 1} {j = length ds - 1} (omega arith) in
    let next : base ^ (i + 1) ≡ base ^ i * base =
      ap (λ j. base ^ j) (omega arith) ∙ pow-suc base i in
    let less : base ^ i * get_or ds (suc k) 0 ≤ base ^ i * base =
      mul-le-mul_left (base ^ i) (omega (arith, d)) in
    add_digits_round base ds tail (suc k) i out digits low high place short (omega arith)
    ∙ add_digits_fault base ds tail k (i + 1) (out + base ^ i * get_or ds (suc k) 0) digits low high
        (omega arith) short big

-- Where the first digit counts for 2 ^ 31 or more, the product that strtoll forms for it runs over
-- an int, although the number would fit the result.
pub strtoll-fault :
    (base d : ℕ) (ds tail : List ℕ) (has_endptr : Bool)
    → Digits base (d ∷ ds)
    → 1 < base
    → base < 36
    → length ds < 2 ^ 31
    → base ^ length ds < 2 ^ 31
    → 2 ^ 31 ≤ base ^ length ds * d
    → strtoll (map digit_char (d ∷ ds) ++ 0 ∷ tail) has_endptr base ≡ fault
strtoll-fault base d ds tail has_endptr digits low high few short big =
    let n : suc (length ds) - 1 ≡ length ds = omega arith in
    let rounds : length ds + 1 ≡ suc (length ds) = omega arith in
    let run =
      add_digits_fault base (d ∷ ds) (0 ∷ tail) (length ds) 0 0 digits low (omega arith)
        (omega arith) (rw n short) (rw n big) in
    let run' : add_digits (map digit_char (d ∷ ds) ++ 0 ∷ tail) base (length ds) (suc (length ds)) 0
          0
        ≡ fault =
      rw n at run in
    strtoll_runs base d ds tail has_endptr digits low high few ∙ rw (rounds, run')
