-- ===== src/Bustd/Bitfield/Bit.antt =====
-- One bit of a byte.
use bunos.Prelude.{
  ℕ, ◌+◌, ◌*◌, ◌/◌, ◌%◌, ◌^◌, ◌<◌, ◌≡◌, refl, Bool, true, false, not, ◌&&◌, ◌==◌, ◌!=◌, ltb,
  if◌then◌else◌, bit_and, holds_below, holds_below_lem, arith, sym, ltb→lt,
}
use bunos.Bustd.Bitfield.{with_bit}

iff : Bool → Bool → Bool
iff true b = b
iff false b = not b

-- Bit `t` of the byte `d` after bit `s` is set to `v`.
right : ℕ → Bool
unfolding with_bit iff
right n =
    let d = n / 128 in
    let s = n / 16 % 8 in
    let t = n / 2 % 8 in
    let v = n % 2 == 1 in
    let w = with_bit d s v in
    iff (bit_and w (2 ^ t) != 0) (if s == t then v else (bit_and d (2 ^ t) != 0)) && ltb w 256

table : holds_below right 32768 ≡ true
unfolding holds_below right with_bit iff
table = refl

number : Bool → ℕ
number true = 1
number false = 0

number-test : (v : Bool) → (number v % 2 == 1) ≡ v
unfolding number
number-test true = refl
number-test false = refl

iff-eq : (a b : Bool) → iff a b ≡ true → a ≡ b
unfolding iff
iff-eq true true h = refl
iff-eq true false h = sym h
iff-eq false true h = h
iff-eq false false h = refl

and-parts : (a b : Bool) → (a && b) ≡ true → (a ≡ true) × (b ≡ true)
and-parts true b h = (refl, h)
and-parts false b h = cc

-- Writing bit `s` of a byte changes that bit alone, and leaves a byte.
pub bit_and-with_bit :
    (d s t : ℕ) (v : Bool)
    → d < 256
    → s < 8
    → t < 8
    → ((bit_and (with_bit d s v) (2 ^ t) != 0) ≡ (if s == t then v else (bit_and d (2 ^ t) != 0)))
      × (with_bit d s v < 256)
unfolding right number
bit_and-with_bit d s t v hd hs ht =
    let n = ((d * 8 + s) * 8 + t) * 2 + number v in
    let h = holds_below_lem right 32768 table n (number_below d s t v hd hs ht) in
    let (e1, e2, e3, e4) = number_parts d s t v hd hs ht in
    let (p, q) = and-parts _ _ (rw (e1, e2, e3, e4) at h) in (iff-eq _ _ p, ltb→lt _ _ q)
  where
    number_below :
        (d s t : ℕ) (v : Bool)
        → d < 256
        → s < 8
        → t < 8
        → ((d * 8 + s) * 8 + t) * 2 + number v < 32768
    number_below d s t true hd hs ht = omega arith
    number_below d s t false hd hs ht = omega arith

    number_parts :
        (d s t : ℕ) (v : Bool)
        → d < 256
        → s < 8
        → t < 8
        → let n = ((d * 8 + s) * 8 + t) * 2 + number v in
          (n / 128 ≡ d) × (n / 16 % 8 ≡ s) × (n / 2 % 8 ≡ t) × ((n % 2 == 1) ≡ v)
    number_parts d s t true hd hs ht = (omega arith, omega arith, omega arith, ground arith)
    number_parts d s t false hd hs ht = (omega arith, omega arith, omega arith, ground arith)
