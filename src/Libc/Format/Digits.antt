-- ===== src/Libc/Format/Digits.antt =====
-- The digits of a number, without the loops of the formatter.
use bunos.Prelude.{
  ℕ, zero, suc, ◌+◌, ◌*◌, ◌/◌, ◌%◌, ◌^◌, ◌≤◌, ◌<◌, ◌≡◌, refl, ap, ◌∙◌, not, ◌&&◌, List, [], ◌∷◌,
  length, arith, ltb, ◌==◌, if◌then◌else◌,
}

-- The last `k` digits to the base `b`, the highest one first; `weight j` is what digit `j` counts.
abbrev pub digits_of : (ℕ → ℕ) → ℕ → ℕ → ℕ → List ℕ
digits_of weight b zero v = []
digits_of weight b (suc k) v = (v / weight k % b) ∷ digits_of weight b k v

-- Leading zeros are left out while more than `padding` digits are there.
unfoldable pub trim : ℕ → List ℕ → List ℕ
trim padding [] = []
trim padding (d ∷ ds) = if d == 0 && not (ltb (length ds) padding) then trim padding ds else d ∷ ds

-- What digits stand for.
unfoldable pub value_from : ℕ → ℕ → List ℕ → ℕ
value_from b acc [] = acc
value_from b acc (d ∷ ds) = value_from b (acc * b + d) ds

pub value_from-trim :
    (b padding : ℕ) (ds : List ℕ) → value_from b 0 (trim padding ds) ≡ value_from b 0 ds
unfolding value_from trim
value_from-trim b padding [] = refl
value_from-trim b padding (d ∷ ds) =
    let start : 0 * b + 0 ≡ 0 = omega arith in ground (arith, value_from-trim b padding ds, start)

pub length-trim-le : (padding : ℕ) (ds : List ℕ) → length (trim padding ds) ≤ length ds
unfolding trim
length-trim-le padding [] = omega arith
length-trim-le padding (d ∷ ds) = ground (arith, length-trim-le padding ds)

unfoldable pub decimal : ℕ → ℕ → List ℕ
decimal v padding = trim padding (digits_of (λ k. 10 ^ k) 10 10 v)

unfoldable pub hexadecimal : ℕ → ℕ → List ℕ
hexadecimal v padding = trim padding (digits_of (λ k. 2 ^ (k * 4)) 16 8 v)

pub value-decimal : (v padding : ℕ) → v < 2 ^ 32 → value_from 10 0 (decimal v padding) ≡ v
unfolding decimal value_from
value-decimal v padding h =
    value_from-trim 10 padding (digits_of (λ k. 10 ^ k) 10 10 v) ∙ omega arith

pub value-hexadecimal : (v padding : ℕ) → v < 2 ^ 32 → value_from 16 0 (hexadecimal v padding) ≡ v
unfolding hexadecimal value_from
value-hexadecimal v padding h =
    value_from-trim 16 padding (digits_of (λ k. 2 ^ (k * 4)) 16 8 v) ∙ omega arith

-- Where at most `padding` digits are left, none is left out.
pub trim_keep : (padding : ℕ) (ds : List ℕ) → length ds ≤ padding → trim padding ds ≡ ds
unfolding trim
trim_keep padding [] h = refl
trim_keep padding (d ∷ ds) h = ground arith

pub length-digits_of : (weight : ℕ → ℕ) (b k v : ℕ) → length (digits_of weight b k v) ≡ k
length-digits_of weight b zero v = refl
length-digits_of weight b (suc k) v = ap suc (length-digits_of weight b k v)
