-- ===== src/Prelude/Bits.antt =====
-- The native `bit_and` and `bit_or` at variables: both work on a low and a high part apart.
use Prim.Native.Nat.{
  ℕ, zero, suc, ◌+◌, ◌-◌, ◌*◌, ◌/◌, ◌%◌, ◌^◌, ◌≤◌, ◌<◌, min, max, bit_and, bit_or, digits,
  bit_and-bitwise, bit_or-bitwise,
}
use mathlib.Core.Path.{◌≡◌, refl, ap, sym, ◌∙◌}
use native.Mathlib.Nat.{mul_assoc}
use native.Mathlib.Omega.{arith}

pow_twice : (a k : ℕ) → a * 2 ^ suc k ≡ a * 2 ^ k * 2
pow_twice a k =
    let m : 2 ^ suc k ≡ 2 ^ k * 2 = omega arith in ap (λ t. a * t) m ∙ sym (mul_assoc a (2 ^ k) 2)

-- Any operation on digits, by its law for the lowest one.
module _ (op digit : ℕ → ℕ → ℕ)
    (law : (a b : ℕ) → op a b ≡ op (a / 2) (b / 2) * 2 + digit (a % 2) (b % 2)) where
  halves :
      (p q x y : ℕ)
      → op (p * 2 + x) (q * 2 + y) ≡ op (p + x / 2) (q + y / 2) * 2 + digit (x % 2) (y % 2)
  halves p q x y =
      let hp : (p * 2 + x) / 2 ≡ p + x / 2 = omega arith in
      let hq : (q * 2 + y) / 2 ≡ q + y / 2 = omega arith in
      let rp : (p * 2 + x) % 2 ≡ x % 2 = omega arith in
      let rq : (q * 2 + y) % 2 ≡ y % 2 = omega arith in
      rw (hp, hq, rp, rq) at (law (p * 2 + x) (q * 2 + y))

  pub split :
      (k a b x y : ℕ)
      → x < 2 ^ k
      → y < 2 ^ k
      → op 0 0 ≡ 0
      → op (a * 2 ^ k + x) (b * 2 ^ k + y) ≡ op a b * 2 ^ k + op x y
  split zero a b x y hx hy z =
      let ex : x ≡ 0 = omega arith in
      let ey : y ≡ 0 = omega arith in
      let ea : a * 2 ^ 0 + 0 ≡ a = omega arith in
      let eb : b * 2 ^ 0 + 0 ≡ b = omega arith in rw (ex, ey, ea, eb, z) (omega arith)
  split (suc k) a b x y hx hy z =
      let ea = pow_twice (a) k in
      let eb = pow_twice (b) k in
      let eo = pow_twice (op a b) k in
      let rest = split k a b (x / 2) (y / 2) (omega arith) (omega arith) z in
      rw (ea, eb, eo, halves (a * 2 ^ k) (b * 2 ^ k) x y, rest) (omega (arith, law x y))

-- The native operations on digits have such a law: how many digits are allowed for does not matter.
module _ (z : ℕ → ℕ) (f : ℕ → ℕ → ℕ) (run_out : (b : ℕ) → z b ≡ z (b / 2) * 2 + f 0 (b % 2)) where
  digits-enough : (n m a b : ℕ) → a ≤ n → a ≤ m → digits z f n a b ≡ digits z f m a b
  digits-enough zero zero zero b hn hm = refl
  digits-enough zero (suc m) zero b hn hm = refl
  digits-enough (suc n) zero zero b hn hm = refl
  digits-enough (suc n) (suc m) zero b hn hm = refl
  digits-enough zero m (suc a) b hn hm = absurd (omega arith)
  digits-enough (suc n) zero (suc a) b hn hm = absurd (omega arith)
  digits-enough (suc n) (suc m) (suc a) b hn hm =
      ap (λ d. d * 2 + f (suc a % 2) (b % 2))
        (digits-enough n m (suc a / 2) (b / 2) (omega arith) (omega arith))

  lowest : (a b : ℕ) → digits z f a a b ≡ digits z f (a / 2) (a / 2) (b / 2) * 2 + f (a % 2) (b % 2)
  lowest zero b = run_out b
  lowest (suc a) b =
      ap (λ d. d * 2 + f (suc a % 2) (b % 2))
        (digits-enough a (suc a / 2) (suc a / 2) (b / 2) (omega arith) (omega arith))

bit_and-lowest : (a b : ℕ) → bit_and a b ≡ bit_and (a / 2) (b / 2) * 2 + min (a % 2) (b % 2)
bit_and-lowest a b =
    rw (bit_and-bitwise a b, bit_and-bitwise (a / 2) (b / 2))
      (lowest (λ b. zero) min (λ b. omega arith) a b)

bit_or-lowest : (a b : ℕ) → bit_or a b ≡ bit_or (a / 2) (b / 2) * 2 + max (a % 2) (b % 2)
bit_or-lowest a b =
    rw (bit_or-bitwise a b, bit_or-bitwise (a / 2) (b / 2))
      (lowest (λ b. b) max (λ b. omega arith) a b)

pub bit_and-split :
    (k a b x y : ℕ)
    → x < 2 ^ k
    → y < 2 ^ k
    → bit_and (a * 2 ^ k + x) (b * 2 ^ k + y) ≡ bit_and a b * 2 ^ k + bit_and x y
bit_and-split k a b x y hx hy = split bit_and min bit_and-lowest k a b x y hx hy refl

pub bit_or-split :
    (k a b x y : ℕ)
    → x < 2 ^ k
    → y < 2 ^ k
    → bit_or (a * 2 ^ k + x) (b * 2 ^ k + y) ≡ bit_or a b * 2 ^ k + bit_or x y
bit_or-split k a b x y hx hy = split bit_or max bit_or-lowest k a b x y hx hy refl

zero-bit_or : (b : ℕ) → bit_or 0 b ≡ b
zero-bit_or b = bit_or-bitwise 0 b

zero-bit_and : (b : ℕ) → bit_and 0 b ≡ 0
zero-bit_and b = bit_and-bitwise 0 b

bit_or-zero_up_to : (n a : ℕ) → a ≤ n → bit_or a 0 ≡ a
bit_or-zero_up_to zero a h = let e : a ≡ 0 = omega arith in rw (e, zero-bit_or 0)
bit_or-zero_up_to (suc n) zero h = zero-bit_or 0
bit_or-zero_up_to (suc n) (suc a) h =
    omega (arith, bit_or-lowest (suc a) 0, bit_or-zero_up_to n (suc a / 2) (omega arith))

bit_and-zero_up_to : (n a : ℕ) → a ≤ n → bit_and a 0 ≡ 0
bit_and-zero_up_to zero a h = let e : a ≡ 0 = omega arith in rw (e, zero-bit_and 0)
bit_and-zero_up_to (suc n) zero h = zero-bit_and 0
bit_and-zero_up_to (suc n) (suc a) h =
    omega (arith, bit_and-lowest (suc a) 0, bit_and-zero_up_to n (suc a / 2) (omega arith))

pub bit_and-zero : (a : ℕ) → bit_and a 0 ≡ 0
bit_and-zero a = bit_and-zero_up_to a a (omega arith)

-- A number in reach of a mask of ones.
pub bit_and-ones : (k a : ℕ) → a < 2 ^ k → bit_and a (2 ^ k - 1) ≡ a
bit_and-ones zero a h = let e : a ≡ 0 = omega arith in rw (e, zero-bit_and (2 ^ 0 - 1))
bit_and-ones (suc k) a h =
    let e : (2 ^ suc k - 1) / 2 ≡ 2 ^ k - 1 = omega arith in
    let r : (2 ^ suc k - 1) % 2 ≡ 1 = omega arith in
    let rest = bit_and-ones k (a / 2) (omega arith) in
    let low = rw (e, r, rest) at (bit_and-lowest a (2 ^ suc k - 1)) in omega (arith, low)

-- A field above the bits that are there is added, whatever lies behind bit `n`.
pub bit_or-field :
    (n k p x y : ℕ)
    → x < 2 ^ k
    → x < 2 ^ n
    → y * 2 ^ k < 2 ^ n
    → bit_or (p * 2 ^ n + x) (y * 2 ^ k) ≡ p * 2 ^ n + (y * 2 ^ k + x)
bit_or-field n k p x y hx hn hy =
    let whole = bit_or-split n p 0 x (y * 2 ^ k) hn hy in
    let part = bit_or-split k 0 y x 0 hx (omega arith) in
    let ex : 0 * 2 ^ k + x ≡ x = omega arith in
    let ey : y * 2 ^ k + 0 ≡ y * 2 ^ k = omega arith in
    let part' : bit_or x (y * 2 ^ k) ≡ y * 2 ^ k + x =
      rw (ex, ey, zero-bit_or y, bit_or-zero_up_to x x (omega arith)) at part in
    let ez : 0 * 2 ^ n + y * 2 ^ k ≡ y * 2 ^ k = omega arith in
    rw (ez, bit_or-zero_up_to p p (omega arith), part') at whole

-- A mask of one bit.
pub bit_and-bit : (k a r : ℕ) → r < 2 ^ k → bit_and (a * 2 ^ k + r) (2 ^ k) ≡ a % 2 * 2 ^ k
bit_and-bit k a r h =
    let whole = bit_and-split k a 1 r 0 h (omega arith) in
    let one : bit_and a 1 ≡ a % 2 = omega (arith, bit_and-lowest a 1, bit_and-zero (a / 2)) in
    let mask : 1 * 2 ^ k + 0 ≡ 2 ^ k = omega arith in
    let value : a % 2 * 2 ^ k + 0 ≡ a % 2 * 2 ^ k = omega arith in
    rw (mask, one, bit_and-zero r, value) at whole
