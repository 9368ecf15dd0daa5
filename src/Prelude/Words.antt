-- ===== src/Prelude/Words.antt =====
-- Machine words: casts, shifts and the wrapping operations of the 32-bit target.
use Prim.Native.Nat.{ℕ, ◌+◌, ◌-◌, ◌*◌, ◌/◌, ◌%◌, ◌^◌, ◌≤◌, ◌<◌}
use mathlib.Core.Path.{◌≡◌}
use native.Mathlib.Omega.{arith}

abbrev pub u8 : ℕ → ℕ
u8 n = n % 2 ^ 8

abbrev pub u16 : ℕ → ℕ
u16 n = n % 2 ^ 16

abbrev pub u32 : ℕ → ℕ
u32 n = n % 2 ^ 32

abbrev pub u64 : ℕ → ℕ
u64 n = n % 2 ^ 64

infixl 75 ◌<<<◌ ◌>>>◌
abbrev pub ◌<<<◌ : ℕ → ℕ → ℕ
x <<< k = x * 2 ^ k

abbrev pub ◌>>>◌ : ℕ → ℕ → ℕ
x >>> k = x / 2 ^ k

-- `usize` and `u32` arithmetic.
abbrev pub add32 : ℕ → ℕ → ℕ
add32 a b = (a + b) % 2 ^ 32

abbrev pub sub32 : ℕ → ℕ → ℕ
sub32 a b = (a + 2 ^ 32 - b) % 2 ^ 32

abbrev pub mul32 : ℕ → ℕ → ℕ
mul32 a b = (a * b) % 2 ^ 32

pub add32_exact : (a b : ℕ) → a + b < 2 ^ 32 → add32 a b ≡ a + b
add32_exact a b h = omega arith

pub sub32_exact : (a b : ℕ) → b ≤ a → a < 2 ^ 32 → sub32 a b ≡ a - b
sub32_exact a b h k = omega arith
