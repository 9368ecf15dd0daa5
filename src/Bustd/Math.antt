-- ===== src/Bustd/Math.antt =====
-- bustd/math.hpp at the type of `usize`.
use bunos.Prelude.{ℕ, zero, suc, ◌/◌, ◌%◌, ◌!=◌, ltb, if◌then◌else◌, add32, mul32}

abbrev pub minimum : ℕ → ℕ → ℕ
minimum lhs rhs = if ltb lhs rhs then lhs else rhs

abbrev pub maximum : ℕ → ℕ → ℕ
maximum lhs rhs = if ltb rhs lhs then lhs else rhs

abbrev pub divide_ceil : ℕ → ℕ → ℕ
divide_ceil n div = if n % div != 0 then add32 (n / div) 1 else n / div

-- The loop of `pow` with the multiplications still to come.
pow_loop : ℕ → ℕ → ℕ → ℕ
pow_loop base zero val = val
pow_loop base (suc k) val = pow_loop base k (mul32 val base)

unfoldable pub pow : ℕ → ℕ → ℕ
unfolding pow_loop
pow base zero = 1
pow base (suc k) = pow_loop base k base
