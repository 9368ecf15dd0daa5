-- ===== src/Bustd/Bitfield.antt =====
-- `Bitfield<SIZE>` of bustd/bitfield.hpp: bit `i` stands in byte `i / 8`. `size` is the template's
-- argument.
pub mod Bit
pub mod Update
mod Tests
use bunos.Prelude.{
  ℕ, ◌+◌, ◌-◌, ◌/◌, ◌%◌, ◌^◌, Bool, true, false, not, List, Result, ok, ◌>>=◌, ◌>>◌, check, access,
  store, get_elem?, replicate, leb, ◌==◌, ◌!=◌, if◌then◌else◌, bit_and, bit_or,
}

-- The byte of `replace` afterwards.
unfoldable pub with_bit : ℕ → ℕ → Bool → ℕ
with_bit byte shift v =
    let cleared = bit_and byte (255 - 2 ^ shift) in
    if v then bit_or cleared (2 ^ shift) else cleared

module _ (size : ℕ) where
  unfoldable pub empty : List ℕ
  empty = replicate (size / 8 + (if size % 8 != 0 then 1 else 0)) 0

  unfoldable pub at : List ℕ → ℕ → Result Bool
  at data_ i = do
    check (leb i size)
    byte ← access (get_elem? data_ (i / 8))
    ok (bit_and byte (2 ^ (i % 8)) != 0)

  -- The old value, and the bytes.
  unfoldable pub replace : List ℕ → ℕ → Bool → Result (Bool × List ℕ)
  unfolding with_bit
  replace data_ i v = do
    check (leb i size)
    byte ← access (get_elem? data_ (i / 8))
    data' ← store data_ (i / 8) (with_bit byte (i % 8) v)
    ok (bit_and byte (2 ^ (i % 8)) != 0, data')

  unfoldable pub set_bit : List ℕ → ℕ → Bool → Result (List ℕ)
  unfolding replace
  set_bit data_ i v = do (_, data') ← replace data_ i v; ok data'
