-- ===== src/Libc/Memory.antt =====
-- The block functions of libc/string.cpp. An array of bytes is a list of numbers below 256, a
-- pointer into it an index. `memcpy` is given two arrays, so its source and destination do not
-- overlap; `memmove` works inside one array.
pub mod Copy
pub mod Move
mod Tests
use bunos.Prelude.{
  ℕ, zero, suc, ◌+◌, ◌-◌, ◌%◌, Bool, ◌&&◌, List, Result, ok, ◌>>=◌, access, store, get_elem?, ltb,
  leb, ◌==◌, if◌then◌else◌, u8,
}

-- The loop of `memcpy` at index `i`, with `k` rounds left.
copy_loop : List ℕ → ℕ → List ℕ → ℕ → ℕ → ℕ → Result (List ℕ)
copy_loop dest d src s zero i = ok dest
copy_loop dest d src s (suc k) i = do
  b ← access (get_elem? src (s + i))
  dest' ← store dest (d + i) b
  copy_loop dest' d src s k (i + 1)

-- `memcpy(dest + d, src + s, n)`.
unfoldable pub memcpy : List ℕ → ℕ → List ℕ → ℕ → ℕ → Result (List ℕ)
unfolding copy_loop
memcpy dest d src s n = copy_loop dest d src s n 0

set_loop : List ℕ → ℕ → ℕ → ℕ → ℕ → Result (List ℕ)
set_loop buf p value zero i = ok buf
set_loop buf p value (suc k) i = do
  buf' ← store buf (p + i) (u8 value)
  set_loop buf' p value k (i + 1)

-- `memset(buf + p, value, n)`.
unfoldable pub memset : List ℕ → ℕ → ℕ → ℕ → Result (List ℕ)
unfolding set_loop
memset buf p value n = set_loop buf p value n 0

-- `*dest++ = *src++`, `k` rounds inside one array.
forward_loop : List ℕ → ℕ → ℕ → ℕ → Result (List ℕ)
forward_loop mem d s zero = ok mem
forward_loop mem d s (suc k) = do
  b ← access (get_elem? mem s)
  mem' ← store mem d b
  forward_loop mem' (d + 1) (s + 1) k

-- `*reverse_dest-- = *reverse_src--`, `k` rounds; the pointers do not go below `k - 1` rounds'
-- reach, so `-` does not stop early.
backward_loop : List ℕ → ℕ → ℕ → ℕ → Result (List ℕ)
backward_loop mem d s zero = ok mem
backward_loop mem d s (suc k) = do
  b ← access (get_elem? mem s)
  mem' ← store mem d b
  backward_loop mem' (d - 1) (s - 1) k

-- `memmove(mem + d, mem + s, count)`. The call of `memcpy` copies upwards, as `forward_loop`.
unfoldable pub memmove : List ℕ → ℕ → ℕ → ℕ → Result (List ℕ)
unfolding forward_loop backward_loop
memmove mem d s count =
    if count == 0
    then ok mem
    else if d == s
    then ok mem
    else if ltb d s && leb s (d + count)
    then forward_loop mem d s count
    else if ltb d s && leb d (s + count)
    then backward_loop mem (d + count) (s + count) count
    else forward_loop mem d s count
