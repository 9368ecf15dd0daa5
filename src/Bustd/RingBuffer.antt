-- ===== src/Bustd/RingBuffer.antt =====
-- `SizedRingBuffer<N>` of bustd/ringbuffer.hpp. `n` is the template's `N`; a caller's buffer is a
-- list of bytes. The class is shared by the keyboard driver, the keyboard file and the console.
pub mod Contents
pub mod Write
pub mod Read
pub mod Queue
pub mod Refine
pub mod View
mod Tests
use bunos.Prelude.{
  ℕ, ◌+◌, ◌-◌, ◌%◌, ◌^◌, Bool, true, false, Option, none, some, List, [], ◌∷◌, Result, ok, ◌>>=◌,
  ◌>>◌, check, access, get_elem?, leb, ltb, ◌==◌, if◌then◌else◌, add32, sub32, replicate, take,
  drop,
}
use bunos.Bustd.Math.{minimum}
use bunos.Libc.Memory.{memcpy}

pub record Ring : Type 0 where
  pub start : ℕ
  pub size : ℕ
  pub buf : List ℕ

module _ (n : ℕ) where
  unfoldable pub init : Ring
  init = record { start = 0; size = 0; buf = replicate n 0 }

  unfoldable pub is_full : Ring → Bool
  is_full r = r.size == n

  unfoldable pub is_empty : Ring → Bool
  is_empty r = r.size == 0

  unfoldable pub remaining_space : Ring → ℕ
  remaining_space r = sub32 n r.size

  -- The three ways to place `to_write` bytes behind the stored ones.
  unfoldable pub write_bytes : Ring → List ℕ → ℕ → Result (List ℕ)
  write_bytes r buffer to_write =
      let append_offset = add32 r.start r.size in
      if leb (add32 append_offset to_write) n
      then memcpy r.buf append_offset buffer 0 to_write
      else if ltb append_offset n
      then (do
        let margin_to_end = sub32 n append_offset
        buf' ← memcpy r.buf append_offset buffer 0 margin_to_end
        memcpy buf' 0 buffer margin_to_end (sub32 to_write margin_to_end))
      else memcpy r.buf (sub32 append_offset n) buffer 0 to_write

  unfoldable pub write : Ring → List ℕ → ℕ → Result (ℕ × Ring)
  unfolding write_bytes remaining_space
  write r buffer length = do
    let to_write = minimum length (remaining_space r)
    buf' ← write_bytes r buffer to_write
    ok (to_write, record r { size = add32 r.size to_write; buf = buf' })

  -- `buffer` is the caller's array; the result is how many bytes were stored into it, and it.
  unfoldable pub read : Ring → List ℕ → ℕ → Result (ℕ × List ℕ)
  read r buffer length =
      let to_read = minimum length r.size in
      if to_read == 0 then ok (0, buffer) else (do
        let margin = sub32 n r.start
        buffer' ← if ltb to_read margin then memcpy buffer 0 r.buf r.start to_read else (do
          b ← memcpy buffer 0 r.buf r.start margin
          memcpy b margin r.buf 0 (sub32 to_read margin))
        ok (to_read, buffer'))

  -- The name `drop` is the list function's.
  unfoldable pub discard : Ring → ℕ → ℕ × Ring
  discard r k =
      let to_drop = minimum k r.size in
      let start = add32 r.start to_drop in
      (
        to_drop,
        record r {
          size = sub32 r.size to_drop;
          start = if leb n start then sub32 start n else start;
        },
      )

  unfoldable pub take_upto : Ring → List ℕ → ℕ → Result (ℕ × List ℕ × Ring)
  unfolding read discard
  take_upto r buffer upto = do
    (bytes_read, buffer') ← read r buffer upto
    ok (bytes_read, buffer', (discard r bytes_read).1)

  unfoldable pub push : Ring → ℕ → Result Ring
  unfolding write
  push r byte = do (_, r') ← write r (byte ∷ []) 1; ok r'

  -- `retval` starts uninitialised: its value before the call does not matter.
  unfoldable pub pop : Ring → Result (ℕ × Ring)
  unfolding take_upto
  pop r = do
    (k, retval, r') ← take_upto r (0 ∷ []) 1
    check (k == 1)
    byte ← access (get_elem? retval 0)
    ok (byte, r')

  unfoldable pub head : Ring → Result ℕ
  unfolding read
  head r = do (k, retval) ← read r (0 ∷ []) 1; check (k == 1); access (get_elem? retval 0)

  -- Both parts as views; the second is `none` where the code stores a null view.
  unfoldable pub read_nocopy : Ring → Option (List ℕ × Option (List ℕ))
  unfolding is_empty
  read_nocopy r =
      if is_empty r
      then none
      else let margin = sub32 n r.start in
        let first_part = take (minimum margin r.size) (drop r.start r.buf) in
        if ltb margin r.size
        then some (first_part, some (take (sub32 r.size margin) r.buf))
        else some (first_part, none)

  unfoldable pub clear : Ring → Ring
  unfolding discard
  clear r = (discard r r.size).1
