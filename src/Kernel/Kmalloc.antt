-- ===== src/Kernel/Kmalloc.antt =====
-- The kernel heap, kernel/kmalloc.cpp and kmalloc.hpp. A `Block *` is an address; `mem` gives the
-- header that stands at an address. A block's header is followed by its data, and by `subblocks`
-- further units of `BLOCK_SIZE` bytes. `align_offset` is `offsetof(AlignedBlock, align)`, which the
-- compiler fixes through `max_align_t`. Loops run on one round of fuel for each unit of the heap.
-- Debug printing is left out.
pub mod Cells
pub mod Layout
pub mod Scan
pub mod Carve
pub mod Allocate
pub mod Locate
pub mod Merge
pub mod Release
pub mod Coalesced
pub mod Requests
mod Tests
use bunos.Prelude.{
  ℕ, zero, suc, ◌+◌, ◌-◌, ◌*◌, ◌/◌, ◌%◌, Bool, true, false, ◌&&◌, Option, none, some, Result, ok,
  panic, timeout, ◌>>=◌, ◌>>◌, check, leb, ltb, ◌==◌, ◌!=◌, if◌then◌else◌, add32, sub32, mul32,
}

abbrev pub block_size : ℕ
block_size = 32

abbrev pub alignof_block : ℕ
alignof_block = 4

abbrev pub sizeof_block : ℕ
sizeof_block = 8

pub record Block : Type 0 where
  pub free : Bool
  pub subblocks : ℕ

pub record Allocator : Type 0 where
  pub first : ℕ
  pub last : ℕ
  pub mem : ℕ → Block

-- A write of a header.
pub put : Allocator → ℕ → Block → Allocator
put a p b = record a { mem = λ q. if q == p then b else a.mem q }

-- The constructor. `m_first_block + block_count` is arithmetic on a `Block *`, which steps by
-- `sizeof(Block)`, not by `BLOCK_SIZE`. It is given the linker's `_kernel_heap_start` and
-- `_kernel_heap_end`.
pub init : ℕ → ℕ → (ℕ → Block) → Result Allocator
unfolding put
init heap_start heap_end mem = do
  check (heap_start % block_size == 0)
  check (heap_start % alignof_block == 0)
  let heap_size = sub32 heap_end heap_start
  let block_count = heap_size / block_size
  let a : Allocator = record {
    first = heap_start;
    last = add32 heap_start (mul32 sizeof_block block_count);
    mem = mem;
  }
  ok (put a heap_start (record { free = true; subblocks = sub32 block_count 1 }))

pub next_block : Allocator → ℕ → Option ℕ
next_block a block =
    let retval = add32 block (mul32 block_size (add32 (a.mem block).subblocks 1)) in
    if ltb a.last retval then none else some retval

-- One round for each unit up to `m_last_block`, where the last block may start, and some to spare.
pub rounds : Allocator → ℕ
rounds a = (a.last - a.first) / block_size + 3

-- How many units beyond the first an allocation of `size` bytes takes.
pub extra_subblocks_of : ℕ → ℕ → ℕ
extra_subblocks_of align_offset size =
    let first_block_capacity = sub32 block_size align_offset in
    let size_without_first_block = sub32 size first_block_capacity in
    let one_off : ℕ = if size_without_first_block % block_size != 0 then 1 else 0 in
    let subblocks = add32 (size_without_first_block / block_size) one_off in
    if ltb size first_block_capacity then 0 else subblocks

pub fits : ℕ → Block → Bool
fits extra b = b.free && leb extra b.subblocks

-- The search of `allocate`; at the end of the heap it panics.
pub scan : ℕ → Allocator → ℕ → Option ℕ → Result ℕ
scan fuel a extra none = panic
scan zero a extra (some block) = timeout
scan (suc fuel) a extra (some block) = elim (fits extra (a.mem block)) [
  | true ↦ ok block
  | false ↦ scan fuel a extra (next_block a block)
]

pub split : Allocator → ℕ → ℕ → Result Allocator
split a block extra =
    let b = a.mem block in
    if b.subblocks == extra then ok a else (do
      check (ltb extra b.subblocks)
      let prev_blocks = b.subblocks
      let a' = put a block (record b { subblocks = extra })
      elim (next_block a' block) [
        | none ↦ ok (put a' block (record b { subblocks = prev_blocks }))
        | some next ↦
            ok (put a' next (record { free = true; subblocks = sub32 (sub32 prev_blocks 1) extra }))
      ])

pub mark : Allocator → ℕ → Bool → Allocator
mark a block free = put a block (record { free = free; subblocks = (a.mem block).subblocks })

pub allocate : ℕ → Allocator → ℕ → Result (ℕ × Allocator)
allocate align_offset a size = do
  let extra = extra_subblocks_of align_offset size
  block ← scan (rounds a) a extra (some a.first)
  a' ← split a block extra
  ok (add32 block align_offset, mark a' block false)

-- The search of `deallocate`, with the block before.
pub locate : ℕ → ℕ → Allocator → ℕ → Option ℕ → Option ℕ → Result (ℕ × Option ℕ)
locate fuel align_offset a p prev none = panic
locate zero align_offset a p prev (some block) = timeout
locate (suc fuel) align_offset a p prev (some block) = elim (add32 block align_offset == p) [
  | true ↦ ok (block, prev)
  | false ↦ locate fuel align_offset a p (some block) (next_block a block)
]

-- `while (next && next->free)` of `merge_blocks`; `next` is computed anew in each round.
pub merge_blocks : ℕ → Allocator → ℕ → Result Allocator
merge_blocks zero a block = timeout
merge_blocks (suc fuel) a block = elim (next_block a block) [
  | none ↦ ok a
  | some next ↦ elim (a.mem next).free [
    | true ↦
        merge_blocks fuel
          (put a block (record (a.mem block) {
            subblocks = add32 (a.mem block).subblocks (add32 (a.mem next).subblocks 1);
          }))
          block
    | false ↦ ok a
  ]
]

-- The block to merge from: the one before, if that is free.
pub merge_from : Allocator → ℕ → Option ℕ → ℕ
merge_from a block none = block
merge_from a block (some prev) = if (a.mem prev).free then prev else block

pub deallocate : ℕ → Allocator → ℕ → Result Allocator
deallocate align_offset a p = do
  (block, prev) ← locate (rounds a) align_offset a p none (some a.first)
  let a' = mark a block true
  merge_blocks (rounds a) a' (merge_from a' block prev)
