-- ===== src/Kernel/PhysicalPages.antt =====
-- kernel/physicalmalloc.cpp: one bit for each of the 8192 pages from `start` on, the end of the
-- kernel's heap, which the linker fixes.
pub mod Fresh
pub mod Release
mod Tests
use bunos.Prelude.{
  ℕ, zero, suc, ◌+◌, ◌-◌, ◌*◌, ◌/◌, ◌%◌, ◌^◌, Bool, true, false, List, Result, ok, panic, ◌>>=◌,
  ◌>>◌, check, leb, ◌==◌, if◌then◌else◌, bit_and, u64, u32,
}
use bunos.Bustd.Bitfield
use bunos.Bustd.Bitfield.{at, set_bit}

abbrev pub page_count : ℕ
page_count = 8192

abbrev pub page_size : ℕ
page_size = 0x1000

-- The loop of `allocate_physical_page` at page `i`, with `k` pages left.
unfoldable pub allocate_loop : ℕ → List ℕ → ℕ → ℕ → Result (ℕ × List ℕ)
allocate_loop start allocations zero i = panic
allocate_loop start allocations (suc k) i = do
  let rest = allocate_loop start allocations k (i + 1)
  used ← at page_count allocations i
  elim used [
    | true ↦ rest
    | false ↦ do
      allocations' ← set_bit page_count allocations i true
      ok (u64 (i * page_size + start), allocations')
  ]

unfoldable pub allocate_physical_page : ℕ → List ℕ → Result (ℕ × List ℕ)
unfolding allocate_loop
allocate_physical_page start allocations = allocate_loop start allocations page_count 0

-- The index is a `u64`, and is cut to `usize` as an argument.
unfoldable pub free_physical_page : ℕ → List ℕ → ℕ → Result (List ℕ)
free_physical_page start allocations page = do
  check (bit_and page (page_size - 1) == 0)
  check (leb start page)
  let as_index = u32 ((page - start) / page_size)
  used ← at page_count allocations as_index
  check used
  set_bit page_count allocations as_index false
