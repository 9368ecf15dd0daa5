-- ===== src/Kernel/VirtualMemory/Kernel.antt =====
-- The pages that `map_kernel_memory` picks.
use bunos.Prelude.{
  ℕ, zero, suc, ◌+◌, ◌-◌, ◌^◌, ◌<◌, ◌≡◌, true, false, some, ok, arith, ltb, ◌==◌, List, ◌*◌, refl,
  ap, ◌∙◌, add32,
}
use bunos.Kernel.Paging.{directory_from_u32, table_from_u32}
use bunos.Kernel.Paging.Words.{table_from_u32-as_u32}
use bunos.Kernel.PhysicalPages.{allocate_physical_page}
use bunos.Kernel.VirtualMemory.{
  Machine, write, entry_at, new_table_entry, find_free, map_loop, map_kernel_memory,
  page_table_index_from_addr, virtual_address_from_indices,
}

-- For one page, the search gives the entry before the first one that is not present: where that is not
-- the first entry searched, the entry it gives is present.
pub find_free_one :
    (word : ℕ → ℕ) (k i n : ℕ)
    → 1 < i
    → n < k
    → ((j : ℕ) → j < n → (table_from_u32 (word (i + j))).present ≡ true)
    → (table_from_u32 (word (i + n))).present ≡ false
    → find_free word 1 k i 0 ≡ ok (some (i + n - 1))
unfolding find_free
find_free_one word zero i n low within used free = absurd (omega arith)
find_free_one word (suc k) i zero low within used free =
    let here : i + 0 ≡ i = omega arith in
    let absent : (table_from_u32 (word i)).present ≡ false = rw (← here) free in
    let inside : ltb 1 i ≡ true = ground arith in
    let gives : i + 0 - 1 ≡ i - 1 = omega arith in rw (gives, absent, inside)
find_free_one word (suc k) i (suc n) low within used free =
    let here : i + 0 ≡ i = omega arith in
    let busy : (table_from_u32 (word i)).present ≡ true = rw (← here) (used 0 (omega arith)) in
    let next : i + suc n ≡ i + 1 + n = omega arith in
    let later =
      find_free_one word k (i + 1) n (omega arith) (omega arith)
        (λ j h. let e : i + 1 + j ≡ i + suc j = omega arith in rw e (used (suc j) (omega arith)))
        (rw (← next) free) in
    rw (next, busy, later)

write_self : (m : Machine) (a w : ℕ) → (write m a w).memory a ≡ w
write_self m a w = let e : (a == a) ≡ true = ground arith in rw e

-- Where the first entry at or behind the heap's end that is not present is a later one than the first,
-- a page is asked for, a physical page is free and the kernel's directory points to its table,
-- `map_kernel_memory` returns, and has given a present entry, the one before, a new physical page.
pub map_kernel_memory-in_use :
    (page_table page_directory heap_end first_page : ℕ) (m : Machine) (n page p : ℕ)
    (allocations' : List ℕ)
    → 1 < page_table_index_from_addr heap_end
    → page_table_index_from_addr heap_end + suc n < 1024
    → ((j : ℕ)
        → j < suc n
        → (table_from_u32
            (m.memory (entry_at page_table (page_table_index_from_addr heap_end + j)))).present
          ≡ true)
    → (table_from_u32
        (m.memory (entry_at page_table (page_table_index_from_addr heap_end + suc n)))).present
      ≡ false
    → (directory_from_u32 (m.memory (entry_at page_directory 768))).page_table_address ≡ page_table
    → allocate_physical_page first_page m.allocations ≡ ok (page, allocations')
    → p < 2 ^ 20
    → page ≡ p * 2 ^ 12
    → (a : ℕ) × (m' : Machine) × (map_kernel_memory page_table page_directory heap_end first_page m
          1
        ≡ ok (a, m'))
      × (table_from_u32 (m'.memory (entry_at page_table (page_table_index_from_addr heap_end + n)))
          ≡ new_table_entry false page)
      × ((table_from_u32
            (m.memory (entry_at page_table (page_table_index_from_addr heap_end + n)))).present
          ≡ true)
unfolding map_kernel_memory map_loop
map_kernel_memory-in_use page_table page_directory heap_end first_page m n page p allocations' low
      fits used free points allocated small aligned =
    let first = page_table_index_from_addr heap_end in
    let (w, written, read) =
      table_from_u32-as_u32 (new_table_entry false page) p refl refl (omega arith) small aligned in
    let slot = entry_at page_table (first + n) in
    let found =
      find_free_one (λ i. m.memory (entry_at page_table i)) (1024 - first) first (suc n) low
        (omega arith) used free in
    let before : first + suc n - 1 ≡ first + n = omega arith in
    let inside : ltb first 1024 ≡ true = ground arith in
    let last : ltb (add32 (first + n) 1) 1024 ≡ true = ground arith in
    let m' = write (record m { allocations = allocations' }) slot w in
    (
      virtual_address_from_indices 768 (first + n),
      m',
      rw (found, inside, before, last, points, allocated, written),
      ap table_from_u32 (write_self (record m { allocations = allocations' }) slot w) ∙ read,
      used n (omega arith),
    )
