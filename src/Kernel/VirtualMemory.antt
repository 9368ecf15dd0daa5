-- ===== src/Kernel/VirtualMemory.antt =====
-- kernel/x86/memory.cpp: the maps of the kernel's and of the processes' memory. Memory is a function
-- from physical addresses to words; a page behind a PageMapGuard is read and written at its physical
-- address. The arrays kernel_page_table and kernel_page_directory lie at the physical addresses
-- `page_table` and `page_directory`; `heap_end` and `kernel_start` are the linker's, and `first_page`
-- is the address of the first physical page. init_memory_management fills the kernel's own tables from
-- the linker's addresses and is left out.
pub mod Indices
pub mod User
pub mod Kernel
mod Tests
use bunos.Prelude.{
  ℕ, zero, suc, ◌+◌, ◌-◌, ◌*◌, ◌/◌, ◌%◌, ◌^◌, Bool, true, false, Option, some, none, List, Result,
  ok, panic, ◌>>=◌, ◌>>◌, check, ltb, ◌==◌, if◌then◌else◌, bit_and, u16, u32, add32, mul32,
}
use bunos.Kernel.Paging.{
  PageDirectoryEntry, PageTableEntry, directory_as_u32, directory_from_u32, table_as_u32,
  table_from_u32,
}
use bunos.Kernel.PhysicalPages.{allocate_physical_page}
use bunos.Kernel.Task.{Process, take_memory_page}

unfoldable pub virtual_address_from_indices : ℕ → ℕ → ℕ
virtual_address_from_indices directory_index table_index =
    add32 (mul32 (mul32 directory_index 1024) 0x1000) (mul32 table_index 0x1000)

unfoldable pub page_dir_index_from_addr : ℕ → ℕ
page_dir_index_from_addr addr = u16 (bit_and addr 0xFFFFF000 / (1024 * 0x1000))

unfoldable pub page_table_index_from_addr : ℕ → ℕ
page_table_index_from_addr addr = u16 (addr % (1024 * 0x1000) / 0x1000)

pub record Machine : Type 0 where
  pub memory : ℕ → ℕ
  pub allocations : List ℕ

abbrev pub write : Machine → ℕ → ℕ → Machine
write m a w = record m { memory = λ q. if q == a then w else m.memory q }

-- Entry `i` of the table at `base`.
abbrev pub entry_at : ℕ → ℕ → ℕ
entry_at base i = base + i * 4

abbrev pub new_directory_entry : ℕ → PageDirectoryEntry
new_directory_entry address = record {
  present = true;
  read_write = true;
  user = true;
  write_through = false;
  cache_disable = false;
  accessed = false;
  must_be_zero = false;
  is_large = false;
  global = false;
  available = 0;
  page_table_address = address;
}

abbrev pub new_table_entry : Bool → ℕ → PageTableEntry
new_table_entry user address = record {
  present = true;
  read_write = true;
  user = user;
  write_through = false;
  cache_disable = false;
  accessed = false;
  dirty = false;
  must_be_zero = false;
  global = false;
  available = 0;
  page_address = address;
}

module _ (first_page : ℕ) where
  -- The first block of `map_user_memory`: the address of the page table.
  unfoldable pub user_table : Machine → Process → ℕ → Result (ℕ × Machine × Process)
  user_table m p slot =
      let create : Result (ℕ × Machine × Process) = (do
        (allocated, allocations') ← allocate_physical_page first_page m.allocations
        w ← directory_as_u32 (new_directory_entry (u32 allocated))
        ok (
          u32 allocated,
          write (record m { allocations = allocations' }) slot w,
          take_memory_page p allocated,
        )) in
      let entry = directory_from_u32 (m.memory slot) in
      if entry.present then ok (entry.page_table_address, m, p) else create

  unfoldable pub map_user_memory : ℕ → Machine → Process → ℕ → Result (Machine × Process)
  unfolding user_table page_dir_index_from_addr page_table_index_from_addr
  map_user_memory kernel_start m p address = do
    check (ltb address kernel_start)
    (table, m1, p1) ←
        user_table m p (entry_at p.memory_mapping.mmu_base (page_dir_index_from_addr address))
    (page, allocations') ← allocate_physical_page first_page m1.allocations
    w ← table_as_u32 (new_table_entry true page)
    ok (
      write (record m1 { allocations = allocations' })
          (entry_at table (page_table_index_from_addr address)) w,
      take_memory_page p1 page,
    )

  -- The loop that maps `k` pages from entry `i` on.
  unfoldable pub map_loop : ℕ → ℕ → ℕ → Machine → Result Machine
  map_loop zero i table m = ok m
  map_loop (suc k) i table m = do
    (page, allocations') ← allocate_physical_page first_page m.allocations
    w ← table_as_u32 (new_table_entry false page)
    map_loop k (i + 1) table (write (record m { allocations = allocations' }) (entry_at table i) w)

unfoldable pub set_user_mem_no_write : Machine → Process → ℕ → Result Machine
unfolding page_dir_index_from_addr page_table_index_from_addr
set_user_mem_no_write m p address = do
  let entry =
      directory_from_u32
        (m.memory (entry_at p.memory_mapping.mmu_base (page_dir_index_from_addr address)))
  check entry.present
  let slot = entry_at entry.page_table_address (page_table_index_from_addr address)
  let page = table_from_u32 (m.memory slot)
  check page.present
  w ← table_as_u32 (record page { read_write = false })
  ok (write m slot w)

-- The search for `count` entries in a row that are not present, among the `k` from `i` on;
-- `word` gives the entries' words. The result is `page_table_index`.
unfoldable pub find_free : (ℕ → ℕ) → ℕ → ℕ → ℕ → ℕ → Result (Option ℕ)
find_free word count zero i free_in_a_row = ok none
find_free word count (suc k) i free_in_a_row =
    let free = u16 (free_in_a_row + 1) in
    let busy = find_free word count k (i + 1) 0 in
    let longer = find_free word count k (i + 1) free in
    let found : Result (Option ℕ) = (do check (ltb count i); ok (some (i - count))) in
    if (table_from_u32 (word i)).present then busy else if free == count then found else longer

module _ (page_table page_directory heap_end first_page : ℕ) where
  -- The second search, in the directory entries behind the kernel's own.
  unfoldable pub find_directory : Machine → ℕ → ℕ → ℕ → Result (ℕ × ℕ)
  unfolding find_free virtual_address_from_indices
  find_directory m count zero i = panic
  find_directory m count (suc k) i = do
    let rest = find_directory m count k (i + 1)
    check (directory_from_u32 (m.memory (entry_at page_directory i))).present
    found ← find_free (λ j. m.memory (virtual_address_from_indices i j)) count 0x1000 0 0
    elim found [ some j ↦ ok (i, j) | none ↦ rest ]

  unfoldable pub map_kernel_memory : Machine → ℕ → Result (ℕ × Machine)
  unfolding find_free find_directory map_loop virtual_address_from_indices
      page_table_index_from_addr
  map_kernel_memory m count = do
    check (ltb 0 count)
    let first = page_table_index_from_addr heap_end
    check (ltb first 1024)
    found ← find_free (λ i. m.memory (entry_at page_table i)) count (1024 - first) first 0
    let further = find_directory m count (1024 - 769) 769
    (directory, table) ← elim found [ some i ↦ ok (768, i) | none ↦ further ]
    check (ltb directory 1024)
    check (ltb (add32 table count) 1024)
    let entry = directory_from_u32 (m.memory (entry_at page_directory directory))
    m' ← map_loop first_page count table entry.page_table_address m
    ok (virtual_address_from_indices directory table, m')
