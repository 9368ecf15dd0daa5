-- ===== src/Kernel/VirtualMemory/Tests.antt =====
-- Runs on small machines.
use bunos.Prelude.{
  ℕ, zero, suc, ◌+◌, ◌<◌, ◌≡◌, ◌≢◌, refl, true, false, List, [], ok, arith, ◌==◌, if◌then◌else◌,
  replicate, set,
}
use bunos.Bustd.Bitfield.{at, set_bit, replace, with_bit}
use bunos.Kernel.Paging.{PageTableEntry, bit_set, directory_from_u32, table_from_u32}
use bunos.Kernel.PhysicalPages.{allocate_physical_page, allocate_loop}
use bunos.Kernel.Task.{Process, reset, running}
use bunos.Kernel.VirtualMemory.{
  Machine, entry_at, new_table_entry, map_user_memory, set_user_mem_no_write, map_kernel_memory,
  page_dir_index_from_addr, page_table_index_from_addr,
}
use bunos.Kernel.VirtualMemory.User.{
  IsPage, Leads, Walk, map_user_memory_absent, set_user_mem_no_write_lem,
}
use bunos.Kernel.VirtualMemory.Kernel.{map_kernel_memory-in_use}

abbrev none_taken : List ℕ
none_taken = replicate 1024 0

abbrev one_taken : List ℕ
one_taken = set none_taken 0 1

abbrev two_taken : List ℕ
two_taken = set none_taken 0 3

allocate_first : allocate_physical_page 0x300000 none_taken ≡ ok (0x300000, one_taken)
unfolding allocate_physical_page allocate_loop at set_bit replace with_bit
allocate_first = refl

allocate_second : allocate_physical_page 0x300000 one_taken ≡ ok (0x301000, two_taken)
unfolding allocate_physical_page allocate_loop at set_bit replace with_bit
allocate_second = refl

abbrev process : Process
process = record {
  state = running;
  regs = reset;
  memory_mapping = record { mmu_base = 0x200000; owned_pages = [] };
  pid = 1;
  syscall_regs = reset;
  kernel_stack = 0;
  kernel_stack_size = 0;
}

abbrev unmapped : Machine
unmapped = record { memory = λ q. 0; allocations = none_taken }

-- The page at 0x301000, through the table at 0x300000.
abbrev one_page : Machine
one_page = record {
  memory = λ q. if q == 0x200004 then 0x300007 else if q == 0x300000 then 0x301027 else 0;
  allocations = two_taken;
}

-- Entry 5 of the kernel's table is in use, and entry 6 is not.
abbrev kernel_tables : Machine
kernel_tables = record {
  memory = λ q. if q == 0x310C00 then 0x320003 else if q == 0x320014 then 0x5003 else 0;
  allocations = none_taken;
}

first-IsPage : IsPage 0x300000
first-IsPage = record { number = 0x300; small = omega arith; aligned = refl }

second-IsPage : IsPage 0x301000
second-IsPage = record { number = 0x301; small = omega arith; aligned = refl }

absent_before :
    (directory_from_u32
      (unmapped.memory (entry_at 0x200000 (page_dir_index_from_addr 0x400000)))).present
    ≡ false
unfolding directory_from_u32 bit_set
absent_before = refl

apart :
    entry_at 0x200000 (page_dir_index_from_addr 0x400000)
    ≢ entry_at 0x300000 (page_table_index_from_addr 0x400000)
unfolding page_dir_index_from_addr page_table_index_from_addr
apart e = absurd (omega (arith, e))

map_user_memory_absent_example :
    (m' : Machine) × (p' : Process) × (map_user_memory 0x300000 0xC0000000 unmapped process 0x400000
      ≡ ok (m', p'))
    × Walk m' 0x200000 0x400000 0x300000 0x301000
    × (p'.memory_mapping.mmu_base ≡ 0x200000)
map_user_memory_absent_example =
    map_user_memory_absent 0x300000 0xC0000000 unmapped process 0x400000 0x300000 0x301000 one_taken
      two_taken (omega arith) (omega arith) absent_before apart allocate_first first-IsPage
      allocate_second second-IsPage

-- The page is writable, the process's, and has been accessed.
abbrev accessed_entry : PageTableEntry
accessed_entry = record (new_table_entry true 0x301000) { accessed = true }

one_page-Leads : Leads one_page 0x200000 0x400000 accessed_entry
unfolding directory_from_u32 table_from_u32 bit_set page_dir_index_from_addr
    page_table_index_from_addr
one_page-Leads = (refl, refl)

one_page_apart :
    entry_at 0x200000 (page_dir_index_from_addr 0x400000)
    ≢ entry_at
        (directory_from_u32 (
          one_page.memory
            (entry_at 0x200000 (page_dir_index_from_addr 0x400000)))).page_table_address
        (page_table_index_from_addr 0x400000)
unfolding directory_from_u32 page_dir_index_from_addr page_table_index_from_addr
one_page_apart e = absurd (omega (arith, e))

set_user_mem_no_write_lem_example :
    (m' : Machine) × (set_user_mem_no_write one_page process 0x400000 ≡ ok m')
    × Leads m' 0x200000 0x400000 (record accessed_entry { read_write = false })
    × ((a : ℕ)
        → a
          ≢ entry_at
              (directory_from_u32 (
                one_page.memory
                  (entry_at 0x200000 (page_dir_index_from_addr 0x400000)))).page_table_address
              (page_table_index_from_addr 0x400000)
        → m'.memory a ≡ one_page.memory a)
set_user_mem_no_write_lem_example =
    set_user_mem_no_write_lem one_page process 0x400000 accessed_entry one_page-Leads refl refl refl
      second-IsPage one_page_apart

fifth_in_use :
    (j : ℕ)
    → j < 1
    → (table_from_u32 (
        kernel_tables.memory
          (entry_at 0x320000 (page_table_index_from_addr 0xC0005000 + j)))).present
      ≡ true
unfolding table_from_u32 bit_set page_table_index_from_addr
fifth_in_use zero h = refl
fifth_in_use (suc j) h = absurd (omega arith)

sixth_free :
    (table_from_u32 (
      kernel_tables.memory (entry_at 0x320000 (page_table_index_from_addr 0xC0005000 + 1)))).present
    ≡ false
unfolding table_from_u32 bit_set page_table_index_from_addr
sixth_free = refl

kernel_tables_point :
    (directory_from_u32 (kernel_tables.memory (entry_at 0x310000 768))).page_table_address
    ≡ 0x320000
unfolding directory_from_u32
kernel_tables_point = refl

heap_end_index :
    (1 < page_table_index_from_addr 0xC0005000) × (page_table_index_from_addr 0xC0005000 + 1 < 1024)
unfolding page_table_index_from_addr
heap_end_index = (omega arith, omega arith)

map_kernel_memory-in_use_example :
    (a : ℕ) × (m' : Machine) × (map_kernel_memory 0x320000 0x310000 0xC0005000 0x300000
        kernel_tables 1
      ≡ ok (a, m'))
    × (table_from_u32 (m'.memory (entry_at 0x320000 (page_table_index_from_addr 0xC0005000 + 0)))
        ≡ new_table_entry false 0x300000)
    × ((table_from_u32 (
          kernel_tables.memory
            (entry_at 0x320000 (page_table_index_from_addr 0xC0005000 + 0)))).present
        ≡ true)
map_kernel_memory-in_use_example =
    map_kernel_memory-in_use 0x320000 0x310000 0xC0005000 0x300000 kernel_tables 0 0x300000 0x300
      one_taken heap_end_index.0 heap_end_index.1 fifth_in_use sixth_free kernel_tables_point
      allocate_first (omega arith) refl
