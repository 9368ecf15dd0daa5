-- ===== src/Kernel/VirtualMemory/User.antt =====
-- A page of a process: mapped, and then protected.
use mathlib.Core.Path.{subst}
use bunos.Prelude.{
  ℕ, ◌+◌, ◌/◌, ◌%◌, bit_and, bit_and-split, bit_and-ones, bit_and-zero, sym, ◌*◌, ◌^◌, ◌<◌, ◌≡◌,
  ◌≢◌, refl, ap, ◌∙◌, Bool, true, false, List, Result, ok, arith, ltb, ◌==◌, u32,
}
use bunos.Kernel.Paging.{
  PageTableEntry, directory_as_u32, directory_from_u32, table_as_u32, table_from_u32, bit_set,
}
use bunos.Kernel.Paging.Words.{directory_from_u32-as_u32, table_from_u32-as_u32}
use bunos.Kernel.PhysicalPages.{allocate_physical_page}
use bunos.Kernel.Task.{Process, take_memory_page}
use bunos.Kernel.VirtualMemory.{
  Machine, write, entry_at, new_directory_entry, new_table_entry, user_table, map_user_memory,
  set_user_mem_no_write, page_dir_index_from_addr, page_table_index_from_addr,
}

write_self : (m : Machine) (a w : ℕ) → (write m a w).memory a ≡ w
write_self m a w = let e : (a == a) ≡ true = ground arith in rw e

write_ne : (m : Machine) (a b w : ℕ) → b ≢ a → (write m a w).memory b ≡ m.memory b
write_ne m a b w ne = let e : (b == a) ≡ false = ground arith in rw e

-- The address of a page: a multiple of the page size below 4 GiB.
pub record IsPage (address : ℕ) : Type 0 where
  pub number : ℕ
  pub small : number < 2 ^ 20
  pub aligned : address ≡ number * 2 ^ 12

table_word :
    (page : ℕ) (writable : Bool)
    → IsPage page
    → (w : ℕ) × (table_as_u32 (record (new_table_entry true page) { read_write = writable }) ≡ ok w)
      × (table_from_u32 w ≡ record (new_table_entry true page) { read_write = writable })
table_word page writable ok_page =
    table_from_u32-as_u32 (record (new_table_entry true page) { read_write = writable })
      ok_page.number refl refl (omega arith) ok_page.small ok_page.aligned

directory_word :
    (table : ℕ)
    → IsPage table
    → (w : ℕ) × (directory_as_u32 (new_directory_entry table) ≡ ok w)
      × (directory_from_u32 w ≡ new_directory_entry table)
directory_word table ok_table =
    directory_from_u32-as_u32 (new_directory_entry table) ok_table.number refl (omega arith)
      ok_table.small ok_table.aligned

-- The process's own directory leads from the address to the page entry `e`, as the processor walks it.
abbrev pub Leads : Machine → ℕ → ℕ → PageTableEntry → Type 0
Leads m base address e =
    ((directory_from_u32 (m.memory (entry_at base (page_dir_index_from_addr address)))).present
      ≡ true)
    × (table_from_u32 (
          m.memory (
            entry_at
              (directory_from_u32
                (m.memory (entry_at base (page_dir_index_from_addr address)))).page_table_address
              (page_table_index_from_addr address)))
        ≡ e)

-- What the processor reads of the word of an entry: bit 0 says that it is present, bit 1 that it
-- can be written to, bit 2 that the process can use it, and the upper 20 bits are the address that
-- it leads to.
pub record Grants (word address : ℕ) : Type 0 where
  pub present : bit_and word 1 ≢ 0
  pub writable : bit_and word 2 ≢ 0
  pub user : bit_and word 4 ≢ 0
  pub points : bit_and word 0xFFFFF000 ≡ address

-- The processor's walk for an address, over the entry in the directory and the one in this table.
pub record Walk (m : Machine) (base address table page : ℕ) : Type 0 where
  pub directory : Grants (m.memory (base + address / 2 ^ 22 * 4)) table
  pub entry : Grants (m.memory (table + address / 2 ^ 12 % 2 ^ 10 * 4)) page

bit_set_ne : (w i : ℕ) → bit_set w i ≡ true → bit_and w (2 ^ i) ≢ 0
unfolding bit_set
bit_set_ne w i set = ground (arith, set)

table-Grants : (w page : ℕ) → table_from_u32 w ≡ new_table_entry true page → Grants w page
unfolding table_from_u32
table-Grants w page held = record {
  present = bit_set_ne w 0 (ap (λ e. e.present) held);
  writable = bit_set_ne w 1 (ap (λ e. e.read_write) held);
  user = bit_set_ne w 2 (ap (λ e. e.user) held);
  points = ap (λ e. e.page_address) held;
}

directory-Grants : (w table : ℕ) → directory_from_u32 w ≡ new_directory_entry table → Grants w table
unfolding directory_from_u32
directory-Grants w table held = record {
  present = bit_set_ne w 0 (ap (λ e. e.present) held);
  writable = bit_set_ne w 1 (ap (λ e. e.read_write) held);
  user = bit_set_ne w 2 (ap (λ e. e.user) held);
  points = ap (λ e. e.page_table_address) held;
}

directory_index :
    (address : ℕ) → address < 2 ^ 32 → page_dir_index_from_addr address ≡ address / 2 ^ 22
unfolding page_dir_index_from_addr
directory_index address h =
    let parts =
      bit_and-split 12 (address / 2 ^ 12) 0xFFFFF (address % 2 ^ 12) 0 (omega arith)
        (omega arith) in
    let whole : address / 2 ^ 12 * 2 ^ 12 + address % 2 ^ 12 ≡ address = omega arith in
    let mask : 0xFFFFF * 2 ^ 12 + 0 ≡ 0xFFFFF000 = refl in
    let ones = bit_and-ones 20 (address / 2 ^ 12) (omega arith) in
    let parts' = rw (whole, mask, ones, bit_and-zero (address % 2 ^ 12)) at parts in
    omega (arith, parts')

table_index : (address : ℕ) → page_table_index_from_addr address ≡ address / 2 ^ 12 % 2 ^ 10
unfolding page_table_index_from_addr
table_index address = omega arith

pub record Mapped (run : Result (Machine × Process)) (m1 : Machine) (p : Process) (address page : ℕ)
    : Type 0 where
  pub machine : Machine
  pub process : Process
  pub returned : run ≡ ok (machine, process)
  pub leads : Leads machine p.memory_mapping.mmu_base address (new_table_entry true page)
  pub kept :
      machine.memory (entry_at p.memory_mapping.mmu_base (page_dir_index_from_addr address))
      ≡ m1.memory (entry_at p.memory_mapping.mmu_base (page_dir_index_from_addr address))
  pub same_base : process.memory_mapping.mmu_base ≡ p.memory_mapping.mmu_base

-- The second block, once the address of the table is known.
map_page :
    (first_page kernel_start : ℕ) (m m1 : Machine) (p p1 : Process) (address table page : ℕ)
    (allocations' : List ℕ)
    → address < kernel_start
    → user_table first_page m p
        (entry_at p.memory_mapping.mmu_base (page_dir_index_from_addr address))
      ≡ ok (table, m1, p1)
    → (directory_from_u32
        (m1.memory (entry_at p.memory_mapping.mmu_base (page_dir_index_from_addr address)))).present
      ≡ true
    → (directory_from_u32 (
        m1.memory (
          entry_at p.memory_mapping.mmu_base
            (page_dir_index_from_addr address)))).page_table_address
      ≡ table
    → entry_at p.memory_mapping.mmu_base (page_dir_index_from_addr address)
      ≢ entry_at table (page_table_index_from_addr address)
    → allocate_physical_page first_page m1.allocations ≡ ok (page, allocations')
    → IsPage page
    → p1.memory_mapping.mmu_base ≡ p.memory_mapping.mmu_base
    → Mapped (map_user_memory first_page kernel_start m p address) m1 p address page
unfolding map_user_memory
map_page first_page kernel_start m m1 p p1 address table page allocations' user there present points
      apart allocated page_ok base =
    let (w, written, read) = table_word page true page_ok in
    let inside : ltb address kernel_start ≡ true = ground arith in
    let m2 : Machine = record m1 { allocations = allocations' } in
    let dir = entry_at p.memory_mapping.mmu_base (page_dir_index_from_addr address) in
    let slot = entry_at table (page_table_index_from_addr address) in
    let kept = write_ne m2 slot dir w apart in
    record {
      machine = write m2 slot w;
      process = take_memory_page p1 page;
      returned = rw (inside, there, allocated, written);
      leads = rw (kept, points) (present, ap table_from_u32 (write_self m2 slot w) ∙ read);
      kept = kept;
      same_base = base;
    }

-- Below the kernel, with a page table in place and a free physical page, `map_user_memory` returns, and
-- the process's directory then leads from the address to that page, present, writable and the
-- process's. The entry of the table is not that of the directory.
pub map_user_memory_present :
    (first_page kernel_start : ℕ) (m : Machine) (p : Process) (address page : ℕ)
    (allocations' : List ℕ)
    → address < kernel_start
    → (directory_from_u32
        (m.memory (entry_at p.memory_mapping.mmu_base (page_dir_index_from_addr address)))).present
      ≡ true
    → entry_at p.memory_mapping.mmu_base (page_dir_index_from_addr address)
      ≢ entry_at
          (directory_from_u32 (
            m.memory (
              entry_at p.memory_mapping.mmu_base
                (page_dir_index_from_addr address)))).page_table_address
          (page_table_index_from_addr address)
    → allocate_physical_page first_page m.allocations ≡ ok (page, allocations')
    → IsPage page
    → Mapped (map_user_memory first_page kernel_start m p address) m p address page
unfolding user_table
map_user_memory_present first_page kernel_start m p address page allocations' user present apart
      allocated page_ok =
    map_page first_page kernel_start m m p p address _ page allocations' user (rw present) present
      refl apart allocated page_ok refl

-- Below the kernel, where no page table is present and two physical pages are free,
-- `map_user_memory` returns. The processor's walk for the address, of its top ten bits and the ten
-- behind them, then goes over the first of these pages as the page table to the second one, and
-- both entries are present, writable and the process's. The process's directory stays where it is.
-- The entry of the table is not that of the directory.
pub map_user_memory_absent :
    (first_page kernel_start : ℕ) (m : Machine) (p : Process) (address table page : ℕ)
    (between after : List ℕ)
    → address < 2 ^ 32
    → address < kernel_start
    → (directory_from_u32
        (m.memory (entry_at p.memory_mapping.mmu_base (page_dir_index_from_addr address)))).present
      ≡ false
    → entry_at p.memory_mapping.mmu_base (page_dir_index_from_addr address)
      ≢ entry_at table (page_table_index_from_addr address)
    → allocate_physical_page first_page m.allocations ≡ ok (table, between)
    → IsPage table
    → allocate_physical_page first_page between ≡ ok (page, after)
    → IsPage page
    → (m' : Machine) × (p' : Process) × (map_user_memory first_page kernel_start m p address
        ≡ ok (m', p'))
      × Walk m' p.memory_mapping.mmu_base address table page
      × (p'.memory_mapping.mmu_base ≡ p.memory_mapping.mmu_base)
unfolding user_table
map_user_memory_absent first_page kernel_start m p address table page between after inside user
      absent apart allocated table_ok allocated' page_ok =
    let fits : u32 table ≡ table = omega (arith, table_ok.small, table_ok.aligned) in
    let (w, written, read) = directory_word table table_ok in
    let dir = entry_at p.memory_mapping.mmu_base (page_dir_index_from_addr address) in
    let m0 : Machine = record m { allocations = between } in
    let held : directory_from_u32 ((write m0 dir w).memory dir) ≡ new_directory_entry table =
      ap directory_from_u32 (write_self m0 dir w) ∙ read in
    let r =
      map_page first_page kernel_start m (write m0 dir w) p (take_memory_page p table) address table
        page after user (rw (absent, allocated, fits, written)) (ap (λ e. e.present) held)
        (ap (λ e. e.page_table_address) held) apart allocated' page_ok refl in
    let there = ap directory_from_u32 r.kept ∙ held in
    let points = ap (λ e. e.page_table_address) there in
    let walk : Walk r.machine p.memory_mapping.mmu_base address table page = record {
      directory =
          subst (λ i. Grants (r.machine.memory (entry_at p.memory_mapping.mmu_base i)) table)
            (directory_index address inside) (directory-Grants _ table there);
      entry =
          subst (λ i. Grants (r.machine.memory (entry_at table i)) page) (table_index address)
            (subst
              (λ t.
                Grants (r.machine.memory (entry_at t (page_table_index_from_addr address))) page)
              points (table-Grants _ page r.leads.1));
    } in
    (r.machine, r.process, r.returned, walk, r.same_base)

flags_small : (w : ℕ) → bit_and w 7 < 8
flags_small w =
    let parts = bit_and-split 3 (w / 2 ^ 3) 0 (w % 2 ^ 3) 7 (omega arith) (omega arith) in
    let whole : w / 2 ^ 3 * 2 ^ 3 + w % 2 ^ 3 ≡ w = omega arith in
    let ones = bit_and-ones 3 (w % 2 ^ 3) (omega arith) in
    let parts' = rw (whole, ones, bit_and-zero (w / 2 ^ 3)) at parts in omega (arith, parts')

flags_small_at : (w : ℕ) → (table_from_u32 w).available < 8
unfolding table_from_u32
flags_small_at w = flags_small (w / 2 ^ 9)

-- On an address whose entries in the directory and in the table are present, the page's entry with
-- bit 7 clear and not yet dirty, `set_user_mem_no_write` returns. The entry then leads to the same
-- page and has the same flags, but is not writable, and no other word of the memory has changed.
-- The entry of the table is not that of the directory.
pub set_user_mem_no_write_lem :
    (m : Machine) (p : Process) (address : ℕ) (e : PageTableEntry)
    → Leads m p.memory_mapping.mmu_base address e
    → e.present ≡ true
    → e.dirty ≡ false
    → e.must_be_zero ≡ false
    → IsPage e.page_address
    → entry_at p.memory_mapping.mmu_base (page_dir_index_from_addr address)
      ≢ entry_at
          (directory_from_u32 (
            m.memory (
              entry_at p.memory_mapping.mmu_base
                (page_dir_index_from_addr address)))).page_table_address
          (page_table_index_from_addr address)
    → (m' : Machine) × (set_user_mem_no_write m p address ≡ ok m')
      × Leads m' p.memory_mapping.mmu_base address (record e { read_write = false })
      × ((a : ℕ)
          → a
            ≢ entry_at
                (directory_from_u32 (
                  m.memory (
                    entry_at p.memory_mapping.mmu_base
                      (page_dir_index_from_addr address)))).page_table_address
                (page_table_index_from_addr address)
          → m'.memory a ≡ m.memory a)
unfolding set_user_mem_no_write
set_user_mem_no_write_lem m p address e (present, held) there clean clear page_ok apart =
    let dir = entry_at p.memory_mapping.mmu_base (page_dir_index_from_addr address) in
    let slot =
      entry_at (directory_from_u32 (m.memory dir)).page_table_address
        (page_table_index_from_addr address) in
    let small : e.available < 8 =
      rw (sym (ap (λ t. t.available) held)) (flags_small_at (m.memory slot)) in
    let (w, written, read) =
      table_from_u32-as_u32 (record e { read_write = false }) page_ok.number clear clean small
        page_ok.small page_ok.aligned in
    let kept = write_ne m slot dir w apart in
    (
      write m slot w,
      rw (present, held, written, there),
      rw kept (present, ap table_from_u32 (write_self m slot w) ∙ read),
      λ a ne. write_ne m slot a w ne,
    )
