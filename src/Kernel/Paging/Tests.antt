-- ===== src/Kernel/Paging/Tests.antt =====
-- Entries for page 5.
use bunos.Prelude.{ℕ, ◌≡◌, refl, true, false, ok, arith}
use bunos.Kernel.Paging.{PageDirectoryEntry, PageTableEntry, directory_as_u32, directory_from_u32}
use bunos.Kernel.Paging.Words.{directory_from_u32-as_u32}

abbrev directory : PageDirectoryEntry
directory = record {
  present = true;
  read_write = true;
  user = false;
  write_through = false;
  cache_disable = true;
  accessed = false;
  must_be_zero = false;
  is_large = true;
  global = true;
  available = 5;
  page_table_address = 0x5000;
}

abbrev table : PageTableEntry
table = record {
  present = true;
  read_write = false;
  user = true;
  write_through = false;
  cache_disable = true;
  accessed = true;
  dirty = false;
  must_be_zero = false;
  global = true;
  available = 2;
  page_address = 0x5000;
}

directory_from_u32-as_u32_example :
    (w : ℕ) × (directory_as_u32 directory ≡ ok w) × (directory_from_u32 w ≡ directory)
directory_from_u32-as_u32_example =
    directory_from_u32-as_u32 directory 5 refl (omega arith) (omega arith) refl
