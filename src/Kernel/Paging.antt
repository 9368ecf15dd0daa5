-- ===== src/Kernel/Paging.antt =====
-- kernel/x86/paging.cpp: the entries of page directories and page tables, and their words. An
-- `available` field of three bits is a number below 8. The
-- field `zero` is called `must_be_zero`, as its comment says.
pub mod Words
mod Tests
use bunos.Prelude.{
  ℕ, zero, suc, ◌+◌, ◌*◌, ◌/◌, ◌%◌, ◌^◌, Bool, true, false, Result, ok, panic, ◌>>=◌, ◌>>◌, check,
  ◌==◌, bit_and, bit_or, if◌then◌else◌,
}

pub record PageDirectoryEntry : Type 0 where
  pub present : Bool
  pub read_write : Bool
  pub user : Bool
  pub write_through : Bool
  pub cache_disable : Bool
  pub accessed : Bool
  pub must_be_zero : Bool
  pub is_large : Bool
  pub global : Bool
  pub available : ℕ
  pub page_table_address : ℕ

pub record PageTableEntry : Type 0 where
  pub present : Bool
  pub read_write : Bool
  pub user : Bool
  pub write_through : Bool
  pub cache_disable : Bool
  pub accessed : Bool
  pub dirty : Bool
  pub must_be_zero : Bool
  pub global : Bool
  pub available : ℕ
  pub page_address : ℕ

-- `static_cast<u8>(flag) << shift`.
unfoldable pub flag_at : Bool → ℕ → ℕ
flag_at true shift = 2 ^ shift
flag_at false shift = 0

-- `static_cast<u8>(available) << 9`.
unfoldable pub available_at : ℕ → ℕ
available_at a = a * 2 ^ 9

module _ (e : PageDirectoryEntry) where
  -- `out |= ...` of `PageDirectoryEntry::as_u32`, in order.
  directory_bits : ℕ → ℕ
  unfolding flag_at available_at
  directory_bits out =
      let out = bit_or out (flag_at e.present 0) in
      let out = bit_or out (flag_at e.read_write 1) in
      let out = bit_or out (flag_at e.user 2) in
      let out = bit_or out (flag_at e.write_through 3) in
      let out = bit_or out (flag_at e.cache_disable 4) in
      let out = bit_or out (flag_at e.accessed 5) in
      let out = bit_or out (flag_at e.is_large 7) in
      let out = bit_or out (flag_at e.global 8) in bit_or out (available_at e.available)

  -- `PageDirectoryEntry::as_u32`.
  pub directory_as_u32 : Result ℕ
  unfolding directory_bits
  directory_as_u32 = do
    check (bit_and e.page_table_address 0xFFF == 0)
    ok (directory_bits (bit_and e.page_table_address 0xFFFFF000))

module _ (e : PageTableEntry) where
  table_bits : ℕ → ℕ
  unfolding flag_at available_at
  table_bits out =
      let out = bit_or out (flag_at e.present 0) in
      let out = bit_or out (flag_at e.read_write 1) in
      let out = bit_or out (flag_at e.user 2) in
      let out = bit_or out (flag_at e.write_through 3) in
      let out = bit_or out (flag_at e.cache_disable 4) in
      let out = bit_or out (flag_at e.accessed 5) in
      let out = bit_or out (flag_at e.dirty 7) in
      let out = bit_or out (flag_at e.global 8) in bit_or out (available_at e.available)

  -- `PageTableEntry::as_u32`; the address is a `u64`, whose upper half the masks drop.
  pub table_as_u32 : Result ℕ
  unfolding table_bits
  table_as_u32 = do
    check (bit_and e.page_address 0xFFF == 0)
    ok (table_bits (bit_and e.page_address 0xFFFFF000))

-- What a round of the loop of `from_u32` sees of its bit.
unfoldable pub bit_set : ℕ → ℕ → Bool
bit_set word i = if bit_and word (2 ^ i) == 0 then false else true

-- `PageDirectoryEntry::from_u32`.
unfoldable pub directory_from_u32 : ℕ → PageDirectoryEntry
unfolding bit_set
directory_from_u32 word = record {
  present = bit_set word 0;
  read_write = bit_set word 1;
  user = bit_set word 2;
  write_through = bit_set word 3;
  cache_disable = bit_set word 4;
  accessed = bit_set word 5;
  must_be_zero = bit_set word 6;
  is_large = bit_set word 7;
  global = bit_set word 8;
  available = bit_and (word / 2 ^ 9) 7;
  page_table_address = bit_and word 0xFFFFF000;
}

-- `PageTableEntry::from_u32`.
unfoldable pub table_from_u32 : ℕ → PageTableEntry
unfolding bit_set
table_from_u32 word = record {
  present = bit_set word 0;
  read_write = bit_set word 1;
  user = bit_set word 2;
  write_through = bit_set word 3;
  cache_disable = bit_set word 4;
  accessed = bit_set word 5;
  dirty = bit_set word 6;
  must_be_zero = bit_set word 7;
  global = bit_set word 8;
  available = bit_and (word / 2 ^ 9) 7;
  page_address = bit_and word 0xFFFFF000;
}
