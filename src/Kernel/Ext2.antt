-- ===== src/Kernel/Ext2.antt =====
-- kernel/filesystem/ext2.cpp with the structures of ext2_structs.hpp. The disk is the parameter
-- `read`, what read_bytes_polling gives for an offset and a length. A block is the list of its bytes,
-- and of a structure the fields that the code uses are kept. A StringView is the bytes from its data on
-- with its length.
pub mod Structs
pub mod Entries
pub mod Find
pub mod Paths
pub mod Image
pub mod File
mod Tests
use bunos.Prelude.{
  ℕ, zero, suc, ◌+◌, ◌-◌, ◌*◌, ◌/◌, ◌%◌, ◌^◌, Bool, true, false, not, ◌&&◌, ◌||◌, Option, some,
  none, List, [], ◌∷◌, ◌++◌, Result, ok, panic, timeout, ◌>>=◌, ◌>>◌, check, access, ltb, leb, ◌==◌,
  ◌!=◌, if◌then◌else◌, bit_and, u32, add32, sub32, mul32, get_elem?, get_or, drop, replicate,
  length,
}
unfoldable pub use Structs.*
use bunos.Bustd.Math.{divide_ceil}
use bunos.Libc.Memory.{memcpy}
use bunos.Libc.Numbers.{ℤ, of_word}
use bunos.Libc.Strings.{strncmp, strncpy, Sign, same}

pub record Ext2 : Type 0 where
  pub superblock : SuperBlock
  pub block_group_count : ℕ
  pub block_size : ℕ
  pub block_group_descriptor_table_offset : ℕ

unfoldable pub block_size_from_log : ℕ → ℕ
block_size_from_log log = u32 (1024 * 2 ^ log)

-- The path split at each slash.
unfoldable pub split_path : List ℕ → ℕ → ℕ → List ℕ → List (List ℕ × ℕ)
split_path whole last_index i [] = (drop last_index whole, i - last_index) ∷ []
split_path whole last_index i (c ∷ cs) =
    if c == 0x2F
    then (drop last_index whole, i - last_index) ∷ split_path whole (i + 1) (i + 1) cs
    else split_path whole last_index (i + 1) cs

-- The callback of find_file_in_directory, on the inode found so far.
unfoldable pub compare_name : List ℕ → ℕ → DirectoryEntry → ℕ → Result (Bool × ℕ)
unfolding strncmp
compare_name name len entry found = do
  sign ← (if len == entry.name_len then strncmp entry.name name entry.name_len else ok Sign.less)
  elim sign [ same ↦ ok (false, entry.inode) | _ ↦ ok (true, found) ]

-- `divide_ceil` at 64 bits.
unfoldable pub divide_ceil64 : ℕ → ℕ → ℕ
divide_ceil64 n div = if n % div != 0 then n / div + 1 else n / div

module _ (read : ℕ → ℕ → Result (List ℕ)) (e : Ext2) where
  -- The field inode_table_start_block_addr of a descriptor.
  unfoldable pub read_block_group_entry_from_disk : ℕ → Result ℕ
  read_block_group_entry_from_disk block_group = do
    b ← read (add32 e.block_group_descriptor_table_offset (mul32 block_group 32)) 32
    ok (le32 b 8)

  unfoldable pub block_index_to_offset : ℕ → ℕ
  block_index_to_offset index = mul32 e.block_size index

  unfoldable pub read_inode_from_disk : ℕ → Result Inode
  unfolding read_block_group_entry_from_disk block_index_to_offset to_inode
  read_inode_from_disk inode_index = do
    check (ltb 0 inode_index)
    let block_group = (inode_index - 1) / e.superblock.block_group_inode_count
    let table_index = (inode_index - 1) % e.superblock.block_group_inode_count
    inode_table ← read_block_group_entry_from_disk block_group
    b ←
        read
          (add32 (block_index_to_offset inode_table)
            (mul32 table_index e.superblock.inode_struct_size))
          128
    ok (to_inode b)

  unfoldable pub read_directory_entry_from_disk : ℕ → Result DirectoryEntry
  unfolding to_directory_entry
  read_directory_entry_from_disk offset = do b ← read offset 264; ok (to_directory_entry b)

  unfoldable pub read_block_from_disk : ℕ → Result (List ℕ)
  unfolding block_index_to_offset
  read_block_from_disk block_index = read (block_index_to_offset block_index) e.block_size

  unfoldable pub read_indirect_block_from_disk : ℕ → ℕ → Result (List ℕ)
  unfolding read_block_from_disk
  read_indirect_block_from_disk table_block block_offset = do
    table ← read_block_from_disk table_block
    top ← access (get_elem? table (block_offset * 4 + 3))
    read_block_from_disk (le32 table (block_offset * 4))

  unfoldable pub read_inode_block_from_disk : Inode → ℕ → Result (List ℕ)
  unfolding read_block_from_disk read_indirect_block_from_disk
  read_inode_block_from_disk inode block_number =
      if ltb block_number 12
      then (do
        p ← access (get_elem? inode.direct_block_pointers block_number)
        read_block_from_disk p)
      else if leb block_number (e.block_size / 4)
      then read_indirect_block_from_disk inode.indir_block_pointer (block_number - 12)
      else panic

  module _ {A : Type 0} (func : DirectoryEntry → A → Result (Bool × A)) where
    -- The entries of a block from `offset` on; `dir` is the one there. What `func` answers is dropped.
    unfoldable pub entry_loop : ℕ → ℕ → ℕ → DirectoryEntry → A → Result A
    entry_loop zero start offset dir acc = if ltb offset e.block_size then timeout else ok acc
    entry_loop (suc fuel) start offset dir acc =
        let round : Result A = (do
          (go_on, acc') ← (if dir.inode != 0 then func dir acc else ok (true, acc))
          let next = add32 offset dir.rec_len
          dir' ← read_directory_entry_from_disk (add32 start next)
          entry_loop fuel start next dir' acc') in
        if ltb offset e.block_size then round else ok acc

    -- The blocks of a directory; `false` says that the function has returned inside the loop.
    unfoldable pub block_loop : List ℕ → A → Result (Bool × A)
    unfolding entry_loop
    block_loop [] acc = ok (true, acc)
    block_loop (p ∷ ps) acc =
        let start = block_index_to_offset p in
        let block : Result (Bool × A) = (do
          dir ← read_directory_entry_from_disk start
          acc' ← entry_loop e.block_size start 0 dir acc
          block_loop ps acc') in
        if start == 0 then ok (false, acc) else block

    unfoldable pub for_each_entry_in_dir : Inode → A → Result A
    unfolding is_directory block_loop
    for_each_entry_in_dir dir acc = do
      check (is_directory dir)
      (all, acc') ← block_loop dir.direct_block_pointers acc
      check (not all || dir.indir_block_pointer == 0)
      ok acc'

  unfoldable pub find_file_in_directory : Inode → List ℕ → ℕ → Result ℕ
  unfolding compare_name
  find_file_in_directory dir name len = do
    check (is_directory dir)
    for_each_entry_in_dir (compare_name name len) dir 0

  -- The loop of get_inode_at_path over the segments behind the first one.
  unfoldable pub walk_path : List (List ℕ × ℕ) → Inode → ℕ → Result (Option SystemInode)
  unfolding find_file_in_directory read_inode_from_disk into_system_inode
  walk_path [] inode found_index =
      if found_index != 0 then ok (some (into_system_inode inode found_index)) else ok none
  walk_path ((name, len) ∷ segments) inode found_index = do
    found ← find_file_in_directory inode name len
    elim (found == 0) [
      | true ↦ ok none
      | false ↦ do inode' ← read_inode_from_disk found; walk_path segments inode' found
    ]

  unfoldable pub get_inode_at_path : List ℕ → Result (Option SystemInode)
  unfolding split_path walk_path
  get_inode_at_path path = do
    c ← access (get_elem? path 0)
    check (c == 0x2F)
    root ← read_inode_from_disk 2
    walk_path (drop 1 (split_path path 0 0 path)) root 0

  unfoldable pub list_entry : DirectoryEntry → List Listing → Result (Bool × List Listing)
  unfolding strncpy
  list_entry entry out = do
    inode ← read_inode_from_disk entry.inode
    name ← strncpy (replicate 256 0) entry.name entry.name_len
    ok (true, out ++ record { name = name; inode = into_system_inode inode entry.inode } ∷ [])

  unfoldable pub list_directory : ℕ → Result (List Listing)
  unfolding list_entry
  list_directory inode_index = do
    dir ← read_inode_from_disk (u32 inode_index)
    check (is_directory dir)
    for_each_entry_in_dir list_entry dir []

  -- Whole blocks: `k` of them from number `i` on, to byte `at` of the buffer.
  unfoldable pub copy_blocks : Inode → ℕ → ℕ → List ℕ → ℕ → Result (List ℕ × ℕ)
  copy_blocks inode zero i buffer at = ok (buffer, at)
  copy_blocks inode (suc k) i buffer at = do
    block ← read_inode_block_from_disk inode (u32 i)
    buffer' ← memcpy buffer at block 0 e.block_size
    copy_blocks inode k (i + 1) buffer' (at + e.block_size)

  -- The block behind the first `bytes_read` bytes, and the bytes read then.
  unfoldable pub read_final_block : Inode → ℕ → ℕ → List ℕ → ℕ → Result (ℕ × List ℕ)
  read_final_block inode end_block file_length buffer bytes_read =
      let bytes_left = (file_length + (2 ^ 64 - bytes_read)) % 2 ^ 64 in
      let final : Result (ℕ × List ℕ) = (do
        block ← read_inode_block_from_disk inode (u32 end_block)
        buffer' ← memcpy buffer bytes_read block 0 (u32 bytes_left)
        ok (u32 (bytes_read + bytes_left), buffer')) in
      if ltb 0 bytes_left then final else ok (bytes_read, buffer)

  -- The number of bytes read, as an isize of 32 bits, and the buffer.
  unfoldable pub data_from_inode : ℕ → ℕ → ℕ → List ℕ → Result (ℤ × List ℕ)
  unfolding copy_blocks
  data_from_inode inode_index offset bytes buffer = do
    inode ← read_inode_from_disk (u32 inode_index)
    check (not (is_directory inode))
    let file_length = total_size inode
    check (leb (offset + bytes) file_length)
    let start_block = offset / e.block_size
    let end_block = (divide_ceil64 (offset + bytes) e.block_size + (2 ^ 64 - 1)) % 2 ^ 64
    block ← read_inode_block_from_disk inode (u32 start_block)
    let first_block_offset = offset % e.block_size
    b1 ← memcpy buffer 0 block first_block_offset (e.block_size - first_block_offset)
    (b2, bytes_read) ←
        copy_blocks inode (end_block - (start_block + 1)) (start_block + 1) b1
          (e.block_size - first_block_offset)
    (count, b3) ← read_final_block inode end_block file_length b2 bytes_read
    ok (of_word (u32 count), b3)

-- The constructor; the directory listing that it prints is dropped.
unfoldable pub new_ext2 : (ℕ → ℕ → Result (List ℕ)) → Result Ext2
unfolding to_superblock block_size_from_log read_inode_from_disk for_each_entry_in_dir
new_ext2 read = do
  b ← read 1024 1024
  let superblock = to_superblock b
  let block_size = block_size_from_log superblock.block_size_log
  check (superblock.signature == 0xEF53)
  check (leb 1 superblock.version_major)
  let count = divide_ceil superblock.block_count superblock.block_group_block_count
  check (count == divide_ceil superblock.inode_count superblock.block_group_inode_count)
  let e : Ext2 = record {
    superblock = superblock;
    block_group_count = count;
    block_size = block_size;
    block_group_descriptor_table_offset = if block_size == 1024 then 2048 else 1024;
  }
  root ← read_inode_from_disk read e 2
  check (is_directory root)
  printed ← for_each_entry_in_dir read e (λ entry (n : ℕ). ok (true, n)) root 0
  ok e
