-- ===== src/Kernel/Vfs/Read.antt =====
-- Files of a mounted ext2 read whole by quick_read_all_data.
use bunos.Prelude.{
  ℕ, ◌^◌, ◌≤◌, ◌<◌, ◌≡◌, sym, Bool, true, false, ◌||◌, some, List, Result, ok, fault, ◌>>=◌, arith,
  ◌==◌, u32, length, replicate, length-replicate, overwrite, overwrite_all,
}
use bunos.Kernel.Ext2.{
  Ext2, Inode, SystemInode, InodeType, file, directory, is_directory, total_size, into_system_inode,
  read_inode_from_disk, read_inode_block_from_disk,
}
use bunos.Kernel.Ext2
use bunos.Kernel.Ext2.File.{Holds, data_from_inode_lem, data_from_inode_short}
use bunos.Kernel.Vfs.{new_vfs, mount, ext2_filesystem, quick_read_all_data}

-- A file of at least one block and below 2 GiB on a mounted ext2 is read whole: when the path leads
-- to its inode, which has an index below 2 ^ 32 and is no directory, the inode's blocks hold
-- `content`, and malloc finds room for that many bytes, the call gives back `content`.
pub quick_read_all_data_lem :
    (has_room : ℕ → Bool) (read : ℕ → ℕ → Result (List ℕ)) (e : Ext2) (path : List ℕ) (index : ℕ)
    (inode : Inode) (content : List ℕ)
    → Ext2.get_inode_at_path read e path ≡ ok (some (into_system_inode inode index))
    → read_inode_from_disk read e index ≡ ok inode
    → is_directory inode ≡ false
    → total_size inode ≡ length content
    → length content < 2 ^ 31
    → index < 2 ^ 32
    → has_room (length content) ≡ true
    → 0 < e.block_size
    → e.block_size ≤ length content
    → Holds read e inode 0 content
    → (mount new_vfs (ext2_filesystem read e) >>= λ vfs. quick_read_all_data has_room vfs path)
      ≡ ok (some content)
unfolding quick_read_all_data mount new_vfs ext2_filesystem into_system_inode
quick_read_all_data_lem has_room read e path index inode content leads found plain size short low
      room positive long holds =
    let u : u32 (length content) ≡ length content = omega arith in
    let blank : length (replicate (length content) 0) ≡ length content =
      length-replicate {0} (length content) 0 in
    let same : (length content == length content) ≡ true = ground arith in
    let reads =
      data_from_inode_lem read e inode index content (replicate (length content) 0) found plain size
        short low positive long holds (omega (arith, blank)) in
    let filled : overwrite (replicate (length content) 0) 0 content ≡ content =
      overwrite_all (replicate (length content) 0) content blank in
    let some_byte : (length content == 0) ≡ false = ground arith in
    rw (leads, plain, size, u, some_byte, room, reads, same, filled)

-- A file that is shorter than a block is not read, when its inode has an index below 2 ^ 32 and there
-- is room for its buffer: its whole block is copied past the end of the buffer.
pub quick_read_all_data_short :
    (has_room : ℕ → Bool) (read : ℕ → ℕ → Result (List ℕ)) (e : Ext2) (path : List ℕ) (index : ℕ)
    (inode : Inode) (block : List ℕ)
    → Ext2.get_inode_at_path read e path ≡ ok (some (into_system_inode inode index))
    → read_inode_from_disk read e index ≡ ok inode
    → is_directory inode ≡ false
    → index < 2 ^ 32
    → ((total_size inode == 0) || has_room (total_size inode)) ≡ true
    → total_size inode < e.block_size
    → e.block_size < 2 ^ 32
    → read_inode_block_from_disk read e inode 0 ≡ ok block
    → length block ≡ e.block_size
    → (mount new_vfs (ext2_filesystem read e) >>= λ vfs. quick_read_all_data has_room vfs path)
      ≡ fault
unfolding quick_read_all_data mount new_vfs ext2_filesystem into_system_inode
quick_read_all_data_short has_room read e path index inode block leads found plain low room size
      short there full =
    let u : u32 (total_size inode) ≡ total_size inode = omega arith in
    let blank : length (replicate (total_size inode) 0) ≡ total_size inode =
      length-replicate {0} (total_size inode) 0 in
    let less : length (replicate (total_size inode) 0) < e.block_size = rw blank size in
    let reads =
      data_from_inode_short read e inode index block (replicate (total_size inode) 0) found plain
        low (sym blank) less there full in
    let reads' : Ext2.data_from_inode read e index 0 (total_size inode)
          (replicate (total_size inode) 0)
        ≡ fault =
      rw blank at reads in
    rw (leads, plain, u, room, reads')
