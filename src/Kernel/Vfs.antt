-- ===== src/Kernel/Vfs.antt =====
-- kernel/filesystem/vfs.cpp over the interface of ifilesystem.hpp. A file system is the record of
-- what its functions return; the one of ext2.cpp is `ext2_filesystem`. `has_room n` says whether
-- malloc finds `n` bytes, for an `n` above 0.
pub mod Read
mod Tests
use bunos.Prelude.{
  ℕ, Bool, true, false, Option, some, none, List, Result, ok, panic, ◌>>=◌, ◌>>◌, check, access,
  ◌==◌, ◌||◌, u32, ◌-◌, ◌^◌, replicate,
}
use bunos.Libc.Numbers.{ℤ, pos, negsuc}
use bunos.Kernel.Ext2.{Ext2, SystemInode, InodeType, directory, file, Listing}
use bunos.Kernel.Ext2

-- `data_from_inode` takes the index, the offset, the number of bytes and the buffer.
pub record FileSystem : Type 0 where
  pub get_inode_at_path : List ℕ → Result (Option SystemInode)
  pub data_from_inode : ℕ → ℕ → ℕ → List ℕ → Result (ℤ × List ℕ)
  pub list_directory : ℕ → Result (List Listing)

unfoldable pub ext2_filesystem : (ℕ → ℕ → Result (List ℕ)) → Ext2 → FileSystem
ext2_filesystem read e = record {
  get_inode_at_path = Ext2.get_inode_at_path read e;
  data_from_inode = Ext2.data_from_inode read e;
  list_directory = Ext2.list_directory read e;
}

-- The root's file system, when one is mounted.
pub record Vfs : Type 0 where
  pub root_fs : Option FileSystem

unfoldable pub new_vfs : Vfs
new_vfs = record { root_fs = none }

unfoldable pub mounted : Vfs → Result FileSystem
mounted vfs = elim vfs.root_fs [ none ↦ panic | some fs ↦ ok fs ]

unfoldable pub mount : Vfs → FileSystem → Result Vfs
mount vfs fs = elim vfs.root_fs [ some old ↦ panic | none ↦ ok (record { root_fs = some fs }) ]

unfoldable pub get_inode_at_path : Vfs → List ℕ → Result (Option SystemInode)
unfolding mounted
get_inode_at_path vfs path = do fs ← mounted vfs; fs.get_inode_at_path path

unfoldable pub data_from_inode : Vfs → ℕ → ℕ → ℕ → List ℕ → Result (ℤ × List ℕ)
unfolding mounted
data_from_inode vfs index offset bytes buffer = do
  fs ← mounted vfs
  fs.data_from_inode index offset bytes buffer

unfoldable pub is_file : InodeType → Bool
is_file kind = elim kind [ file ↦ true | directory ↦ false ]

-- `static_cast<u64>` of a signed number.
unfoldable pub to_u64 : ℤ → ℕ
to_u64 (pos n) = n
to_u64 (negsuc n) = 2 ^ 64 - 1 - n

-- The buffer is a Vector of the file's size, filled with zeros. The room for it is asked for again
-- for its copy that is returned, which is the same question.
unfoldable pub quick_read_all_data : (ℕ → Bool) → Vfs → List ℕ → Result (Option (List ℕ))
unfolding get_inode_at_path data_from_inode is_file to_u64
quick_read_all_data has_room vfs path = do
  found ← get_inode_at_path vfs path
  elim found [
    | none ↦ ok none
    | some inode ↦ do
      check (is_file inode.inode_type)
      check (u32 inode.file_size == 0 || has_room (u32 inode.file_size))
      (count, out) ←
          data_from_inode vfs inode.index 0 (u32 inode.file_size)
            (replicate (u32 inode.file_size) 0)
      check (to_u64 count == inode.file_size)
      ok (some out)
  ]

unfoldable pub list_directory : Vfs → ℕ → Result (List Listing)
unfolding mounted
list_directory vfs index = do fs ← mounted vfs; fs.list_directory index
