-- ===== src/Kernel/Vfs/Tests.antt =====
-- The two files of the small disk read.
use bunos.Prelude.{◌≡◌, refl, [], ◌∷◌, ◌++◌, true, some, ok, fault, ◌>>=◌, replicate, arith}
use bunos.Kernel.Ext2.{
  Inode, to_inode, get_inode_at_path, is_directory, into_system_inode, read_inode_from_disk,
  read_inode_block_from_disk, for_each_entry_in_dir, read_directory_entry_from_disk,
}
use bunos.Libc.Strings.{signed}
use bunos.Kernel.Ext2.Image.{disk, small, short_file, file_inode, content, content_held}
use bunos.Kernel.Vfs.{new_vfs, mount, quick_read_all_data, ext2_filesystem}
use bunos.Kernel.Vfs.Read.{quick_read_all_data_lem, quick_read_all_data_short}

long_found :
    get_inode_at_path disk small (0x2F ∷ 0x66 ∷ 0x61 ∷ [])
    ≡ ok (some (into_system_inode file_inode 3))
unfolding get_inode_at_path for_each_entry_in_dir read_directory_entry_from_disk signed
long_found = refl

quick_read_all_data_lem_example :
    (mount new_vfs (ext2_filesystem disk small) >>= λ vfs.
    quick_read_all_data (λ n. true) vfs (0x2F ∷ 0x66 ∷ 0x61 ∷ []))
    ≡ ok (some content)
unfolding to_inode read_inode_from_disk is_directory
quick_read_all_data_lem_example =
    quick_read_all_data_lem (λ n. true) disk small (0x2F ∷ 0x66 ∷ 0x61 ∷ []) 3 file_inode content
      long_found refl refl refl (omega arith) (omega arith) refl (omega arith) (omega arith)
      content_held

abbrev short_inode : Inode
short_inode = to_inode (short_file ++ replicate 87 0)

short_found :
    get_inode_at_path disk small (0x2F ∷ 0x67 ∷ []) ≡ ok (some (into_system_inode short_inode 4))
unfolding get_inode_at_path for_each_entry_in_dir read_directory_entry_from_disk signed
short_found = refl

quick_read_all_data_short_example :
    (mount new_vfs (ext2_filesystem disk small) >>= λ vfs.
    quick_read_all_data (λ n. true) vfs (0x2F ∷ 0x67 ∷ []))
    ≡ fault
unfolding to_inode read_inode_from_disk is_directory read_inode_block_from_disk
quick_read_all_data_short_example =
    quick_read_all_data_short (λ n. true) disk small (0x2F ∷ 0x67 ∷ []) 4 short_inode
      (1 ∷ 2 ∷ 3 ∷ replicate 29 0) short_found refl refl (omega arith) refl (omega arith)
      (omega arith) refl refl
