-- ===== src/Kernel/Ext2/Tests.antt =====
-- The small disk read.
use bunos.Prelude.{◌+◌, ◌≡◌, refl, List, [], ◌∷◌, ◌++◌, some, true, ok, replicate, arith}
use bunos.Kernel.Ext2.{
  Inode, DirectoryEntry, file, to_inode, to_directory_entry, is_directory, split_path,
  get_inode_at_path, find_file_in_directory, block_index_to_offset, read_directory_entry_from_disk,
  for_each_entry_in_dir,
}
use bunos.Libc.Strings.{signed}
use bunos.Kernel.Ext2.Entries.{behind, entry, Blocks, stop, block, fold, for_each_entry_in_dir_lem}
use bunos.Kernel.Ext2.Find.{none_left, named, last_match, find_file_in_directory_lem}
use bunos.Kernel.Ext2.Paths.{slashed, Segments, split_path_lem}
use bunos.Kernel.Ext2.Image.{disk, small, root}

abbrev root_inode : Inode
root_inode = to_inode (root ++ replicate 87 0)

abbrev first_entry : DirectoryEntry
first_entry = to_directory_entry (3 ∷ 0 ∷ 0 ∷ 0 ∷ 16 ∷ 0 ∷ 2 ∷ 1 ∷ 0x66 ∷ 0x61 ∷ replicate 254 0)

abbrev second_entry : DirectoryEntry
second_entry = to_directory_entry (4 ∷ 0 ∷ 0 ∷ 0 ∷ 16 ∷ 0 ∷ 1 ∷ 1 ∷ 0x67 ∷ replicate 255 0)

abbrev entries : List DirectoryEntry
entries = first_entry ∷ second_entry ∷ []

root_entries :
    Blocks disk small root_inode.indir_block_pointer root_inode.direct_block_pointers entries
unfolding to_inode to_directory_entry block_index_to_offset read_directory_entry_from_disk
root_entries =
    block (omega arith) refl
      (entry (omega arith) (omega arith) (omega arith) refl
        (entry (omega arith) (omega arith) (omega arith) refl (behind (omega arith))))
      (stop refl) refl

path_found :
    get_inode_at_path disk small (0x2F ∷ 0x66 ∷ 0x61 ∷ [])
    ≡ ok (some (record { index = 3; file_size = 40; inode_type = file }))
unfolding get_inode_at_path for_each_entry_in_dir read_directory_entry_from_disk signed
path_found = refl

for_each_entry_in_dir_lem_example :
    for_each_entry_in_dir disk small (λ d n. ok (true, n + d.inode)) root_inode 0
    ≡ fold (λ d n. ok (true, n + d.inode)) entries 0
unfolding is_directory to_inode
for_each_entry_in_dir_lem_example =
    for_each_entry_in_dir_lem disk small (λ d n. ok (true, n + d.inode)) root_inode entries refl
      root_entries 0

find_file_in_directory_lem_example :
    find_file_in_directory disk small root_inode (0x67 ∷ []) 1 ≡ ok 4
unfolding is_directory to_inode to_directory_entry last_match
find_file_in_directory_lem_example =
    find_file_in_directory_lem disk small root_inode entries 0x67 [] 1 refl root_entries
      (named 0x66 _ refl (omega arith) (named 0x67 _ refl (omega arith) none_left)) (omega arith)

split_path_lem_example :
    (slashed (split_path (0x2F ∷ 0x66 ∷ []) 0 0 (0x2F ∷ 0x66 ∷ [])) ≡ 0x2F ∷ 0x2F ∷ 0x66 ∷ [])
    × Segments (split_path (0x2F ∷ 0x66 ∷ []) 0 0 (0x2F ∷ 0x66 ∷ []))
split_path_lem_example = split_path_lem (0x2F ∷ 0x66 ∷ [])
