-- ===== src/Kernel/Ext2/Image.antt =====
-- A small disk for the examples: blocks of 32 bytes, a root directory with one file `/fa` of 40 bytes
-- and one file `/g` of 3 bytes.
use bunos.Prelude.{
  arith, refl, ℕ, List, [], ◌∷◌, ◌++◌, Result, ok, take, replicate, ◌==◌, if◌then◌else◌,
}
use bunos.Kernel.Ext2.{Ext2, Inode, to_inode, read_inode_block_from_disk}
use bunos.Kernel.Ext2.File.{Holds, ending, whole}

-- What stands at an offset; everything else is 0.
abbrev pub at_offset : List (ℕ × List ℕ) → ℕ → List ℕ
at_offset [] offset = []
at_offset ((o, bytes) ∷ places) offset = if o == offset then bytes else at_offset places offset

abbrev pub descriptor : List ℕ
descriptor = replicate 8 0 ++ 10 ∷ []

abbrev pub root : List ℕ
root = 0 ∷ 0x40 ∷ replicate 38 0 ++ 100 ∷ []

abbrev pub long_file : List ℕ
long_file = 0 ∷ 0x80 ∷ 0 ∷ 0 ∷ 40 ∷ replicate 35 0 ++ 200 ∷ 0 ∷ 0 ∷ 0 ∷ 201 ∷ []

abbrev pub short_file : List ℕ
short_file = 0 ∷ 0x80 ∷ 0 ∷ 0 ∷ 3 ∷ replicate 35 0 ++ 202 ∷ []

abbrev pub places : List (ℕ × List ℕ)
places =
    (1000, descriptor)
    ∷ (448, root)
    ∷ (576, long_file)
    ∷ (704, short_file)
    ∷ (3200, 3 ∷ 0 ∷ 0 ∷ 0 ∷ 16 ∷ 0 ∷ 2 ∷ 1 ∷ 0x66 ∷ 0x61 ∷ [])
    ∷ (3216, 4 ∷ 0 ∷ 0 ∷ 0 ∷ 16 ∷ 0 ∷ 1 ∷ 1 ∷ 0x67 ∷ [])
    ∷ (6400, replicate 32 65)
    ∷ (6432, replicate 32 66)
    ∷ (6464, 1 ∷ 2 ∷ 3 ∷ [])
    ∷ []

abbrev pub disk : ℕ → ℕ → Result (List ℕ)
disk offset n = ok (take n (at_offset places offset ++ replicate n 0))

abbrev pub small : Ext2
small = record {
  superblock = record {
    inode_count = 8;
    block_count = 300;
    block_size_log = 0;
    block_group_block_count = 300;
    block_group_inode_count = 8;
    signature = 0xEF53;
    version_major = 1;
    inode_struct_size = 128;
  };
  block_group_count = 1;
  block_size = 32;
  block_group_descriptor_table_offset = 1000;
}

abbrev pub file_inode : Inode
file_inode = to_inode (long_file ++ replicate 83 0)

abbrev pub content : List ℕ
content = replicate 32 65 ++ replicate 8 66

-- The blocks of `/fa` hold `content`.
pub content_held : Holds disk small file_inode 0 content
unfolding to_inode read_inode_block_from_disk
content_held =
    whole {block = replicate 32 65} {rest = replicate 8 66} refl refl
      (ending {block = replicate 32 66} 8 refl refl (omega arith) (omega arith) refl) refl
