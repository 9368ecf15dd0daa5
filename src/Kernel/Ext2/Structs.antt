-- ===== src/Kernel/Ext2/Structs.antt =====
-- The structures on the disk of kernel/filesystem/ext2_structs.hpp, read from their bytes, and the
-- entries that every file system gives, of inode.hpp and directoryentry.hpp.
use bunos.Prelude.{
  ℕ, zero, suc, ◌+◌, ◌*◌, ◌^◌, Bool, List, [], ◌∷◌, ◌!=◌, if◌then◌else◌, bit_and, get_or, drop,
}

-- Numbers of two and four bytes, the lowest byte first.
abbrev pub le16 : List ℕ → ℕ → ℕ
le16 b i = get_or b i 0 + get_or b (i + 1) 0 * 2 ^ 8

abbrev pub le32 : List ℕ → ℕ → ℕ
le32 b i = le16 b i + le16 b (i + 2) * 2 ^ 16

pub record SuperBlock : Type 0 where
  pub inode_count : ℕ
  pub block_count : ℕ
  pub block_size_log : ℕ
  pub block_group_block_count : ℕ
  pub block_group_inode_count : ℕ
  pub signature : ℕ
  pub version_major : ℕ
  pub inode_struct_size : ℕ

unfoldable pub to_superblock : List ℕ → SuperBlock
to_superblock b = record {
  inode_count = le32 b 0;
  block_count = le32 b 4;
  block_size_log = le32 b 24;
  block_group_block_count = le32 b 32;
  block_group_inode_count = le32 b 40;
  signature = le16 b 56;
  version_major = le32 b 76;
  inode_struct_size = le16 b 88;
}

pub record Inode : Type 0 where
  pub kind : ℕ
  pub size_lower : ℕ
  pub direct_block_pointers : List ℕ
  pub indir_block_pointer : ℕ
  pub size_upper : ℕ

-- `k` pointers from byte `i` on.
unfoldable pub pointers : List ℕ → ℕ → ℕ → List ℕ
pointers b i zero = []
pointers b i (suc k) = le32 b i ∷ pointers b (i + 4) k

unfoldable pub to_inode : List ℕ → Inode
unfolding pointers
to_inode b = record {
  kind = le16 b 0;
  size_lower = le32 b 4;
  direct_block_pointers = pointers b 40 12;
  indir_block_pointer = le32 b 88;
  size_upper = le32 b 108;
}

unfoldable pub is_directory : Inode → Bool
is_directory inode = bit_and inode.kind 0x4000 != 0

abbrev pub total_size : Inode → ℕ
total_size inode = inode.size_upper * 2 ^ 32 + inode.size_lower

pub data InodeType : Type 0 where
  directory file : InodeType

-- `kernel::filesystem::Inode`.
pub record SystemInode : Type 0 where
  pub index : ℕ
  pub file_size : ℕ
  pub inode_type : InodeType

unfoldable pub into_system_inode : Inode → ℕ → SystemInode
unfolding is_directory
into_system_inode inode index = record {
  index = index;
  file_size = total_size inode;
  inode_type = if is_directory inode then directory else file;
}

pub record DirectoryEntry : Type 0 where
  pub inode : ℕ
  pub rec_len : ℕ
  pub name_len : ℕ
  pub name : List ℕ

unfoldable pub to_directory_entry : List ℕ → DirectoryEntry
to_directory_entry b = record {
  inode = le32 b 0;
  rec_len = le16 b 4;
  name_len = get_or b 6 0;
  name = drop 8 b;
}

-- The generic entry of kernel/filesystem/directoryentry.hpp.
pub record Listing : Type 0 where
  pub name : List ℕ
  pub inode : SystemInode
