-- ===== src/Flatfs/Layout.antt =====
-- The structs of the flat file system in their blocks, little-endian.
use acep_reja_mcsos.Flatfs.{direct_blocks, max_name}
use acep_reja_mcsos.Journal.Layout.{le, of_le}
use acep_reja_mcsos.Common.{
  ℕ, zero, suc, ◌+◌, ◌-◌, ◌*◌, List, [], ◌∷◌, ◌++◌, length, take, drop, replicate,
}

-- `mcsfs_memcpy(block + off, bytes, n)`
abbrev pub splice : List ℕ → ℕ → List ℕ → List ℕ
splice block off bytes = take off block ++ (bytes ++ drop (off + length bytes) block)

-- An array of uint32_t
unfoldable pub words : List ℕ → List ℕ
words [] = []
words (w ∷ ws) = le 4 w ++ words ws

unfoldable pub of_words : ℕ → List ℕ → List ℕ
of_words zero b = []
of_words (suc n) b = of_le 4 b ∷ of_words n (drop 4 b)

-- struct mcsfs1_super_disk; the reserved words are 0.
pub record SuperDisk : Type 0 where
  pub magic : ℕ
  pub version : ℕ
  pub block_size : ℕ
  pub block_count : ℕ
  pub inode_count : ℕ
  pub inode_bmap_lba : ℕ
  pub block_bmap_lba : ℕ
  pub inode_table_lba : ℕ
  pub inode_table_blocks : ℕ
  pub root_ino : ℕ
  pub root_dir_lba : ℕ
  pub data_start_lba : ℕ
  pub clean : ℕ

unfoldable pub super_bytes : SuperDisk → List ℕ
super_bytes sb =
    words (
      sb.magic ∷ sb.version ∷ sb.block_size ∷ sb.block_count ∷ sb.inode_count ∷ sb.inode_bmap_lba
      ∷ sb.block_bmap_lba ∷ sb.inode_table_lba ∷ sb.inode_table_blocks ∷ sb.root_ino
      ∷ sb.root_dir_lba ∷ sb.data_start_lba ∷ sb.clean ∷ [])
    ++ replicate 460 0

-- The word `i` of a block
abbrev pub word : List ℕ → ℕ → ℕ
word b i = of_le 4 (drop (4 * i) b)

unfoldable pub read_super : List ℕ → SuperDisk
read_super b = record {
  magic = word b 0;
  version = word b 1;
  block_size = word b 2;
  block_count = word b 3;
  inode_count = word b 4;
  inode_bmap_lba = word b 5;
  block_bmap_lba = word b 6;
  inode_table_lba = word b 7;
  inode_table_blocks = word b 8;
  root_ino = word b 9;
  root_dir_lba = word b 10;
  data_start_lba = word b 11;
  clean = word b 12;
}

-- struct mcsfs1_inode_disk; `reserved` is raw bytes.
pub record InodeDisk : Type 0 where
  pub mode : ℕ
  pub links : ℕ
  pub size : ℕ
  pub direct : List ℕ
  pub reserved : List ℕ

-- sizeof(struct mcsfs1_inode_disk)
abbrev pub inode_size : ℕ
inode_size = 60

unfoldable pub zero_inode : InodeDisk
zero_inode = record {
  mode = 0;
  links = 0;
  size = 0;
  direct = replicate direct_blocks 0;
  reserved = replicate 20 0;
}

unfoldable pub inode_bytes : InodeDisk → List ℕ
inode_bytes i = le 2 i.mode ++ (le 2 i.links ++ (le 4 i.size ++ (words i.direct ++ i.reserved)))

unfoldable pub inode_at : List ℕ → InodeDisk
inode_at b = record {
  mode = of_le 2 b;
  links = of_le 2 (drop 2 b);
  size = of_le 4 (drop 4 b);
  direct = of_words direct_blocks (drop 8 b);
  reserved = take 20 (drop 40 b);
}

-- sizeof(struct mcsfs1_dirent_disk)
abbrev pub dirent_size : ℕ
dirent_size = 32

-- `de[i].ino`, `de[i].type`, and the bytes from `de[i].name` to the end of the block
abbrev pub dirent_ino : List ℕ → ℕ → ℕ
dirent_ino block i = of_le 4 (drop (dirent_size * i) block)

abbrev pub dirent_type : List ℕ → ℕ → ℕ
dirent_type block i = of_le 1 (drop (dirent_size * i + 4) block)

abbrev pub dirent_name : List ℕ → ℕ → List ℕ
dirent_name block i = drop (dirent_size * i + 5) block

-- struct mcsfs1_dirent_disk, with the name padded
unfoldable pub dirent_bytes : ℕ → ℕ → List ℕ → List ℕ
dirent_bytes ino type name =
    le 4 ino ++ (le 1 type ++ (name ++ replicate (max_name - length name) 0))
