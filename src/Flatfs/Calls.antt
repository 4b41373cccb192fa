-- ===== src/Flatfs/Calls.antt =====
-- The calls of the flat file system.
use acep_reja_mcsos.Flatfs.Tables.{load_super, read_inode, store_bmaps, write_inode, load_bmaps}
use acep_reja_mcsos.Bitmap.{bit_set, bit_test}
use acep_reja_mcsos.Flatfs.Layout.{
  InodeDisk, dirent_ino, SuperDisk, zero_inode, dirent_type, super_bytes,
}
use acep_reja_mcsos.Flatfs.{
  Blkdev, root_ino, root_dir_lba, magic, Op, mode_dir, version, mode_file, pure, min_blocks, Mount,
  max_inodes, throw, inode_bmap_lba, inval, block_bmap_lba, corrupt, inode_table_lba,
  inode_table_blocks, ◌>>=◌, ◌>>◌, block_size, data_start_lba, dev_write, sb_lba, direct_blocks,
  dev_flush, dev_read, dirent_count,
}
use acep_reja_mcsos.Common.{
  ℕ, zero, suc, ◌+◌, ◌-◌, ◌*◌, ◌/◌, Bool, true, not, ◌&&◌, ◌||◌, Option, none, some, List, ◌∷◌, ltb,
  leb, ◌==◌, if◌then◌else◌, get_or, replicate, add32, all_below,
}

-- The bits below `n`, set
unfoldable pub set_below : ℕ → List ℕ → List ℕ
set_below zero b = b
set_below (suc n) b = bit_set (set_below n b) n

abbrev pub zero_block : List ℕ
zero_block = replicate block_size 0

-- The bitmaps, the super block and the root inode of a new file system.
unfoldable pub new_inode_bmap : List ℕ
new_inode_bmap = bit_set (bit_set zero_block 0) root_ino

unfoldable pub new_block_bmap : List ℕ
new_block_bmap = bit_set (set_below data_start_lba zero_block) root_dir_lba

unfoldable pub new_super : ℕ → SuperDisk
new_super count = record {
  magic = magic;
  version = version;
  block_size = block_size;
  block_count = count;
  inode_count = max_inodes;
  inode_bmap_lba = inode_bmap_lba;
  block_bmap_lba = block_bmap_lba;
  inode_table_lba = inode_table_lba;
  inode_table_blocks = inode_table_blocks;
  root_ino = root_ino;
  root_dir_lba = root_dir_lba;
  data_start_lba = data_start_lba;
  clean = 1;
}

unfoldable pub new_root : InodeDisk
new_root = record zero_inode {
  mode = mode_dir;
  links = 1;
  size = block_size;
  direct = root_dir_lba ∷ replicate 7 0;
}

-- The inode of a new file with one block.
unfoldable pub new_inode : ℕ → InodeDisk
new_inode first_data = record zero_inode {
  mode = mode_file;
  links = 1;
  direct = first_data ∷ replicate 7 0;
}

-- The first free slot of a directory, from `i` on.
unfoldable pub free_slot : List ℕ → ℕ → ℕ → Option ℕ
free_slot block zero i = none
free_slot block (suc n) i =
    let rest = free_slot block n (i + 1) in if dirent_ino block i == 0 then some i else rest

abbrev pub blocks_for : ℕ → ℕ
blocks_for bytes = add32 bytes (block_size - 1) / block_size

-- A file has one block at least.
abbrev pub some_blocks : ℕ → ℕ
some_blocks bytes = if blocks_for bytes == 0 then 1 else blocks_for bytes

abbrev pub chunk : ℕ → ℕ
chunk remain = if ltb block_size remain then block_size else remain

-- The inner loop of `mcsfs1_fsck`, over `n` blocks of an inode.
pub check_blocks : ℕ → List ℕ → List ℕ → ℕ → ℕ → Bool
check_blocks block_count bb direct zero j = true
check_blocks block_count bb direct (suc n) j =
    let lba = get_or direct j 0 in
    not (ltb lba data_start_lba || (leb block_count lba || not (bit_test bb lba)))
    && check_blocks block_count bb direct n (j + 1)

-- The test of the root inode.
unfoldable pub check_root : InodeDisk → Bool
check_root root = root.mode == mode_dir && get_or root.direct 0 0 == root_dir_lba

-- The tests of `mcsfs1_fsck` of the bitmaps.
unfoldable pub check_bmaps : List ℕ → List ℕ → Bool
check_bmaps ib bb =
    bit_test ib root_ino && bit_test bb root_dir_lba && all_below data_start_lba (bit_test bb)

module _ {S : Type 0} (dev : Blkdev S) where
  -- Zeroes `n` blocks from `lba` on.
  unfoldable pub zero_from : ℕ → ℕ → Op S (Unit {0})
  zero_from zero lba = pure tt
  zero_from (suc n) lba = do dev_write dev lba zero_block; zero_from n (lba + 1)

  unfoldable pub mcsfs1_format : Op S (Unit {0})
  mcsfs1_format =
      if ltb dev.block_count min_blocks || ltb (block_size * 8) dev.block_count
      then throw inval
      else do
        zero_from dev.block_count 0
        dev_write dev sb_lba (super_bytes (new_super dev.block_count))
        store_bmaps dev new_inode_bmap new_block_bmap
        write_inode dev root_ino new_root
        dev_flush dev

  unfoldable pub mcsfs1_mount : Op S (Mount S)
  mcsfs1_mount = do
    sb ← load_super dev
    root ← read_inode dev root_ino
    if check_root root
        then pure
            (record { dev = dev; block_count = sb.block_count; data_start = sb.data_start_lba })
        else throw corrupt

  -- The loop of `mcsfs1_fsck` over the directory.
  unfoldable pub check_dirents : List ℕ → List ℕ → List ℕ → ℕ → ℕ → Op S (Unit {0})
  check_dirents dir ib bb zero i = pure tt
  check_dirents dir ib bb (suc n) i =
      let rest = check_dirents dir ib bb n (i + 1) in
      let ino = dirent_ino dir i in
      if ino == 0
      then rest
      else if ltb max_inodes ino || (not (dirent_type dir i == mode_file) || not (bit_test ib ino))
      then throw corrupt
      else do
        inode ← read_inode dev ino
        if not (inode.mode == mode_file) || ltb (direct_blocks * block_size) inode.size
            then throw corrupt
            else if check_blocks dev.block_count bb inode.direct (some_blocks inode.size) 0
            then rest
            else throw corrupt

  unfoldable pub mcsfs1_fsck : Op S (Unit {0})
  mcsfs1_fsck = do
    sb ← load_super dev
    (ib, bb) ← load_bmaps dev
    if not (check_bmaps ib bb) then throw corrupt else do
      root ← read_inode dev root_ino
      if not (check_root root)
          then throw corrupt
          else do dir ← dev_read dev root_dir_lba; check_dirents dir ib bb dirent_count 0
