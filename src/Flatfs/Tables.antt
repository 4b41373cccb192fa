-- ===== src/Flatfs/Tables.antt =====
-- The tables of the flat file system: the super block, inodes, the two bitmaps, and the directory.
use acep_reja_mcsos.Flatfs.Layout.{
  dirent_ino, SuperDisk, inode_size, InodeDisk, dirent_name, splice, read_super, inode_at,
  inode_bytes,
}
use acep_reja_mcsos.Bitmap.{bit_clear, bit_test, bit_set}
use acep_reja_mcsos.Flatfs.{
  Blkdev, magic, strlen_bound, Op, version, max_inodes, valid_name, block_size, max_name, throw,
  inode_bmap_lba, same_bytes, inval, block_bmap_lba, data_start_lba, root_ino, corrupt,
  root_dir_lba, ◌>>◌, ◌>>=◌, inode_table_lba, dev_read, dev_write, nospc, sb_lba, pure,
  dirent_count, noent, FsError,
}
use acep_reja_mcsos.Common.{
  ℕ, zero, suc, ◌+◌, ◌-◌, ◌*◌, ◌/◌, ◌%◌, Bool, not, ◌&&◌, ◌||◌, Option, none, some, List, [], ◌∷◌,
  ltb, leb, ◌==◌, if◌then◌else◌, drop, value, error, Result,
}

-- The tests of `load_super` after the read.
unfoldable pub check_super : ℕ → SuperDisk → Bool
check_super block_count sb =
    sb.magic == magic
    && (sb.version == version && sb.block_size == block_size)
    && (sb.block_count == block_count && sb.inode_count == max_inodes)
    && (sb.inode_bmap_lba == inode_bmap_lba
        && (sb.block_bmap_lba == block_bmap_lba && sb.inode_table_lba == inode_table_lba))
    && (sb.root_ino == root_ino
        && (sb.root_dir_lba == root_dir_lba && sb.data_start_lba == data_start_lba))
    && not (leb sb.block_count sb.data_start_lba)

-- Where the inode `ino` is: `index / per_block` and `index % per_block`, with 8 inodes to a block.
abbrev pub inode_lba : ℕ → ℕ
inode_lba ino = inode_table_lba + (ino - 1) / 8

abbrev pub inode_off : ℕ → ℕ
inode_off ino = (ino - 1) % 8 * inode_size

-- The first of the `n` bits from `i` on that is clear.
unfoldable pub first_clear : List ℕ → ℕ → ℕ → Option ℕ
first_clear b zero i = none
first_clear b (suc n) i =
    let rest = first_clear b n (i + 1) in if not (bit_test b i) then some i else rest

-- The loop of `find_dirent`: the slot and the inode.
unfoldable pub find_slot : List ℕ → List ℕ → ℕ → ℕ → ℕ → Option (ℕ × ℕ)
find_slot block name len zero i = none
find_slot block name len (suc n) i =
    let rest = find_slot block name len n (i + 1) in
    if not (dirent_ino block i == 0)
      && (strlen_bound (dirent_name block i) (max_name + 1) == len
          && same_bytes (dirent_name block i) name len)
    then some (i, dirent_ino block i)
    else rest

-- The loop of `free_inode_and_blocks`.
pub clear_blocks : ℕ → List ℕ → List ℕ → List ℕ
clear_blocks block_count [] bb = bb
clear_blocks block_count (lba ∷ direct) bb =
    clear_blocks block_count direct
      (if not (lba == 0) && ltb lba block_count then bit_clear bb lba else bb)

module _ {S : Type 0} (dev : Blkdev S) where
  unfoldable pub load_super : Op S SuperDisk
  load_super = do
    block ← dev_read dev sb_lba
    if check_super dev.block_count (read_super block)
        then pure (read_super block)
        else throw corrupt

  unfoldable pub read_inode : ℕ → Op S InodeDisk
  read_inode ino =
      if ino == 0 || ltb max_inodes ino
      then throw inval
      else if leb data_start_lba (inode_lba ino)
      then throw corrupt
      else do block ← dev_read dev (inode_lba ino); pure (inode_at (drop (inode_off ino) block))

  unfoldable pub write_inode : ℕ → InodeDisk → Op S (Unit {0})
  write_inode ino inode =
      if ino == 0 || ltb max_inodes ino
      then throw inval
      else if leb data_start_lba (inode_lba ino)
      then throw corrupt
      else do
        block ← dev_read dev (inode_lba ino)
        dev_write dev (inode_lba ino) (splice block (inode_off ino) (inode_bytes inode))

  unfoldable pub load_bmaps : Op S (List ℕ × List ℕ)
  load_bmaps = do ib ← dev_read dev inode_bmap_lba; bb ← dev_read dev block_bmap_lba; pure (ib, bb)

  unfoldable pub store_bmaps : List ℕ → List ℕ → Op S (Unit {0})
  store_bmaps ib bb = do dev_write dev inode_bmap_lba ib; dev_write dev block_bmap_lba bb

  unfoldable pub found_or : Option (ℕ × ℕ) → Op S (ℕ × ℕ)
  found_or none = throw noent
  found_or (some found) = pure found

  -- `find_dirent` once the length of the name is known.
  unfoldable pub find_valid : List ℕ → Result FsError ℕ → Op S (ℕ × ℕ)
  find_valid name (error e) = throw e
  find_valid name (value len) = do
    block ← dev_read dev root_dir_lba
    found_or (find_slot block name len dirent_count 0)

  -- The slot of the name, and its inode.
  unfoldable pub find_dirent : List ℕ → Op S (ℕ × ℕ)
  find_dirent name = find_valid name (valid_name name)

  -- The inode and the block that are taken.
  unfoldable pub alloc_inode_block : Op S (ℕ × ℕ)
  alloc_inode_block = do
    (ib, bb) ← load_bmaps
    elim (first_clear ib (max_inodes - 1) 2) [
      | none ↦ throw nospc
      | some ino ↦ elim (first_clear bb (dev.block_count - data_start_lba) data_start_lba) [
        | none ↦ throw nospc
        | some lba ↦ do store_bmaps (bit_set ib ino) (bit_set bb lba); pure (ino, lba)
      ]
    ]

  -- The block that is taken, if one is free.
  unfoldable pub take_data_block : List ℕ → List ℕ → Option ℕ → Op S ℕ
  take_data_block ib bb none = throw nospc
  take_data_block ib bb (some lba) = do store_bmaps ib (bit_set bb lba); pure lba

  unfoldable pub alloc_data_block : Op S ℕ
  alloc_data_block = do
    (ib, bb) ← load_bmaps
    take_data_block ib bb (first_clear bb (dev.block_count - data_start_lba) data_start_lba)

  pub free_inode_and_blocks : ℕ → InodeDisk → Op S (Unit {0})
  free_inode_and_blocks ino inode = do
    (ib, bb) ← load_bmaps
    store_bmaps (bit_clear ib ino) (clear_blocks dev.block_count inode.direct bb)
