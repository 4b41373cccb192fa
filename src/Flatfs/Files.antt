-- ===== src/Flatfs/Files.antt =====
-- The calls on the files of the flat file system. A buffer is the list of its bytes, and a read returns
-- the bytes that it copies. Where mcsfs1_read would index `direct` past its end, the model reads 0.
use acep_reja_mcsos.Flatfs.Calls.{chunk, some_blocks, blocks_for, free_slot, new_inode}
use acep_reja_mcsos.Flatfs.Tables.{
  find_dirent, alloc_data_block, read_inode, write_inode, free_inode_and_blocks, alloc_inode_block,
}
use acep_reja_mcsos.Flatfs.Layout.{InodeDisk, splice, dirent_size, zero_inode, dirent_bytes}
use acep_reja_mcsos.Flatfs.{
  Blkdev, Mount, Op, FsError, exist, valid_name, pure, direct_blocks, block_size, throw, range,
  corrupt, ◌>>=◌, ◌>>◌, dev_read, dev_write, root_dir_lba, mode_file, isdir, dev_flush,
  dirent_count, nospc,
}
use acep_reja_mcsos.Common.{
  ℕ, zero, suc, ◌+◌, ◌-◌, ◌*◌, ◌||◌, none, some, List, [], ◌++◌, ltb, leb, ◌==◌, if◌then◌else◌,
  length, get_or, set, take, drop, replicate, Outcome, value, error, done, fail,
}

-- The block `i` of a write: the bytes of the buffer, padded with 0.
unfoldable pub padded : List ℕ → List ℕ
padded rest_of_buf =
    let n = chunk (length rest_of_buf) in take n rest_of_buf ++ replicate (block_size - n) 0

module _ {S : Type 0} (dev : Blkdev S) where
  -- `mcsfs1_create` from the read of the directory on.
  unfoldable pub create_new : List ℕ → ℕ → Op S (Unit {0})
  create_new name len = do
    dir ← dev_read dev root_dir_lba
    elim (free_slot dir dirent_count 0) [
      | none ↦ throw nospc
      | some slot ↦ do
        (ino, first_data) ← alloc_inode_block dev
        write_inode dev ino (new_inode first_data)
        dev_write dev root_dir_lba
            (splice dir (dirent_size * slot) (dirent_bytes ino mode_file (take len name)))
        dev_flush dev
    ]

  -- Any error of `find_dirent` counts as a name that is not there.
  unfoldable pub create_unless :
      List ℕ → ℕ → Outcome FsError S (ℕ × ℕ) → Outcome FsError S (Unit {0})
  create_unless name len (done found s) = fail exist s
  create_unless name len (fail e s) = create_new name len s

  unfoldable pub mcsfs1_create : List ℕ → Op S (Unit {0})
  mcsfs1_create name s = elim (valid_name name) [
    | error e ↦ fail e s
    | value len ↦ create_unless name len (find_dirent dev name s)
  ]

  -- Blocks for the `n` entries of `direct` from `i` on that have none.
  unfoldable pub alloc_missing : ℕ → ℕ → List ℕ → Op S (List ℕ)
  alloc_missing zero i direct = pure direct
  alloc_missing (suc n) i direct =
      let rest : List ℕ → Op S (List ℕ) = alloc_missing n (i + 1) in
      if get_or direct i 0 == 0
      then (do lba ← alloc_data_block dev; rest (set direct i lba))
      else rest direct

  -- Writes `n` blocks from `i` on, the buffer from here on.
  unfoldable pub write_blocks : ℕ → ℕ → List ℕ → List ℕ → Op S (Unit {0})
  write_blocks zero i direct buf = pure tt
  write_blocks (suc n) i direct buf = do
    dev_write dev (get_or direct i 0) (padded buf)
    write_blocks n (i + 1) direct (drop (chunk (length buf)) buf)

  -- The inode of a name, which has to be a file.
  unfoldable pub find_file : List ℕ → Op S (ℕ × ℕ × InodeDisk)
  find_file name = do
    (slot, ino) ← find_dirent dev name
    inode ← read_inode dev ino
    if inode.mode == mode_file then pure (slot, ino, inode) else throw isdir

  -- `mcsfs1_write` once every block is there.
  unfoldable pub store_file : ℕ → InodeDisk → List ℕ → List ℕ → Op S (Unit {0})
  store_file ino inode buf direct = do
    write_blocks (some_blocks (length buf)) 0 direct buf
    write_inode dev ino (record inode { size = length buf; direct = direct })
    dev_flush dev

  -- `mcsfs1_write` once the file is found.
  unfoldable pub write_file : List ℕ → ℕ × ℕ × InodeDisk → Op S (Unit {0})
  write_file buf (slot, ino, inode) = do
    direct ← alloc_missing (some_blocks (length buf)) 0 inode.direct
    store_file ino inode buf direct

  unfoldable pub mcsfs1_write : List ℕ → List ℕ → Op S (Unit {0})
  mcsfs1_write name buf =
      if ltb (direct_blocks * block_size) (length buf)
      then throw range
      else do found ← find_file name; write_file buf found

  -- Reads `n` blocks from `i` on, with `remain` bytes left to copy.
  unfoldable pub read_blocks : ℕ → ℕ → ℕ → List ℕ → ℕ → Op S (List ℕ)
  read_blocks block_count zero i direct remain = pure []
  read_blocks block_count (suc n) i direct remain =
      let lba = get_or direct i 0 in
      if lba == 0 || leb block_count lba then throw corrupt else do
        block ← dev_read dev lba
        rest ← read_blocks block_count n (i + 1) direct (remain - chunk remain)
        pure (take (chunk remain) block ++ rest)

  pub mcsfs1_unlink : List ℕ → Op S (Unit {0})
  mcsfs1_unlink name = do
    (slot, ino, inode) ← find_file name
    dir ← dev_read dev root_dir_lba
    dev_write dev root_dir_lba (splice dir (dirent_size * slot) (replicate dirent_size 0))
    free_inode_and_blocks dev ino inode
    write_inode dev ino zero_inode
    dev_flush dev

unfoldable pub mcsfs1_read : {S : Type 0} → Mount S → List ℕ → ℕ → Op S (List ℕ)
mcsfs1_read mnt name cap = do
  (slot, ino, inode) ← find_file mnt.dev name
  if ltb cap inode.size
      then throw range
      else read_blocks mnt.dev mnt.block_count (blocks_for inode.size) 0 inode.direct inode.size
