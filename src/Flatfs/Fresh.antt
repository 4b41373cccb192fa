-- ===== src/Flatfs/Fresh.antt =====
-- A new file system: what mcsfs1_format writes, and that it mounts and passes mcsfs1_fsck.
use acep_reja_mcsos.Bitmap.{bit_set, bit_test, byte_set, byte_test}
use acep_reja_mcsos.Journal.Layout.{le, of_le, of_le-le}
use acep_reja_mcsos.Flatfs.Served.{
  Serves, At, Gives, Gives-proceed, Gives-value, Gives-pure, read_inode-Gives, dev_read-Gives,
  dev_write-Gives, write_inode-Gives, dev_flush-Gives,
}
use acep_reja_mcsos.Flatfs.Calls.{
  check_root, check_bmaps, new_super, new_inode_bmap, zero_block, new_block_bmap, new_root,
  set_below, mcsfs1_mount, check_dirents, mcsfs1_fsck, mcsfs1_format,
}
use acep_reja_mcsos.Flatfs.Writes.{
  zeroed, zeroed-inside, zero_from-Gives, load_bmaps-Gives, store_bmaps-Gives,
}
use acep_reja_mcsos.Flatfs.Tables.{check_super, load_super, read_inode, load_bmaps}
use acep_reja_mcsos.Flatfs.Layout.{
  InodeDisk, read_super, super_bytes, splice, inode_at, inode_bytes, words, zero_inode, of_words,
}
use acep_reja_mcsos.Flatfs.{
  sb_lba, Blkdev, min_blocks, inode_bmap_lba, block_bmap_lba, root_dir_lba, inode_table_lba,
  block_size, pure, data_start_lba, dirent_count, ◌>>◌, throw, root_ino, corrupt,
}
use acep_reja_mcsos.Common.{
  ℕ, ◌*◌, ◌^◌, ◌≤◌, ◌<◌, ◌≡◌, refl, ap, ◌∙◌, true, false, List, [], arith, ltb, leb, ◌==◌,
  if◌then◌else◌, all_below, update, drop,
}

-- The blocks of a new file system that the other calls read.
pub record Formatted (count : ℕ) (img : ℕ → List ℕ) : Type 0 where
  pub super : img sb_lba ≡ super_bytes (new_super count)
  pub inode_bmap : img inode_bmap_lba ≡ new_inode_bmap
  pub block_bmap : img block_bmap_lba ≡ new_block_bmap
  pub root : img inode_table_lba ≡ splice zero_block 0 (inode_bytes new_root)
  pub root_dir : img root_dir_lba ≡ zero_block

-- What `mcsfs1_format` leaves of an image.
abbrev pub with_bmaps : ℕ → (ℕ → List ℕ) → ℕ → List ℕ
with_bmaps count img =
    update
      (update (update (zeroed count 0 img) sb_lba (super_bytes (new_super count))) inode_bmap_lba
        new_inode_bmap)
      block_bmap_lba new_block_bmap

abbrev pub new_image : ℕ → (ℕ → List ℕ) → ℕ → List ℕ
new_image count img =
    update (with_bmaps count img) inode_table_lba
      (splice (with_bmaps count img inode_table_lba) 0 (inode_bytes new_root))

new_image-Formatted :
    (count : ℕ) (img : ℕ → List ℕ) → min_blocks ≤ count → Formatted count (new_image count img)
new_image-Formatted count img big = record {
  super = refl;
  inode_bmap = refl;
  block_bmap = refl;
  root =
      ap (λ b. splice b 0 (inode_bytes new_root))
        (zeroed-inside count 0 img 3 (omega arith) (omega arith));
  root_dir = zeroed-inside count 0 img 7 (omega arith) (omega arith);
}

read_super-new_super :
    (count : ℕ) → count < 2 ^ 32 → read_super (super_bytes (new_super count)) ≡ new_super count
unfolding read_super super_bytes new_super words le of_le
read_super-new_super count lt =
    ap (λ c. record (new_super 0) { block_count = c }) (of_le-le 4 count [] lt)

check_super-new_super :
    (count : ℕ) → min_blocks ≤ count → check_super count (new_super count) ≡ true
unfolding check_super new_super
check_super-new_super count big =
    let same : (count == count) ≡ true = ground arith in
    let room : leb count 8 ≡ false = ground arith in rw (same, room) refl

abbrev root_inode : InodeDisk
root_inode = inode_at (drop 0 (splice zero_block 0 (inode_bytes new_root)))

check_root-new_root : check_root root_inode ≡ true
unfolding check_root inode_at inode_bytes new_root zero_inode words of_words le of_le
check_root-new_root = refl

check_bmaps-new : check_bmaps new_inode_bmap new_block_bmap ≡ true
unfolding check_bmaps new_inode_bmap new_block_bmap set_below bit_set bit_test byte_set byte_test
    all_below
check_bmaps-new = refl

-- The calls on an image as `mcsfs1_format` leaves it.
module _ {S : Type 0} (ok : S → Type 0) (peek : S → ℕ → List ℕ) (dev : Blkdev S)
    (serves : Serves ok peek dev) (img : ℕ → List ℕ) (f : Formatted dev.block_count img)
    (big : min_blocks ≤ dev.block_count) (small : dev.block_count ≤ block_size * 8) where
  load_super-Gives :
      (s : S) → At ok peek s img → Gives ok peek (load_super dev s) (new_super dev.block_count) img
  unfolding load_super
  load_super-Gives s at =
      let block = super_bytes (new_super dev.block_count) in
      let e = read_super-new_super dev.block_count (omega arith) in
      let t = check_super-new_super dev.block_count big in
      let checked : (s' : S)
          → At ok peek s' img
          → Gives ok peek
              ((if check_super dev.block_count (read_super block)
                  then pure (read_super block)
                  else throw corrupt)
                s')
              (new_super dev.block_count) img =
        λ s' x. rw (e, t) (Gives-pure ok peek (new_super dev.block_count) s' img x) in
      Gives-proceed ok peek _ _ block _ _ _
        (Gives-value ok peek _ _ block img
          (dev_read-Gives ok peek dev serves s img at sb_lba (omega arith)) f.super)
        checked

  read_root-Gives :
      (s : S) → At ok peek s img → Gives ok peek (read_inode dev root_ino s) root_inode img
  read_root-Gives s at =
      Gives-value ok peek _ _ root_inode img
        (read_inode-Gives ok peek dev serves s img at root_ino (omega arith) (omega arith) big)
        (ap (λ b. inode_at (drop 0 b)) f.root)

  read_bmaps-Gives :
      (s : S)
      → At ok peek s img
      → Gives ok peek (load_bmaps dev s) (new_inode_bmap, new_block_bmap) img
  read_bmaps-Gives s at =
      Gives-value ok peek _ _ (new_inode_bmap, new_block_bmap) img
        (load_bmaps-Gives ok peek dev serves s img at big)
        (ap (λ b. (b, img block_bmap_lba)) f.inode_bmap
          ∙ ap (λ b. (new_inode_bmap, b)) f.block_bmap)

  mounted-Gives :
      (s : S)
      → At ok peek s img
      → Gives ok peek
          (mcsfs1_mount dev s)
          (record { dev = dev; block_count = dev.block_count; data_start = data_start_lba })
          img
  unfolding mcsfs1_mount new_super
  mounted-Gives s at = Gives-proceed ok peek _ _ _ _ _ _ (load_super-Gives s at) (λ s' x.
      Gives-proceed ok peek _ _ _ _ _ _ (read_root-Gives s' x)
        (λ s2 y. rw check_root-new_root (Gives-pure ok peek _ s2 img y)))

  check_empty :
      (s : S)
      → At ok peek s img
      → Gives ok peek
          (check_dirents dev zero_block new_inode_bmap new_block_bmap dirent_count 0 s)
          tt
          img
  unfolding check_dirents of_le
  check_empty s at = Gives-pure ok peek tt s img at

  fscked-Gives : (s : S) → At ok peek s img → Gives ok peek (mcsfs1_fsck dev s) tt img
  unfolding mcsfs1_fsck
  fscked-Gives s at = Gives-proceed ok peek _ _ _ _ _ _ (load_super-Gives s at) (λ s' x.
      Gives-proceed ok peek _ _ _ _ _ _ (read_bmaps-Gives s' x) (λ s2 y. rw check_bmaps-new (
        Gives-proceed ok peek _ _ _ _ _ _ (read_root-Gives s2 y) (λ s3 z. rw check_root-new_root (
          Gives-proceed ok peek _ _ zero_block _ _ _
            (Gives-value ok peek _ _ zero_block img
              (dev_read-Gives ok peek dev serves s3 img z root_dir_lba (omega arith)) f.root_dir)
            (λ s4 w. check_empty s4 w))))))

module _ {S : Type 0} (ok : S → Type 0) (peek : S → ℕ → List ℕ) (dev : Blkdev S)
    (serves : Serves ok peek dev) (s : S) (img : ℕ → List ℕ) (at : At ok peek s img)
    (big : min_blocks ≤ dev.block_count) (small : dev.block_count ≤ block_size * 8) where
  mcsfs1_format-Gives : Gives ok peek (mcsfs1_format dev s) tt (new_image dev.block_count img)
  unfolding mcsfs1_format
  mcsfs1_format-Gives =
      let count = dev.block_count in
      let t1 : ltb count min_blocks ≡ false = ground arith in
      let t2 : ltb (block_size * 8) count ≡ false = ground arith in
      rw (t1, t2)
        (Gives-proceed ok peek _ _ _ _ _ _
          (zero_from-Gives ok peek dev serves count 0 s img at (omega arith))
          (λ s1 x1.
            Gives-proceed ok peek _ _ _ _ _ _
              (dev_write-Gives ok peek dev serves s1 _ x1 sb_lba (super_bytes (new_super count))
                (omega arith))
              (λ s2 x2.
                Gives-proceed ok peek _ _ _ _ _ _
                  (store_bmaps-Gives ok peek dev serves s2 _ x2 new_inode_bmap new_block_bmap big)
                  (λ s3 x3.
                    Gives-proceed ok peek _ _ _ _ _ _
                      (write_inode-Gives ok peek dev serves s3 _ x3 root_ino new_root (omega arith)
                        (omega arith) big)
                      (λ s4 x4. dev_flush-Gives ok peek dev serves s4 _ x4)))))

  -- On a device of 16 to 4096 blocks that serves them, mcsfs1_format succeeds, and then mcsfs1_mount
  -- succeeds with the size of the device, and mcsfs1_fsck finds the file system in order; neither
  -- changes it.
  pub mcsfs1_format-mounts :
      Gives ok peek
        ((mcsfs1_format dev >> mcsfs1_mount dev) s)
        (record { dev = dev; block_count = dev.block_count; data_start = data_start_lba })
        (new_image dev.block_count img)
      × Gives ok peek ((mcsfs1_format dev >> mcsfs1_fsck dev) s) tt (new_image dev.block_count img)
  mcsfs1_format-mounts =
      let f = new_image-Formatted dev.block_count img big in
      (
        Gives-proceed ok peek _ _ _ _ _ _ mcsfs1_format-Gives
            (mounted-Gives ok peek dev serves (new_image dev.block_count img) f big small),
        Gives-proceed ok peek _ _ _ _ _ _ mcsfs1_format-Gives
            (fscked-Gives ok peek dev serves (new_image dev.block_count img) f big small),
      )
