-- ===== src/Flatfs/ReadBack.antt =====
-- mcsfs1_read after mcsfs1_write.
use acep_reja_mcsos.Flatfs.Contents.{
  written, Holds, write_blocks-Gives, written-others, read_blocks-Gives, update-here, update-others,
  Holds-same, Holds-fewer, written-Holds,
}
use acep_reja_mcsos.Flatfs.Tables.{find_slot, inode_off, inode_lba}
use acep_reja_mcsos.Flatfs.Inodes.{inode_of, with_inode, FitsInode, inode-same}
use acep_reja_mcsos.Flatfs.Layout.{InodeDisk, inode_at}
use acep_reja_mcsos.Flatfs.Alloc.{Filled, NoSpace, alloc_missing-Filled}
use acep_reja_mcsos.Flatfs.Calls.{some_blocks, blocks_for}
use acep_reja_mcsos.Flatfs.Files.{mcsfs1_write, write_file, mcsfs1_read, store_file}
use acep_reja_mcsos.Flatfs.Named.{IsFile, find_file-Gives, IsNamed, Owned-FitsWords}
use acep_reja_mcsos.Flatfs.Served.{
  Serves, Gives, At, Gives-proceed, write_inode-Gives, dev_flush-Gives,
}
use acep_reja_mcsos.Flatfs.{
  Blkdev, FsError, min_blocks, block_size, direct_blocks, ◌>>◌, data_start_lba, root_dir_lba,
  block_bmap_lba, dirent_count,
}
use acep_reja_mcsos.Common.{
  ℕ, ◌-◌, ◌*◌, ◌%◌, ◌≤◌, ◌<◌, ◌≡◌, refl, ap, ◌∙◌, ◌≢◌, ◌⊎◌, inl, inr, false, List, arith, ltb,
  length, get_or, drop, proceed, Outcome,
}

-- After the write: the bytes are read back.
pub record ReadBack {S : Type 0} (ok : S → Type 0) (peek : S → ℕ → List ℕ)
    (r : Outcome FsError S (List ℕ)) (buf : List ℕ) : Type 0 where
  pub image : ℕ → List ℕ
  pub gives : Gives ok peek r buf image

module _ {S : Type 0} (ok : S → Type 0) (peek : S → ℕ → List ℕ) (dev : Blkdev S)
    (serves : Serves ok peek dev) (big : min_blocks ≤ dev.block_count)
    (small : dev.block_count ≤ block_size * 8) (img : ℕ → List ℕ) (name : List ℕ) (slot ino : ℕ)
    (file : IsFile dev.block_count img name slot ino) (buf : List ℕ)
    (short : length buf ≤ direct_blocks * block_size) where
  abbrev old : InodeDisk
  old = inode_of img ino

  abbrev count_of : ℕ
  count_of = some_blocks (length buf)

  few : count_of ≤ direct_blocks
  few = ground arith

  enough : length buf ≤ blocks_for (length buf) * block_size
  enough = omega arith

  blocks_for-le : blocks_for (length buf) ≤ count_of
  blocks_for-le = ground arith

  module _ (r : Outcome FsError S (List ℕ))
      (f : Filled ok peek dev.block_count count_of 0 (inode_of img ino).direct img r) where
    abbrev new : InodeDisk
    new = record (inode_of img ino) { size = length buf; direct = f.entries }

    abbrev filled_image : ℕ → List ℕ
    filled_image = written count_of 0 f.entries buf f.image

    abbrev final_image : ℕ → List ℕ
    final_image = with_inode filled_image ino new

    table_block : inode_lba ino < root_dir_lba
    table_block = let a = file.named.small_ino in omega arith

    new-FitsInode : FitsInode new
    new-FitsInode = record {
      mode = file.fits.mode;
      links = file.fits.links;
      size = omega (arith, short);
      direct = Owned-FitsWords dev.block_count (f.image block_bmap_lba) f.entries small f.owned;
      eight = f.eight ∙ file.fits.eight;
      reserved = file.fits.reserved;
    }

    -- The blocks below the data are as the allocation left them.
    filled_image-low : (a : ℕ) → a < data_start_lba → filled_image a ≡ f.image a
    filled_image-low a lt = written-others count_of 0 f.entries buf f.image a (λ j le in_file e.
        absurd (omega (arith, lt, e, f.owned.from j (f.some_block j le in_file))))

    filled_image-table : filled_image (inode_lba ino) ≡ img (inode_lba ino)
    filled_image-table =
        let t = table_block in
        filled_image-low (inode_lba ino) (omega (arith, t))
        ∙ f.others (inode_lba ino) (λ e. absurd (omega (arith, e))) (λ e. absurd (omega (arith, e)))

    final_image-inode : inode_of final_image ino ≡ new
    final_image-inode =
        ap (λ b. inode_at (drop (inode_off ino) b)) (update-here filled_image (inode_lba ino) _)
        ∙ inode-same (filled_image (inode_lba ino)) new new-FitsInode
            (ap length filled_image-table ∙ file.whole_table) ((ino - 1) % 8) (omega arith)

    final_image-others : (a : ℕ) → inode_lba ino ≢ a → final_image a ≡ filled_image a
    final_image-others a ne = update-others filled_image (inode_lba ino) _ a ne

    final_image-IsNamed : IsNamed final_image name slot ino
    final_image-IsNamed =
        let t = table_block in
        let same : final_image root_dir_lba ≡ img root_dir_lba =
          final_image-others root_dir_lba (λ e. absurd (omega (arith, e, t)))
          ∙ filled_image-low root_dir_lba (omega arith)
          ∙ f.others root_dir_lba (λ e. absurd (omega (arith, e)))
              (λ e. absurd (omega (arith, e))) in
        record {
          size = file.named.size;
          valid = file.named.valid;
          found = ap (λ b. find_slot b name file.named.size dirent_count 0) same ∙ file.named.found;
          some_ino = file.named.some_ino;
          small_ino = file.named.small_ino;
        }

    final_image-Holds : Holds count_of 0 f.entries buf final_image
    final_image-Holds =
        let t = table_block in
        Holds-same count_of 0 f.entries buf filled_image final_image
          (λ j le lt.
            final_image-others (get_or f.entries j 0)
              (λ e. absurd (omega (arith, e, t, f.owned.from j (f.some_block j le lt)))))
          (written-Holds count_of 0 f.entries buf f.image
            (λ j k le lt e. f.owned.distinct j k (f.some_block j le lt) e))

    store_file-Gives :
        (s : S)
        → At ok peek s f.image
        → Gives ok peek (store_file dev ino (inode_of img ino) buf f.entries s) tt final_image
    unfolding store_file
    store_file-Gives s at =
        Gives-proceed ok peek _ _ _ _ _ _
          (write_blocks-Gives ok peek dev serves count_of 0 f.entries buf s f.image at
            (λ j le lt. f.owned.below j (f.some_block j le lt)))
          (λ s1 x.
            Gives-proceed ok peek _ _ _ _ _ _
              (write_inode-Gives ok peek dev serves s1 filled_image x ino new file.named.some_ino
                file.named.small_ino big)
              (λ s2 y. dev_flush-Gives ok peek dev serves s2 final_image y))

    read-Gives :
        (cap : ℕ) (s : S)
        → length buf ≤ cap
        → At ok peek s final_image
        → Gives ok peek
            (mcsfs1_read
              (record { dev = dev; block_count = dev.block_count; data_start = data_start_lba })
              name
              cap
              s)
            buf
            final_image
    unfolding mcsfs1_read
    read-Gives cap s room at =
        let t : ltb cap (length buf) ≡ false = ground arith in
        let le = blocks_for-le in
        Gives-proceed ok peek _ _ _ _ _ _
          (find_file-Gives ok peek dev serves big final_image name slot ino new s
            final_image-IsNamed final_image-inode file.mode at)
          (λ s1 x. rw t (
            read_blocks-Gives ok peek dev serves (blocks_for (length buf)) 0 f.entries buf s1
              final_image x (λ j a b. f.owned.below j (f.some_block j a (omega (arith, le, b))))
              (λ j a b. f.some_block j a (omega (arith, le, b)))
              (Holds-fewer (blocks_for (length buf)) count_of 0 f.entries buf final_image le
                final_image-Holds)
              enough))

  -- On a device of 16 to 4096 blocks that serves them, for a name that is that of a file with data
  -- blocks of its own, marked in a whole bitmap, and an inode in a whole block: mcsfs1_write of at
  -- most 4096 bytes answers MCSFS1_ERR_NOSPC, or it succeeds, and then mcsfs1_read of the name into a
  -- buffer that has room for them succeeds with these bytes.
  pub mcsfs1_write-mcsfs1_read :
      (s : S) (cap : ℕ)
      → At ok peek s img
      → length buf ≤ cap
      → NoSpace (mcsfs1_write dev name buf s)
        ⊎ ReadBack ok peek
            ((mcsfs1_write dev name buf
                >> mcsfs1_read
                    (record {
                      dev = dev;
                      block_count = dev.block_count;
                      data_start = data_start_lba;
                    })
                    name
                    cap)
              s)
            buf
  unfolding mcsfs1_write write_file
  mcsfs1_write-mcsfs1_read s cap at room =
      let t : ltb (direct_blocks * block_size) (length buf) ≡ false = ground arith in
      let found =
        find_file-Gives ok peek dev serves big img name slot ino (inode_of img ino) s file.named
          refl file.mode at in
      let go : ℕ × ℕ × InodeDisk → S → Outcome FsError S (Unit {0}) = write_file dev buf in
      let store : List ℕ → S → Outcome FsError S (Unit {0}) =
        store_file dev ino (inode_of img ino) buf in
      let now = ap (λ o. proceed o go) found.is in
      elim (alloc_missing-Filled ok peek dev serves big small count_of 0 (inode_of img ino).direct
        found.after_it img found.at file.owned file.whole_bmap
        (omega (arith, few, file.fits.eight))) [
          | inl x ↦ inl (record { left = x.left; is = rw t (now ∙ ap (λ o. proceed o store) x.is) })
          | inr f ↦
              let wrote =
                Gives-proceed ok peek _ store f.entries tt f.image (final_image _ f) f.gives
                  (store_file-Gives _ f) in
              let all : Gives ok peek (mcsfs1_write dev name buf s) tt (final_image _ f) =
                rw t (record { after_it = wrote.after_it; is = now ∙ wrote.is; at = wrote.at }) in
              inr (record {
                image = final_image _ f;
                gives =
                    Gives-proceed ok peek _ _ tt buf (final_image _ f) (final_image _ f) all
                      (λ s' x. read-Gives _ f cap s' room x);
              })
        ]
