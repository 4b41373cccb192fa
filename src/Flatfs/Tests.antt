-- ===== src/Flatfs/Tests.antt =====
-- Examples on a device of 16 blocks that never fails.
use acep_reja_mcsos.Flatfs.Named.{IsFile, IsNamed}
use acep_reja_mcsos.Journal.Layout.{le, of_le}
use acep_reja_mcsos.Flatfs.ReadBack.{ReadBack, mcsfs1_write-mcsfs1_read}
use acep_reja_mcsos.Flatfs.Fresh.{new_image, mcsfs1_format-mounts}
use acep_reja_mcsos.Flatfs.Inodes.{FitsInode, inode_of, with_inode, write_inode-read_inode}
use acep_reja_mcsos.Flatfs.Alloc.{NoSpace}
use acep_reja_mcsos.Bitmap.{bit_test, byte_test, bit_set, byte_set}
use acep_reja_mcsos.Flatfs.Owned.{Owned}
use acep_reja_mcsos.Flatfs.Served.{At, Serves, Gives}
use acep_reja_mcsos.Flatfs.Layout.{
  inode_bytes, inode_at, InodeDisk, splice, dirent_bytes, words, of_words, super_bytes, zero_inode,
}
use acep_reja_mcsos.Flatfs.{
  valid_name, FsError, dev_write, Blkdev, ◌>>◌, dev_read, strlen_bound, dev_flush, has_slash,
  same_bytes, noent,
}
use acep_reja_mcsos.Common.{
  ℕ, zero, suc, ◌≤◌, ◌<◌, ◌≡◌, refl, ap, ◌≢◌, ◌⊎◌, true, Option, none, some, List, [], ◌∷◌, ◌++◌,
  arith, ◌==◌, if◌then◌else◌, update, get_or, replicate, get_or-replicate, Outcome, done, fail,
}
use acep_reja_mcsos.Flatfs.Files.{
  mcsfs1_create, mcsfs1_write, create_unless, create_new, find_file, mcsfs1_read,
}
use acep_reja_mcsos.Flatfs.Calls.{
  free_slot, mcsfs1_format, zero_from, mcsfs1_mount, new_super, mcsfs1_fsck, new_inode_bmap,
  new_block_bmap, set_below, new_root, new_inode,
}
use acep_reja_mcsos.Flatfs.Tables.{
  alloc_inode_block, find_valid, found_or, write_inode, read_inode, find_slot, store_bmaps,
  load_bmaps, first_clear, find_dirent,
}

abbrev Image : Type 0
Image = ℕ → List ℕ

abbrev ram : Blkdev Image
ram = record {
  block_count = 16;
  read = λ lba s. done (s lba) s;
  write = λ lba b s. done tt (update s lba b);
  flush = λ s. done tt s;
}

abbrev unset : Image
unset = λ lba. replicate 512 0

abbrev Always : Image → Type 0
Always s = Unit {0}

abbrev shown : Image → ℕ → List ℕ
shown s = s

ram-Serves : Serves Always shown ram
ram-Serves = record {
  reads = λ lba s r lt. refl;
  writes = λ lba b s r lt. record {
    left = update s lba b;
    result = refl;
    still_ok = tt;
    holds = λ a. refl;
  };
  flushes = λ s r. record { left = s; result = refl; still_ok = tt; holds = λ a. refl };
}

unset-At : At Always shown unset unset
unset-At = record { ready = tt; shows = λ lba. refl }

mcsfs1_format-mounts_example :
    Gives Always shown
      ((mcsfs1_format ram >> mcsfs1_mount ram) unset)
      (record { dev = ram; block_count = 16; data_start = 8 })
      (new_image 16 unset)
    × Gives Always shown ((mcsfs1_format ram >> mcsfs1_fsck ram) unset) tt (new_image 16 unset)
mcsfs1_format-mounts_example =
    mcsfs1_format-mounts Always shown ram ram-Serves unset unset unset-At (omega arith)
      (omega arith)

abbrev some_inode : InodeDisk
some_inode = record {
  mode = 1;
  links = 1;
  size = 700;
  direct = 9 ∷ 10 ∷ replicate 6 0;
  reserved = replicate 20 0;
}

some_inode-FitsInode : FitsInode some_inode
some_inode-FitsInode = record {
  mode = omega arith;
  links = omega arith;
  size = omega arith;
  direct = (
    omega arith,
    (
      omega arith,
      (omega arith, (omega arith, (omega arith, (omega arith, (omega arith, (omega arith, tt)))))),
    ),
  );
  eight = refl;
  reserved = refl;
}

write_inode-read_inode_example :
    Gives Always shown
      ((write_inode ram 12 some_inode >> read_inode ram 13) unset)
      (inode_of unset 13)
      (with_inode unset 12 some_inode)
write_inode-read_inode_example =
    write_inode-read_inode Always shown ram ram-Serves unset unset unset-At (omega arith) 12
      some_inode (omega arith) (omega arith) some_inode-FitsInode refl 13 (omega arith)
      (omega arith)

abbrev name_a : List ℕ
name_a = 97 ∷ []

-- A name of 27 bytes, the longest that is valid.
abbrev long_name : List ℕ
long_name = replicate 27 97

abbrev error_of : {A : Type 0} → Outcome FsError Image A → Option FsError
error_of (done a s) = none
error_of (fail e s) = some e

-- A write to a file with such a name fails once the directory has an entry after it.
long_name_test :
    error_of (
      (mcsfs1_format ram
          >> (mcsfs1_create ram long_name
              >> (mcsfs1_create ram name_a >> mcsfs1_write ram long_name [])))
        unset)
    ≡ some noent
unfolding mcsfs1_format zero_from dev_write dev_read dev_flush super_bytes new_super words le of_le
    of_words store_bmaps load_bmaps new_inode_bmap new_block_bmap set_below write_inode read_inode
    new_root zero_inode inode_bytes inode_at bit_set bit_test byte_set byte_test mcsfs1_create
    create_unless create_new free_slot alloc_inode_block first_clear new_inode dirent_bytes
    find_dirent find_slot valid_name strlen_bound has_slash same_bytes mcsfs1_write find_file
    find_valid found_or
long_name_test = refl

-- One file, of inode 2 and block 8.
abbrev one_direct : List ℕ
one_direct = 8 ∷ replicate 7 0

abbrev one_bmap : List ℕ
one_bmap = 255 ∷ 1 ∷ replicate 510 0

abbrev one_inode : InodeDisk
one_inode = record { mode = 1; links = 1; size = 0; direct = one_direct; reserved = replicate 20 0 }

abbrev one_file : Image
one_file = λ lba.
    if lba == 2
    then one_bmap
    else if lba == 3
    then splice (replicate 512 0) 60 (inode_bytes one_inode)
    else if lba == 7
    then dirent_bytes 2 1 name_a ++ replicate 480 0
    else replicate 512 0

one_direct-past : (i : ℕ) → get_or one_direct (suc i) 0 ≡ 0
one_direct-past i = get_or-replicate 7 i

one_from : (i : ℕ) → get_or one_direct i 0 ≢ 0 → 8 ≤ get_or one_direct i 0
one_from zero ne = omega arith
one_from (suc i) ne = absurd (ne (one_direct-past i))

one_below : (i : ℕ) → get_or one_direct i 0 ≢ 0 → get_or one_direct i 0 < 16
one_below zero ne = omega arith
one_below (suc i) ne = absurd (ne (one_direct-past i))

one_marked : (i : ℕ) → get_or one_direct i 0 ≢ 0 → bit_test one_bmap (get_or one_direct i 0) ≡ true
unfolding bit_test byte_test
one_marked zero ne = refl
one_marked (suc i) ne = absurd (ne (one_direct-past i))

one_distinct :
    (i j : ℕ) → get_or one_direct i 0 ≢ 0 → get_or one_direct i 0 ≡ get_or one_direct j 0 → i ≡ j
one_distinct (suc i) j ne e = absurd (ne (one_direct-past i))
one_distinct zero zero ne e = refl
one_distinct zero (suc j) ne e = absurd (omega (arith, e, one_direct-past j))

one_direct-Owned : Owned 16 one_bmap one_direct
one_direct-Owned = record {
  from = one_from;
  below = one_below;
  marked = one_marked;
  distinct = one_distinct;
}

one_file-inode : inode_of one_file 2 ≡ one_inode
unfolding inode_at inode_bytes words of_words le of_le
one_file-inode = refl

one_file-IsNamed : IsNamed one_file name_a 0 2
unfolding valid_name strlen_bound has_slash find_slot same_bytes dirent_bytes le of_le
one_file-IsNamed = record {
  size = 1;
  valid = refl;
  found = refl;
  some_ino = omega arith;
  small_ino = omega arith;
}

one_inode-FitsInode : FitsInode one_inode
one_inode-FitsInode = record {
  mode = omega arith;
  links = omega arith;
  size = omega arith;
  direct = (
    omega arith,
    (
      omega arith,
      (omega arith, (omega arith, (omega arith, (omega arith, (omega arith, (omega arith, tt)))))),
    ),
  );
  eight = refl;
  reserved = refl;
}

one_file-IsFile : IsFile 16 one_file name_a 0 2
unfolding inode_bytes words le
one_file-IsFile = record {
  named = one_file-IsNamed;
  fits = coe 1 0 (i. FitsInode (one_file-inode i)) one_inode-FitsInode;
  mode = ap (λ x. x.mode) one_file-inode;
  owned = coe 1 0 (i. Owned 16 one_bmap (one_file-inode i).direct) one_direct-Owned;
  whole_table = refl;
  whole_bmap = refl;
}

one_file-At : At Always shown one_file one_file
one_file-At = record { ready = tt; shows = λ lba. refl }

mcsfs1_write-mcsfs1_read_example :
    NoSpace (mcsfs1_write ram name_a (replicate 700 5) one_file)
    ⊎ ReadBack Always shown
        ((mcsfs1_write ram name_a (replicate 700 5)
            >> mcsfs1_read (record { dev = ram; block_count = 16; data_start = 8 }) name_a 1000)
          one_file)
        (replicate 700 5)
mcsfs1_write-mcsfs1_read_example =
    mcsfs1_write-mcsfs1_read Always shown ram ram-Serves (omega arith) (omega arith) one_file name_a
      0 2 one_file-IsFile (replicate 700 5) (omega arith) one_file 1000 one_file-At (omega arith)
