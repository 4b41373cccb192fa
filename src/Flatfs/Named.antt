-- ===== src/Flatfs/Named.antt =====
-- Names and files of an image, and what find_dirent finds.
use acep_reja_mcsos.Flatfs.Layout.{InodeDisk}
use acep_reja_mcsos.Flatfs.Files.{find_file}
use acep_reja_mcsos.Flatfs.Served.{
  Serves, At, Gives, Gives-proceed, dev_read-Gives, Gives-value, read_inode-Gives, Gives-pure,
}
use acep_reja_mcsos.Flatfs.Owned.{Owned}
use acep_reja_mcsos.Flatfs.Tables.{find_slot, inode_lba, find_dirent, find_valid, found_or}
use acep_reja_mcsos.Flatfs.{
  Blkdev, valid_name, mode_file, root_dir_lba, block_bmap_lba, block_size, min_blocks, dirent_count,
  max_inodes,
}
use acep_reja_mcsos.Flatfs.Bytes.{FitsWords}
use acep_reja_mcsos.Flatfs.Inodes.{FitsInode, inode_of}
use acep_reja_mcsos.Common.{
  ℕ, suc, ◌*◌, ◌^◌, ◌≤◌, ◌<◌, ◌≡◌, ap, ◌∙◌, ◌≢◌, inl, inr, true, some, List, [], ◌∷◌, arith, ◌==◌,
  ==_iff, Bool-cases, length, get_or, value,
}

-- The name is in the directory, for an inode.
pub record IsNamed (img : ℕ → List ℕ) (name : List ℕ) (slot ino : ℕ) : Type 0 where
  pub size : ℕ
  pub valid : valid_name name ≡ value size
  pub found : find_slot (img root_dir_lba) name size dirent_count 0 ≡ some (slot, ino)
  pub some_ino : 0 < ino
  pub small_ino : ino ≤ max_inodes

-- The name is that of a file, whose blocks are its own.
pub record IsFile (count : ℕ) (img : ℕ → List ℕ) (name : List ℕ) (slot ino : ℕ) : Type 0 where
  pub named : IsNamed img name slot ino
  pub fits : FitsInode (inode_of img ino)
  pub mode : (inode_of img ino).mode ≡ mode_file
  pub owned : Owned count (img block_bmap_lba) (inode_of img ino).direct
  pub whole_table : length (img (inode_lba ino)) ≡ block_size
  pub whole_bmap : length (img block_bmap_lba) ≡ block_size

FitsWords-all : (ds : List ℕ) → ((i : ℕ) → get_or ds i 0 < 2 ^ 32) → FitsWords ds
FitsWords-all [] lt = tt
FitsWords-all (d ∷ ds) lt = (lt 0, FitsWords-all ds (λ i. lt (suc i)))

pub Owned-FitsWords :
    (count : ℕ) (bb direct : List ℕ)
    → count ≤ block_size * 8
    → Owned count bb direct
    → FitsWords direct
Owned-FitsWords count bb direct small o = FitsWords-all direct (λ i.
    elim (Bool-cases (get_or direct i 0 == 0)) [
      | inl z ↦
          let e : get_or direct i 0 ≡ 0 = (==_iff (get_or direct i 0) 0).0 z in omega (arith, e)
      | inr n ↦ let ne : get_or direct i 0 ≢ 0 = ground arith in omega (arith, small, o.below i ne)
    ])

module _ {S : Type 0} (ok : S → Type 0) (peek : S → ℕ → List ℕ) (dev : Blkdev S)
    (serves : Serves ok peek dev) (big : min_blocks ≤ dev.block_count) where
  find_dirent-Gives :
      (img : ℕ → List ℕ) (name : List ℕ) (slot ino : ℕ) (s : S)
      → IsNamed img name slot ino
      → At ok peek s img
      → Gives ok peek (find_dirent dev name s) (slot, ino) img
  unfolding find_dirent find_valid found_or
  find_dirent-Gives img name slot ino s x at =
      let look : (s' : S)
          → At ok peek s' img
          → Gives ok peek
              (found_or dev (find_slot (img root_dir_lba) name x.size dirent_count 0) s')
              (slot, ino) img =
        λ s' y. record { after_it = s'; is = ap (λ o. found_or dev o s') x.found; at = y } in
      let g =
        Gives-proceed ok peek _ _ (img root_dir_lba) (slot, ino) img img
          (dev_read-Gives ok peek dev serves s img at root_dir_lba (omega arith)) look in
      record {
        after_it = g.after_it;
        is = ap (λ v. find_valid dev name v s) x.valid ∙ g.is;
        at = g.at;
      }

  pub find_file-Gives :
      (img : ℕ → List ℕ) (name : List ℕ) (slot ino : ℕ) (inode : InodeDisk) (s : S)
      → IsNamed img name slot ino
      → inode_of img ino ≡ inode
      → inode.mode ≡ mode_file
      → At ok peek s img
      → Gives ok peek (find_file dev name s) (slot, ino, inode) img
  unfolding find_file
  find_file-Gives img name slot ino inode s x is mode at =
      let t : (inode.mode == mode_file) ≡ true = (==_iff inode.mode mode_file).1 mode in
      Gives-proceed ok peek _ _ (slot, ino) _ img img (find_dirent-Gives img name slot ino s x at)
        (λ s' y.
          Gives-proceed ok peek _ _ inode _ img img
            (Gives-value ok peek _ _ inode img
              (read_inode-Gives ok peek dev serves s' img y ino x.some_ino x.small_ino big) is)
            (λ s2 z. rw t (Gives-pure ok peek (slot, ino, inode) s2 img z)))
