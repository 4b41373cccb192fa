-- ===== src/Flatfs/Served.antt =====
-- A device that serves its blocks, and what calls on it give.
use acep_reja_mcsos.Flatfs.Layout.{inode_at, InodeDisk, splice, inode_bytes}
use acep_reja_mcsos.Flatfs.Tables.{read_inode, inode_off, inode_lba, write_inode}
use acep_reja_mcsos.Flatfs.{
  FsError, Blkdev, dev_read, dev_write, dev_flush, answer, max_inodes, min_blocks, data_start_lba,
  ◌>>=◌,
}
use acep_reja_mcsos.Common.{
  ℕ, ◌≤◌, ◌<◌, ◌≡◌, refl, ap, ◌∙◌, false, List, arith, ltb, leb, ◌==◌, if◌then◌else◌, update, drop,
  Outcome, done, proceed,
}

-- What a write leaves.
pub record Written {S : Type 0} (ok : S → Type 0) (peek : S → ℕ → List ℕ)
    (o : Outcome (Unit {0}) S (Unit {0})) (img : ℕ → List ℕ) : Type 0 where
  pub left : S
  pub result : o ≡ done tt left
  pub still_ok : ok left
  pub holds : (a : ℕ) → peek left a ≡ img a

-- What is asked of a driver: in a state that is `ok`, a read returns what the block holds, `peek`, a
-- write changes the block and no other, and a flush changes none.
pub record Serves {S : Type 0} (ok : S → Type 0) (peek : S → ℕ → List ℕ) (dev : Blkdev S)
    : Type 0 where
  pub reads :
      (lba : ℕ) (s : S) → ok s → lba < dev.block_count → dev.read lba s ≡ done (peek s lba) s
  pub writes :
      (lba : ℕ) (b : List ℕ) (s : S)
      → ok s
      → lba < dev.block_count
      → Written ok peek (dev.write lba b s) (update (peek s) lba b)
  pub flushes : (s : S) → ok s → Written ok peek (dev.flush s) (peek s)

-- The state shows the image.
pub record At {S : Type 0} (ok : S → Type 0) (peek : S → ℕ → List ℕ) (s : S) (img : ℕ → List ℕ)
    : Type 0 where
  pub ready : ok s
  pub shows : (lba : ℕ) → peek s lba ≡ img lba

-- The call succeeds with `a`, and the device shows `img` after it.
pub record Gives {S A : Type 0} (ok : S → Type 0) (peek : S → ℕ → List ℕ) (o : Outcome FsError S A)
    (a : A) (img : ℕ → List ℕ) : Type 0 where
  pub after_it : S
  pub is : o ≡ done a after_it
  pub at : At ok peek after_it img

module _ {S : Type 0} (ok : S → Type 0) (peek : S → ℕ → List ℕ) where
  pub Gives-pure :
      {A : Type 0} (a : A) (s : S) (img : ℕ → List ℕ)
      → At ok peek s img
      → Gives ok peek (done a s) a img
  Gives-pure a s img x = record { after_it = s; is = refl; at = x }

  pub Gives-value :
      {A : Type 0} (o : Outcome FsError S A) (a b : A) (img : ℕ → List ℕ)
      → Gives ok peek o a img
      → a ≡ b
      → Gives ok peek o b img
  Gives-value o a b img x e = record {
    after_it = x.after_it;
    is = x.is ∙ ap (λ v. done v x.after_it) e;
    at = x.at;
  }

  pub Gives-proceed :
      {A B : Type 0} (m : Outcome FsError S A) (f : A → S → Outcome FsError S B) (a : A) (b : B)
      (img img' : ℕ → List ℕ)
      → Gives ok peek m a img
      → ((s : S) → At ok peek s img → Gives ok peek (f a s) b img')
      → Gives ok peek (proceed m f) b img'
  Gives-proceed m f a b img img' x go =
      let y = go x.after_it x.at in
      record { after_it = y.after_it; is = ap (λ o. proceed o f) x.is ∙ y.is; at = y.at }

  module _ (dev : Blkdev S) (serves : Serves ok peek dev) (s : S) (img : ℕ → List ℕ)
      (at : At ok peek s img) where
    pub dev_read-Gives :
        (lba : ℕ) → lba < dev.block_count → Gives ok peek (dev_read dev lba s) (img lba) img
    unfolding dev_read
    dev_read-Gives lba lt =
        let t : leb dev.block_count lba ≡ false = ground arith in
        record {
          after_it = s;
          is =
              rw t (ap answer (serves.reads lba s at.ready lt) ∙ ap (λ b. done b s) (at.shows lba));
          at = at;
        }

    pub dev_write-Gives :
        (lba : ℕ) (b : List ℕ)
        → lba < dev.block_count
        → Gives ok peek (dev_write dev lba b s) tt (update img lba b)
    unfolding dev_write
    dev_write-Gives lba b lt =
        let t : leb dev.block_count lba ≡ false = ground arith in
        let w = serves.writes lba b s at.ready lt in
        record {
          after_it = w.left;
          is = rw t (ap answer w.result);
          at = record {
            ready = w.still_ok;
            shows = λ a. w.holds a ∙ ap (λ x. if lba == a then b else x) (at.shows a);
          };
        }

    pub dev_flush-Gives : Gives ok peek (dev_flush dev s) tt img
    unfolding dev_flush
    dev_flush-Gives =
        let w = serves.flushes s at.ready in
        record {
          after_it = w.left;
          is = ap answer w.result;
          at = record { ready = w.still_ok; shows = λ a. w.holds a ∙ at.shows a };
        }

  -- A block is read, and written as `f` makes it.
  pub update_block-Gives :
      (dev : Blkdev S) (serves : Serves ok peek dev) (s : S) (img : ℕ → List ℕ) (lba : ℕ)
      (f : List ℕ → List ℕ)
      → At ok peek s img
      → lba < dev.block_count
      → Gives ok peek
          ((dev_read dev lba >>= λ b. dev_write dev lba (f b)) s)
          tt
          (update img lba (f (img lba)))
  update_block-Gives dev serves s img lba f at lt =
      Gives-proceed _ _ _ _ _ _ (dev_read-Gives dev serves s img at lba lt)
        (λ s' x. dev_write-Gives dev serves s' img x lba (f (img lba)) lt)

  module _ (dev : Blkdev S) (serves : Serves ok peek dev) (s : S) (img : ℕ → List ℕ)
      (at : At ok peek s img) where
    -- The block of an inode.
    pub read_inode-Gives :
        (ino : ℕ)
        → 0 < ino
        → ino ≤ max_inodes
        → min_blocks ≤ dev.block_count
        → Gives ok peek
            (read_inode dev ino s)
            (inode_at (drop (inode_off ino) (img (inode_lba ino))))
            img
    unfolding read_inode
    read_inode-Gives ino pos_ino le big =
        let t1 : (ino == 0) ≡ false = ground arith in
        let t2 : ltb max_inodes ino ≡ false = ground arith in
        let t3 : leb data_start_lba (inode_lba ino) ≡ false = ground arith in
        rw (t1, t2, t3)
          (Gives-proceed _ _ _ _ _ _
            (dev_read-Gives dev serves s img at (inode_lba ino) (omega arith))
            (λ s' x. Gives-pure (inode_at (drop (inode_off ino) (img (inode_lba ino)))) s' img x))

    -- A block with the inode put in.
    pub write_inode-Gives :
        (ino : ℕ) (inode : InodeDisk)
        → 0 < ino
        → ino ≤ max_inodes
        → min_blocks ≤ dev.block_count
        → Gives ok peek (write_inode dev ino inode s) tt (
            update img
              (inode_lba ino)
              (splice (img (inode_lba ino)) (inode_off ino) (inode_bytes inode)))
    unfolding write_inode
    write_inode-Gives ino inode pos_ino le big =
        let t1 : (ino == 0) ≡ false = ground arith in
        let t2 : ltb max_inodes ino ≡ false = ground arith in
        let t3 : leb data_start_lba (inode_lba ino) ≡ false = ground arith in
        rw (t1, t2, t3)
          (update_block-Gives dev serves s img (inode_lba ino)
            (λ b. splice b (inode_off ino) (inode_bytes inode)) at (omega arith))
