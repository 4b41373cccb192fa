-- ===== src/Flatfs/Writes.antt =====
-- The writes of mcsfs1_format: the blocks zeroed, and the bitmaps.
use acep_reja_mcsos.Flatfs.Tables.{load_bmaps, store_bmaps}
use acep_reja_mcsos.Flatfs.Served.{
  Serves, At, Gives, Gives-pure, Gives-proceed, dev_write-Gives, dev_read-Gives,
}
use acep_reja_mcsos.Flatfs.{Blkdev, min_blocks, inode_bmap_lba, block_bmap_lba}
use acep_reja_mcsos.Flatfs.Calls.{zero_block, zero_from}
use acep_reja_mcsos.Common.{
  ℕ, zero, suc, ◌+◌, ◌≤◌, ◌<◌, ◌≡◌, refl, ◌∙◌, ◌≢◌, inl, inr, List, arith, ◌==◌, ==_iff, Bool-cases,
  update,
}

-- The image with `n` blocks zeroed from `lba` on.
pub zeroed : ℕ → ℕ → (ℕ → List ℕ) → ℕ → List ℕ
zeroed zero lba img = img
zeroed (suc n) lba img = zeroed n (lba + 1) (update img lba zero_block)

zeroed-below : (n lba : ℕ) (img : ℕ → List ℕ) (a : ℕ) → a < lba → zeroed n lba img a ≡ img a
unfolding zeroed
zeroed-below zero lba img a lt = refl
zeroed-below (suc n) lba img a lt =
    zeroed-below n (lba + 1) (update img lba zero_block) a (omega arith) ∙ ground arith

pub zeroed-inside :
    (n lba : ℕ) (img : ℕ → List ℕ) (a : ℕ) → lba ≤ a → a < lba + n → zeroed n lba img a ≡ zero_block
unfolding zeroed
zeroed-inside zero lba img a le lt = absurd (omega arith)
zeroed-inside (suc n) lba img a le lt = elim (Bool-cases (lba == a)) [
  | inl e ↦
      let is : lba ≡ a = (==_iff lba a).0 e in
      zeroed-below n (lba + 1) (update img lba zero_block) a (omega (arith, is)) ∙ rw e refl
  | inr e ↦
      let ne : lba ≢ a = ground arith in
      zeroed-inside n (lba + 1) (update img lba zero_block) a (omega (arith, ne)) (omega arith)
]

module _ {S : Type 0} (ok : S → Type 0) (peek : S → ℕ → List ℕ) (dev : Blkdev S)
    (serves : Serves ok peek dev) where
  pub zero_from-Gives :
      (n lba : ℕ) (s : S) (img : ℕ → List ℕ)
      → At ok peek s img
      → lba + n ≤ dev.block_count
      → Gives ok peek (zero_from dev n lba s) tt (zeroed n lba img)
  unfolding zero_from zeroed
  zero_from-Gives zero lba s img at le = Gives-pure ok peek tt s img at
  zero_from-Gives (suc n) lba s img at le =
      Gives-proceed ok peek _ _ _ _ _ _
        (dev_write-Gives ok peek dev serves s img at lba zero_block (omega arith))
        (λ s' x. zero_from-Gives n (lba + 1) s' (update img lba zero_block) x (omega arith))

  module _ (s : S) (img : ℕ → List ℕ) (at : At ok peek s img) where
    pub load_bmaps-Gives :
        min_blocks ≤ dev.block_count
        → Gives ok peek (load_bmaps dev s) (img inode_bmap_lba, img block_bmap_lba) img
    unfolding load_bmaps
    load_bmaps-Gives big =
        Gives-proceed ok peek _ _ _ _ _ _
          (dev_read-Gives ok peek dev serves s img at inode_bmap_lba (omega arith))
          (λ s' x.
            Gives-proceed ok peek _ _ _ _ _ _
              (dev_read-Gives ok peek dev serves s' img x block_bmap_lba (omega arith))
              (λ s2 y. Gives-pure ok peek _ s2 img y))

    pub store_bmaps-Gives :
        (ib bb : List ℕ)
        → min_blocks ≤ dev.block_count
        → Gives ok peek
            (store_bmaps dev ib bb s)
            tt
            (update (update img inode_bmap_lba ib) block_bmap_lba bb)
    unfolding store_bmaps
    store_bmaps-Gives ib bb big =
        Gives-proceed ok peek _ _ _ _ _ _
          (dev_write-Gives ok peek dev serves s img at inode_bmap_lba ib (omega arith))
          (λ s' x.
            dev_write-Gives ok peek dev serves s' (update img inode_bmap_lba ib) x block_bmap_lba bb
              (omega arith))
