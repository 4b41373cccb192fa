-- ===== src/Flatfs/Alloc.antt =====
-- The blocks of a file that mcsfs1_write takes.
use acep_reja_mcsos.Flatfs.Writes.{load_bmaps-Gives, store_bmaps-Gives}
use acep_reja_mcsos.Bitmap.Tables.{length-bit_set}
use acep_reja_mcsos.Flatfs.Owned.{Owned, Owned-set, first_clear-FoundBit}
use acep_reja_mcsos.Flatfs.Files.{alloc_missing}
use acep_reja_mcsos.Flatfs.Tables.{alloc_data_block, take_data_block, first_clear}
use acep_reja_mcsos.Bitmap.{bit_test, bit_set}
use acep_reja_mcsos.Flatfs.Served.{Serves, Gives, At, Gives-pure, Gives-proceed}
use acep_reja_mcsos.Common.{
  ℕ, zero, suc, ◌+◌, ◌-◌, ◌*◌, ◌≤◌, ◌<◌, ◌≡◌, refl, sym, ap, ◌∙◌, ◌≢◌, ◌⊎◌, inl, inr, false, List,
  arith, ◌==◌, ==_iff, Bool-cases, Option-cases, update, length, get_or, set, length-set,
  get_or-set_self, get_or-set_ne, proceed, Outcome, fail,
}
use acep_reja_mcsos.Flatfs.{
  data_start_lba, FsError, Blkdev, inode_bmap_lba, nospc, block_bmap_lba, min_blocks, block_size,
  pure,
}

-- No block is free.
pub record NoSpace {S A : Type 0} (r : Outcome FsError S A) : Type 0 where
  pub left : S
  pub is : r ≡ fail nospc left

-- What a successful `alloc_data_block` has done.
record Taken {S : Type 0} (ok : S → Type 0) (peek : S → ℕ → List ℕ) (dev : Blkdev S)
    (img : ℕ → List ℕ) (r : Outcome FsError S ℕ) : Type 0 where
  lba : ℕ
  from : data_start_lba ≤ lba
  below : lba < dev.block_count
  clear : bit_test (img block_bmap_lba) lba ≡ false
  gives : Gives ok peek r lba (
      update
        (update img inode_bmap_lba (img inode_bmap_lba))
        block_bmap_lba
        (bit_set (img block_bmap_lba) lba))

module _ {S : Type 0} (ok : S → Type 0) (peek : S → ℕ → List ℕ) (dev : Blkdev S)
    (serves : Serves ok peek dev) (big : min_blocks ≤ dev.block_count) where
  alloc_data_block-Taken :
      (s : S) (img : ℕ → List ℕ)
      → At ok peek s img
      → NoSpace (alloc_data_block dev s) ⊎ Taken ok peek dev img (alloc_data_block dev s)
  unfolding alloc_data_block take_data_block
  alloc_data_block-Taken s img at =
      let l = load_bmaps-Gives ok peek dev serves s img at big in
      let n = dev.block_count - data_start_lba in
      let take : List ℕ × List ℕ → S → Outcome FsError S ℕ =
        λ b. take_data_block dev b.0 b.1 (first_clear b.1 n data_start_lba) in
      elim (Option-cases (first_clear (img block_bmap_lba) n data_start_lba)) [
        | inl e ↦ inl (record {
          left = l.after_it;
          is =
              ap (λ o. proceed o take) l.is
              ∙ ap (λ x. take_data_block dev (img inode_bmap_lba) (img block_bmap_lba) x l.after_it)
                  e;
        })
        | inr (lba, e) ↦
            let x = first_clear-FoundBit (img block_bmap_lba) n data_start_lba lba e in
            inr (record {
              lba = lba;
              from = x.from;
              below = omega (arith, x.below);
              clear = x.clear;
              gives = Gives-proceed ok peek _ take _ lba img _ l (λ s' y.
                  let g =
                    Gives-proceed ok peek _ (λ _. pure lba) tt lba _ _
                      (store_bmaps-Gives ok peek dev serves s' img y (img inode_bmap_lba)
                        (bit_set (img block_bmap_lba) lba) big)
                      (λ s2 z. Gives-pure ok peek lba s2 _ z) in
                  record {
                    after_it = g.after_it;
                    is =
                        ap (λ o. take_data_block dev (img inode_bmap_lba) (img block_bmap_lba) o s')
                          e
                        ∙ g.is;
                    at = g.at;
                  });
            })
      ]

-- What `alloc_missing` of the entries from `i` to below `i + n` has done.
pub record Filled {S : Type 0} (ok : S → Type 0) (peek : S → ℕ → List ℕ) (count n i : ℕ)
    (direct : List ℕ) (img : ℕ → List ℕ) (r : Outcome FsError S (List ℕ)) : Type 0 where
  pub entries : List ℕ
  pub image : ℕ → List ℕ
  pub gives : Gives ok peek r entries image
  pub owned : Owned count (image block_bmap_lba) entries
  pub eight : length entries ≡ length direct
  pub some_block : (j : ℕ) → i ≤ j → j < i + n → get_or entries j 0 ≢ 0
  pub kept : (j : ℕ) → get_or direct j 0 ≢ 0 → get_or entries j 0 ≡ get_or direct j 0
  pub others : (a : ℕ) → a ≢ inode_bmap_lba → a ≢ block_bmap_lba → image a ≡ img a

two_updates :
    (img : ℕ → List ℕ) (b c : List ℕ) (a : ℕ)
    → a ≢ inode_bmap_lba
    → a ≢ block_bmap_lba
    → update (update img inode_bmap_lba b) block_bmap_lba c a ≡ img a
two_updates img b c a x y = ground arith

module _ {S : Type 0} (ok : S → Type 0) (peek : S → ℕ → List ℕ) (count n i : ℕ) (direct : List ℕ)
    (img : ℕ → List ℕ) where
  -- The entry `i` has a block.
  Filled-old :
      (r : Outcome FsError S (List ℕ))
      → get_or direct i 0 ≢ 0
      → Filled ok peek count n (i + 1) direct img r
      → Filled ok peek count (suc n) i direct img r
  Filled-old r ne x = record {
    entries = x.entries;
    image = x.image;
    gives = x.gives;
    owned = x.owned;
    eight = x.eight;
    some_block = λ j le lt. elim (Bool-cases (j == i)) [
      | inl e ↦
          let is : j ≡ i = (==_iff j i).0 e in
          λ z. ne (sym (x.kept i ne) ∙ ap (λ k. get_or x.entries k 0) (sym is) ∙ z)
      | inr e ↦
          let away : j ≢ i = ground arith in x.some_block j (omega (arith, away)) (omega arith)
    ];
    kept = x.kept;
    others = x.others;
  }

  -- The entry `i` gets the block `lba`.
  Filled-new :
      (r r' : Outcome FsError S (List ℕ)) (lba : ℕ) (ib bb : List ℕ)
      → r ≡ r'
      → get_or direct i 0 ≡ 0
      → i < length direct
      → 0 < lba
      → Filled ok peek count n
          (i + 1)
          (set direct i lba)
          (update (update img inode_bmap_lba ib) block_bmap_lba bb)
          r'
      → Filled ok peek count (suc n) i direct img r
  Filled-new r r' lba ib bb same empty inside pos_lba x =
      let put : get_or (set direct i lba) i 0 ≡ lba = get_or-set_self direct i lba 0 inside in
      let held : get_or x.entries i 0 ≡ lba =
        x.kept i (λ z. absurd (omega (arith, z, put, pos_lba))) ∙ put in
      record {
        entries = x.entries;
        image = x.image;
        gives = record { after_it = x.gives.after_it; is = same ∙ x.gives.is; at = x.gives.at };
        owned = x.owned;
        eight = x.eight ∙ length-set direct i lba;
        some_block = λ j le lt. elim (Bool-cases (j == i)) [
          | inl e ↦
              let is : j ≡ i = (==_iff j i).0 e in
              let at_j : get_or x.entries j 0 ≡ lba = ap (λ k. get_or x.entries k 0) is ∙ held in
              λ z. absurd (omega (arith, at_j, z, pos_lba))
          | inr e ↦
              let away : j ≢ i = ground arith in x.some_block j (omega (arith, away)) (omega arith)
        ];
        kept = λ j ne.
            let away : i ≢ j = λ e. ne (ap (λ k. get_or direct k 0) (sym e) ∙ empty) in
            let stays = get_or-set_ne direct i j lba 0 away in
            x.kept j (λ z. ne (sym stays ∙ z)) ∙ stays;
        others = λ a u v. x.others a u v ∙ two_updates img ib bb a u v;
      }

module _ {S : Type 0} (ok : S → Type 0) (peek : S → ℕ → List ℕ) (dev : Blkdev S)
    (serves : Serves ok peek dev) (big : min_blocks ≤ dev.block_count)
    (small : dev.block_count ≤ block_size * 8) where
  pub alloc_missing-Filled :
      (n i : ℕ) (direct : List ℕ) (s : S) (img : ℕ → List ℕ)
      → At ok peek s img
      → Owned dev.block_count (img block_bmap_lba) direct
      → length (img block_bmap_lba) ≡ block_size
      → i + n ≤ length direct
      → NoSpace (alloc_missing dev n i direct s)
        ⊎ Filled ok peek dev.block_count n i direct img (alloc_missing dev n i direct s)
  unfolding alloc_missing
  alloc_missing-Filled zero i direct s img at o whole fits = inr (record {
    entries = direct;
    image = img;
    gives = Gives-pure ok peek direct s img at;
    owned = o;
    eight = refl;
    some_block = λ j le lt. absurd (omega arith);
    kept = λ j ne. refl;
    others = λ a x y. refl;
  })
  alloc_missing-Filled (suc n) i direct s img at o whole fits =
      elim (Bool-cases (get_or direct i 0 == 0)) [
        | inr old ↦
            let ne : get_or direct i 0 ≢ 0 = ground arith in
            let rest = alloc_missing-Filled n (i + 1) direct s img at o whole (omega arith) in
            rw old (elim rest [
              | inl x ↦ inl x
              | inr x ↦ inr (Filled-old ok peek dev.block_count n i direct img _ ne x)
            ])
        | inl new ↦
            let empty : get_or direct i 0 ≡ 0 = (==_iff (get_or direct i 0) 0).0 new in
            let go : ℕ → S → Outcome FsError S (List ℕ) =
              λ lba. alloc_missing dev n (i + 1) (set direct i lba) in
            rw new (elim (alloc_data_block-Taken ok peek dev serves big s img at) [
              | inl x ↦ inl (record { left = x.left; is = ap (λ o. proceed o go) x.is })
              | inr t ↦
                  let g = t.gives in
                  let from = t.from in
                  let bb = bit_set (img block_bmap_lba) t.lba in
                  let now = ap (λ o. proceed o go) g.is in
                  let o' =
                    Owned-set dev.block_count (img block_bmap_lba) direct i t.lba o (omega arith)
                      from t.below (omega arith) t.clear in
                  elim (alloc_missing-Filled n (i + 1) (set direct i t.lba) g.after_it
                    (update (update img inode_bmap_lba (img inode_bmap_lba)) block_bmap_lba bb) g.at
                    o' (length-bit_set (img block_bmap_lba) t.lba ∙ whole)
                    (omega (arith, length-set direct i t.lba))) [
                      | inl x ↦ inl (record { left = x.left; is = now ∙ x.is })
                      | inr x ↦ inr (
                          Filled-new ok peek dev.block_count n i direct img _ _ t.lba
                            (img inode_bmap_lba) bb now empty (omega arith) (omega arith) x)
                    ]
            ])
      ]
