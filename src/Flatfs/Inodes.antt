-- ===== src/Flatfs/Inodes.antt =====
-- Inodes in their blocks: what is written is read back, and the others stay.
use acep_reja_mcsos.Journal.Layout.{le, of_le, of_le-le}
use acep_reja_mcsos.Flatfs.Served.{
  Serves, At, Gives, Gives-proceed, write_inode-Gives, read_inode-Gives,
}
use acep_reja_mcsos.Flatfs.Bytes.{
  drop-splice, FitsWords, of_le-take, length-words, drop-take, drop-append, of_words-take,
  of_words-words, take-take, splice-above, splice-below,
}
use acep_reja_mcsos.Flatfs.Tables.{inode_lba, inode_off, write_inode, read_inode}
use acep_reja_mcsos.Flatfs.Layout.{
  InodeDisk, inode_bytes, inode_at, inode_size, splice, words, of_words,
}
use acep_reja_mcsos.Flatfs.{Blkdev, block_size, direct_blocks, min_blocks, max_inodes, ◌>>◌}
use acep_reja_mcsos.Common.{
  ℕ, ◌-◌, ◌*◌, ◌%◌, ◌^◌, ◌≤◌, ◌<◌, ◌≡◌, refl, sym, ap, ◌∙◌, ◌≢◌, ◌⊎◌, inl, inr, true, false, List,
  ◌++◌, append_assoc, arith, ◌==◌, if◌then◌else◌, ==_iff, Bool-cases, update, length, take, drop,
  length-append, take-append_left, take-all, done,
}

-- The fields fit their widths.
pub record FitsInode (i : InodeDisk) : Type 0 where
  pub mode : i.mode < 2 ^ 16
  pub links : i.links < 2 ^ 16
  pub size : i.size < 2 ^ 32
  pub direct : FitsWords i.direct
  pub eight : length i.direct ≡ direct_blocks
  pub reserved : length i.reserved ≡ 20

InodeDisk-ext :
    (i j : InodeDisk)
    → i.mode ≡ j.mode
    → i.links ≡ j.links
    → i.size ≡ j.size
    → i.direct ≡ j.direct
    → i.reserved ≡ j.reserved
    → i ≡ j
InodeDisk-ext i j a b c d e =
    let make : ℕ → ℕ → ℕ → List ℕ → List ℕ → InodeDisk =
      λ m l s ds r. record { mode = m; links = l; size = s; direct = ds; reserved = r } in
    ap (λ x. make x i.links i.size i.direct i.reserved) a
    ∙ ap (λ x. make j.mode x i.size i.direct i.reserved) b
    ∙ ap (λ x. make j.mode j.links x i.direct i.reserved) c
    ∙ ap (λ x. make j.mode j.links j.size x i.reserved) d
    ∙ ap (λ x. make j.mode j.links j.size j.direct x) e

inode_at-inode_bytes :
    (i : InodeDisk) (rest : List ℕ) → FitsInode i → inode_at (inode_bytes i ++ rest) ≡ i
unfolding inode_at inode_bytes le
inode_at-inode_bytes i rest f =
    let tail : (words i.direct ++ i.reserved) ++ rest ≡ words i.direct ++ (i.reserved ++ rest) =
      append_assoc (words i.direct) i.reserved rest in
    let eight = f.eight in
    let long : length (words i.direct) ≡ 32 = length-words i.direct ∙ omega arith in
    let past : drop 32 (words i.direct ++ (i.reserved ++ rest)) ≡ i.reserved ++ rest =
      ap (λ n. drop n (words i.direct ++ (i.reserved ++ rest))) (sym long)
      ∙ drop-append (words i.direct) (i.reserved ++ rest) in
    InodeDisk-ext (inode_at (inode_bytes i ++ rest)) i (of_le-le 2 i.mode _ f.mode)
      (of_le-le 2 i.links _ f.links) (of_le-le 4 i.size _ f.size)
      (ap (of_words 8) tail
        ∙ ap (λ n. of_words n (words i.direct ++ (i.reserved ++ rest))) (sym eight)
        ∙ of_words-words i.direct (i.reserved ++ rest) f.direct)
      (ap (λ l. take 20 (drop 32 l)) tail
        ∙ ap (take 20) past
        ∙ take-append_left 20 i.reserved rest (omega (arith, f.reserved))
        ∙ take-all 20 i.reserved (omega (arith, f.reserved)))

-- An inode is its 60 bytes.
inode_at-take : (xs : List ℕ) → inode_at (take inode_size xs) ≡ inode_at xs
unfolding inode_at
inode_at-take xs =
    InodeDisk-ext (inode_at (take 60 xs)) (inode_at xs) (of_le-take 2 60 xs (omega arith))
      (ap (of_le 2) (drop-take 2 58 xs) ∙ of_le-take 2 58 (drop 2 xs) (omega arith))
      (ap (of_le 4) (drop-take 4 56 xs) ∙ of_le-take 4 56 (drop 4 xs) (omega arith))
      (ap (of_words 8) (drop-take 8 52 xs)
        ∙ sym (of_words-take 8 (take 52 (drop 8 xs)))
        ∙ ap (of_words 8) (take-take 32 52 (drop 8 xs) (omega arith))
        ∙ of_words-take 8 (drop 8 xs))
      (ap (take 20) (drop-take 40 20 xs) ∙ take-take 20 20 (drop 40 xs) (omega arith))

length-inode_bytes : (i : InodeDisk) → FitsInode i → length (inode_bytes i) ≡ inode_size
unfolding inode_bytes le
length-inode_bytes i f =
    let l = length-append (words i.direct) i.reserved in
    omega (arith, l, length-words i.direct, f.eight, f.reserved)

apart : (i j : ℕ) → i ≢ j → (i < j) ⊎ (j < i)
apart i j ne = ground arith

-- The inodes of a block, once one is written.
module _ (block : List ℕ) (inode : InodeDisk) (f : FitsInode inode)
    (whole : length block ≡ block_size) (i : ℕ) (in_block : i < 8) where
  pub inode-same :
      inode_at (drop (i * inode_size) (splice block (i * inode_size) (inode_bytes inode))) ≡ inode
  inode-same =
      let len = length-inode_bytes inode f in
      ap inode_at (drop-splice block (i * inode_size) (inode_bytes inode) (omega arith))
      ∙ inode_at-inode_bytes inode _ f

  inode-other :
      (j : ℕ)
      → j ≢ i
      → inode_at (drop (j * inode_size) (splice block (i * inode_size) (inode_bytes inode)))
        ≡ inode_at (drop (j * inode_size) block)
  inode-other j ne =
      let len = length-inode_bytes inode f in
      let new = splice block (i * inode_size) (inode_bytes inode) in
      elim (apart i j (λ e. ne (sym e))) [
        | inl lt ↦ ap inode_at (
            splice-above block (i * inode_size) (inode_bytes inode) (omega arith) (j * inode_size)
              (omega arith))
        | inr lt ↦
            sym (inode_at-take (drop (j * inode_size) new))
            ∙ ap inode_at (
                splice-below block (i * inode_size) (inode_bytes inode) (omega arith)
                  (j * inode_size) inode_size (omega arith))
            ∙ inode_at-take (drop (j * inode_size) block)
      ]

-- Two inodes are in different blocks, or in different places of one.
other_block : (a b : ℕ) → (inode_lba a == inode_lba b) ≡ false → (b == a) ≡ false
other_block a b far = elim (Bool-cases (b == a)) [
  | inl e ↦
      let is : b ≡ a = (==_iff b a).0 e in
      let near : (inode_lba a == inode_lba b) ≡ true =
        (==_iff (inode_lba a) (inode_lba b)).1 (ap inode_lba (sym is)) in
      absurd (cc)
  | inr e ↦ e
]

other_place :
    (a b : ℕ)
    → 0 < a
    → 0 < b
    → inode_lba b ≡ inode_lba a
    → (b == a) ≡ false
    → (b - 1) % 8 ≢ (a - 1) % 8
other_place a b pos_a pos_b near new e =
    let same : b ≡ a = omega (arith, near, e, pos_a, pos_b) in
    let yes : (b == a) ≡ true = (==_iff b a).1 same in absurd (cc)

-- An image with the inode put in its block.
abbrev pub with_inode : (ℕ → List ℕ) → ℕ → InodeDisk → ℕ → List ℕ
with_inode img ino inode =
    update img (inode_lba ino) (splice (img (inode_lba ino)) (inode_off ino) (inode_bytes inode))

-- The inode of an image.
abbrev pub inode_of : (ℕ → List ℕ) → ℕ → InodeDisk
inode_of img ino = inode_at (drop (inode_off ino) (img (inode_lba ino)))

module _ {S : Type 0} (ok : S → Type 0) (peek : S → ℕ → List ℕ) (dev : Blkdev S)
    (serves : Serves ok peek dev) (s : S) (img : ℕ → List ℕ) (at : At ok peek s img)
    (big : min_blocks ≤ dev.block_count) (ino : ℕ) (inode : InodeDisk) (pos_ino : 0 < ino)
    (small : ino ≤ max_inodes) (fits : FitsInode inode)
    (whole : length (img (inode_lba ino)) ≡ block_size) where
  with_inode-inode_at :
      (other : ℕ)
      → 0 < other
      → inode_of (with_inode img ino inode) other
        ≡ (if other == ino then inode else inode_of img other)
  with_inode-inode_at other pos_other = elim (Bool-cases (inode_lba ino == inode_lba other)) [
    | inr far ↦ let ne : (other == ino) ≡ false = other_block ino other far in rw (far, ne) refl
    | inl near ↦
        let e : inode_lba other ≡ inode_lba ino =
          sym ((==_iff (inode_lba ino) (inode_lba other)).0 near) in
        elim (Bool-cases (other == ino)) [
          | inl same ↦
              let is : other ≡ ino = (==_iff other ino).0 same in
              rw (near, same, is)
                (inode-same (img (inode_lba ino)) inode fits whole ((ino - 1) % 8) (omega arith))
          | inr new ↦
              let ne : (other - 1) % 8 ≢ (ino - 1) % 8 =
                other_place ino other pos_ino pos_other e new in
              rw (near, new)
                (inode-other (img (inode_lba ino)) inode fits whole ((ino - 1) % 8) (omega arith)
                    ((other - 1) % 8) ne
                  ∙ ap (λ l. inode_at (drop (inode_off other) (img l))) (sym e))
        ]
  ]

  -- On a device that serves its blocks and has 16 or more, for an inode number from 1 to 32 whose block
  -- is whole: after write_inode of an inode whose fields fit, read_inode of any number from 1 to 32
  -- succeeds, with that inode for its own number, and with what was there before for every other.
  pub write_inode-read_inode :
      (other : ℕ)
      → 0 < other
      → other ≤ max_inodes
      → Gives ok peek
          ((write_inode dev ino inode >> read_inode dev other) s)
          (if other == ino then inode else inode_of img other)
          (with_inode img ino inode)
  write_inode-read_inode other pos_other small_other =
      Gives-proceed ok peek _ _ _ _ _ _
        (write_inode-Gives ok peek dev serves s img at ino inode pos_ino small big)
        (λ s' x.
          let r =
            read_inode-Gives ok peek dev serves s' (with_inode img ino inode) x other pos_other
              small_other big in
          record {
            after_it = r.after_it;
            is = r.is ∙ ap (λ i. done i r.after_it) (with_inode-inode_at other pos_other);
            at = r.at;
          })
