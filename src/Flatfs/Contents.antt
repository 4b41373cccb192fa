-- ===== src/Flatfs/Contents.antt =====
-- The bytes of a file: what mcsfs1_write writes to its blocks and mcsfs1_read reads from them.
use acep_reja_mcsos.Flatfs.Bytes.{length-take, take-take}
use acep_reja_mcsos.Flatfs.Served.{
  Serves, At, Gives, Gives-pure, Gives-proceed, dev_write-Gives, Gives-value, dev_read-Gives,
}
use acep_reja_mcsos.Flatfs.Files.{padded, write_blocks, read_blocks}
use acep_reja_mcsos.Flatfs.{Blkdev, block_size}
use acep_reja_mcsos.Flatfs.Calls.{chunk}
use acep_reja_mcsos.Common.{
  ℕ, zero, suc, ◌+◌, ◌-◌, ◌*◌, ◌≤◌, ◌<◌, ◌≡◌, refl, sym, ap, ◌∙◌, ◌≢◌, false, List, [], ◌∷◌, ◌++◌,
  arith, leb, ◌==◌, update, length, get_or, take, drop, replicate, take-append_left,
}

abbrev rest_of : List ℕ → List ℕ
rest_of buf = drop (chunk (length buf)) buf

-- The blocks from `i` on hold the bytes.
pub Holds : ℕ → ℕ → List ℕ → List ℕ → (ℕ → List ℕ) → Type 0
Holds zero i direct buf img = Unit {0}
Holds (suc n) i direct buf img =
    (img (get_or direct i 0) ≡ padded buf) × Holds n (i + 1) direct (rest_of buf) img

-- An image with the bytes written to the blocks.
pub written : ℕ → ℕ → List ℕ → List ℕ → (ℕ → List ℕ) → ℕ → List ℕ
written zero i direct buf img = img
written (suc n) i direct buf img =
    written n (i + 1) direct (rest_of buf) (update img (get_or direct i 0) (padded buf))

pub update-others :
    (img : ℕ → List ℕ) (i : ℕ) (b : List ℕ) (a : ℕ) → i ≢ a → update img i b a ≡ img a
update-others img i b a ne = ground arith

pub update-here : (img : ℕ → List ℕ) (i : ℕ) (b : List ℕ) → update img i b i ≡ b
update-here img i b = ground arith

pub written-others :
    (n i : ℕ) (direct buf : List ℕ) (img : ℕ → List ℕ) (a : ℕ)
    → ((j : ℕ) → i ≤ j → j < i + n → get_or direct j 0 ≢ a)
    → written n i direct buf img a ≡ img a
unfolding written
written-others zero i direct buf img a ne = refl
written-others (suc n) i direct buf img a ne =
    let first = ne i (omega arith) (omega arith) in
    written-others n (i + 1) direct (rest_of buf) (update img (get_or direct i 0) (padded buf)) a
      (λ j le lt. ne j (omega arith) (omega arith))
    ∙ update-others img (get_or direct i 0) (padded buf) a first

pub written-Holds :
    (n i : ℕ) (direct buf : List ℕ) (img : ℕ → List ℕ)
    → ((j k : ℕ) → i ≤ j → j < i + n → get_or direct j 0 ≡ get_or direct k 0 → j ≡ k)
    → Holds n i direct buf (written n i direct buf img)
unfolding written Holds
written-Holds zero i direct buf img one = tt
written-Holds (suc n) i direct buf img one =
    let lba = get_or direct i 0 in
    let next = update img lba (padded buf) in
    (
      written-others n (i + 1) direct (rest_of buf) next lba
            (λ j le lt e. absurd (omega (arith, le, one j i (omega arith) (omega arith) e)))
          ∙ update-here img lba (padded buf),
      written-Holds n (i + 1) direct (rest_of buf) next
          (λ j k le lt e. one j k (omega arith) (omega arith) e),
    )

-- The first blocks hold the bytes of the first.
pub Holds-fewer :
    (m n i : ℕ) (direct buf : List ℕ) (img : ℕ → List ℕ)
    → m ≤ n
    → Holds n i direct buf img
    → Holds m i direct buf img
unfolding Holds
Holds-fewer zero n i direct buf img le h = tt
Holds-fewer (suc m) zero i direct buf img le h = absurd (omega arith)
Holds-fewer (suc m) (suc n) i direct buf img le (h, hs) =
    (h, Holds-fewer m n (i + 1) direct (rest_of buf) img (omega arith) hs)

-- Other blocks do not matter.
pub Holds-same :
    (n i : ℕ) (direct buf : List ℕ) (img img' : ℕ → List ℕ)
    → ((j : ℕ) → i ≤ j → j < i + n → img' (get_or direct j 0) ≡ img (get_or direct j 0))
    → Holds n i direct buf img
    → Holds n i direct buf img'
unfolding Holds
Holds-same zero i direct buf img img' same h = tt
Holds-same (suc n) i direct buf img img' same (h, hs) = (
  same i (omega arith) (omega arith) ∙ h,
  Holds-same n (i + 1) direct (rest_of buf) img img' (λ j le lt. same j (omega arith) (omega arith))
      hs,
)

length-drop : (n : ℕ) (xs : List ℕ) → length (drop n xs) ≡ length xs - n
length-drop zero xs = omega arith
length-drop (suc n) [] = omega arith
length-drop (suc n) (x ∷ xs) = length-drop n xs ∙ omega arith

take-drop : (n : ℕ) (xs : List ℕ) → take n xs ++ drop n xs ≡ xs
take-drop zero xs = refl
take-drop (suc n) [] = refl
take-drop (suc n) (x ∷ xs) = ap (◌∷◌ x) (take-drop n xs)

chunk-le : (n : ℕ) → chunk n ≤ n
chunk-le n = ground arith

chunk-left : (n k : ℕ) → n ≤ (k + 1) * block_size → n - chunk n ≤ k * block_size
chunk-left n k le = ground arith

-- The part of a block that is a part of the file.
take-padded :
    (buf : List ℕ) → take (chunk (length buf)) (padded buf) ≡ take (chunk (length buf)) buf
unfolding padded
take-padded buf =
    let n = chunk (length buf) in
    let len : length (take n buf) ≡ n = length-take n buf (chunk-le (length buf)) in
    take-append_left n (take n buf) (replicate (block_size - n) 0) (omega (arith, len))
    ∙ take-take n n buf (omega arith)

module _ {S : Type 0} (ok : S → Type 0) (peek : S → ℕ → List ℕ) (dev : Blkdev S)
    (serves : Serves ok peek dev) where
  pub write_blocks-Gives :
      (n i : ℕ) (direct buf : List ℕ) (s : S) (img : ℕ → List ℕ)
      → At ok peek s img
      → ((j : ℕ) → i ≤ j → j < i + n → get_or direct j 0 < dev.block_count)
      → Gives ok peek (write_blocks dev n i direct buf s) tt (written n i direct buf img)
  unfolding write_blocks written
  write_blocks-Gives zero i direct buf s img at inside = Gives-pure ok peek tt s img at
  write_blocks-Gives (suc n) i direct buf s img at inside =
      Gives-proceed ok peek _ _ _ _ _ _
        (dev_write-Gives ok peek dev serves s img at (get_or direct i 0) (padded buf)
          (inside i (omega arith) (omega arith)))
        (λ s' x.
          write_blocks-Gives n (i + 1) direct (rest_of buf) s' _ x
            (λ j le lt. inside j (omega arith) (omega arith)))

  pub read_blocks-Gives :
      (n i : ℕ) (direct buf : List ℕ) (s : S) (img : ℕ → List ℕ)
      → At ok peek s img
      → ((j : ℕ) → i ≤ j → j < i + n → get_or direct j 0 < dev.block_count)
      → ((j : ℕ) → i ≤ j → j < i + n → get_or direct j 0 ≢ 0)
      → Holds n i direct buf img
      → length buf ≤ n * block_size
      → Gives ok peek (read_blocks dev dev.block_count n i direct (length buf) s) buf img
  unfolding read_blocks Holds
  read_blocks-Gives zero i direct [] s img at inside some_block h le =
      Gives-pure ok peek [] s img at
  read_blocks-Gives zero i direct (x ∷ buf) s img at inside some_block h le = absurd (omega arith)
  read_blocks-Gives (suc n) i direct buf s img at inside some_block (h, hs) le =
      let lba = get_or direct i 0 in
      let lt = inside i (omega arith) (omega arith) in
      let ne = some_block i (omega arith) (omega arith) in
      let t1 : (lba == 0) ≡ false = ground arith in
      let t2 : leb dev.block_count lba ≡ false = ground arith in
      let m = chunk (length buf) in
      let left : length buf - m ≡ length (rest_of buf) = sym (length-drop m buf) in
      let more : (s' : S)
          → At ok peek s' img
          → Gives ok peek (read_blocks dev dev.block_count n (i + 1) direct (length buf - m) s')
              (rest_of buf) img =
        λ s' x. rw left (
          read_blocks-Gives n (i + 1) direct (rest_of buf) s' img x
            (λ j a b. inside j (omega arith) (omega arith))
            (λ j a b. some_block j (omega arith) (omega arith)) hs
            (omega (arith, left, chunk-left (length buf) n (omega (arith, le))))) in
      let all : take m (padded buf) ++ rest_of buf ≡ buf =
        ap (λ l. l ++ rest_of buf) (take-padded buf) ∙ take-drop m buf in
      rw (t1, t2)
        (Gives-proceed ok peek _ _ (padded buf) buf img img
          (Gives-value ok peek _ _ (padded buf) img
            (dev_read-Gives ok peek dev serves s img at lba lt) h)
          (λ s' x. Gives-proceed ok peek _ _ (rest_of buf) buf img img (more s' x) (λ s2 y.
            Gives-value ok peek _ _ buf img
              (Gives-pure ok peek (take m (padded buf) ++ rest_of buf) s2 img y) all)))
