-- ===== src/Vfs/Contents.antt =====
-- The contents of a file: the bytes of its share up to its size.
use acep_reja_mcsos.Vfs.Files.{read_bytes}
use acep_reja_mcsos.Vfs.Ramfs.{copy_bytes}
use acep_reja_mcsos.Vfs.{RamFs}
use acep_reja_mcsos.Common.{
  ℕ, zero, suc, ◌+◌, ◌-◌, ◌≤◌, ◌<◌, ◌≡◌, refl, sym, ap, ◌∙◌, ◌⊎◌, inl, inr, List, [], ◌∷◌, ◌++◌,
  arith, ltb, if◌then◌else◌, update, length, take, drop,
}

unfoldable pub content : RamFs → ℕ → List ℕ
content fs n = read_bytes fs.bytes (fs.nodes n).data_offset (fs.nodes n).size

-- Bytes put over a text from an offset on; the text grows when they reach past its end.
abbrev pub splice : ℕ → List ℕ → List ℕ → List ℕ
splice offset src old = take offset old ++ (src ++ drop (offset + length src) old)

pub copy_bytes-outside :
    (mem : ℕ → ℕ) (at : ℕ) (xs : List ℕ) (a : ℕ)
    → (a < at) ⊎ (at + length xs ≤ a)
    → copy_bytes mem at xs a ≡ mem a
unfolding copy_bytes
copy_bytes-outside mem at [] a h = refl
copy_bytes-outside mem at (x ∷ xs) a h =
    let h' : (a < at + 1) ⊎ (at + 1 + length xs ≤ a) = elim h [
      | inl l ↦ inl (omega arith)
      | inr r ↦ inr (omega arith)
    ] in
    let skip : update mem at x a ≡ mem a = elim h [ inl l ↦ ground arith | inr r ↦ ground arith ] in
    copy_bytes-outside (update mem at x) (at + 1) xs a h' ∙ skip

pub read_bytes-agree :
    (m m' : ℕ → ℕ) (at n : ℕ)
    → ((a : ℕ) → at ≤ a → a < at + n → m a ≡ m' a)
    → read_bytes m at n ≡ read_bytes m' at n
unfolding read_bytes
read_bytes-agree m m' at zero h = refl
read_bytes-agree m m' at (suc n) h =
    rw
      (
        h at (omega arith) (omega arith),
        read_bytes-agree m m' (at + 1) n (λ a l r. h a (omega arith) (omega arith)),
      )
      refl

pub read_bytes-copy_bytes :
    (mem : ℕ → ℕ) (at : ℕ) (xs : List ℕ) → read_bytes (copy_bytes mem at xs) at (length xs) ≡ xs
unfolding copy_bytes read_bytes
read_bytes-copy_bytes mem at [] = refl
read_bytes-copy_bytes mem at (x ∷ xs) =
    let head : copy_bytes (update mem at x) (at + 1) xs at ≡ x =
      copy_bytes-outside (update mem at x) (at + 1) xs at (inl (omega arith)) ∙ ground arith in
    rw (head, read_bytes-copy_bytes (update mem at x) (at + 1) xs) refl

read_bytes-append :
    (m : ℕ → ℕ) (at a b : ℕ)
    → read_bytes m at (a + b) ≡ read_bytes m at a ++ read_bytes m (at + a) b
unfolding read_bytes
read_bytes-append m at zero b =
    let e : zero + b ≡ b = omega arith in let f : at + 0 ≡ at = omega arith in rw (e, f) refl
read_bytes-append m at (suc a) b =
    let e : suc a + b ≡ suc (a + b) = omega arith in
    let f : at + 1 + a ≡ at + suc a = omega arith in
    rw (e, read_bytes-append m (at + 1) a b, f) refl

length-read_bytes : (m : ℕ → ℕ) (at n : ℕ) → length (read_bytes m at n) ≡ n
unfolding read_bytes
length-read_bytes m at zero = refl
length-read_bytes m at (suc n) = ap suc (length-read_bytes m (at + 1) n)

take-read_bytes : (m : ℕ → ℕ) (at k n : ℕ) → k ≤ n → take k (read_bytes m at n) ≡ read_bytes m at k
unfolding read_bytes
take-read_bytes m at zero n h = refl
take-read_bytes m at (suc k) zero h = absurd (omega arith)
take-read_bytes m at (suc k) (suc n) h =
    ap (λ r. m at ∷ r) (take-read_bytes m (at + 1) k n (omega arith))

drop-read_bytes :
    (m : ℕ → ℕ) (at k n : ℕ) → drop k (read_bytes m at n) ≡ read_bytes m (at + k) (n - k)
unfolding read_bytes
drop-read_bytes m at zero n =
    let f : at + 0 ≡ at = omega arith in let g : n - 0 ≡ n = omega arith in rw (f, g) refl
drop-read_bytes m at (suc k) zero = let z : 0 - suc k ≡ 0 = omega arith in rw z refl
drop-read_bytes m at (suc k) (suc n) =
    let f : at + 1 + k ≡ at + suc k = omega arith in
    let g : suc n - suc k ≡ n - k = omega arith in rw (drop-read_bytes m (at + 1) k n, f, g) refl

-- Bytes copied into a text of `size` bytes at `base`.
pub read_bytes-splice :
    (mem : ℕ → ℕ) (base size offset : ℕ) (src : List ℕ)
    → offset ≤ size
    → read_bytes
        (copy_bytes mem (base + offset) src)
        base
        (if ltb size (offset + length src) then offset + length src else size)
      ≡ splice offset src (read_bytes mem base size)
read_bytes-splice mem base size offset src inside =
    let mem' = copy_bytes mem (base + offset) src in
    let rest = size - (offset + length src) in
    let total : (if ltb size (offset + length src) then offset + length src else size)
        ≡ offset + (length src + rest) =
      ground arith in
    let before : read_bytes mem' base offset ≡ take offset (read_bytes mem base size) =
      read_bytes-agree mem' mem base offset
        (λ a l r. copy_bytes-outside mem (base + offset) src a (inl (omega arith)))
      ∙ sym (take-read_bytes mem base offset size inside) in
    let where_rest : base + offset + length src ≡ base + (offset + length src) = omega arith in
    let after : read_bytes mem' (base + offset + length src) rest
        ≡ drop (offset + length src) (read_bytes mem base size) =
      read_bytes-agree mem' mem (base + offset + length src) rest
        (λ a l r. copy_bytes-outside mem (base + offset) src a (inr (omega arith)))
      ∙ ap (λ b. read_bytes mem b rest) where_rest
      ∙ sym (drop-read_bytes mem base (offset + length src) size) in
    ap (read_bytes mem' base) total
    ∙ read_bytes-append mem' base offset (length src + rest)
    ∙ rw
        (
          before,
          read_bytes-append mem' (base + offset) (length src) rest,
          read_bytes-copy_bytes mem (base + offset) src,
          after,
        )
        refl
