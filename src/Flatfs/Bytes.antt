-- ===== src/Flatfs/Bytes.antt =====
-- Parts of blocks: arrays of words, and bytes that are copied into a block.
use acep_reja_mcsos.Journal.Layout.{of_le, le, of_le-le, drop-le}
use acep_reja_mcsos.Flatfs.Layout.{of_words, splice, words}
use acep_reja_mcsos.Common.{
  ℕ, zero, suc, ◌+◌, ◌-◌, ◌*◌, ◌/◌, ◌^◌, ◌≤◌, ◌<◌, ◌≡◌, refl, sym, ap, ◌∙◌, List, [], ◌∷◌, ◌++◌,
  append_assoc, arith, length, take, drop, length-append, take-append_left,
}

abbrev pub FitsWords : List ℕ → Type 0
FitsWords [] = Unit {0}
FitsWords (w ∷ ws) = (w < 2 ^ 32) × FitsWords ws

pub length-le : (k n : ℕ) → length (le k n) ≡ k
unfolding le
length-le zero n = refl
length-le (suc k) n = ap suc (length-le k (n / 256))

pub length-words : (ws : List ℕ) → length (words ws) ≡ 4 * length ws
unfolding words
length-words [] = omega arith
length-words (w ∷ ws) =
    length-append (le 4 w) (words ws) ∙ omega (arith, length-le 4 w, length-words ws)

pub of_words-words :
    (ws rest : List ℕ) → FitsWords ws → of_words (length ws) (words ws ++ rest) ≡ ws
unfolding words of_words
of_words-words [] rest f = refl
of_words-words (w ∷ ws) rest (lt, f) =
    ap (λ l. of_words (suc (length ws)) l) (append_assoc (le 4 w) (words ws) rest)
    ∙ ap (λ n. n ∷ of_words (length ws) (drop 4 (le 4 w ++ (words ws ++ rest))))
        (of_le-le 4 w (words ws ++ rest) lt)
    ∙ ap (λ l. w ∷ of_words (length ws) l) (drop-le 4 w (words ws ++ rest))
    ∙ ap (◌∷◌ w) (of_words-words ws rest f)

pub drop-append : (xs ys : List ℕ) → drop (length xs) (xs ++ ys) ≡ ys
drop-append [] ys = refl
drop-append (x ∷ xs) ys = drop-append xs ys

pub length-take : (n : ℕ) (xs : List ℕ) → n ≤ length xs → length (take n xs) ≡ n
length-take zero xs le = refl
length-take (suc n) [] le = absurd (omega arith)
length-take (suc n) (x ∷ xs) le = ap suc (length-take n xs (omega arith))

pub drop-nil : (n : ℕ) → drop {A = ℕ} n [] ≡ []
drop-nil zero = refl
drop-nil (suc n) = refl

pub take-nil : (n : ℕ) → take {A = ℕ} n [] ≡ []
take-nil zero = refl
take-nil (suc n) = refl

pub drop-add : (m n : ℕ) (xs : List ℕ) → drop (m + n) xs ≡ drop n (drop m xs)
drop-add zero n xs = let e : 0 + n ≡ n = omega arith in ap (λ k. drop k xs) e
drop-add (suc m) n [] = drop-nil (suc m + n) ∙ sym (drop-nil n)
drop-add (suc m) n (x ∷ xs) =
    let e : suc m + n ≡ suc (m + n) = omega arith in ap (λ k. drop k (x ∷ xs)) e ∙ drop-add m n xs

pub drop-take : (k n : ℕ) (xs : List ℕ) → drop k (take (k + n) xs) ≡ take n (drop k xs)
drop-take zero n xs = let e : 0 + n ≡ n = omega arith in ap (λ j. take j xs) e
drop-take (suc k) n [] = ap (drop (suc k)) (take-nil (suc k + n)) ∙ sym (take-nil n)
drop-take (suc k) n (x ∷ xs) =
    let e : suc k + n ≡ suc (k + n) = omega arith in
    ap (λ j. drop (suc k) (take j (x ∷ xs))) e ∙ drop-take k n xs

pub take-take : (k n : ℕ) (xs : List ℕ) → k ≤ n → take k (take n xs) ≡ take k xs
take-take zero n xs le = refl
take-take (suc k) zero xs le = absurd (omega arith)
take-take (suc k) (suc n) [] le = refl
take-take (suc k) (suc n) (x ∷ xs) le = ap (◌∷◌ x) (take-take k n xs (omega arith))

pub of_le-take : (k n : ℕ) (xs : List ℕ) → k ≤ n → of_le k (take n xs) ≡ of_le k xs
unfolding of_le
of_le-take zero n xs le = refl
of_le-take (suc k) zero xs le = absurd (omega arith)
of_le-take (suc k) (suc n) [] le = refl
of_le-take (suc k) (suc n) (x ∷ xs) le = ap (λ m. x + 256 * m) (of_le-take k n xs (omega arith))

pub of_words-take : (n : ℕ) (xs : List ℕ) → of_words n (take (4 * n) xs) ≡ of_words n xs
unfolding of_words
of_words-take zero xs = refl
of_words-take (suc n) xs =
    let l : 4 * suc n ≡ 4 + 4 * n = omega arith in
    ap (λ m. of_words (suc n) (take m xs)) l
    ∙ ap (λ m. m ∷ of_words n (drop 4 (take (4 + 4 * n) xs)))
        (of_le-take 4 (4 + 4 * n) xs (omega arith))
    ∙ ap (λ m. of_le 4 xs ∷ of_words n m) (drop-take 4 (4 * n) xs)
    ∙ ap (λ m. of_le 4 xs ∷ m) (of_words-take n (drop 4 xs))

module _ (block : List ℕ) (off : ℕ) (bytes : List ℕ)
    (fits : off + length bytes ≤ length block) where
  pub drop-splice : drop off (splice block off bytes) ≡ bytes ++ drop (off + length bytes) block
  drop-splice =
      ap (λ n. drop n (splice block off bytes)) (sym (length-take off block (omega arith)))
      ∙ drop-append (take off block) (bytes ++ drop (off + length bytes) block)

  pub splice-above :
      (k : ℕ) → off + length bytes ≤ k → drop k (splice block off bytes) ≡ drop k block
  splice-above k le =
      let more = k - (off + length bytes) in
      let sum : k ≡ off + (length bytes + more) = omega arith in
      ap (λ n. drop n (splice block off bytes)) sum
      ∙ drop-add off (length bytes + more) (splice block off bytes)
      ∙ ap (drop (length bytes + more)) drop-splice
      ∙ drop-add (length bytes) more (bytes ++ drop (off + length bytes) block)
      ∙ ap (drop more) (drop-append bytes (drop (off + length bytes) block))
      ∙ sym (drop-add (off + length bytes) more block)
      ∙ ap (λ n. drop n block) (omega arith)

  pub splice-below :
      (k n : ℕ) → k + n ≤ off → take n (drop k (splice block off bytes)) ≡ take n (drop k block)
  splice-below k n le =
      sym (drop-take k n (splice block off bytes))
      ∙ ap (drop k) (
          take-append_left (k + n) (take off block) _
            (omega (arith, length-take off block (omega arith)))
          ∙ take-take (k + n) off block le)
      ∙ drop-take k n block
