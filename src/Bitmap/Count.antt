-- ===== src/Bitmap/Count.antt =====
-- How many of the first `n` bits are clear.
use acep_reja_mcsos.Bitmap.Tables.{bit_test-bit_set, bit_test-bit_clear}
use acep_reja_mcsos.Bitmap.{bit_test, bit_clear, bit_set}
use acep_reja_mcsos.Common.{
  List, ℕ, suc, ◌≤◌, ◌<◌, ◌+◌, arith, ◌*◌, if◌then◌else◌, length, zero, ◌≡◌, false, true,
  Bool-cases, refl, ◌==◌, inl, inr,
}

unfoldable pub count_clear : List ℕ → ℕ → ℕ
count_clear b zero = 0
count_clear b (suc n) = count_clear b n + (if bit_test b n then 0 else 1)

pub count_clear-le : (b : List ℕ) (n : ℕ) → count_clear b n ≤ n
unfolding count_clear
count_clear-le b zero = omega arith
count_clear-le b (suc n) = ground (arith, count_clear-le b n)

count_clear-set_past :
    (b : List ℕ) (i n : ℕ)
    → i < 8 * length b
    → n ≤ i
    → count_clear (bit_set b i) n ≡ count_clear b n
unfolding count_clear
count_clear-set_past b i zero h p = refl
count_clear-set_past b i (suc n) h p =
    ground (arith, count_clear-set_past b i n, bit_test-bit_set b i n)

-- Setting a clear bit below `n` takes one from the count.
pub count_clear-bit_set :
    (b : List ℕ) (i n : ℕ)
    → i < 8 * length b
    → i < n
    → bit_test b i ≡ false
    → count_clear (bit_set b i) n + 1 ≡ count_clear b n
unfolding count_clear
count_clear-bit_set b i zero h p c = absurd (omega arith)
count_clear-bit_set b i (suc n) h p c = elim (Bool-cases (i == n)) [
  | inl e ↦
      ground (arith, count_clear-set_past b i n, bit_test-bit_set b i n, bit_test-bit_set b i i)
  | inr e ↦ ground (arith, count_clear-bit_set b i n, bit_test-bit_set b i n)
]

count_clear-clear_past :
    (b : List ℕ) (i n : ℕ)
    → i < 8 * length b
    → n ≤ i
    → count_clear (bit_clear b i) n ≡ count_clear b n
unfolding count_clear
count_clear-clear_past b i zero h p = refl
count_clear-clear_past b i (suc n) h p =
    ground (arith, count_clear-clear_past b i n, bit_test-bit_clear b i n)

-- Clearing a set bit below `n` adds one to the count.
pub count_clear-bit_clear :
    (b : List ℕ) (i n : ℕ)
    → i < 8 * length b
    → i < n
    → bit_test b i ≡ true
    → count_clear (bit_clear b i) n ≡ count_clear b n + 1
unfolding count_clear
count_clear-bit_clear b i zero h p c = absurd (omega arith)
count_clear-bit_clear b i (suc n) h p c = elim (Bool-cases (i == n)) [
  | inl e ↦
      ground
        (arith, count_clear-clear_past b i n, bit_test-bit_clear b i n, bit_test-bit_clear b i i)
  | inr e ↦ ground (arith, count_clear-bit_clear b i n, bit_test-bit_clear b i n)
]

-- With every bit set there is none left to count.
pub count_clear-full :
    (b : List ℕ) (n : ℕ) → ((i : ℕ) → i < n → bit_test b i ≡ true) → count_clear b n ≡ 0
unfolding count_clear
count_clear-full b zero h = refl
count_clear-full b (suc n) h = ground (arith, count_clear-full b n (λ i p. h i (omega arith)), h n)

-- If the count is not 0, no scan that finds every bit set is right.
pub count_clear-pos :
    (b : List ℕ) (n : ℕ) → 0 < count_clear b n → ¬ ((i : ℕ) → i < n → bit_test b i ≡ true)
count_clear-pos b n h all = omega (arith, count_clear-full b n all)
