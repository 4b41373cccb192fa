-- ===== src/Bitmap/Tables.antt =====
-- How setting or clearing one bit of a bitmap shows in every other bit.
use acep_reja_mcsos.Common.{
  Bool, ℕ, all_below, ◌≡◌, ◌<◌, true, ◌*◌, length, sym, all_below_sound, length-set, false, ◌%◌,
  ◌==◌, ◌/◌, ◌||◌, ◌&&◌, Bool-cases, inl, arith, get_or-set_self, inr, get_or-set_ne, refl,
}
use acep_reja_mcsos.Bitmap.{
  bit_test, bit_clear, byte_set, byte_clear, bit_set, not, byte_test, List, u8_mod, load8,
}

same : Bool → Bool → Bool
same true b = b
same false b = not b

same→eq : (a b : Bool) → same a b ≡ true → a ≡ b
unfolding same
same→eq true b h = sym h
same→eq false true h = h
same→eq false false h = refl

set_ok : ℕ → ℕ → ℕ → Bool
unfolding same byte_set byte_test
set_ok k j x = same (byte_test (byte_set x k % u8_mod) j) (k == j || byte_test x j)

clear_ok : ℕ → ℕ → ℕ → Bool
unfolding same byte_clear byte_test
clear_ok k j x = same (byte_test (byte_clear x k % u8_mod) j) (not (k == j) && byte_test x j)

every : (ℕ → ℕ → ℕ → Bool) → Bool
every p = all_below 8 (λ k. all_below 8 (λ j. all_below 256 (p k j)))

every_sound :
    (p : ℕ → ℕ → ℕ → Bool) (k j x : ℕ) → every p ≡ true → k < 8 → j < 8 → x < 256 → p k j x ≡ true
unfolding every
every_sound p k j x h hk hj hx =
    all_below_sound 256 (p k j) x
      (all_below_sound 8 (λ j. all_below 256 (p k j)) j
        (all_below_sound 8 (λ k. all_below 8 (λ j. all_below 256 (p k j))) k h hk) hj)
      hx

set_table : every set_ok ≡ true
unfolding every set_ok all_below
set_table = refl

clear_table : every clear_ok ≡ true
unfolding every clear_ok all_below
clear_table = refl

byte_test-byte_set :
    (x k j : ℕ)
    → x < 256
    → k < 8
    → j < 8
    → byte_test (byte_set x k % u8_mod) j ≡ (k == j || byte_test x j)
unfolding set_ok
byte_test-byte_set x k j hx hk hj = same→eq _ _ (every_sound set_ok k j x set_table hk hj hx)

byte_test-byte_clear :
    (x k j : ℕ)
    → x < 256
    → k < 8
    → j < 8
    → byte_test (byte_clear x k % u8_mod) j ≡ (not (k == j) && byte_test x j)
unfolding clear_ok
byte_test-byte_clear x k j hx hk hj = same→eq _ _ (every_sound clear_ok k j x clear_table hk hj hx)

-- Setting a bit inside the bitmap changes the answer for that bit alone, to true.
pub bit_test-bit_set :
    (b : List ℕ) (i j : ℕ) → i < 8 * length b → bit_test (bit_set b i) j ≡ (i == j || bit_test b j)
unfolding bit_test bit_set
bit_test-bit_set b i j h = elim (Bool-cases (i / 8 == j / 8)) [
  | inl e ↦
      let q : i / 8 ≡ j / 8 = ground arith in
      rw
        (
          ← q,
          get_or-set_self b (i / 8) (byte_set (load8 b (i / 8)) (i % 8)) 0 (omega arith),
          byte_test-byte_set (load8 b (i / 8)) (i % 8) (j % 8) (omega arith) (omega arith)
              (omega arith),
        )
        (ground arith)
  | inr n ↦
      rw (get_or-set_ne b (i / 8) (j / 8) (byte_set (load8 b (i / 8)) (i % 8)) 0 (ground arith))
        (ground arith)
]

-- Clearing a bit inside the bitmap changes the answer for that bit alone, to false.
pub bit_test-bit_clear :
    (b : List ℕ) (i j : ℕ)
    → i < 8 * length b
    → bit_test (bit_clear b i) j ≡ (not (i == j) && bit_test b j)
unfolding bit_test bit_clear
bit_test-bit_clear b i j h = elim (Bool-cases (i / 8 == j / 8)) [
  | inl e ↦
      let q : i / 8 ≡ j / 8 = ground arith in
      rw
        (
          ← q,
          get_or-set_self b (i / 8) (byte_clear (load8 b (i / 8)) (i % 8)) 0 (omega arith),
          byte_test-byte_clear (load8 b (i / 8)) (i % 8) (j % 8) (omega arith) (omega arith)
              (omega arith),
        )
        (ground arith)
  | inr n ↦
      rw (get_or-set_ne b (i / 8) (j / 8) (byte_clear (load8 b (i / 8)) (i % 8)) 0 (ground arith))
        (ground arith)
]

pub length-bit_set : (b : List ℕ) (i : ℕ) → length (bit_set b i) ≡ length b
unfolding bit_set
length-bit_set b i = length-set b (i / 8) (byte_set (load8 b (i / 8)) (i % 8))

pub length-bit_clear : (b : List ℕ) (i : ℕ) → length (bit_clear b i) ≡ length b
unfolding bit_clear
length-bit_clear b i = length-set b (i / 8) (byte_clear (load8 b (i / 8)) (i % 8))
