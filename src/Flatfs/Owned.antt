-- ===== src/Flatfs/Owned.antt =====
-- The blocks of a file, and the search for a clear bit.
use acep_reja_mcsos.Bitmap.Tables.{bit_test-bit_set}
use acep_reja_mcsos.Bitmap.{bit_test, bit_set}
use acep_reja_mcsos.Flatfs.Tables.{first_clear}
use acep_reja_mcsos.Common.{
  ℕ, zero, suc, ◌+◌, ◌*◌, ◌≤◌, ◌<◌, ◌≡◌, refl, sym, ap, ◌∙◌, ◌≢◌, ◌⊎◌, inl, inr, true, false, ◌||◌,
  some, List, arith, ◌==◌, ==_iff, Bool-cases, length, get_or, set, get_or-set_self, get_or-set_ne,
}
use acep_reja_mcsos.Flatfs.{data_start_lba}

-- The blocks of a file are data blocks of the device, marked in the bitmap, and no two are one.
pub record Owned (count : ℕ) (bb direct : List ℕ) : Type 0 where
  pub from : (i : ℕ) → get_or direct i 0 ≢ 0 → data_start_lba ≤ get_or direct i 0
  pub below : (i : ℕ) → get_or direct i 0 ≢ 0 → get_or direct i 0 < count
  pub marked : (i : ℕ) → get_or direct i 0 ≢ 0 → bit_test bb (get_or direct i 0) ≡ true
  pub distinct : (i j : ℕ) → get_or direct i 0 ≢ 0 → get_or direct i 0 ≡ get_or direct j 0 → i ≡ j

-- The first clear bit, where there is one.
pub record FoundBit (b : List ℕ) (n i k : ℕ) : Type 0 where
  pub from : i ≤ k
  pub below : k < i + n
  pub clear : bit_test b k ≡ false

pub first_clear-FoundBit : (b : List ℕ) (n i k : ℕ) → first_clear b n i ≡ some k → FoundBit b n i k
unfolding first_clear
first_clear-FoundBit b zero i k e = absurd (cc)
first_clear-FoundBit b (suc n) i k e = elim (Bool-cases (bit_test b i)) [
  | inr c ↦
      let h : some i ≡ some k = sym (rw (first_clear, c) refl) ∙ e in
      let is : i ≡ k = cc in
      record {
        from = omega (arith, is);
        below = omega (arith, is);
        clear = ap (bit_test b) (sym is) ∙ c;
      }
  | inl c ↦
      let h : first_clear b n (i + 1) ≡ some k = sym (rw (first_clear, c) refl) ∙ e in
      let x = first_clear-FoundBit b n (i + 1) k h in
      let from = x.from in
      let below = x.below in record { from = omega arith; below = omega arith; clear = x.clear }
]

-- What stands in the entry `j` once `lba` is written to the entry `i`.
record Changed (direct : List ℕ) (i lba j : ℕ) : Type 0 where
  here : j ≡ i
  is : get_or (set direct i lba) j 0 ≡ lba

record Unchanged (direct : List ℕ) (i lba j : ℕ) : Type 0 where
  elsewhere : j ≢ i
  is : get_or (set direct i lba) j 0 ≡ get_or direct j 0

entry :
    (direct : List ℕ) (i lba j : ℕ)
    → i < length direct
    → Changed direct i lba j ⊎ Unchanged direct i lba j
entry direct i lba j inside = elim (Bool-cases (j == i)) [
  | inl e ↦
      let same = (==_iff j i).0 e in
      inl (record {
        here = same;
        is = ap (λ k. get_or (set direct i lba) k 0) same ∙ get_or-set_self direct i lba 0 inside;
      })
  | inr e ↦
      let ne : j ≢ i = ground arith in
      inr (record { elsewhere = ne; is = get_or-set_ne direct i j lba 0 (λ x. ne (sym x)) })
]

-- A new block goes to an entry that has none.
module _ (count : ℕ) (bb direct : List ℕ) (i lba : ℕ) (o : Owned count bb direct)
    (inside : i < length direct) (from : data_start_lba ≤ lba) (below : lba < count)
    (room : count ≤ 8 * length bb) (clear : bit_test bb lba ≡ false) where
  marks : (j : ℕ) → bit_test (bit_set bb lba) j ≡ (lba == j || bit_test bb j)
  marks j = bit_test-bit_set bb lba j (omega arith)

  not_owned : (j : ℕ) → lba ≡ get_or direct j 0 → ⊥
  not_owned j e =
      let m : bit_test bb (get_or direct j 0) ≡ true = o.marked j (λ z. omega (arith, e, z)) in
      let m' : bit_test bb lba ≡ true = ap (bit_test bb) e ∙ m in cc

  new_distinct :
      (j k : ℕ)
      → get_or (set direct i lba) j 0 ≢ 0
      → get_or (set direct i lba) j 0 ≡ get_or (set direct i lba) k 0
      → j ≡ k
  new_distinct j k ne e = elim (entry direct i lba j inside) [
    | inl x ↦ elim (entry direct i lba k inside) [
      | inl y ↦ x.here ∙ sym y.here
      | inr y ↦ absurd (not_owned k (sym x.is ∙ e ∙ y.is))
    ]
    | inr x ↦ elim (entry direct i lba k inside) [
      | inl y ↦ absurd (not_owned j (sym (sym x.is ∙ e ∙ y.is)))
      | inr y ↦ o.distinct j k (λ z. ne (x.is ∙ z)) (sym x.is ∙ e ∙ y.is)
    ]
  ]

  pub Owned-set : Owned count (bit_set bb lba) (set direct i lba)
  Owned-set = record {
    from = λ j ne. elim (entry direct i lba j inside) [
      | inl x ↦ rw x.is from
      | inr x ↦ rw x.is (o.from j (λ z. ne (x.is ∙ z)))
    ];
    below = λ j ne. elim (entry direct i lba j inside) [
      | inl x ↦ rw x.is below
      | inr x ↦ rw x.is (o.below j (λ z. ne (x.is ∙ z)))
    ];
    marked = λ j ne. elim (entry direct i lba j inside) [
      | inl x ↦ let t : (lba == lba) ≡ true = ground arith in rw x.is (marks lba ∙ rw t refl)
      | inr x ↦
          let m = o.marked j (λ z. ne (x.is ∙ z)) in
          rw x.is (marks (get_or direct j 0) ∙ rw m (ground arith))
    ];
    distinct = new_distinct;
  }
