-- ===== src/Pmm/Scan.antt =====
-- The two scans of pmm_alloc_frame.
use acep_reja_mcsos.Common.{
  ◌≡◌, some, none, ◌≤◌, ◌<◌, true, suc, Bool-cases, ◌==◌, ◌+◌, false, arith, inl, inr, zero,
}
use acep_reja_mcsos.Pmm.{scan_free, List, ℕ, bit_test}

-- A hit is a clear bit in the range scanned.
pub scan_free-hit :
    (b : List ℕ) (n f g : ℕ)
    → scan_free b n f ≡ some g
    → (f ≤ g) × (g < f + n) × (bit_test b g ≡ false)
unfolding scan_free
scan_free-hit b zero f g h = absurd (cc)
scan_free-hit b (suc n) f g h = ground (arith, scan_free-hit b n (f + 1) g)

-- A miss means that every bit in the range is set.
pub scan_free-miss :
    (b : List ℕ) (n f : ℕ)
    → scan_free b n f ≡ none
    → (g : ℕ) → f ≤ g
    → g < f + n
    → bit_test b g ≡ true
unfolding scan_free
scan_free-miss b zero f h g lo hi = absurd (omega arith)
scan_free-miss b (suc n) f h g lo hi = elim (Bool-cases (f == g)) [
  | inl e ↦ ground arith
  | inr e ↦ ground (arith, scan_free-miss b n (f + 1) (ground arith) g)
]

-- Every frame that a scan of pmm_alloc_frame passes before its hit is in use.
pub scan_free-first :
    (b : List ℕ) (n f g : ℕ)
    → scan_free b n f ≡ some g
    → (i : ℕ) → f ≤ i
    → i < g
    → bit_test b i ≡ true
unfolding scan_free
scan_free-first b zero f g h i lo hi = absurd (cc)
scan_free-first b (suc n) f g h i lo hi = elim (Bool-cases (f == i)) [
  | inl e ↦ ground arith
  | inr e ↦ ground (arith, scan_free-first b n (f + 1) g (ground arith) i)
]
