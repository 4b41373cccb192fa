-- ===== src/Block/Entries.antt =====
-- The search in the buffer cache.
use acep_reja_mcsos.Block.{find_entry, Entry, cache_find_empty, holds, cache_lookup, cache_entries}
use acep_reja_mcsos.Common.{
  ℕ, zero, suc, ◌+◌, ◌≤◌, ◌<◌, ◌≡◌, refl, sym, ◌∙◌, inl, inr, Bool, true, false, not, none, some,
  arith, ◌==◌, Bool-cases,
}

pub find_entry-hit :
    (p : Entry → Bool) (cache : ℕ → Entry) (n i k : ℕ)
    → find_entry p cache n i ≡ some k
    → (k < i + n) × (p (cache k) ≡ true)
unfolding find_entry
find_entry-hit p cache zero i k h = absurd (cc)
find_entry-hit p cache (suc n) i k h = elim (Bool-cases (p (cache i))) [
  | inl b ↦
      let h' : some i ≡ some k = sym (rw (b, find_entry) refl) ∙ h in
      let at : i ≡ k = cc in (omega arith, rw (sym at) b)
  | inr b ↦
      let (lt, t) = find_entry-hit p cache n (i + 1) k (sym (rw (b, find_entry) refl) ∙ h) in
      (omega arith, t)
]

pub find_entry-miss :
    (p : Entry → Bool) (cache : ℕ → Entry) (n i : ℕ)
    → find_entry p cache n i ≡ none
    → (k : ℕ) → i ≤ k
    → k < i + n
    → p (cache k) ≡ false
unfolding find_entry
find_entry-miss p cache zero i h k l r = absurd (omega arith)
find_entry-miss p cache (suc n) i h k l r = elim (Bool-cases (p (cache i))) [
  | inl b ↦ let h' : some i ≡ none = sym (rw (b, find_entry) refl) ∙ h in absurd (cc)
  | inr b ↦ elim (Bool-cases (k == i)) [
    | inl e ↦ let at : k ≡ i = ground arith in rw at b
    | inr e ↦
        find_entry-miss p cache n (i + 1) (sym (rw (b, find_entry) refl) ∙ h) k (ground arith)
          (omega arith)
  ]
]

-- An entry that holds a block names it.
pub holds-names :
    (dev lba : ℕ) (e : Entry)
    → holds dev lba e ≡ true
    → (e.valid ≡ true) × (e.dev_id ≡ dev) × (e.lba ≡ lba)
holds-names dev lba e h = (ground arith, ground arith, ground arith)

module _ (dev lba : ℕ) (cache : ℕ → Entry) where
  pub cache_lookup-hit :
      (k : ℕ)
      → cache_lookup dev lba cache ≡ some k
      → (k < cache_entries) × (holds dev lba (cache k) ≡ true)
  unfolding cache_lookup
  cache_lookup-hit k h =
      let (lt, t) = find_entry-hit (holds dev lba) cache cache_entries 0 k h in (omega arith, t)

  pub cache_lookup-miss :
      cache_lookup dev lba cache ≡ none
      → (k : ℕ) → k < cache_entries
      → holds dev lba (cache k) ≡ false
  unfolding cache_lookup
  cache_lookup-miss h k lt =
      find_entry-miss (holds dev lba) cache cache_entries 0 h k (omega arith) (omega arith)

pub cache_find_empty-hit :
    (cache : ℕ → Entry) (k : ℕ)
    → cache_find_empty cache ≡ some k
    → (k < cache_entries) × ((cache k).valid ≡ false)
unfolding cache_find_empty
cache_find_empty-hit cache k h =
    let (lt, t) = find_entry-hit (λ e. not e.valid) cache cache_entries 0 k h in
    (omega arith, ground arith)
