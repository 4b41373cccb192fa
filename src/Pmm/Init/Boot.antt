-- ===== src/Pmm/Init/Boot.antt =====
-- The allocator that pmm_init_from_map builds: which frames are free in it.
use acep_reja_mcsos.Bitmap.Count.{count_clear-full}
use acep_reja_mcsos.Pmm.Range.Loops.{Loop}
use acep_reja_mcsos.Pmm.Frames.{is_free, IsValid, SameShape-refl, SameShape-trans}
use acep_reja_mcsos.Pmm.Range.Coverage.{
  within, touches, mark_range_free-Loop, mark_range_used-Loop, is_free-mark_range_free,
  is_free-mark_range_used,
}
use acep_reja_mcsos.Bitmap.{bit_test, byte_test}
use acep_reja_mcsos.Pmm.Init.{
  fill_ff, blank, reserve_other, free_usable, mark_range_free, mark_range_used, pmm_init_from_map,
}
use acep_reja_mcsos.Pmm.{BootMemRegion, PmmState, page_size, boot_mem_usable}
use acep_reja_mcsos.Common.{
  ℕ, zero, suc, ◌+◌, ◌*◌, ◌/◌, ◌%◌, ◌^◌, ◌≤◌, ◌<◌, ◌≡◌, refl, sym, ap, ◌∙◌, inl, inr, Bool, true,
  false, not, ◌&&◌, ◌||◌, some, List, [], ◌∷◌, arith, ltb, ◌==◌, if◌then◌else◌, Bool-cases,
  all_below, all_below_sound, length, get_or,
}

length-fill_ff : (n : ℕ) (xs : List ℕ) → length (fill_ff n xs) ≡ length xs
unfolding fill_ff
length-fill_ff zero xs = refl
length-fill_ff (suc n) [] = refl
length-fill_ff (suc n) (x ∷ xs) = ap suc (length-fill_ff n xs)

get_or-fill_ff :
    (n : ℕ) (xs : List ℕ) (i : ℕ) → i < n → n ≤ length xs → get_or (fill_ff n xs) i 0 ≡ 255
unfolding fill_ff
get_or-fill_ff zero xs i h l = absurd (omega arith)
get_or-fill_ff (suc n) [] i h l = absurd (omega arith)
get_or-fill_ff (suc n) (x ∷ xs) zero h l = refl
get_or-fill_ff (suc n) (x ∷ xs) (suc i) h l = get_or-fill_ff n xs i (omega arith) (omega arith)

ones_table : all_below 8 (byte_test 255) ≡ true
unfolding all_below byte_test
ones_table = refl

bit_test-fill_ff :
    (n : ℕ) (xs : List ℕ) (i : ℕ) → i < 8 * n → n ≤ length xs → bit_test (fill_ff n xs) i ≡ true
unfolding bit_test
bit_test-fill_ff n xs i h l =
    rw (get_or-fill_ff n xs (i / 8) (omega arith) l)
      (all_below_sound 8 (byte_test 255) (i % 8) ones_table (omega arith))

-- The conditions that `pmm_init_from_map` checks, and that the storage is as large as it is said to
-- be.
pub record IsBootable (storage : List ℕ) (storage_bytes max_phys_bytes : ℕ) : Type 0 where
  pub some_memory : 0 < max_phys_bytes
  pub aligned : max_phys_bytes % page_size ≡ 0
  pub addressable : max_phys_bytes < 2 ^ 64
  pub enough : (max_phys_bytes / page_size + 7) / 8 ≤ storage_bytes
  pub present : storage_bytes ≤ length storage

-- No region of the map reaches into the last page of the address space.
abbrev pub AllShort : List BootMemRegion → Type 0
AllShort [] = Unit {0}
AllShort (r ∷ rs) = (r.base + r.length + page_size ≤ 2 ^ 64) × AllShort rs

-- Some usable region holds all of frame `g`; some other region touches it.
abbrev pub usable : List BootMemRegion → ℕ → Bool
usable [] g = false
usable (r ∷ rs) g = (r.type == boot_mem_usable && within r.base r.length g) || usable rs g

abbrev pub claimed : List BootMemRegion → ℕ → Bool
claimed [] g = false
claimed (r ∷ rs) g = (not (r.type == boot_mem_usable) && touches r.base r.length g) || claimed rs g

blank-IsValid :
    (storage : List ℕ) (storage_bytes max_phys_bytes : ℕ)
    → IsBootable storage storage_bytes max_phys_bytes
    → IsValid (blank storage max_phys_bytes)
unfolding blank
blank-IsValid storage storage_bytes max_phys_bytes b = record {
  covers = omega (arith, length-fill_ff bytes storage);
  counted = sym (
      count_clear-full (fill_ff bytes storage) (max_phys_bytes / page_size)
        (λ i h. bit_test-fill_ff bytes storage i (omega arith) (omega arith)));
  total = omega arith;
  size = omega arith;
  small = b.addressable;
  hint = omega arith;
}
  where
    bytes : ℕ
    bytes = (max_phys_bytes / page_size + 7) / 8

is_free-blank :
    (storage : List ℕ) (storage_bytes max_phys_bytes g : ℕ)
    → IsBootable storage storage_bytes max_phys_bytes
    → is_free (blank storage max_phys_bytes) g ≡ false
unfolding blank
is_free-blank storage storage_bytes max_phys_bytes g b =
    elim (Bool-cases (ltb g (max_phys_bytes / page_size))) [
      | inl e ↦ ground (
        arith,
        bit_test-fill_ff ((max_phys_bytes / page_size + 7) / 8) storage g (ground arith)
            (omega arith),
      )
      | inr e ↦ ground arith
    ]

free_one : PmmState → BootMemRegion → PmmState
free_one p r = if r.type == boot_mem_usable then mark_range_free p r.base r.length else p

reserve_one : PmmState → BootMemRegion → PmmState
reserve_one p r = if r.type == boot_mem_usable then p else mark_range_used p r.base r.length

free_one-Loop : (p : PmmState) (r : BootMemRegion) → IsValid p → Loop p (free_one p r)
unfolding free_one
free_one-Loop p r v = elim (Bool-cases (r.type == boot_mem_usable)) [
  | inl e ↦ rw (e, free_one) (mark_range_free-Loop p r.base r.length v)
  | inr e ↦ rw (e, free_one) (record { valid = v; shape = SameShape-refl p })
]

reserve_one-Loop : (p : PmmState) (r : BootMemRegion) → IsValid p → Loop p (reserve_one p r)
unfolding reserve_one
reserve_one-Loop p r v = elim (Bool-cases (r.type == boot_mem_usable)) [
  | inl e ↦ rw (e, reserve_one) (record { valid = v; shape = SameShape-refl p })
  | inr e ↦ rw (e, reserve_one) (mark_range_used-Loop p r.base r.length v)
]

-- A pass over the map: it stays valid, and changes the free frames as the regions say.
record Freed (p : PmmState) (rs : List BootMemRegion) (q : PmmState) : Type 0 where
  loop : Loop p q
  frames : (g : ℕ) → is_free q g ≡ (is_free p g || (usable rs g && ltb g p.frame_count))

record Claimed (p : PmmState) (rs : List BootMemRegion) (q : PmmState) : Type 0 where
  loop : Loop p q
  frames : (g : ℕ) → is_free q g ≡ (is_free p g && not (claimed rs g))

Loop-trans : (p q r : PmmState) → Loop p q → Loop q r → Loop p r
Loop-trans p q r a b = record { valid = b.valid; shape = SameShape-trans p q r a.shape b.shape }

free_usable-Freed :
    (rs : List BootMemRegion) (p : PmmState)
    → IsValid p
    → AllShort rs
    → Freed p rs (free_usable p rs)
unfolding free_usable free_one
free_usable-Freed [] p v s = record {
  loop = record { valid = v; shape = SameShape-refl p };
  frames = λ g. ground arith;
}
free_usable-Freed (r ∷ rs) p v s =
    let one = free_one-Loop p r v in
    let rest = free_usable-Freed rs (free_one p r) one.valid s.1 in
    record {
      loop = Loop-trans p (free_one p r) _ one rest.loop;
      frames = λ g. ground (
        arith,
        rest.frames g,
        one.shape.frames,
        is_free-mark_range_free p r.base r.length v s.0 g,
      );
    }

reserve_other-Claimed :
    (rs : List BootMemRegion) (p : PmmState)
    → IsValid p
    → AllShort rs
    → Claimed p rs (reserve_other p rs)
unfolding reserve_other reserve_one
reserve_other-Claimed [] p v s = record {
  loop = record { valid = v; shape = SameShape-refl p };
  frames = λ g. ground arith;
}
reserve_other-Claimed (r ∷ rs) p v s =
    let one = reserve_one-Loop p r v in
    let rest = reserve_other-Claimed rs (reserve_one p r) one.valid s.1 in
    record {
      loop = Loop-trans p (reserve_one p r) _ one rest.loop;
      frames =
          λ g. ground (arith, rest.frames g, is_free-mark_range_used p r.base r.length v s.0 g);
    }

AllShort-Claimed-zero :
    (p : PmmState) (g : ℕ)
    → IsValid p
    → is_free (mark_range_used p 0 page_size) g ≡ (is_free p g && not (g == 0))
AllShort-Claimed-zero p g v =
    ground (arith, is_free-mark_range_used p 0 page_size v (omega arith) g)

ready-IsValid : (p : PmmState) → IsValid p → IsValid (record p { initialized = true })
ready-IsValid p v = record {
  covers = v.covers;
  counted = v.counted;
  total = v.total;
  size = v.size;
  small = v.small;
  hint = v.hint;
}

-- On a nonempty memory map that stays clear of the last page of the address space, a memory size
-- that is a nonzero multiple of the page size below 2^64, and storage for a bit per frame,
-- pmm_init_from_map succeeds with a valid allocator in which a frame is free exactly if it is
-- managed, is not frame 0, lies wholly in one usable region and has no byte in any other region.
pub pmm_init_from_map_lem :
    (r : BootMemRegion) (rs : List BootMemRegion) (storage : List ℕ)
    (storage_bytes max_phys_bytes : ℕ)
    → IsBootable storage storage_bytes max_phys_bytes
    → AllShort (r ∷ rs)
    → (q : PmmState) × (pmm_init_from_map (r ∷ rs) storage storage_bytes max_phys_bytes ≡ some q)
      × IsValid q
      × (q.initialized ≡ true)
      × ((g : ℕ)
          → is_free q g ≡ (
              ltb g (max_phys_bytes / page_size)
              && not (g == 0)
              && usable (r ∷ rs) g
              && not (claimed (r ∷ rs) g)))
unfolding pmm_init_from_map blank
pmm_init_from_map_lem r rs storage storage_bytes max_phys_bytes b s =
    let p0 = blank storage max_phys_bytes in
    let v0 = blank-IsValid storage storage_bytes max_phys_bytes b in
    let a = free_usable-Freed (r ∷ rs) p0 v0 s in
    let p1 = free_usable p0 (r ∷ rs) in
    let z = mark_range_used-Loop p1 0 page_size a.loop.valid in
    let p2 = mark_range_used p1 0 page_size in
    let c = reserve_other-Claimed (r ∷ rs) p2 z.valid s in
    let p3 = reserve_other p2 (r ∷ rs) in
    (
      record p3 { initialized = true },
      ground (arith, b),
      ready-IsValid p3 c.loop.valid,
      refl,
      λ g.
          c.frames g
          ∙ ground (
            arith,
            AllShort-Claimed-zero p1 g a.loop.valid,
            a.frames g,
            is_free-blank storage storage_bytes max_phys_bytes g b,
          ),
    )
