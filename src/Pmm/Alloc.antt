-- ===== src/Pmm/Alloc.antt =====
-- pmm_alloc_frame and pmm_free_frame: what they return and what becomes of every frame.
use acep_reja_mcsos.Bitmap.Count.{count_clear-pos}
use acep_reja_mcsos.Pmm.Scan.{scan_free-miss, scan_free-hit}
use acep_reja_mcsos.Pmm.Frames.{
  IsValid, SameShape, mark_frame_used-IsValid, is_free, mark_frame_used-SameShape,
  is_free-mark_frame_used, mark_frame_free-IsValid, is_free-mark_frame_free,
}
use acep_reja_mcsos.Pmm.{
  PmmState, take_frame, pmm_alloc_frame, pmm_free_frame, invalid_frame, page_size, bit_test,
  scan_free, mark_frame_free,
}
use acep_reja_mcsos.Common.{
  ℕ, ◌-◌, ◌*◌, ◌/◌, ◌%◌, ◌<◌, ◌≡◌, refl, ◌∙◌, ◌⊎◌, inl, inr, Bool, true, false, not, ◌&&◌, ◌||◌,
  none, arith, ltb, ◌==◌, Bool-cases, Option-cases,
}

module _ (p : PmmState) (f : ℕ) (v : IsValid p) where
  -- The frame that is taken was free; the state stays valid, and only that frame changes.
  pub record Takes (q : PmmState) : Type 0 where
    pub valid : IsValid q
    pub shape : SameShape p q
    pub was_free : is_free p f ≡ true
    pub inside : f * page_size < p.max_phys
    pub others : (g : ℕ) → is_free q g ≡ (is_free p g && not (f == g))

  take_frame-Takes : f < p.frame_count → bit_test p.bitmap f ≡ false → Takes (take_frame p f).1
  unfolding take_frame
  take_frame-Takes lt clear =
      let m = mark_frame_used-IsValid p f v in
      let s = mark_frame_used-SameShape p f in
      record {
        valid = record {
          covers = m.covers;
          counted = m.counted;
          total = m.total;
          size = m.size;
          small = m.small;
          hint = omega (arith, s.frames, v.size, v.small);
        };
        shape = record { frames = s.frames; phys = s.phys; ready = s.ready; bytes = s.bytes };
        was_free = ground arith;
        inside = omega (arith, v.size);
        others = is_free-mark_frame_used p f v;
      }

-- The outcome of an allocation: the address of a frame that was free and is in use now, or, if no
-- frame is free, the invalid address and no change.
abbrev pub Allocates : PmmState → ℕ × PmmState → Type 0
Allocates p (a, q) =
    ((p.free_frames ≡ 0) × (a ≡ invalid_frame) × (q ≡ p))
    ⊎ ((f : ℕ) × (v : IsValid p) × (a ≡ f * page_size) × Takes p f v q)

take_frame-Allocates :
    (p : PmmState) (f : ℕ)
    → IsValid p
    → f < p.frame_count
    → bit_test p.bitmap f ≡ false
    → Allocates p (take_frame p f)
unfolding take_frame
take_frame-Allocates p f v lt clear =
    inr (f, v, refl, unfold take_frame in take_frame-Takes p f v lt clear)

-- On a valid, initialised allocator pmm_alloc_frame fails only if no frame is free; otherwise it
-- returns the address of a frame inside memory that was free, takes exactly that frame, and keeps
-- the allocator valid.
pub pmm_alloc_frame-Allocates :
    (p : PmmState) → IsValid p → p.initialized ≡ true → Allocates p (pmm_alloc_frame p)
unfolding pmm_alloc_frame
pmm_alloc_frame-Allocates p v ready = elim (Bool-cases (p.free_frames == 0)) [
  | inl e ↦
      let r : pmm_alloc_frame p ≡ (invalid_frame, p) = ground arith in
      rw r (inl (ground arith, refl, refl))
  | inr e ↦ elim (Option-cases (scan_free p.bitmap (p.frame_count - p.next_hint) p.next_hint)) [
    | inr (f, hit) ↦
        let found = scan_free-hit p.bitmap (p.frame_count - p.next_hint) p.next_hint f hit in
        let r : pmm_alloc_frame p ≡ take_frame p f = ground arith in
        rw r (take_frame-Allocates p f v (omega (arith, v.hint)) found.2)
    | inl miss ↦ elim (Option-cases (scan_free p.bitmap p.next_hint 0)) [
      | inr (f, hit) ↦
          let found = scan_free-hit p.bitmap p.next_hint 0 f hit in
          let r : pmm_alloc_frame p ≡ take_frame p f = ground arith in
          rw r (take_frame-Allocates p f v (omega (arith, v.hint)) found.2)
      | inl miss' ↦ absurd (
          count_clear-pos p.bitmap p.frame_count (ground (arith, v.counted))
            (all_set p v miss miss'))
    ]
  ]
]
  where
    all_set :
        (p : PmmState)
        → IsValid p
        → scan_free p.bitmap (p.frame_count - p.next_hint) p.next_hint ≡ none
        → scan_free p.bitmap p.next_hint 0 ≡ none
        → (i : ℕ) → i < p.frame_count
        → bit_test p.bitmap i ≡ true
    all_set p v miss miss' i h = elim (Bool-cases (ltb i p.next_hint)) [
      | inl low ↦ scan_free-miss p.bitmap p.next_hint 0 miss' i (omega arith) (ground arith)
      | inr high ↦
          scan_free-miss p.bitmap (p.frame_count - p.next_hint) p.next_hint miss i (ground arith)
            (omega (arith, v.hint))
    ]

-- The addresses that `pmm_free_frame` takes back: aligned, inside memory, not 0, and in use.
abbrev pub frees : PmmState → ℕ → Bool
frees p a =
    a % page_size == 0 && not (a == 0) && ltb a p.max_phys && bit_test p.bitmap (a / page_size)

-- On a valid, initialised allocator pmm_free_frame succeeds exactly on the aligned address of a
-- frame in use other than frame 0, frees exactly that frame then and nothing otherwise, and keeps
-- the allocator valid.
pub pmm_free_frame_lem :
    (p : PmmState) (a : ℕ)
    → IsValid p
    → p.initialized ≡ true
    → let (done, q) = pmm_free_frame p a in
      (done ≡ frees p a)
      × IsValid q
      × ((g : ℕ) → is_free q g ≡ (is_free p g || (frees p a && a / page_size == g)))
unfolding pmm_free_frame
pmm_free_frame_lem p a v ready = elim (Bool-cases (frees p a)) [
  | inl e ↦
      let r : pmm_free_frame p a ≡ (true, mark_frame_free p (a / page_size)) = ground arith in
      rw (r, e)
        (
          refl,
          mark_frame_free-IsValid p (a / page_size) v,
          λ g. is_free-mark_frame_free p (a / page_size) v g ∙ ground (arith, v.size),
        )
  | inr e ↦
      let r : pmm_free_frame p a ≡ (false, p) = ground arith in
      rw (r, e) (refl, v, λ g. ground arith)
]
