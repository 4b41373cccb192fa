-- ===== src/Pmm/Range/Coverage.antt =====
-- Freeing and reserving a range of bytes, frame by frame.
-- Frame `g` lies wholly inside the range; frame `g` has a byte in the range.
use acep_reja_mcsos.Pmm.Range.Loops.{
  is_free-free_from, Loop, ignored-IsValid, free_from-Loop, reserve_from-Loop, is_free-reserve_from,
}
use acep_reja_mcsos.Pmm.Range.{
  mark_range_free, pages, free_from, mark_range_used, pmm_reserve_range, reserve_from,
}
use acep_reja_mcsos.Pmm.Frames.{IsValid, is_free, SameShape-refl}
use acep_reja_mcsos.Pmm.{page_size, PmmState, checked_add_u64, align_up, align_down}
use acep_reja_mcsos.Common.{
  ℕ, ◌+◌, ◌-◌, ◌*◌, ◌/◌, ◌%◌, ◌^◌, ◌≤◌, ◌<◌, ◌≡◌, inl, inr, Bool, true, not, ◌&&◌, ◌||◌, arith, ltb,
  leb, ◌==◌, Bool-cases, Option-cases, length, add64, ◌⊎◌,
}

abbrev pub within : ℕ → ℕ → ℕ → Bool
within base length g = leb base (g * page_size) && leb ((g + 1) * page_size) (base + length)

abbrev pub touches : ℕ → ℕ → ℕ → Bool
touches base length g =
    not (length == 0) && ltb (g * page_size) (base + length) && ltb base ((g + 1) * page_size)

module _ (p : PmmState) (base length : ℕ) (v : IsValid p) where
  -- Whatever the range, freeing does nothing or frees some run of pages.
  mark_range_free_cases {ℓ} :
      (P : PmmState → Type ℓ)
      → P p
      → ((k n a : ℕ) → P (free_from (record p { ignored_frames = k }) n a))
      → P (mark_range_free p base length)
  unfolding mark_range_free
  mark_range_free_cases P same loop = elim (Bool-cases (length == 0)) [
    | inl e ↦ rw (e, mark_range_free) same
    | inr nz ↦ elim (Option-cases (checked_add_u64 base length)) [
      | inl e ↦ rw (nz, e, mark_range_free) same
      | inr (end, e) ↦ elim (Bool-cases (leb (align_down end) (align_up base))) [
        | inl h ↦ rw (nz, e, h, mark_range_free) same
        | inr h ↦ elim (Bool-cases (leb p.max_phys (align_up base))) [
          | inl h' ↦ rw (nz, e, h, h', mark_range_free) same
          | inr h' ↦ elim (Bool-cases (ltb p.max_phys (align_down end))) [
            | inl t ↦ rw (nz, e, h, h', t, mark_range_free) (loop _ _ _)
            | inr t ↦ rw (nz, e, h, h', t, mark_range_free) (loop p.ignored_frames _ _)
          ]
        ]
      ]
    ]
  ]

  -- Whatever the range, reserving does nothing or reserves some run of pages.
  mark_range_used_cases {ℓ} :
      (P : PmmState → Type ℓ)
      → P p
      → ((n a : ℕ) → P (reserve_from p n a))
      → P (mark_range_used p base length)
  unfolding mark_range_used
  mark_range_used_cases P same loop = elim (Bool-cases (length == 0)) [
    | inl e ↦ rw (e, mark_range_used) same
    | inr nz ↦ elim (Option-cases (checked_add_u64 base length)) [
      | inl e ↦ rw (nz, e, mark_range_used) same
      | inr (end, e) ↦ elim (Bool-cases (leb (align_up end) (align_down base))) [
        | inl h ↦ rw (nz, e, h, mark_range_used) same
        | inr h ↦ elim (Bool-cases (leb p.max_phys (align_down base))) [
          | inl h' ↦ rw (nz, e, h, h', mark_range_used) same
          | inr h' ↦ rw (nz, e, h, h', mark_range_used) (loop _ _)
        ]
      ]
    ]
  ]

  -- mark_range_free keeps a valid allocator valid and its size and memory as they were, whatever the
  -- range.
  pub mark_range_free-Loop : Loop p (mark_range_free p base length)
  mark_range_free-Loop =
      mark_range_free_cases (Loop p) (record { valid = v; shape = SameShape-refl p })
        λ k n a.
          let l = free_from-Loop (record p { ignored_frames = k }) n a (ignored-IsValid p k v) in
          record {
            valid = l.valid;
            shape = record {
              frames = l.shape.frames;
              phys = l.shape.phys;
              ready = l.shape.ready;
              bytes = l.shape.bytes;
            };
          }

  -- mark_range_used keeps a valid allocator valid and its size and memory as they were, whatever the
  -- range.
  pub mark_range_used-Loop : Loop p (mark_range_used p base length)
  mark_range_used-Loop =
      mark_range_used_cases (Loop p) (record { valid = v; shape = SameShape-refl p })
        λ n a. reserve_from-Loop p n a v

  -- On a valid allocator and a range that stays clear of the last page of the address space,
  -- mark_range_free frees exactly the managed frames that lie wholly inside the range.
  pub is_free-mark_range_free :
      base + length + page_size ≤ 2 ^ 64
      → (g : ℕ)
      → is_free (mark_range_free p base length) g
        ≡ (is_free p g || (within base length g && ltb g p.frame_count))
  unfolding mark_range_free checked_add_u64 align_up align_down
  is_free-mark_range_free small g =
      let n = (base + length - (base + length) % page_size - p.max_phys) / page_size in
      let start = add64 base (page_size - 1) - add64 base (page_size - 1) % page_size in
      ground (
        arith,
        v.size,
        is_free-free_from p (pages start (align_down (base + length))) start g v,
        is_free-free_from (record p { ignored_frames = add64 p.ignored_frames n })
            (pages start p.max_phys) start g (ignored-IsValid p (add64 p.ignored_frames n) v),
      )

  -- On a valid allocator and a range that stays clear of the last page of the address space,
  -- mark_range_used takes exactly the frames with a byte in the range out of the free ones.
  pub is_free-mark_range_used :
      base + length + page_size ≤ 2 ^ 64
      → (g : ℕ)
      → is_free (mark_range_used p base length) g ≡ (is_free p g && not (touches base length g))
  unfolding mark_range_used checked_add_u64 align_up align_down
  is_free-mark_range_used small g =
      let start = base - base % page_size in
      let stop = align_up (base + length) in
      ground (
        arith,
        v.size,
        is_free-reserve_from p (pages start stop) start g v,
        is_free-reserve_from p (pages start p.max_phys) start g v,
      )

  over-unchanged : 2 ^ 64 ≤ base + length → mark_range_free p base length ≡ p
  unfolding mark_range_free checked_add_u64
  over-unchanged over = ground arith

  wraps-free :
      2 ^ 64 < base + page_size
      → 0 < length
      → base + length < 2 ^ 64
      → (g : ℕ) → g < p.frame_count
      → is_free (mark_range_free p base length) g ≡ true
  unfolding mark_range_free checked_add_u64 align_up align_down
  wraps-free last some_bytes fits g lt =
      let n = (base + length - (base + length) % page_size - p.max_phys) / page_size in
      let k = add64 p.ignored_frames n in
      ground (
        arith,
        v.size,
        v.small,
        is_free-free_from p (pages 0 (align_down (base + length))) 0 g v,
        is_free-free_from (record p { ignored_frames = k }) (pages 0 p.max_phys) 0 g
            (ignored-IsValid p k v),
      )

  -- On a valid allocator, mark_range_free of a nonempty range that begins in the last page of the
  -- address space, after its first byte: if base + length is below 2 ^ 64, every managed frame is free
  -- afterwards, wherever the range lies; otherwise nothing changes.
  pub mark_range_free-wraps :
      2 ^ 64 < base + page_size
      → 0 < length
      → (g : ℕ) → g < p.frame_count
      → ((base + length < 2 ^ 64) × (is_free (mark_range_free p base length) g ≡ true))
        ⊎ ((2 ^ 64 ≤ base + length) × (mark_range_free p base length ≡ p))
  mark_range_free-wraps last some_bytes g lt = elim (Bool-cases (ltb (base + length) (2 ^ 64))) [
    | inl y ↦
        let fits : base + length < 2 ^ 64 = ground arith in
        inl (fits, wraps-free last some_bytes fits g lt)
    | inr y ↦ let over : 2 ^ 64 ≤ base + length = ground arith in inr (over, over-unchanged over)
  ]

-- On an initialised allocator, pmm_reserve_range of a nonempty range that ends in the last page of
-- the address space, after its first byte, reports success and changes nothing.
pub pmm_reserve_range-wraps :
    (p : PmmState) (base length : ℕ)
    → p.initialized ≡ true
    → 0 < length
    → 2 ^ 64 < base + length + page_size
    → base + length < 2 ^ 64
    → pmm_reserve_range p base length ≡ (true, p)
unfolding pmm_reserve_range mark_range_used checked_add_u64 align_up align_down
pmm_reserve_range-wraps p base length ready some_bytes last fits = ground arith
