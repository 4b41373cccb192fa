-- ===== src/Pmm/Frames.antt =====
-- What marking one frame does to the bitmap and the counters.
use acep_reja_mcsos.Bitmap.Count.{
  count_clear-bit_set, count_clear, count_clear-bit_clear, count_clear-le,
}
use acep_reja_mcsos.Bitmap.Tables.{
  length-bit_set, length-bit_clear, bit_test-bit_clear, bit_test-bit_set,
}
use acep_reja_mcsos.Common.{
  ◌∙◌, ◌≤◌, ◌&&◌, ◌≡◌, arith, not, length, refl, ◌==◌, ◌||◌, ◌*◌, ◌+◌, ◌^◌, ◌<◌,
}
use acep_reja_mcsos.Pmm.{
  PmmState, ℕ, Bool, mark_frame_free, mark_frame_used, ltb, bit_test, bit_clear, page_size,
}

-- The bitmap covers every frame, the counters tell how many frames are free and in use, and the hint
-- stays in range. Memory ends below 2 ^ 64.
pub record IsValid (pmm : PmmState) : Type 0 where
  pub covers : pmm.frame_count ≤ 8 * length pmm.bitmap
  pub counted : pmm.free_frames ≡ count_clear pmm.bitmap pmm.frame_count
  pub total : pmm.free_frames + pmm.used_frames ≡ pmm.frame_count
  pub size : pmm.max_phys ≡ pmm.frame_count * page_size
  pub small : pmm.max_phys < 2 ^ 64
  pub hint : pmm.next_hint ≤ pmm.frame_count

-- Whether frame `f` is one of the managed frames and free.
abbrev pub is_free : PmmState → ℕ → Bool
is_free pmm f = ltb f pmm.frame_count && not (bit_test pmm.bitmap f)

-- The parts of the state that marking a frame never touches.
pub record SameShape (p q : PmmState) : Type 0 where
  pub frames : q.frame_count ≡ p.frame_count
  pub phys : q.max_phys ≡ p.max_phys
  pub ready : q.initialized ≡ p.initialized
  pub bytes : length q.bitmap ≡ length p.bitmap

pub SameShape-trans : (p q r : PmmState) → SameShape p q → SameShape q r → SameShape p r
SameShape-trans p q r a b = record {
  frames = b.frames ∙ a.frames;
  phys = b.phys ∙ a.phys;
  ready = b.ready ∙ a.ready;
  bytes = b.bytes ∙ a.bytes;
}

pub SameShape-refl : (p : PmmState) → SameShape p p
SameShape-refl p = record { frames = refl; phys = refl; ready = refl; bytes = refl }

module _ (p : PmmState) (f : ℕ) where
  pub mark_frame_free-SameShape : SameShape p (mark_frame_free p f)
  unfolding mark_frame_free
  mark_frame_free-SameShape = record {
    frames = ground arith;
    phys = ground arith;
    ready = ground arith;
    bytes = ground (arith, length-bit_clear p.bitmap f);
  }

  pub mark_frame_used-SameShape : SameShape p (mark_frame_used p f)
  unfolding mark_frame_used
  mark_frame_used-SameShape = record {
    frames = ground arith;
    phys = ground arith;
    ready = ground arith;
    bytes = ground (arith, length-bit_set p.bitmap f);
  }

  -- Marking a frame as free or as used keeps the allocator valid.
  pub mark_frame_free-IsValid : IsValid p → IsValid (mark_frame_free p f)
  unfolding mark_frame_free
  mark_frame_free-IsValid v = ground (
    arith,
    length-bit_clear p.bitmap f,
    count_clear-bit_clear p.bitmap f p.frame_count,
    count_clear-le (bit_clear p.bitmap f) p.frame_count,
  )

  pub mark_frame_used-IsValid : IsValid p → IsValid (mark_frame_used p f)
  unfolding mark_frame_used
  mark_frame_used-IsValid v = ground (
    arith,
    length-bit_set p.bitmap f,
    count_clear-bit_set p.bitmap f p.frame_count,
    count_clear-le p.bitmap p.frame_count,
  )

  -- Exactly frame `f` becomes free, if it is a frame at all.
  pub is_free-mark_frame_free :
      IsValid p
      → (g : ℕ) → is_free (mark_frame_free p f) g ≡ (is_free p g || (f == g && ltb f p.frame_count))
  unfolding mark_frame_free
  is_free-mark_frame_free v g = ground (arith, bit_test-bit_clear p.bitmap f g)

  -- Exactly frame `f` stops being free.
  pub is_free-mark_frame_used :
      IsValid p → (g : ℕ) → is_free (mark_frame_used p f) g ≡ (is_free p g && not (f == g))
  unfolding mark_frame_used
  is_free-mark_frame_used v g = ground (arith, bit_test-bit_set p.bitmap f g)
