-- ===== src/Pmm/Range/Loops.antt =====
-- The loops over the pages of a range: what they do to each frame.
use acep_reja_mcsos.Pmm.Frames.{
  IsValid, SameShape, mark_frame_used-SameShape, is_free, SameShape-refl, mark_frame_used-IsValid,
  is_free-mark_frame_used, SameShape-trans, mark_frame_free-IsValid, mark_frame_free-SameShape,
  is_free-mark_frame_free,
}
use acep_reja_mcsos.Pmm.{PmmState, page_size, bit_test, mark_frame_free}
use acep_reja_mcsos.Pmm.Range.{free_from, reserve_from, reserve_frame}
use acep_reja_mcsos.Common.{
  ℕ, zero, suc, ◌+◌, ◌/◌, ◌≡◌, inl, inr, Bool, not, ◌&&◌, ◌||◌, arith, ltb, leb, ◌==◌, Bool-cases,
}

abbrev pub between : ℕ → ℕ → ℕ → Bool
between first n g = leb first g && ltb g (first + n)

pub ignored-IsValid : (p : PmmState) (n : ℕ) → IsValid p → IsValid (record p { ignored_frames = n })
ignored-IsValid p n v = record {
  covers = v.covers;
  counted = v.counted;
  total = v.total;
  size = v.size;
  small = v.small;
  hint = v.hint;
}

pub reserved-IsValid :
    (p : PmmState) (n : ℕ) → IsValid p → IsValid (record p { reserved_frames = n })
reserved-IsValid p n v = record {
  covers = v.covers;
  counted = v.counted;
  total = v.total;
  size = v.size;
  small = v.small;
  hint = v.hint;
}

reserve_frame-IsValid : (p : PmmState) (f : ℕ) → IsValid p → IsValid (reserve_frame p f)
unfolding reserve_frame
reserve_frame-IsValid p f v = elim (Bool-cases (bit_test p.bitmap f)) [
  | inl e ↦ rw (e, reserve_frame) (mark_frame_used-IsValid p f v)
  | inr e ↦ rw (e, reserve_frame) (reserved-IsValid _ _ (mark_frame_used-IsValid p f v))
]

reserve_frame-SameShape : (p : PmmState) (f : ℕ) → SameShape p (reserve_frame p f)
unfolding reserve_frame
reserve_frame-SameShape p f =
    let s = mark_frame_used-SameShape p f in
    record {
      frames = ground (arith, s.frames);
      phys = ground (arith, s.phys);
      ready = ground (arith, s.ready);
      bytes = ground (arith, s.bytes);
    }

is_free-reserve_frame :
    (p : PmmState) (f : ℕ)
    → IsValid p
    → (g : ℕ) → is_free (reserve_frame p f) g ≡ (is_free p g && not (f == g))
unfolding reserve_frame
is_free-reserve_frame p f v g = ground (arith, is_free-mark_frame_used p f v g)

-- What a loop over `n` pages leaves: a valid state of the same shape.
pub record Loop (p q : PmmState) : Type 0 where
  pub valid : IsValid q
  pub shape : SameShape p q

pub free_from-Loop : (p : PmmState) (n addr : ℕ) → IsValid p → Loop p (free_from p n addr)
unfolding free_from
free_from-Loop p zero addr v = record { valid = v; shape = SameShape-refl p }
free_from-Loop p (suc n) addr v =
    let l =
      free_from-Loop (mark_frame_free p (addr / page_size)) n (addr + page_size)
        (mark_frame_free-IsValid p (addr / page_size) v) in
    record {
      valid = l.valid;
      shape =
          SameShape-trans p (mark_frame_free p (addr / page_size)) _
            (mark_frame_free-SameShape p (addr / page_size)) l.shape;
    }

pub reserve_from-Loop : (p : PmmState) (n addr : ℕ) → IsValid p → Loop p (reserve_from p n addr)
unfolding reserve_from
reserve_from-Loop p zero addr v = record { valid = v; shape = SameShape-refl p }
reserve_from-Loop p (suc n) addr v =
    let l =
      reserve_from-Loop (reserve_frame p (addr / page_size)) n (addr + page_size)
        (reserve_frame-IsValid p (addr / page_size) v) in
    record {
      valid = l.valid;
      shape =
          SameShape-trans p (reserve_frame p (addr / page_size)) _
            (reserve_frame-SameShape p (addr / page_size)) l.shape;
    }

pub is_free-free_from :
    (p : PmmState) (n addr g : ℕ)
    → IsValid p
    → is_free (free_from p n addr) g
      ≡ (is_free p g || (between (addr / page_size) n g && ltb g p.frame_count))
unfolding free_from
is_free-free_from p zero addr g v = ground arith
is_free-free_from p (suc n) addr g v = ground (
  arith,
  is_free-free_from (mark_frame_free p (addr / page_size)) n (addr + page_size) g
      (mark_frame_free-IsValid p (addr / page_size) v),
  is_free-mark_frame_free p (addr / page_size) v g,
  (mark_frame_free-SameShape p (addr / page_size)).frames,
)

pub is_free-reserve_from :
    (p : PmmState) (n addr g : ℕ)
    → IsValid p
    → is_free (reserve_from p n addr) g ≡ (is_free p g && not (between (addr / page_size) n g))
unfolding reserve_from
is_free-reserve_from p zero addr g v = ground arith
is_free-reserve_from p (suc n) addr g v = ground (
  arith,
  is_free-reserve_from (reserve_frame p (addr / page_size)) n (addr + page_size) g
      (reserve_frame-IsValid p (addr / page_size) v),
  is_free-reserve_frame p (addr / page_size) v g,
)
