-- ===== src/Pmm/Tests.antt =====
-- The allocator on small memories.
use acep_reja_mcsos.Pmm.Range.Coverage.{within, mark_range_free-wraps, is_free-mark_range_free}
use acep_reja_mcsos.Pmm.Init.{pmm_init_from_map}
use acep_reja_mcsos.Pmm.Range.{mark_range_free}
use acep_reja_mcsos.Pmm.Frames.{is_free, IsValid}
use acep_reja_mcsos.Pmm.Init.Boot.{IsBootable, usable, claimed, pmm_init_from_map_lem}
use acep_reja_mcsos.Pmm.Alloc.{Allocates, pmm_alloc_frame-Allocates, frees, pmm_free_frame_lem}
use acep_reja_mcsos.Bitmap.Count.{count_clear}
use acep_reja_mcsos.Pmm.{
  pmm_free_frame, PmmState, pmm_alloc_frame, BootMemRegion, take_frame, scan_free, page_size,
}
use acep_reja_mcsos.Common.{
  ℕ, ◌+◌, ◌/◌, ◌^◌, ◌≤◌, ◌<◌, ◌≡◌, refl, ◌⊎◌, true, not, ◌&&◌, ◌||◌, some, List, [], ◌∷◌, arith,
  ltb, ◌==◌,
}
use acep_reja_mcsos.Bitmap.{bit_test, byte_test}

-- Eight frames, of which 0 and 2 are in use.
abbrev two_used : PmmState
two_used = record {
  bitmap = 5 ∷ [];
  bitmap_bytes = 1;
  max_phys = 32768;
  frame_count = 8;
  free_frames = 6;
  used_frames = 2;
  reserved_frames = 0;
  ignored_frames = 0;
  next_hint = 1;
  initialized = true;
}

two_used-IsValid : IsValid two_used
unfolding count_clear bit_test byte_test
two_used-IsValid = record {
  covers = omega arith;
  counted = refl;
  total = refl;
  size = refl;
  small = omega arith;
  hint = omega arith;
}

-- The first frame from the hint on that is free is taken.
two_used_alloc : (pmm_alloc_frame two_used).0 ≡ 4096
unfolding pmm_alloc_frame take_frame scan_free bit_test byte_test
two_used_alloc = refl

-- Sixteen frames of usable memory with a hole of 100 bytes at 8192.
abbrev all_memory : BootMemRegion
all_memory = record { base = 0; length = 65536; type = 1 }

abbrev device_hole : BootMemRegion
device_hole = record { base = 8192; length = 100; type = 2 }

abbrev storage : List ℕ
storage = 0 ∷ 0 ∷ []

storage-IsBootable : IsBootable storage 2 65536
storage-IsBootable = record {
  some_memory = omega arith;
  aligned = refl;
  addressable = omega arith;
  enough = omega arith;
  present = omega arith;
}

pmm_init_from_map_lem_example :
    (q : PmmState) × (pmm_init_from_map (all_memory ∷ device_hole ∷ []) storage 2 65536 ≡ some q)
    × IsValid q
    × (q.initialized ≡ true)
    × ((g : ℕ)
        → is_free q g ≡ (
            ltb g (65536 / page_size)
            && not (g == 0)
            && usable (all_memory ∷ device_hole ∷ []) g
            && not (claimed (all_memory ∷ device_hole ∷ []) g)))
pmm_init_from_map_lem_example =
    pmm_init_from_map_lem all_memory (device_hole ∷ []) storage 2 65536 storage-IsBootable
      (omega arith, (omega arith, tt))

pmm_alloc_frame-Allocates_example : Allocates two_used (pmm_alloc_frame two_used)
pmm_alloc_frame-Allocates_example = pmm_alloc_frame-Allocates two_used two_used-IsValid refl

pmm_free_frame_lem_example :
    let (done, q) = pmm_free_frame two_used 8192 in
    (done ≡ frees two_used 8192)
    × IsValid q
    × ((g : ℕ)
        → is_free q g ≡ (is_free two_used g || (frees two_used 8192 && 8192 / page_size == g)))
pmm_free_frame_lem_example = pmm_free_frame_lem two_used 8192 two_used-IsValid refl

is_free-mark_range_free_example :
    is_free (mark_range_free two_used 5000 10000) 2
    ≡ (is_free two_used 2 || (within 5000 10000 2 && ltb 2 8))
is_free-mark_range_free_example =
    is_free-mark_range_free two_used 5000 10000 two_used-IsValid (omega arith) 2

mark_range_free-wraps_example :
    ((18446744073709551000 + 100 < 2 ^ 64)
      × (is_free (mark_range_free two_used 18446744073709551000 100) 2 ≡ true))
    ⊎ ((2 ^ 64 ≤ 18446744073709551000 + 100)
        × (mark_range_free two_used 18446744073709551000 100 ≡ two_used))
mark_range_free-wraps_example =
    mark_range_free-wraps two_used 18446744073709551000 100 two_used-IsValid (omega arith)
      (omega arith) 2 (omega arith)
