-- ===== src/Pmm/Init.antt =====
-- pmm_init_from_map: the allocator built from the memory map of the boot loader.
pub mod Boot
use acep_reja_mcsos.Pmm.Range.{mark_range_free, mark_range_used}
use acep_reja_mcsos.Common.{
  ℕ, List, suc, [], ◌∷◌, false, Option, none, zero, ◌/◌, ◌+◌, if◌then◌else◌, ◌==◌, ◌||◌, not, ◌%◌,
  ltb, some, true, length,
}
use acep_reja_mcsos.Pmm.{PmmState, BootMemRegion, page_size, boot_mem_usable}

-- `for (i = 0; i < n; i++) storage[i] = 0xff;`
pub fill_ff : ℕ → List ℕ → List ℕ
fill_ff zero xs = xs
fill_ff (suc n) [] = []
fill_ff (suc n) (x ∷ xs) = 255 ∷ fill_ff n xs

-- First pass: what the map calls usable becomes free.
pub free_usable : PmmState → List BootMemRegion → PmmState
free_usable pmm [] = pmm
free_usable pmm (r ∷ rs) =
    free_usable (if r.type == boot_mem_usable then mark_range_free pmm r.base r.length else pmm) rs

-- Second pass: what it calls anything else is taken back.
pub reserve_other : PmmState → List BootMemRegion → PmmState
reserve_other pmm [] = pmm
reserve_other pmm (r ∷ rs) =
    reserve_other (if r.type == boot_mem_usable then pmm else mark_range_used pmm r.base r.length)
      rs

-- The state before the first pass: every frame in use.
pub blank : List ℕ → ℕ → PmmState
blank storage max_phys_bytes = record {
  bitmap = fill_ff ((max_phys_bytes / page_size + 7) / 8) storage;
  bitmap_bytes = (max_phys_bytes / page_size + 7) / 8;
  max_phys = max_phys_bytes;
  frame_count = max_phys_bytes / page_size;
  free_frames = 0;
  used_frames = max_phys_bytes / page_size;
  reserved_frames = 0;
  ignored_frames = 0;
  next_hint = 0;
  initialized = false;
}

pub zero_state : PmmState
zero_state = record {
  bitmap = [];
  bitmap_bytes = 0;
  max_phys = 0;
  frame_count = 0;
  free_frames = 0;
  used_frames = 0;
  reserved_frames = 0;
  ignored_frames = 0;
  next_hint = 0;
  initialized = false;
}

-- `none` is a refusal, which leaves the state as it was.
pub pmm_init_from_map : List BootMemRegion → List ℕ → ℕ → ℕ → Option PmmState
pmm_init_from_map [] storage storage_bytes max_phys_bytes = none
pmm_init_from_map (r ∷ rs) storage storage_bytes max_phys_bytes =
    if max_phys_bytes == 0 || not (max_phys_bytes % page_size == 0)
    then none
    else if ltb storage_bytes ((max_phys_bytes / page_size + 7) / 8)
    then none
    else let freed = free_usable (blank storage max_phys_bytes) (r ∷ rs) in
      some
        (record (reserve_other (mark_range_used freed 0 page_size) (r ∷ rs)) { initialized = true })
