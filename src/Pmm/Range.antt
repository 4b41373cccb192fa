-- ===== src/Pmm/Range.antt =====
-- The functions of pmm.c on a range of bytes: mark_range_free, mark_range_used and
-- pmm_reserve_range. A loop over addresses `start`, `start + 4096`, … below `stop` runs once for each
-- page begun between the two.
pub mod Loops
pub mod Coverage
use acep_reja_mcsos.Common.{
  ℕ, suc, Bool, ◌/◌, ◌-◌, ◌+◌, zero, if◌then◌else◌, not, add64, ◌||◌, ◌==◌, false, true, none, some,
  leb, ltb, length,
}
use acep_reja_mcsos.Pmm.{
  PmmState, mark_frame_used, mark_frame_free, page_size, bit_test, checked_add_u64, align_up,
  align_down,
}

-- `for (addr = start; addr < stop; addr += PMM_PAGE_SIZE) mark_frame_free(pmm, addr / PMM_PAGE_SIZE)`
pub free_from : PmmState → ℕ → ℕ → PmmState
free_from pmm zero addr = pmm
free_from pmm (suc n) addr = free_from (mark_frame_free pmm (addr / page_size)) n (addr + page_size)

-- The body of the loop of `mark_range_used`.
pub reserve_frame : PmmState → ℕ → PmmState
reserve_frame pmm frame =
    let marked = mark_frame_used pmm frame in
    if bit_test pmm.bitmap frame
    then marked
    else record marked { reserved_frames = add64 marked.reserved_frames 1 }

pub reserve_from : PmmState → ℕ → ℕ → PmmState
reserve_from pmm zero addr = pmm
reserve_from pmm (suc n) addr =
    reserve_from (reserve_frame pmm (addr / page_size)) n (addr + page_size)

-- The rounds of either loop.
abbrev pub pages : ℕ → ℕ → ℕ
pages start stop = (stop - start + (page_size - 1)) / page_size

pub mark_range_free : PmmState → ℕ → ℕ → PmmState
mark_range_free pmm base length = if length == 0 then pmm else elim (checked_add_u64 base length) [
  | none ↦ pmm
  | some end ↦
      let start = align_up base in
      let stop = align_down end in
      if leb stop start
      then pmm
      else if leb pmm.max_phys start
      then pmm
      else if ltb pmm.max_phys stop
      then free_from
          (record pmm {
            ignored_frames = add64 pmm.ignored_frames ((stop - pmm.max_phys) / page_size);
          })
          (pages start pmm.max_phys) start
      else free_from pmm (pages start stop) start
]

pub mark_range_used : PmmState → ℕ → ℕ → PmmState
mark_range_used pmm base length = if length == 0 then pmm else elim (checked_add_u64 base length) [
  | none ↦ pmm
  | some end ↦
      let start = align_down base in
      let stop = align_up end in
      if leb stop start
      then pmm
      else if leb pmm.max_phys start
      then pmm
      else reserve_from pmm (pages start (if ltb pmm.max_phys stop then pmm.max_phys else stop))
          start
]

pub pmm_reserve_range : PmmState → ℕ → ℕ → Bool × PmmState
pmm_reserve_range pmm base length =
    if not pmm.initialized || length == 0
    then (false, pmm)
    else (true, mark_range_used pmm base length)
