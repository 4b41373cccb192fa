-- ===== src/Pmm.antt =====
-- src/pmm.c and include/pmm.h: the allocator of physical page frames, one bit to a frame, 1 for a frame
-- in use. `pmm`, `regions` and `bitmap_storage` are values here, so their tests for NULL are left out.
pub mod Range
pub mod Init
pub mod Frames
pub mod Scan
pub mod Alloc
mod Tests
use acep_reja_mcsos.Bitmap.{bit_test, bit_clear, bit_set}
use acep_reja_mcsos.Common.{
  ℕ, List, ◌^◌, Bool, ◌-◌, add64, Option, if◌then◌else◌, ◌*◌, ◌%◌, ltb, leb, none, not, some, suc,
  ◌||◌, false, ◌+◌, ◌==◌, ◌/◌, true, zero, ◌≤◌, ◌<◌, min, bit_and, bit_or, ◌≡◌, refl, sym, ap, ◌∙◌,
  fun_ext, ◌≢◌, ◌↔◌, ◌⊎◌, inl, inr, ◌&&◌, [], ◌∷◌, ◌++◌, map, append_assoc, append-nil, arith,
  ltb→lt, lt→ltb, ==_iff, Bool-cases, Option-cases, all_below, all_below_sound, update, get_or, set,
  take, drop, replicate, length-append, length-set, length-replicate, get_or-set_self,
  get_or-set_ne, set-set_back, get_or-out, take-suc-set, get_or-set_default, get_or-replicate,
  take-append_left, take-append_right, take-all, u8_mod, u32_mod, u64_mod, add32, sub64,
}

abbrev pub page_size : ℕ
page_size = 4096

-- PMM_INVALID_FRAME
abbrev pub invalid_frame : ℕ
invalid_frame = 2 ^ 64 - 1

-- enum boot_mem_type: only BOOT_MEM_USABLE is told from the rest.
abbrev pub boot_mem_usable : ℕ
boot_mem_usable = 1

-- struct boot_mem_region
pub record BootMemRegion : Type 0 where
  pub base : ℕ
  pub length : ℕ
  pub type : ℕ

-- struct pmm_state
pub record PmmState : Type 0 where
  pub bitmap : List ℕ
  pub bitmap_bytes : ℕ
  pub max_phys : ℕ
  pub frame_count : ℕ
  pub free_frames : ℕ
  pub used_frames : ℕ
  pub reserved_frames : ℕ
  pub ignored_frames : ℕ
  pub next_hint : ℕ
  pub initialized : Bool

-- `value & ~(align - 1)` at PMM_PAGE_SIZE, the only alignment asked for
pub align_down : ℕ → ℕ
align_down value = value - value % page_size

-- `(value + align - 1) & ~(align - 1)`: the sum wraps
pub align_up : ℕ → ℕ
unfolding align_down
align_up value = align_down (add64 value (page_size - 1))

pub checked_add_u64 : ℕ → ℕ → Option ℕ
checked_add_u64 a b = if ltb (2 ^ 64 - 1 - a) b then none else some (a + b)

pub mark_frame_free : PmmState → ℕ → PmmState
mark_frame_free pmm frame =
    if leb pmm.frame_count frame
    then pmm
    else if bit_test pmm.bitmap frame
    then record pmm {
      bitmap = bit_clear pmm.bitmap frame;
      free_frames = add64 pmm.free_frames 1;
      used_frames = if ltb 0 pmm.used_frames then pmm.used_frames - 1 else pmm.used_frames;
      next_hint = if ltb frame pmm.next_hint then frame else pmm.next_hint;
    }
    else pmm

pub mark_frame_used : PmmState → ℕ → PmmState
mark_frame_used pmm frame =
    if leb pmm.frame_count frame
    then pmm
    else if bit_test pmm.bitmap frame
    then pmm
    else record pmm {
      bitmap = bit_set pmm.bitmap frame;
      free_frames = if ltb 0 pmm.free_frames then pmm.free_frames - 1 else pmm.free_frames;
      used_frames = add64 pmm.used_frames 1;
    }

pub pmm_free_count : PmmState → ℕ
pmm_free_count pmm = pmm.free_frames

pub pmm_used_count : PmmState → ℕ
pmm_used_count pmm = pmm.used_frames

pub pmm_frame_count : PmmState → ℕ
pmm_frame_count pmm = pmm.frame_count

-- The first frame of `n` from `frame` on that is not in use: the body of either loop of
-- `pmm_alloc_frame` up to its first hit.
pub scan_free : List ℕ → ℕ → ℕ → Option ℕ
scan_free bitmap zero frame = none
scan_free bitmap (suc n) frame =
    let rest = scan_free bitmap n (frame + 1) in if bit_test bitmap frame then rest else some frame

-- What both loops do at a hit.
pub take_frame : PmmState → ℕ → ℕ × PmmState
take_frame pmm frame =
    (frame * page_size, record (mark_frame_used pmm frame) { next_hint = add64 frame 1 })

pub pmm_alloc_frame : PmmState → ℕ × PmmState
pmm_alloc_frame pmm =
    if not pmm.initialized || pmm.free_frames == 0
    then (invalid_frame, pmm)
    else elim (scan_free pmm.bitmap (pmm.frame_count - pmm.next_hint) pmm.next_hint) [
      | some frame ↦ take_frame pmm frame
      | none ↦ elim (scan_free pmm.bitmap pmm.next_hint 0) [
        | some frame ↦ take_frame pmm frame
        | none ↦ (invalid_frame, pmm)
      ]
    ]

pub pmm_free_frame : PmmState → ℕ → Bool × PmmState
pmm_free_frame pmm phys_addr =
    if not pmm.initialized
    then (false, pmm)
    else if not (phys_addr % page_size == 0) || phys_addr == 0 || leb pmm.max_phys phys_addr
    then (false, pmm)
    else if bit_test pmm.bitmap (phys_addr / page_size)
    then (true, mark_frame_free pmm (phys_addr / page_size))
    else (false, pmm)

pub pmm_is_frame_free : PmmState → ℕ → Bool
pmm_is_frame_free pmm phys_addr =
    if not pmm.initialized
    then false
    else if not (phys_addr % page_size == 0) || leb pmm.max_phys phys_addr
    then false
    else not (bit_test pmm.bitmap (phys_addr / page_size))
