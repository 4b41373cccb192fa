-- ===== src/Elf.antt =====
-- kernel/user/m11_elf_loader.c and include/mcsos/user/m11_elf_loader.h: an ELF image and the checks
-- of its parts; `Plan` has the loader itself. The image is its bytes, `image_size` is their number,
-- and the structs are read from the bytes where they lie, little-endian. The tests for NULL are left
-- out.
pub mod Ranges
pub mod Plan
pub mod Soundness
pub mod Segments
pub mod Admission
mod Tests
use acep_reja_mcsos.Common.{
  ℕ, zero, suc, ◌+◌, ◌-◌, ◌*◌, ◌/◌, ◌%◌, ◌^◌, bit_and, Bool, not, ◌&&◌, ◌||◌, Option, none, some,
  List, [], ltb, leb, ◌==◌, if◌then◌else◌, get_or, take, u8_mod, u64_mod, add64, ◌≤◌, ◌<◌, min,
  bit_or, ◌≡◌, refl, sym, ap, ◌∙◌, fun_ext, ◌≢◌, ◌↔◌, ◌⊎◌, inl, inr, true, false, ◌∷◌, ◌++◌, map,
  append_assoc, append-nil, arith, ltb→lt, lt→ltb, ==_iff, Bool-cases, Option-cases, all_below,
  all_below_sound, update, length, set, drop, replicate, length-append, length-set,
  length-replicate, get_or-set_self, get_or-set_ne, set-set_back, get_or-out, take-suc-set,
  get_or-set_default, get_or-replicate, take-append_left, take-append_right, take-all, u32_mod,
  add32, sub64,
}

-- M11_OK and the M11_ERR codes.
pub data Status : Type 0 where
  ok : Status
  err_size err_magic err_class err_endian err_version err_type err_machine err_ehsize : Status
  err_phentsize err_phbounds err_align err_segbounds err_segrange err_segcount : Status
  err_entry err_flags : Status

abbrev pub max_load_segments : ℕ
max_load_segments = 8

abbrev pub ehdr_size : ℕ
ehdr_size = 64

abbrev pub phdr_size : ℕ
phdr_size = 56

-- M11_PT_LOAD
abbrev pub pt_load : ℕ
pt_load = 1

-- struct m11_elf64_ehdr
pub record Ehdr : Type 0 where
  pub e_ident : List ℕ
  pub e_type : ℕ
  pub e_machine : ℕ
  pub e_version : ℕ
  pub e_entry : ℕ
  pub e_phoff : ℕ
  pub e_shoff : ℕ
  pub e_flags : ℕ
  pub e_ehsize : ℕ
  pub e_phentsize : ℕ
  pub e_phnum : ℕ
  pub e_shentsize : ℕ
  pub e_shnum : ℕ
  pub e_shstrndx : ℕ

-- struct m11_elf64_phdr
pub record Phdr : Type 0 where
  pub p_type : ℕ
  pub p_flags : ℕ
  pub p_offset : ℕ
  pub p_vaddr : ℕ
  pub p_paddr : ℕ
  pub p_filesz : ℕ
  pub p_memsz : ℕ
  pub p_align : ℕ

-- struct m11_user_region
pub record UserRegion : Type 0 where
  pub base : ℕ
  pub limit : ℕ

-- struct m11_segment_plan
pub record SegmentPlan : Type 0 where
  pub file_offset : ℕ
  pub vaddr : ℕ
  pub filesz : ℕ
  pub memsz : ℕ
  pub align : ℕ
  pub flags : ℕ

-- struct m11_process_image_plan: the segments up to `segment_count`. Those past it stay zero.
pub record ProcessImagePlan : Type 0 where
  pub entry : ℕ
  pub segments : List SegmentPlan

-- The `k` bytes from `at` on as a number.
pub load : ℕ → List ℕ → ℕ → ℕ
load zero image at = 0
load (suc k) image at = get_or image at 0 % u8_mod + 256 * load k image (at + 1)

pub read_ehdr : List ℕ → Ehdr
read_ehdr image = record {
  e_ident = take 16 image;
  e_type = load 2 image 16;
  e_machine = load 2 image 18;
  e_version = load 4 image 20;
  e_entry = load 8 image 24;
  e_phoff = load 8 image 32;
  e_shoff = load 8 image 40;
  e_flags = load 4 image 48;
  e_ehsize = load 2 image 52;
  e_phentsize = load 2 image 54;
  e_phnum = load 2 image 56;
  e_shentsize = load 2 image 58;
  e_shnum = load 2 image 60;
  e_shstrndx = load 2 image 62;
}

pub read_phdr : List ℕ → ℕ → Phdr
read_phdr image at = record {
  p_type = load 4 image at;
  p_flags = load 4 image (at + 4);
  p_offset = load 8 image (at + 8);
  p_vaddr = load 8 image (at + 16);
  p_paddr = load 8 image (at + 24);
  p_filesz = load 8 image (at + 32);
  p_memsz = load 8 image (at + 40);
  p_align = load 8 image (at + 48);
}

pub add_overflow_u64 : ℕ → ℕ → Option ℕ
add_overflow_u64 a b = if ltb (add64 a b) a then none else some (add64 a b)

pub is_power_of_two_u64 : ℕ → Bool
is_power_of_two_u64 v = not (v == 0) && bit_and v (v - 1) == 0

abbrev pub zero_plan : ProcessImagePlan
zero_plan = record { entry = 0; segments = [] }

-- Past the overflow check, with the end of the range.
range_status : UserRegion → ℕ → ℕ → Status
range_status region base end =
    if ltb base region.base || ltb region.limit end || leb end base then err_segrange else ok

pub validate_user_range : UserRegion → ℕ → ℕ → Status
validate_user_range region base size =
    if leb region.limit region.base
    then err_segrange
    else if size == 0
    then err_segrange
    else elim (add_overflow_u64 base size) [
      | none ↦ err_segrange
      | some end ↦ range_status region base end
    ]

-- The magic is 0x7f, 'E', 'L', 'F'.
pub validate_ident : Ehdr → Status
validate_ident eh =
    let at : ℕ → ℕ = λ i. get_or eh.e_ident i 0 % u8_mod in
    if not (at 0 == 127 && (at 1 == 69 && (at 2 == 76 && at 3 == 70)))
    then err_magic
    else if not (at 4 == 2)
    then err_class
    else if not (at 5 == 1)
    then err_endian
    else if not (at 6 == 1) || not (eh.e_version == 1)
    then err_version
    else ok

pub validate_phdr_bounds : Ehdr → ℕ → Status
validate_phdr_bounds eh image_size =
    let ph_table_bytes = eh.e_phentsize * eh.e_phnum % u64_mod in
    if eh.e_phnum == 0
    then err_phbounds
    else if not (eh.e_phentsize == phdr_size)
    then err_phentsize
    else if not (ph_table_bytes / eh.e_phnum == eh.e_phentsize)
    then err_phbounds
    else elim (add_overflow_u64 eh.e_phoff ph_table_bytes) [
      | none ↦ err_phbounds
      | some ph_end ↦
          if ltb image_size ph_end || ltb image_size eh.e_phoff then err_phbounds else ok
    ]

-- `~(R | W | X)` on 32 bits leaves all but the low three.
abbrev pub flags_ok : ℕ → Bool
flags_ok f = bit_and f (2 ^ 32 - 8) == 0 && not (not (bit_and f 2 == 0) && not (bit_and f 1 == 0))

abbrev pub align_ok : ℕ → ℕ → ℕ → Bool
align_ok align vaddr offset =
    align == 0 || (align == 1 || (is_power_of_two_u64 align && vaddr % align == offset % align))

pub validate_load_segment : Phdr → ℕ → UserRegion → Status
validate_load_segment ph image_size region =
    if not (flags_ok ph.p_flags)
    then err_flags
    else if ltb ph.p_memsz ph.p_filesz
    then err_segbounds
    else if not (align_ok ph.p_align ph.p_vaddr ph.p_offset)
    then err_align
    else elim (add_overflow_u64 ph.p_offset ph.p_filesz) [
      | none ↦ err_segbounds
      | some file_end ↦
          if ltb image_size file_end || ltb image_size ph.p_offset
          then err_segbounds
          else validate_user_range region ph.p_vaddr ph.p_memsz
    ]

abbrev pub segment_of : Phdr → SegmentPlan
segment_of ph = record {
  file_offset = ph.p_offset;
  vaddr = ph.p_vaddr;
  filesz = ph.p_filesz;
  memsz = ph.p_memsz;
  align = ph.p_align;
  flags = ph.p_flags;
}
