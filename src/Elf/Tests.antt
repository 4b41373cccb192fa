-- ===== src/Elf/Tests.antt =====
-- An executable with one segment.
use acep_reja_mcsos.Elf.Plan.{proceed}
use acep_reja_mcsos.Elf.Admission.{Admitted, plan_load-ok_iff}
use acep_reja_mcsos.Elf.Soundness.{read_phdr-in_image}
use acep_reja_mcsos.Elf.Plan.{
  plan_load, validate_header, plan_segments, plan_segment, checked, finish,
}
use acep_reja_mcsos.Elf.Ranges.{FitsPhdr, InRegion, IsLoadable, validate_load_segment-ok_iff}
use acep_reja_mcsos.Elf.{
  Phdr, ProcessImagePlan, validate_load_segment, read_ehdr, UserRegion, segment_of, validate_ident,
  ok, load, phdr_size, validate_phdr_bounds, validate_user_range, range_status, add_overflow_u64,
  read_phdr,
}
use acep_reja_mcsos.Common.{
  ℕ, ◌+◌, ◌*◌, ◌/◌, ◌%◌, ◌≤◌, ◌<◌, ◌≡◌, refl, ◌≢◌, ◌↔◌, List, [], ◌∷◌, ◌++◌, arith, length,
  replicate,
}

-- A number of 8 bytes that is below 2 ^ 16.
abbrev word : ℕ → List ℕ
word n = n % 256 ∷ n / 256 ∷ replicate 6 0

abbrev tiny_header : List ℕ
tiny_header =
    127 ∷ 69 ∷ 76 ∷ 70 ∷ 2 ∷ 1 ∷ 1 ∷ replicate 9 0
    ++ (2 ∷ 0 ∷ 62 ∷ 0 ∷ 1 ∷ 0 ∷ 0 ∷ 0 ∷ [])
    ++ word 4096
    ++ word 64
    ++ replicate 12 0
    ++ (64 ∷ 0 ∷ 56 ∷ 0 ∷ 1 ∷ 0 ∷ replicate 6 0)

abbrev tiny_image : List ℕ
tiny_image =
    tiny_header
    ++ (1 ∷ 0 ∷ 0 ∷ 0 ∷ 5 ∷ 0 ∷ 0 ∷ 0 ∷ [])
    ++ word 0
    ++ word 4096
    ++ word 0
    ++ word 120
    ++ word 4096
    ++ word 0

abbrev user_region : UserRegion
user_region = record { base = 4096; limit = 65536 }

abbrev tiny_segment : Phdr
tiny_segment = record {
  p_type = 1;
  p_flags = 5;
  p_offset = 0;
  p_vaddr = 4096;
  p_paddr = 0;
  p_filesz = 120;
  p_memsz = 4096;
  p_align = 0;
}

abbrev tiny_plan : ProcessImagePlan
tiny_plan = record { entry = 4096; segments = segment_of tiny_segment ∷ [] }

tiny_admitted : plan_load tiny_image user_region ≡ (ok, tiny_plan)
unfolding plan_load validate_header validate_ident validate_phdr_bounds read_ehdr load
    validate_user_range range_status add_overflow_u64 plan_segments plan_segment read_phdr checked
    validate_load_segment finish proceed
tiny_admitted = refl

tiny_header_lem : validate_header (read_ehdr tiny_image) (length tiny_image) user_region ≡ ok
unfolding validate_header validate_ident validate_phdr_bounds read_ehdr load validate_user_range
    range_status add_overflow_u64
tiny_header_lem = refl

plan_load-ok_iff_example :
    (plan_load tiny_image user_region ≡ (ok, tiny_plan)) ↔ Admitted tiny_image user_region tiny_plan
plan_load-ok_iff_example =
    plan_load-ok_iff tiny_image user_region (omega arith) (omega arith) tiny_plan

one_header : 0 < (read_ehdr tiny_image).e_phnum
unfolding read_ehdr load
one_header = omega arith

read_phdr-in_image_example :
    ((read_ehdr tiny_image).e_phoff + phdr_size * 0 + phdr_size ≤ length tiny_image)
    × InRegion user_region (read_ehdr tiny_image).e_entry 1
read_phdr-in_image_example =
    read_phdr-in_image tiny_image user_region 0 (omega arith) tiny_header_lem one_header

-- The same image cut off after its header.
cut_refused : (plan_load tiny_header user_region).0 ≢ ok
unfolding plan_load validate_header validate_ident validate_phdr_bounds read_ehdr load
    validate_user_range range_status add_overflow_u64 proceed
cut_refused = λ h. cc

tiny_segment-FitsPhdr : FitsPhdr tiny_segment
tiny_segment-FitsPhdr = record {
  offset = omega arith;
  vaddr = omega arith;
  filesz = omega arith;
  memsz = omega arith;
}

validate_load_segment-ok_iff_example :
    (validate_load_segment tiny_segment 120 user_region ≡ ok)
    ↔ IsLoadable tiny_segment 120 user_region
validate_load_segment-ok_iff_example =
    validate_load_segment-ok_iff tiny_segment 120 user_region tiny_segment-FitsPhdr (omega arith)
      (omega arith)
