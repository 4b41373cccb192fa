-- ===== src/Elf/Soundness.antt =====
-- What the checks of the header give, and the plan after a refusal.
use acep_reja_mcsos.Elf.Plan.{validate_header, plan_load, finish, proceed, plan_segments}
use acep_reja_mcsos.Elf.Ranges.{InRegion, validate_user_range-ok_iff, load-lt}
use acep_reja_mcsos.Elf.{
  UserRegion, Ehdr, validate_phdr_bounds, add_overflow_u64, phdr_size, ok, read_ehdr, zero_plan,
  Status, ProcessImagePlan, ehdr_size, SegmentPlan,
}
use acep_reja_mcsos.Common.{
  ℕ, ◌+◌, ◌*◌, ◌^◌, ◌≤◌, ◌<◌, ◌≡◌, refl, ◌≢◌, ◌⊎◌, inl, inr, true, List, [], ◌∷◌, arith, ltb, ◌==◌,
  Bool-cases, length,
}

phdr_bounds_lem :
    (eh : Ehdr) (image_size : ℕ)
    → eh.e_phnum < 2 ^ 16
    → eh.e_phoff < 2 ^ 64
    → validate_phdr_bounds eh image_size ≡ ok
    → (eh.e_phentsize ≡ phdr_size) × (eh.e_phoff + phdr_size * eh.e_phnum ≤ image_size)
unfolding validate_phdr_bounds add_overflow_u64
phdr_bounds_lem eh image_size n o h = (ground arith, ground arith)

pub record HeaderFacts (eh : Ehdr) (image_size : ℕ) (region : UserRegion) : Type 0 where
  pub phdrs : eh.e_phoff + phdr_size * eh.e_phnum ≤ image_size
  pub entry : InRegion region eh.e_entry 1

pub validate_header_lem :
    (eh : Ehdr) (image_size : ℕ) (region : UserRegion)
    → eh.e_phnum < 2 ^ 16
    → eh.e_phoff < 2 ^ 64
    → eh.e_entry < 2 ^ 64
    → region.limit < 2 ^ 64
    → validate_header eh image_size region ≡ ok
    → HeaderFacts eh image_size region
unfolding validate_header
validate_header_lem eh image_size region n o e l h = record {
  phdrs = (phdr_bounds_lem eh image_size n o (ground arith)).1;
  entry = (validate_user_range-ok_iff region eh.e_entry 1 e (omega arith) l).0 (ground arith);
}

-- Once the header is admitted, for a region below 2^64, every program header that the loop of
-- m11_elf64_plan_load reads lies in the image, and the entry point is an address of the region.
pub read_phdr-in_image :
    (image : List ℕ) (region : UserRegion) (i : ℕ)
    → region.limit < 2 ^ 64
    → validate_header (read_ehdr image) (length image) region ≡ ok
    → i < (read_ehdr image).e_phnum
    → ((read_ehdr image).e_phoff + phdr_size * i + phdr_size ≤ length image)
      × InRegion region (read_ehdr image).e_entry 1
read_phdr-in_image image region i l h lt =
    let f =
      validate_header_lem (read_ehdr image) (length image) region
        (unfold read_ehdr in load-lt 2 image 56) (unfold read_ehdr in load-lt 8 image 32)
        (unfold read_ehdr in load-lt 8 image 24) l h in
    (omega (arith, f.phdrs), f.entry)

abbrev NoneIfRefused : Status × ProcessImagePlan → Type 0
NoneIfRefused (rc, plan) = rc ≢ ok → plan.segments ≡ []

finish-NoneIfRefused : (r : ProcessImagePlan ⊎ Status) → NoneIfRefused (finish r)
unfolding finish zero_plan
finish-NoneIfRefused (inr rc) = λ h. refl
finish-NoneIfRefused (inl plan) = elim (Bool-cases (length plan.segments == 0)) [
  | inl e ↦ rw (e, finish) (λ h. no_items plan.segments e)
  | inr e ↦ rw (e, finish) (λ h. absurd (h refl))
]
  where
    no_items : (xs : List SegmentPlan) → (length xs == 0) ≡ true → xs ≡ []
    no_items [] h = refl
    no_items (x ∷ xs) h = absurd (ground arith)

proceed-NoneIfRefused :
    (rc : Status) (r : Status × ProcessImagePlan) → NoneIfRefused r → NoneIfRefused (proceed rc r)
unfolding proceed zero_plan
proceed-NoneIfRefused ok r h = h
proceed-NoneIfRefused rc r h = λ h. refl

-- Whenever m11_elf64_plan_load refuses an image, the plan has no segment.
pub plan_load-refused :
    (image : List ℕ) (region : UserRegion)
    → (plan_load image region).0 ≢ ok
    → (plan_load image region).1.segments ≡ []
unfolding plan_load finish zero_plan
plan_load-refused image region = elim (Bool-cases (ltb (length image) ehdr_size)) [
  | inl e ↦ rw (e, plan_load) (λ h. refl)
  | inr e ↦
      rw (e, plan_load)
        (proceed-NoneIfRefused (validate_header (read_ehdr image) (length image) region) _ (
          finish-NoneIfRefused (
            plan_segments image region (read_ehdr image).e_phnum (read_ehdr image).e_phoff
              (record zero_plan { entry = (read_ehdr image).e_entry }))))
]
