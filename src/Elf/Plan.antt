-- ===== src/Elf/Plan.antt =====
-- m11_elf64_plan_load: the checks of the header, the loop over the program headers, and the plan.
use acep_reja_mcsos.Elf.{
  Ehdr, UserRegion, ProcessImagePlan, Status, Phdr, pt_load, read_phdr, validate_ident, zero_plan,
  read_ehdr, max_load_segments, phdr_size, err_segcount, ehdr_size, validate_load_segment, ok,
  err_size, segment_of, err_type, err_machine, err_ehsize, validate_phdr_bounds,
  validate_user_range, err_entry,
}
use acep_reja_mcsos.Common.{
  ℕ, zero, suc, ◌+◌, ◌⊎◌, inl, inr, not, ◌&&◌, List, [], ◌∷◌, ◌++◌, ltb, leb, ◌==◌, if◌then◌else◌,
  length,
}

-- Go on with a result if the code is M11_OK, and stop with the code otherwise.
unfoldable pub checked {ℓ} : {A : Type ℓ} → Status → A → A ⊎ Status
checked ok x = inl x
checked rc x = inr rc

-- The body of the loop for one header: the plan to go on with, or the code to stop with.
unfoldable pub plan_segment : Phdr → ℕ → UserRegion → ProcessImagePlan → ProcessImagePlan ⊎ Status
plan_segment ph image_size region plan =
    if not (ph.p_type == pt_load)
    then inl plan
    else if leb max_load_segments (length plan.segments)
    then inr err_segcount
    else checked (validate_load_segment ph image_size region)
        (record plan { segments = plan.segments ++ segment_of ph ∷ [] })

-- The loop over the program headers with `n` rounds left, the next header at `at`.
unfoldable pub plan_segments :
    List ℕ → UserRegion → ℕ → ℕ → ProcessImagePlan → ProcessImagePlan ⊎ Status
plan_segments image region zero at plan = inl plan
plan_segments image region (suc n) at plan =
    elim (plan_segment (read_phdr image at) (length image) region plan) [
      | inl next ↦ plan_segments image region n (at + phdr_size) next
      | inr rc ↦ inr rc
    ]

-- The checks before the loop, in their order.
unfoldable pub validate_header : Ehdr → ℕ → UserRegion → Status
validate_header eh image_size region = elim (validate_ident eh) [
  | ok ↦
      if not (eh.e_type == 2) && not (eh.e_type == 3)
      then err_type
      else if not (eh.e_machine == 62)
      then err_machine
      else if not (eh.e_ehsize == ehdr_size)
      then err_ehsize
      else elim (validate_phdr_bounds eh image_size) [
        | ok ↦ elim (validate_user_range region eh.e_entry 1) [ ok ↦ ok | rc ↦ err_entry ]
        | rc ↦ rc
      ]
  | rc ↦ rc
]

-- A stop in the loop zeroes the plan. A plan without segments is refused as it stands.
unfoldable pub finish : ProcessImagePlan ⊎ Status → Status × ProcessImagePlan
finish (inr rc) = (rc, zero_plan)
finish (inl plan) = if length plan.segments == 0 then (err_segcount, plan) else (ok, plan)

-- A failed check before the loop leaves the zeroed plan.
unfoldable pub proceed : Status → Status × ProcessImagePlan → Status × ProcessImagePlan
proceed ok result = result
proceed rc result = (rc, zero_plan)

unfoldable pub plan_load : List ℕ → UserRegion → Status × ProcessImagePlan
plan_load image region =
    let eh = read_ehdr image in
    let plan = record zero_plan { entry = eh.e_entry } in
    if ltb (length image) ehdr_size
    then (err_size, zero_plan)
    else proceed (validate_header eh (length image) region)
        (finish (plan_segments image region eh.e_phnum eh.e_phoff plan))
