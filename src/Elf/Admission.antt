-- ===== src/Elf/Admission.antt =====
-- Which images the loader admits, and the plan it makes for them.
use acep_reja_mcsos.Elf.Plan.{
  validate_header, plan_segment, plan_segments, plan_load, checked, finish, proceed,
}
use acep_reja_mcsos.Elf.Segments.{
  AllLoadable, load_headers, push, plan_segments-there, plan_segments-back,
}
use acep_reja_mcsos.Elf.{
  UserRegion, ProcessImagePlan, ehdr_size, Status, Phdr, phdr_size, ok, pt_load, read_phdr,
  read_ehdr, max_load_segments, validate_load_segment, zero_plan, segment_of,
}
use acep_reja_mcsos.Common.{
  ℕ, zero, suc, ◌+◌, ◌^◌, ◌≤◌, ◌<◌, ◌≡◌, refl, ap, ◌≢◌, ◌↔◌, ◌⊎◌, inl, inr, List, [], ◌∷◌, map,
  arith, ltb, leb, ◌==◌, Bool-cases, length,
}

-- What an image must be for the loader to plan it, and the plan.
pub record Admitted (image : List ℕ) (region : UserRegion) (plan : ProcessImagePlan) : Type 0 where
  pub large : ehdr_size ≤ length image
  pub header : validate_header (read_ehdr image) (length image) region ≡ ok
  pub loadable :
      AllLoadable
        (load_headers image (read_ehdr image).e_phnum (read_ehdr image).e_phoff)
        (length image)
        region
  pub some_segment :
      0 < length (load_headers image (read_ehdr image).e_phnum (read_ehdr image).e_phoff)
  pub room :
      length (load_headers image (read_ehdr image).e_phnum (read_ehdr image).e_phoff)
      ≤ max_load_segments
  pub result : plan ≡ record {
    entry = (read_ehdr image).e_entry;
    segments =
        map segment_of (load_headers image (read_ehdr image).e_phnum (read_ehdr image).e_phoff);
  }

-- A stop never comes with the code M11_OK.
abbrev Stops : ProcessImagePlan ⊎ Status → Type 0
Stops (inl plan) = Unit {0}
Stops (inr rc) = rc ≢ ok

checked-Stops : (rc : Status) (plan : ProcessImagePlan) → Stops (checked rc plan)
unfolding checked
checked-Stops ok plan = tt
checked-Stops rc plan = λ h. cc

plan_segment-Stops :
    (ph : Phdr) (image_size : ℕ) (region : UserRegion) (p : ProcessImagePlan)
    → Stops (plan_segment ph image_size region p)
unfolding plan_segment
plan_segment-Stops ph image_size region p = elim (Bool-cases (ph.p_type == pt_load)) [
  | inr skip ↦ rw (skip, plan_segment) tt
  | inl t ↦ elim (Bool-cases (leb max_load_segments (length p.segments))) [
    | inl full ↦ rw (t, full, plan_segment) (λ h. cc)
    | inr room ↦
        rw (t, room, plan_segment)
          (checked-Stops (validate_load_segment ph image_size region) (push p ph))
  ]
]

next-Stops :
    (k : ProcessImagePlan → ProcessImagePlan ⊎ Status)
    → ((p : ProcessImagePlan) → Stops (k p))
    → (r : ProcessImagePlan ⊎ Status) → Stops r
    → Stops (elim r [ inl next ↦ k next | inr rc ↦ inr rc ])
next-Stops k h (inl next) stop = h next
next-Stops k h (inr rc) stop = stop

plan_segments-Stops :
    (image : List ℕ) (region : UserRegion) (n at : ℕ) (p : ProcessImagePlan)
    → Stops (plan_segments image region n at p)
unfolding plan_segments
plan_segments-Stops image region zero at p = tt
plan_segments-Stops image region (suc n) at p =
    next-Stops (plan_segments image region n (at + phdr_size))
      (λ next. plan_segments-Stops image region n (at + phdr_size) next)
      (plan_segment (read_phdr image at) (length image) region p)
      (plan_segment-Stops (read_phdr image at) (length image) region p)

length-map {ℓ κ} :
    {A : Type ℓ} {B : Type κ} (f : A → B) (xs : List A) → length (map f xs) ≡ length xs
length-map f [] = refl
length-map f (x ∷ xs) = ap suc (length-map f xs)

finish-ok :
    (r : ProcessImagePlan ⊎ Status) (plan : ProcessImagePlan)
    → Stops r
    → (finish r ≡ (ok, plan)) ↔ ((r ≡ inl plan) × (0 < length plan.segments))
unfolding finish
finish-ok (inr rc) plan stop = (
  (λ h. absurd (stop (ap (λ (r : Status × ProcessImagePlan). r.0) h))),
  (λ h. absurd (let e = h.0 in cc)),
)
finish-ok (inl p) plan stop = elim (Bool-cases (length p.segments == 0)) [
  | inl e ↦
      rw (e, finish)
        (
          (λ h. absurd (let c = ap (λ (r : Status × ProcessImagePlan). r.0) h in cc)),
          (λ h. absurd (let c : p ≡ plan = let e = h.0 in cc in ground (arith, c, h.1))),
        )
  | inr e ↦
      rw (e, finish)
        (
          (λ h.
              let c : p ≡ plan = ap (λ (r : Status × ProcessImagePlan). r.1) h in
              (ap inl c, rw (← c) (ground arith))),
          (λ h. let c : p ≡ plan = let e = h.0 in cc in ap (λ (x : ProcessImagePlan). (ok, x)) c),
        )
]

proceed-ok :
    (rc : Status) (r : Status × ProcessImagePlan) (plan : ProcessImagePlan)
    → (proceed rc r ≡ (ok, plan)) ↔ ((rc ≡ ok) × (r ≡ (ok, plan)))
unfolding proceed
proceed-ok ok r plan = ((λ h. (refl, h)), (λ h. h.1))
proceed-ok rc r plan = (
  (λ h. absurd (let c = ap (λ (r : Status × ProcessImagePlan). r.0) h in cc)),
  (λ h. absurd (let c = h.0 in cc)),
)

module _ (image : List ℕ) (region : UserRegion) (s : length image < 2 ^ 64)
    (l : region.limit < 2 ^ 64) where
  -- For an image and a region below 2^64, m11_elf64_plan_load succeeds with a plan exactly if the
  -- image has a header that passes the checks and between 1 and 8 headers of type PT_LOAD, each
  -- never writable and executable at once, aligned, inside the file and inside the region, and the
  -- plan is the entry point and those segments in order.
  pub plan_load-ok_iff :
      (plan : ProcessImagePlan) → (plan_load image region ≡ (ok, plan)) ↔ Admitted image region plan
  unfolding plan_load
  plan_load-ok_iff plan = elim (Bool-cases (ltb (length image) ehdr_size)) [
    | inl e ↦
        rw (e, plan_load)
          (
            (λ h. absurd (let c = ap (λ (r : Status × ProcessImagePlan). r.0) h in cc)),
            (λ a. absurd (ground (arith, a.large))),
          )
    | inr e ↦
        rw (e, plan_load)
          (
            (λ h.
                let passed = (proceed-ok header rest plan).0 h in
                let looped = (finish-ok loop plan stops).0 passed.1 in
                let q =
                  plan_segments-there image region s l n at first plan (omega arith) looped.0 in
                record {
                  large = ground arith;
                  header = passed.0;
                  loadable = q.loadable;
                  some_segment = omega (
                    arith,
                    looped.1,
                    ap (λ (x : ProcessImagePlan). length x.segments) q.result,
                    counted,
                  );
                  room = omega (arith, q.room);
                  result = q.result;
                }),
            (λ a. (proceed-ok header rest plan).1 (
              a.header,
              (finish-ok loop plan stops).1 (
                plan_segments-back image region s l n at first plan (record {
                  loadable = a.loadable;
                  room = omega (arith, a.room);
                  result = a.result;
                }),
                omega (
                  arith,
                  a.some_segment,
                  ap (λ (x : ProcessImagePlan). length x.segments) a.result,
                  counted,
                ),
              ),
            )),
          )
  ]
    where
      header : Status
      header = validate_header (read_ehdr image) (length image) region

      n : ℕ
      n = (read_ehdr image).e_phnum

      at : ℕ
      at = (read_ehdr image).e_phoff

      first : ProcessImagePlan
      first = record zero_plan { entry = (read_ehdr image).e_entry }

      loop : ProcessImagePlan ⊎ Status
      loop = plan_segments image region n at first

      rest : Status × ProcessImagePlan
      rest = finish loop

      stops : Stops loop
      stops = plan_segments-Stops image region n at first

      counted : length (map segment_of (load_headers image n at)) ≡ length (load_headers image n at)
      counted = length-map segment_of (load_headers image n at)
