-- ===== src/Elf/Segments.antt =====
-- The loop over the program headers: which headers it admits, and what it plans for them.
use acep_reja_mcsos.Elf.Plan.{plan_segment, plan_segments, checked}
use acep_reja_mcsos.Elf.Ranges.{
  IsLoadable, is_ok, validate_load_segment-ok_iff, checked-refused, read_phdr-FitsPhdr, is_ok_iff,
}
use acep_reja_mcsos.Elf.{
  UserRegion, Phdr, phdr_size, ProcessImagePlan, read_phdr, max_load_segments, pt_load, segment_of,
  Status, validate_load_segment, err_segcount, ok,
}
use acep_reja_mcsos.Common.{
  ℕ, zero, suc, ◌+◌, ◌^◌, ◌≤◌, ◌<◌, ◌≡◌, refl, sym, ap, ◌∙◌, ◌↔◌, inl, inr, true, false, List, [],
  ◌∷◌, ◌++◌, map, append_assoc, append-nil, arith, leb, ◌==◌, if◌then◌else◌, Bool-cases, length,
  length-append,
}

-- The program headers of type PT_LOAD among `n` from `at` on, in order.
pub load_headers : List ℕ → ℕ → ℕ → List Phdr
load_headers image zero at = []
load_headers image (suc n) at =
    let rest = load_headers image n (at + phdr_size) in
    if (read_phdr image at).p_type == pt_load then read_phdr image at ∷ rest else rest

abbrev pub AllLoadable : List Phdr → ℕ → UserRegion → Type 0
AllLoadable [] image_size region = Unit {0}
AllLoadable (ph ∷ phs) image_size region =
    IsLoadable ph image_size region × AllLoadable phs image_size region

abbrev pub push : ProcessImagePlan → Phdr → ProcessImagePlan
push p ph = record p { segments = p.segments ++ segment_of ph ∷ [] }

-- The loop admits the headers exactly if each segment is loadable and there is room for all.
pub record Planned (phs : List Phdr) (image_size : ℕ) (region : UserRegion) (p q : ProcessImagePlan)
    : Type 0 where
  pub loadable : AllLoadable phs image_size region
  pub room : length p.segments + length phs ≤ max_load_segments
  pub result : q ≡ record p { segments = p.segments ++ map segment_of phs }

module _ (image_size : ℕ) (region : UserRegion) (ph : Phdr) (phs : List Phdr)
    (p q : ProcessImagePlan) where
  pushed :
      record (push p ph) { segments = (push p ph).segments ++ map segment_of phs }
      ≡ record p { segments = p.segments ++ map segment_of (ph ∷ phs) }
  pushed =
      ap (λ xs. record p { segments = xs })
        (append_assoc p.segments (segment_of ph ∷ []) (map segment_of phs))

  Planned-cons :
      IsLoadable ph image_size region
      → Planned phs image_size region (push p ph) q
      → Planned (ph ∷ phs) image_size region p q
  Planned-cons v r = record {
    loadable = (v, r.loadable);
    room = omega (arith, r.room, length-append p.segments (segment_of ph ∷ []));
    result = r.result ∙ pushed;
  }

  Planned-tail :
      Planned (ph ∷ phs) image_size region p q → Planned phs image_size region (push p ph) q
  Planned-tail r = record {
    loadable = r.loadable.1;
    room = omega (arith, r.room, length-append p.segments (segment_of ph ∷ []));
    result = r.result ∙ sym pushed;
  }

module _ (image : List ℕ) (region : UserRegion) where
  -- What the body of the loop does: it skips the header, plans it, or stops.
  plan_segment-skip :
      (ph : Phdr) (p : ProcessImagePlan)
      → (ph.p_type == pt_load) ≡ false
      → plan_segment ph (length image) region p ≡ inl p
  unfolding plan_segment
  plan_segment-skip ph p t = rw t refl

  plan_segment-push :
      (ph : Phdr) (p : ProcessImagePlan)
      → (ph.p_type == pt_load) ≡ true
      → leb max_load_segments (length p.segments) ≡ false
      → validate_load_segment ph (length image) region ≡ ok
      → plan_segment ph (length image) region p ≡ inl (push p ph)
  unfolding plan_segment checked
  plan_segment-push ph p t room v = rw (t, room, v) refl

  plan_segments-go :
      (n at : ℕ) (p next : ProcessImagePlan)
      → plan_segment (read_phdr image at) (length image) region p ≡ inl next
      → plan_segments image region (suc n) at p ≡ plan_segments image region n (at + phdr_size) next
  unfolding plan_segments
  plan_segments-go n at p next h = rw (plan_segments, h) refl

  plan_segments-stop :
      (n at : ℕ) (p : ProcessImagePlan) (rc : Status)
      → plan_segment (read_phdr image at) (length image) region p ≡ inr rc
      → plan_segments image region (suc n) at p ≡ inr rc
  unfolding plan_segments
  plan_segments-stop n at p rc h = rw (plan_segments, h) refl

  load_headers-yes :
      (n at : ℕ)
      → ((read_phdr image at).p_type == pt_load) ≡ true
      → load_headers image (suc n) at ≡ read_phdr image at ∷ load_headers image n (at + phdr_size)
  unfolding load_headers
  load_headers-yes n at t = rw t refl

  load_headers-no :
      (n at : ℕ)
      → ((read_phdr image at).p_type == pt_load) ≡ false
      → load_headers image (suc n) at ≡ load_headers image n (at + phdr_size)
  unfolding load_headers
  load_headers-no n at t = rw t refl

module _ (image : List ℕ) (region : UserRegion) (s : length image < 2 ^ 64)
    (l : region.limit < 2 ^ 64) where
  admitted :
      (at : ℕ)
      → (validate_load_segment (read_phdr image at) (length image) region ≡ ok)
        ↔ IsLoadable (read_phdr image at) (length image) region
  admitted at =
      validate_load_segment-ok_iff (read_phdr image at) (length image) region
        (read_phdr-FitsPhdr image at) s l

  pub plan_segments-there :
      (n at : ℕ) (p q : ProcessImagePlan)
      → length p.segments ≤ max_load_segments
      → plan_segments image region n at p ≡ inl q
      → Planned (load_headers image n at) (length image) region p q
  unfolding plan_segments load_headers
  plan_segments-there zero at p q few h =
      let e : p ≡ q = cc in
      record {
        loadable = tt;
        room = omega arith;
        result = sym e ∙ ap (λ xs. record p { segments = xs }) (sym (append-nil p.segments));
      }
  plan_segments-there (suc n) at p q few h =
      let ph = read_phdr image at in
      elim (Bool-cases (ph.p_type == pt_load)) [
        | inr skip ↦
            let rest = plan_segments-there n (at + phdr_size) p q few (
              sym
                (plan_segments-go image region n at p p (plan_segment-skip image region ph p skip))
              ∙ h) in
            rw (load_headers-no image region n at skip) rest
        | inl t ↦ elim (Bool-cases (leb max_load_segments (length p.segments))) [
          | inl full ↦ absurd (
              let e =
                sym (
                  plan_segments-stop image region n at p err_segcount
                    (unfold plan_segment in rw (t, full) refl))
                ∙ h in
              cc)
          | inr room ↦ elim (Bool-cases (is_ok (validate_load_segment ph (length image) region))) [
            | inr bad ↦ absurd (
                let e =
                  sym (
                    plan_segments-stop image region n at p
                      (validate_load_segment ph (length image) region)
                      (unfold plan_segment in rw (t, room) (checked-refused _ _ bad)))
                  ∙ h in
                cc)
            | inl good ↦
                let v = (is_ok_iff (validate_load_segment ph (length image) region)).0 good in
                let rest =
                  plan_segments-there n (at + phdr_size) (push p ph) q
                    (ground (arith, length-append p.segments (segment_of ph ∷ [])))
                    (sym (
                        plan_segments-go image region n at p (push p ph)
                          (plan_segment-push image region ph p t room v))
                      ∙ h) in
                rw (load_headers-yes image region n at t) (
                  Planned-cons (length image) region ph (load_headers image n (at + phdr_size)) p q
                    ((admitted at).0 v) rest)
          ]
        ]
      ]

  pub plan_segments-back :
      (n at : ℕ) (p q : ProcessImagePlan)
      → Planned (load_headers image n at) (length image) region p q
      → plan_segments image region n at p ≡ inl q
  unfolding plan_segments load_headers
  plan_segments-back zero at p q r =
      ap inl (ap (λ xs. record p { segments = xs }) (sym (append-nil p.segments)) ∙ sym r.result)
  plan_segments-back (suc n) at p q r =
      let ph = read_phdr image at in
      elim (Bool-cases (ph.p_type == pt_load)) [
        | inr skip ↦
            plan_segments-go image region n at p p (plan_segment-skip image region ph p skip)
            ∙ plan_segments-back n (at + phdr_size) p q
                (rw (sym (load_headers-no image region n at skip)) r)
        | inl t ↦
            let r' : Planned (ph ∷ load_headers image n (at + phdr_size)) (length image) region p
                q =
              rw (sym (load_headers-yes image region n at t)) r in
            plan_segments-go image region n at p (push p ph) (
              plan_segment-push image region ph p t (ground (arith, r'.room))
                ((admitted at).1 r'.loadable.0))
            ∙ plan_segments-back n (at + phdr_size) (push p ph) q (
                Planned-tail (length image) region ph (load_headers image n (at + phdr_size)) p q
                  r')
      ]
