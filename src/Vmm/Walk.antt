-- ===== src/Vmm/Walk.antt =====
-- The walk through the page tables, over vmm_query_page, vmm_unmap_page and vmm_map_page.
use acep_reja_mcsos.Vmm.{
  find_pt, next_table, Space, is_canonical, is_present, Memory, is_aligned_4k, not_found, set_pte,
  idx_pt, query_page, table_from_phys, inval, idx_pml4, idx_pdpt, idx_pd, VmmError, unmap_page,
  Mapping, get_or_alloc_next_table, map_page, unmap_entry, present_table, map_from, is_huge,
  map_entry, addr_mask, exists,
}
use acep_reja_mcsos.Common.{
  ℕ, bit_and, ◌≡◌, refl, sym, ap, ◌∙◌, ◌⊎◌, inl, inr, true, false, not, ◌&&◌, ◌||◌, arith, ◌==◌,
  Bool-cases, Result-cases, Result, value, error, done, fail,
}

-- What a walk that reaches the last table has read.
record Reaches {S : Type 0} (space : Space S) (vaddr : ℕ) (tables : ℕ → ℕ → ℕ) (pt pml4 pdpt pd : ℕ)
    : Type 0 where
  canonical : is_canonical vaddr ≡ true
  aligned : is_aligned_4k vaddr ≡ true
  root : table_from_phys space space.root_paddr ≡ value pml4
  first : next_table space (tables pml4 (idx_pml4 vaddr)) ≡ value pdpt
  second : next_table space (tables pdpt (idx_pdpt vaddr)) ≡ value pd
  third : next_table space (tables pd (idx_pd vaddr)) ≡ value pt

find_pt-Reaches :
    {S : Type 0} (space : Space S) (vaddr : ℕ) (tables : ℕ → ℕ → ℕ) (pt : ℕ)
    → find_pt space vaddr tables ≡ value pt
    → (pml4 pdpt pd : ℕ) × Reaches space vaddr tables pt pml4 pdpt pd
unfolding find_pt
find_pt-Reaches space vaddr tables pt h =
    elim (Bool-cases (not (is_canonical vaddr) || not (is_aligned_4k vaddr))) [
      | inl b ↦ let h' : error inval ≡ value pt = sym (rw (b, find_pt) refl) ∙ h in absurd (cc)
      | inr b ↦ elim (Result-cases (table_from_phys space space.root_paddr)) [
        | inr (e, r) ↦
            let h' : error e ≡ value pt = sym (rw (b, r, find_pt) refl) ∙ h in absurd (cc)
        | inl (pml4, r) ↦ elim (Result-cases (next_table space (tables pml4 (idx_pml4 vaddr)))) [
          | inr (e, n1) ↦
              let h' : error e ≡ value pt = sym (rw (b, r, n1, find_pt) refl) ∙ h in absurd (cc)
          | inl (pdpt, n1) ↦ elim (Result-cases (next_table space (tables pdpt (idx_pdpt vaddr)))) [
            | inr (e, n2) ↦
                let h' : error e ≡ value pt = sym (rw (b, r, n1, n2, find_pt) refl) ∙ h in
                absurd (cc)
            | inl (pd, n2) ↦
                let n3 : next_table space (tables pd (idx_pd vaddr)) ≡ value pt =
                  sym (rw (b, r, n1, n2, find_pt) refl) ∙ h in
                (
                  pml4,
                  pdpt,
                  pd,
                  record {
                    canonical = ground arith;
                    aligned = ground arith;
                    root = r;
                    first = n1;
                    second = n2;
                    third = n3;
                  },
                )
          ]
        ]
      ]
    ]

next_table-zero : {S : Type 0} (space : Space S) → next_table space 0 ≡ error not_found
unfolding next_table is_present
next_table-zero space = refl

-- With the entry in the last table cleared, the walk or the last entry is not there any more, even where
-- that table is one of the others.
module _ {S : Type 0} (space : Space S) (vaddr : ℕ) (m : Memory S) (pt : ℕ) where
  abbrev cleared : Memory S
  cleared = set_pte m pt (idx_pt vaddr) 0

  at_entry : (t i : ℕ) → (cleared.tables t i ≡ 0) ⊎ (cleared.tables t i ≡ m.tables t i)
  at_entry t i = elim (Bool-cases (t == pt && i == idx_pt vaddr)) [
    | inl e ↦ inl (rw e refl)
    | inr e ↦ inr (rw e refl)
  ]

  -- One step of the walk.
  next_cases :
      (t i n : ℕ)
      → next_table space (m.tables t i) ≡ value n
      → (next_table space (cleared.tables t i) ≡ error not_found)
        ⊎ (next_table space (cleared.tables t i) ≡ value n)
  next_cases t i n h = elim (at_entry t i) [
    | inl z ↦ inl (ap (next_table space) z ∙ next_table-zero space)
    | inr s ↦ inr (ap (next_table space) s ∙ h)
  ]

  find_pt-cleared :
      (pml4 pdpt pd : ℕ)
      → Reaches space vaddr m.tables pt pml4 pdpt pd
      → (find_pt space vaddr cleared.tables ≡ error not_found)
        ⊎ (find_pt space vaddr cleared.tables ≡ value pt)
  unfolding find_pt
  find_pt-cleared pml4 pdpt pd x =
      let b : (not (is_canonical vaddr) || not (is_aligned_4k vaddr)) ≡ false =
        rw (x.canonical, x.aligned) refl in
      let r = x.root in
      elim (next_cases pml4 (idx_pml4 vaddr) pdpt x.first) [
        | inl n1 ↦ inl (rw (b, r, find_pt) (rw n1 refl))
        | inr n1 ↦ elim (next_cases pdpt (idx_pdpt vaddr) pd x.second) [
          | inl n2 ↦ inl (rw (b, r, find_pt) (rw n1 (rw n2 refl)))
          | inr n2 ↦ elim (next_cases pd (idx_pd vaddr) pt x.third) [
            | inl n3 ↦ inl (rw (b, r, find_pt) (rw n1 (rw n2 n3)))
            | inr n3 ↦ inr (rw (b, r, find_pt) (rw n1 (rw n2 n3)))
          ]
        ]
      ]

  query_page-cleared :
      find_pt space vaddr m.tables ≡ value pt → query_page space vaddr cleared ≡ error not_found
  unfolding query_page is_present
  query_page-cleared h =
      let (pml4, pdpt, pd, x) = find_pt-Reaches space vaddr m.tables pt h in
      let gone : cleared.tables pt (idx_pt vaddr) ≡ 0 = ground arith in
      elim (find_pt-cleared pml4 pdpt pd x) [
        | inl e ↦ rw (e, query_page) refl
        | inr e ↦ rw (e, query_page) (rw gone refl)
      ]

-- What vmm_unmap_page does, by what vmm_query_page answers: it fails with the same error and changes
-- nothing, or it succeeds and the page is not found any more.
pub Unmaps : {S : Type 0} → Space S → ℕ → Memory S → Result VmmError Mapping → Type 0
Unmaps space vaddr m (error e) = unmap_page space vaddr m ≡ fail e m
Unmaps {S} space vaddr m (value r) =
    (m' : Memory S) × (unmap_page space vaddr m ≡ done tt m')
    × (query_page space vaddr m' ≡ error not_found)

-- `vmm_unmap_page` of an address fails with the error of `vmm_query_page` of it, and changes nothing
-- then; where the query finds a page, it succeeds, and the next query answers VMM_ERR_NOT_FOUND.
pub unmap_page-Unmaps :
    {S : Type 0} (space : Space S) (vaddr : ℕ) (m : Memory S)
    → Unmaps space vaddr m (query_page space vaddr m)
unfolding query_page unmap_page unmap_entry Unmaps
unmap_page-Unmaps space vaddr m = elim (Result-cases (find_pt space vaddr m.tables)) [
  | inr (e, f) ↦ rw (f, query_page) (rw (f, unmap_page) refl)
  | inl (pt, f) ↦ elim (Bool-cases (is_present (m.tables pt (idx_pt vaddr)))) [
    | inr p ↦ rw (f, p, query_page) (rw (f, unmap_page) (rw p refl))
    | inl p ↦
        rw (f, p, query_page)
          (
            cleared space vaddr m pt,
            rw (f, unmap_page) (rw p refl),
            query_page-cleared space vaddr m pt f,
          )
  ]
]

query_page-found :
    {S : Type 0} (space : Space S) (vaddr : ℕ) (m : Memory S) (r : Mapping)
    → query_page space vaddr m ≡ value r
    → (pt : ℕ) × (find_pt space vaddr m.tables ≡ value pt)
      × (is_present (m.tables pt (idx_pt vaddr)) ≡ true)
unfolding query_page
query_page-found space vaddr m r h = elim (Result-cases (find_pt space vaddr m.tables)) [
  | inr (e, f) ↦ let h' : error e ≡ value r = sym (rw (f, query_page) refl) ∙ h in absurd (cc)
  | inl (pt, f) ↦ elim (Bool-cases (is_present (m.tables pt (idx_pt vaddr)))) [
    | inr p ↦
        let h' : error not_found ≡ value r = sym (rw (f, p, query_page) refl) ∙ h in absurd (cc)
    | inl p ↦ (pt, f, p)
  ]
]

next_table-get_or_alloc :
    {S : Type 0} (space : Space S) (t i n : ℕ) (m : Memory S)
    → next_table space (m.tables t i) ≡ value n
    → get_or_alloc_next_table space t i m ≡ done n m
unfolding next_table get_or_alloc_next_table present_table
next_table-get_or_alloc space t i n m h =
    let e = m.tables t i in
    elim (Bool-cases (not (is_present e) || is_huge e)) [
      | inl b ↦
          let h' : error not_found ≡ value n = sym (rw (b, next_table) refl) ∙ h in absurd (cc)
      | inr b ↦
          let p : is_present e ≡ true = ground arith in
          let u : is_huge e ≡ false = ground arith in
          let h' : table_from_phys space (bit_and e addr_mask) ≡ value n =
            sym (rw (b, next_table) refl) ∙ h in
          rw (p, get_or_alloc_next_table) (rw (u, present_table) (rw h' refl))
    ]

-- `vmm_map_page` at an address where `vmm_query_page` finds a page, of an aligned frame, answers
-- VMM_ERR_EXISTS and changes nothing, neither the tables nor the frames.
pub map_page-mapped :
    {S : Type 0} (space : Space S) (vaddr paddr flags : ℕ) (m : Memory S) (r : Mapping)
    → is_aligned_4k paddr ≡ true
    → query_page space vaddr m ≡ value r
    → map_page space vaddr paddr flags m ≡ fail exists m
unfolding map_page map_from map_entry
map_page-mapped space vaddr paddr flags m r frame h =
    let (pt, f, p) = query_page-found space vaddr m r h in
    let (pml4, pdpt, pd, x) = find_pt-Reaches space vaddr m.tables pt f in
    let b : (not (is_canonical vaddr) || (not (is_aligned_4k vaddr) || not (is_aligned_4k paddr)))
        ≡ false =
      rw (x.canonical, x.aligned, frame) refl in
    let r1 = x.root in
    let g1 = next_table-get_or_alloc space pml4 (idx_pml4 vaddr) pdpt m x.first in
    let g2 = next_table-get_or_alloc space pdpt (idx_pdpt vaddr) pd m x.second in
    let g3 = next_table-get_or_alloc space pd (idx_pd vaddr) pt m x.third in
    rw (b, r1, map_page) (rw (g1, map_from) (rw g2 (rw g3 (rw (p, map_entry) refl))))
