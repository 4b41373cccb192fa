-- ===== src/Vmm/Tests.antt =====
-- A space with one page, at address 0.
use acep_reja_mcsos.Vmm.Walk.{Unmaps, unmap_page-Unmaps, map_page-mapped}
use acep_reja_mcsos.Vmm.{
  Space, query_page, is_aligned_4k, Memory, map_page, find_pt, exists, next_table, table_from_phys,
  is_canonical, is_present, is_huge, idx_pml4, idx_pdpt, idx_pd, idx_pt,
}
use acep_reja_mcsos.Common.{
  ℕ, ◌+◌, ◌*◌, ◌≡◌, refl, true, none, some, ◌==◌, if◌then◌else◌, value, fail,
}

-- A count of frames that were given out.
abbrev one_page_space : Space ℕ
one_page_space = record {
  root_paddr = 4096;
  alloc_frame = some (λ n. (32768 + 4096 * n, n + 1));
  free_frame = none;
  has_virt = λ paddr. true;
}

-- Each table's first entry leads to the next one, and the last to the frame.
abbrev one_page : Memory ℕ
one_page = record { tables = λ t i. if i == 0 then t + 4096 + 3 else 0; frames = 0 }

unmap_page-Unmaps_example : Unmaps one_page_space 0 one_page (query_page one_page_space 0 one_page)
unmap_page-Unmaps_example = unmap_page-Unmaps one_page_space 0 one_page

found_page :
    query_page one_page_space 0 one_page ≡ value (record { vaddr = 0; paddr = 20480; flags = 3 })
unfolding query_page find_pt next_table table_from_phys is_canonical is_aligned_4k is_present
    is_huge idx_pml4 idx_pdpt idx_pd idx_pt
found_page = refl

frame_aligned : is_aligned_4k 24576 ≡ true
unfolding is_aligned_4k
frame_aligned = refl

map_page-mapped_example : map_page one_page_space 0 24576 1 one_page ≡ fail exists one_page
map_page-mapped_example =
    map_page-mapped one_page_space 0 24576 1 one_page
      (record { vaddr = 0; paddr = 20480; flags = 3 }) frame_aligned found_page
