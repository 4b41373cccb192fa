-- ===== src/Kmem/Tests.antt =====
-- Examples on a heap of 4096 bytes at 4096.
use acep_reja_mcsos.Kmem.Calloc.{Zeroed, kmem_calloc-Zeroed}
use acep_reja_mcsos.Kmem.Fresh.{NoRoom, Allocated, kmem_alloc-Allocated}
use acep_reja_mcsos.Kmem.Init.{Started, kmem_init-Started}
use acep_reja_mcsos.Kmem.Chain.{Cell, IsHeap, cell}
use acep_reja_mcsos.Kmem.Tally.{Accounted, kmem_get_stats-Accounted}
use acep_reja_mcsos.Kmem.Freed.{Released, kmem_free_checked-Released}
use acep_reja_mcsos.Kmem.{
  kmem_alloc, kmem_free_checked, Heap, kmem_calloc, kmem_init, block_magic, kmem_get_stats,
  align_up, kmem_validate, alloc_from, validate_from, take_block, merge_free, split_if_useful,
  coalesce_forward, link_new, absorb, in_heap,
}
use acep_reja_mcsos.Common.{
  ◌≡◌, refl, ◌⊎◌, inl, inr, true, false, List, [], ◌∷◌, arith, ◌==◌, if◌then◌else◌,
}

abbrev unset : Heap
unset = record {
  base = 0;
  end = 0;
  head = 0;
  initialized = false;
  blocks = λ a. record { magic = 0; size = 0; free = false; prev = 0; next = 0 };
  bytes = λ a. 7;
}

kmem_init-Started_example : Started 4096 4096 (kmem_init unset 4096 4096)
kmem_init-Started_example =
    kmem_init-Started unset 4096 4096 (omega arith) (omega arith) (omega arith)

-- The first block is in use, the second is free, the third is in use, and the rest is free.
abbrev three : Heap
three = record {
  base = 4096;
  end = 8192;
  head = 4096;
  initialized = true;
  blocks = λ a.
      if a == 4096
      then record { magic = block_magic; size = 64; free = false; prev = 0; next = 4208 }
      else if a == 4208
      then record { magic = block_magic; size = 128; free = true; prev = 4096; next = 4384 }
      else if a == 4384
      then record { magic = block_magic; size = 32; free = false; prev = 4208; next = 4464 }
      else record { magic = block_magic; size = 3680; free = true; prev = 4384; next = 0 };
  bytes = λ a. 7;
}

abbrev three_cells : List Cell
three_cells = cell 64 false ∷ cell 128 true ∷ cell 32 false ∷ cell 3680 true ∷ []

three-IsHeap : IsHeap three three_cells
three-IsHeap = record {
  initialized = refl;
  head = refl;
  some_block = λ e. absurd (cc);
  base = omega arith;
  aligned = refl;
  below = omega arith;
  chain = (
    record { magic = refl; size = refl; free = refl; prev = refl; next = refl; aligned = refl },
    (
      record { magic = refl; size = refl; free = refl; prev = refl; next = refl; aligned = refl },
      (
        record { magic = refl; size = refl; free = refl; prev = refl; next = refl; aligned = refl },
        (
          record {
            magic = refl;
            size = refl;
            free = refl;
            prev = refl;
            next = refl;
            aligned = refl;
          },
          refl,
        ),
      ),
    ),
  );
}

kmem_alloc-Allocated_example :
    ((kmem_alloc three 100 ≡ (0, three)) × NoRoom 112 three_cells)
    ⊎ Allocated three three_cells 100 (kmem_alloc three 100)
kmem_alloc-Allocated_example =
    kmem_alloc-Allocated three three_cells 100 three-IsHeap (omega arith) (omega arith)

kmem_calloc-Zeroed_example :
    ((kmem_calloc three 10 10 ≡ (0, three)) × NoRoom 112 three_cells)
    ⊎ Zeroed three three_cells 100 (kmem_calloc three 10 10)
kmem_calloc-Zeroed_example =
    kmem_calloc-Zeroed three three_cells 10 10 three-IsHeap (omega arith) (omega arith)

kmem_free_checked-Released_example : Released three three_cells 4432 (kmem_free_checked three 4432)
kmem_free_checked-Released_example =
    kmem_free_checked-Released three three_cells 4432 32 three-IsHeap (omega arith) (omega arith)
      (inr (inr (inl (refl, refl, refl))))

kmem_get_stats-Accounted_example : Accounted three three_cells (kmem_get_stats three)
kmem_get_stats-Accounted_example = kmem_get_stats-Accounted three three_cells three-IsHeap

-- The search passes the first free block, which is too small, and cuts the second.
kmem_alloc_test : (kmem_alloc three 200).0 ≡ 4512
unfolding kmem_alloc align_up alloc_from take_block split_if_useful link_new
kmem_alloc_test = refl

-- The two free neighbours join the block.
kmem_free_checked_test : ((kmem_free_checked three 4432).1.blocks 4208).size ≡ 3936
unfolding kmem_free_checked kmem_validate validate_from merge_free coalesce_forward absorb in_heap
    align_up
kmem_free_checked_test = refl
