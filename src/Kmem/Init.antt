-- ===== src/Kmem/Init.antt =====
-- kmem_init: the heap it sets up.
use acep_reja_mcsos.Kmem.Checks.{not_null, not_below, kmem_validate-IsHeap}
use acep_reja_mcsos.Kmem.Fresh.{align_up-request}
use acep_reja_mcsos.Kmem.Chain.{Cell, IsHeap, cell}
use acep_reja_mcsos.Kmem.{
  Heap, min_split, first_block, kmem_init, header_size, align_up, block_magic, Block,
}
use acep_reja_mcsos.Common.{
  ℕ, ◌+◌, ◌-◌, ◌*◌, ◌/◌, ◌%◌, ◌≤◌, ◌<◌, ◌≡◌, refl, ap, true, false, List, [], ◌∷◌, arith, leb,
  update, u64_mod, ℤ, pos,
}

-- What a successful `kmem_init` on `bytes` bytes at `base` has done: it answers 0, the heap is in
-- order with one free block, it lies in the bytes given, and at most 30 of them are lost beside the
-- header.
pub record Started (base bytes : ℕ) (r : ℤ × Heap) : Type 0 where
  pub size : ℕ
  pub answer : r.0 ≡ pos 0
  pub in_order : IsHeap r.1 (cell size true ∷ [])
  pub from : base ≤ r.1.base
  pub inside : r.1.end ≤ base + bytes
  pub little_lost : bytes ≤ size + header_size + 30

update-same : (f : ℕ → Block) (i : ℕ) (b : Block) → update f i b i ≡ b
update-same f i b = ground arith

module _ (h : Heap) (base bytes : ℕ) (pos_base : 0 < base) (enough : 111 ≤ bytes)
    (below : base + bytes + 128 < u64_mod) where
  abbrev start : ℕ
  start = (base + 15) / 16 * 16

  abbrev usable : ℕ
  usable = (bytes - (start - base)) / 16 * 16

  abbrev only : List Cell
  only = cell (usable - header_size) true ∷ []

  near : base ≤ start
  near = omega arith

  near' : start ≤ base + 15
  near' = omega arith

  start-aligned : start % 16 ≡ 0
  start-aligned = omega arith

  room : min_split + header_size < usable
  room = let a = near in let b = near' in omega (arith, a, b)

  abbrev free_block : Block
  free_block = record {
    magic = block_magic;
    size = usable - header_size;
    free = true;
    prev = 0;
    next = 0;
  }

  first_block-IsHeap : IsHeap (first_block h start usable) only
  unfolding first_block
  first_block-IsHeap =
      let a = near in
      let b = near' in
      let r = room in
      let s = start-aligned in
      let self = update-same h.blocks start free_block in
      record {
        initialized = refl;
        head = refl;
        some_block = λ e. absurd (cc);
        base = omega arith;
        aligned = s;
        below = omega arith;
        chain = (
          record {
            magic = ap (λ x. x.magic) self;
            size = ap (λ x. x.size) self;
            free = ap (λ x. x.free) self;
            prev = ap (λ x. x.prev) self;
            next = ap (λ x. x.next) self;
            aligned = omega arith;
          },
          omega arith,
        );
      }

  -- `kmem_init` on 111 bytes or more, not at NULL, that end 128 bytes or more below the top of the
  -- address space: it answers 0, and the heap is in order with one free block, which lies in the
  -- bytes given and is all of them but the header and at most 30 bytes.
  pub kmem_init-Started : Started base bytes (kmem_init h base bytes)
  unfolding kmem_init first_block
  kmem_init-Started =
      let a = near in
      let b = near' in
      let r = room in
      let h' = first_block h start usable in
      let up : align_up base ≡ start = align_up-request base (omega arith) in
      let z = not_null base pos_base in
      let t1 = not_below bytes (header_size + min_split) (omega arith) in
      let t2 = not_null start (omega arith) in
      let t3 = not_below start base a in
      let t4 : leb bytes (start - base + header_size + min_split) ≡ false = ground arith in
      let t5 : leb usable (header_size + min_split) ≡ false = ground arith in
      let ok = kmem_validate-IsHeap h' only first_block-IsHeap (omega arith) in
      let is : kmem_init h base bytes ≡ (pos 0, h') =
        rw (kmem_init, up, z, t1, t2, t3, t4, t5, ok) refl in
      rw is (record {
        size = usable - header_size;
        answer = refl;
        in_order = first_block-IsHeap;
        from = a;
        inside = omega (arith, a, b);
        little_lost = omega arith;
      })
