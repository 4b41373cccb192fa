-- ===== src/Kmem/Tally.antt =====
-- kmem_get_stats: the sizes of the blocks, added up.
use acep_reja_mcsos.Kmem.Fresh.{some_link, rounds_lem}
use Prim.Native.Nat.{max}
use acep_reja_mcsos.Kmem.Checks.{not_null}
use acep_reja_mcsos.Kmem.Chain.{Cell, Chain, after, link, Chain-le, IsHeap}
use acep_reja_mcsos.Kmem.{
  stats_from, Block, Heap, Stats, header_size, count_block, kmem_get_stats, rounds,
}
use acep_reja_mcsos.Common.{
  ℕ, zero, suc, ◌+◌, ◌-◌, ◌*◌, ◌≤◌, ◌<◌, ◌≡◌, refl, sym, ◌∙◌, inl, inr, List, [], ◌∷◌, arith, ltb,
  if◌then◌else◌, Bool-cases, length, u64_mod,
}

-- The sum over the cells of a list.
pub tally : (Cell → ℕ) → List Cell → ℕ
tally f [] = 0
tally f (c ∷ cs) = f c + tally f cs

abbrev pub used_size : Cell → ℕ
used_size c = if c.free then 0 else c.size

abbrev pub free_size : Cell → ℕ
free_size c = if c.free then c.size else 0

abbrev pub is_free : Cell → ℕ
is_free c = if c.free then 1 else 0

-- The largest of the free cells.
pub largest : List Cell → ℕ
largest [] = 0
largest (c ∷ cs) = max (free_size c) (largest cs)

-- The statistics tell the truth about the cells, and no byte is missing from them.
pub record Accounted (h : Heap) (cs : List Cell) (s : Stats) : Type 0 where
  pub total : s.total_bytes ≡ h.end - h.base
  pub used : s.used_bytes ≡ tally used_size cs
  pub free : s.free_bytes ≡ tally free_size cs
  pub blocks : s.block_count ≡ length cs
  pub free_blocks : s.free_count ≡ tally is_free cs
  pub largest_block : s.largest_free ≡ largest cs
  pub conserved : s.used_bytes + s.free_bytes + header_size * s.block_count ≡ s.total_bytes

-- The statistics `t` are `s` with the cells added.
record Counts (s : Stats) (cs : List Cell) (t : Stats) : Type 0 where
  total : t.total_bytes ≡ s.total_bytes
  used : t.used_bytes ≡ s.used_bytes + tally used_size cs
  free : t.free_bytes ≡ s.free_bytes + tally free_size cs
  blocks : t.block_count ≡ s.block_count + length cs
  free_blocks : t.free_count ≡ s.free_count + tally is_free cs
  largest_block : t.largest_free ≡ max s.largest_free (largest cs)

Chain-conserved :
    (b : ℕ → Block) (end p at : ℕ) (cs : List Cell)
    → Chain b end p at cs
    → at + (tally used_size cs + tally free_size cs + header_size * length cs) ≡ end
unfolding tally
Chain-conserved b end p at [] ch = omega (arith, ch)
Chain-conserved b end p at (c ∷ cs) ch =
    let rest = Chain-conserved b end at (after at c) cs ch.1 in
    elim (Bool-cases c.free) [
      | inl f ↦ rw f (omega (arith, rest))
      | inr f ↦ rw f (omega (arith, rest))
    ]

module _ (s : Stats) (b : Block) (c : Cell) (size : b.size ≡ c.size) (free : b.free ≡ c.free)
    (used_fits : s.used_bytes + c.size < u64_mod)
    (free_fits : s.free_bytes + c.size < u64_mod) where
  count_block-Counts : Counts s (c ∷ []) (count_block s b)
  unfolding count_block tally largest
  count_block-Counts = elim (Bool-cases c.free) [
    | inl f ↦
        let f' = free ∙ f in
        let larger : (if ltb s.largest_free c.size then c.size else s.largest_free)
            ≡ max s.largest_free c.size =
          ground arith in
        record {
          total = rw f' refl;
          used = rw (f', f) (omega arith);
          free = rw (f', f) (omega (arith, size));
          blocks = rw f' refl;
          free_blocks = rw (f', f) (omega arith);
          largest_block = rw (f', f, size) (larger ∙ omega arith);
        }
    | inr f ↦
        let f' = free ∙ f in
        record {
          total = rw f' refl;
          used = rw (f', f) (omega (arith, size));
          free = rw (f', f) (omega arith);
          blocks = rw f' refl;
          free_blocks = rw (f', f) (omega arith);
          largest_block = rw (f', f) (omega arith);
        }
  ]

used_size-le : (c : Cell) → used_size c ≤ c.size
used_size-le c = elim (Bool-cases c.free) [
  | inl f ↦ rw f (omega arith)
  | inr f ↦ rw f (omega arith)
]

free_size-le : (c : Cell) → free_size c ≤ c.size
free_size-le c = elim (Bool-cases c.free) [
  | inl f ↦ rw f (omega arith)
  | inr f ↦ rw f (omega arith)
]

Counts-trans :
    (s t u : Stats) (c : Cell) (cs : List Cell)
    → Counts s (c ∷ []) t
    → Counts t cs u
    → Counts s (c ∷ cs) u
unfolding tally largest
Counts-trans s t u c cs x y = record {
  total = y.total ∙ x.total;
  used = omega (arith, x.used, y.used);
  free = omega (arith, x.free, y.free);
  blocks = omega (arith, x.blocks, y.blocks);
  free_blocks = omega (arith, x.free_blocks, y.free_blocks);
  largest_block = omega (arith, x.largest_block, y.largest_block);
}

stats_from-Counts :
    (h : Heap) (n p at : ℕ) (cs : List Cell) (s : Stats)
    → length cs < n
    → 0 < at
    → s.used_bytes ≤ at
    → s.free_bytes ≤ at
    → h.end < u64_mod
    → Chain h.blocks h.end p at cs
    → Counts s cs (stats_from h n s (link at cs))
unfolding stats_from tally largest
stats_from-Counts h zero p at cs s lt pos_at us fs below ch = absurd (omega arith)
stats_from-Counts h (suc n) p at [] s lt pos_at us fs below ch = record {
  total = refl;
  used = omega arith;
  free = omega arith;
  blocks = omega arith;
  free_blocks = omega arith;
  largest_block = omega arith;
}
stats_from-Counts h (suc n) p at (c ∷ cs) s lt pos_at us fs below ch =
    let z = not_null at pos_at in
    let k = ch.0 in
    let le = Chain-le h.end h.blocks at (after at c) cs ch.1 in
    let t = count_block s (h.blocks at) in
    let one = count_block-Counts s (h.blocks at) c k.size k.free (omega arith) (omega arith) in
    let more =
      stats_from-Counts h n at (after at c) cs t (omega arith) (omega arith)
        (omega (arith, one.used, used_size-le c)) (omega (arith, one.free, free_size-le c)) below
        ch.1 in
    let go : stats_from h (suc n) s at ≡ stats_from h n t (link (after at c) cs) =
      rw (stats_from, z, k.next) refl in
    rw go (Counts-trans s t _ c cs one more)

-- `kmem_get_stats` of a heap that is in order: the totals are those of the blocks in use and of the
-- free ones, and the payloads and the headers together are all the bytes of the heap.
pub kmem_get_stats-Accounted :
    (h : Heap) (cs : List Cell) → IsHeap h cs → Accounted h cs (kmem_get_stats h)
unfolding kmem_get_stats tally largest
kmem_get_stats-Accounted h cs x =
    let init = x.initialized in
    let first : h.head ≡ link h.base cs = x.head ∙ sym (some_link h.base cs x.some_block) in
    let s0 : Stats = record {
      total_bytes = h.end - h.base;
      used_bytes = 0;
      free_bytes = 0;
      block_count = 0;
      free_count = 0;
      largest_free = 0;
    } in
    let all = Chain-conserved h.blocks h.end 0 h.base cs x.chain in
    let le = Chain-le h.end h.blocks 0 h.base cs x.chain in
    let below = x.below in
    let y =
      stats_from-Counts h (rounds h) 0 h.base cs s0 (rounds_lem h cs x) x.base (omega arith)
        (omega arith) (omega arith) x.chain in
    let is : kmem_get_stats h ≡ stats_from h (rounds h) s0 (link h.base cs) =
      rw (kmem_get_stats, init, first) refl in
    rw is (record {
      total = y.total;
      used = omega (arith, y.used);
      free = omega (arith, y.free);
      blocks = omega (arith, y.blocks);
      free_blocks = omega (arith, y.free_blocks);
      largest_block = y.largest_block ∙ omega arith;
      conserved = omega (arith, y.used, y.free, y.blocks, y.total, all);
    })
