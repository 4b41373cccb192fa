-- ===== src/Kmem/Calloc.antt =====
-- kmem_calloc: an allocation that is cleared.
use acep_reja_mcsos.Kmem.Touches.{IsAddr, IsAddr-le}
use native.Mathlib.Nat.{le-div_iff_mul-le, div-lt_iff_lt-mul, mul_comm}
use acep_reja_mcsos.Kmem.Checks.{not_null, not_below}
use acep_reja_mcsos.Kmem.Fresh.{Allocated, InUse, NoRoom, kmem_alloc-Allocated, InUse-le}
use acep_reja_mcsos.Kmem.Chain.{Cell, IsHeap, Chain, IsBlock-same, after, link}
use acep_reja_mcsos.Kmem.{
  clear_payload, kmem_calloc, zero_bytes, Heap, kmem_alloc, Block, header_size, reread,
}
use acep_reja_mcsos.Common.{
  ℕ, ◌+◌, ◌-◌, ◌*◌, ◌/◌, ◌≤◌, ◌<◌, ◌≡◌, refl, ap, ◌∙◌, ◌⊎◌, inl, inr, true, false, not, ◌&&◌, List,
  arith, ltb, ◌==◌, lt→ltb, ==_iff, Bool-cases, u64_mod, [], ◌∷◌,
}

-- What a successful `kmem_calloc` of `total` bytes has done: the payload that is returned is in use,
-- large enough, its first `total` bytes are 0, it overlaps no payload that was in use, and those keep
-- their bytes.
pub record Zeroed (h : Heap) (cs : List Cell) (total : ℕ) (r : ℕ × Heap) : Type 0 where
  pub cells : List Cell
  pub in_order : IsHeap r.1 cells
  pub size : ℕ
  pub enough : total ≤ size
  pub handed_out : InUse h.base cells r.0 size
  pub kept : (q s : ℕ) → InUse h.base cs q s → InUse h.base cells q s
  pub apart : (q s : ℕ) → InUse h.base cs q s → (q + s ≤ r.0) ⊎ (r.0 + size ≤ q)
  pub zero_inside : (a : ℕ) → r.0 ≤ a → a < r.0 + total → r.1.bytes a ≡ 0
  pub same_bytes : (q s a : ℕ) → InUse h.base cs q s → q ≤ a → a < q + s → r.1.bytes a ≡ h.bytes a

zero_bytes-inside : (mem : ℕ → ℕ) (p n a : ℕ) → p ≤ a → a < p + n → zero_bytes mem p n a ≡ 0
unfolding zero_bytes
zero_bytes-inside mem p n a le lt = ground arith

zero_bytes-outside :
    (mem : ℕ → ℕ) (p n a : ℕ) → (a < p) ⊎ (p + n ≤ a) → zero_bytes mem p n a ≡ mem a
unfolding zero_bytes
zero_bytes-outside mem p n a out = ground arith

-- A list is its headers.
Chain-headers :
    (b b' : ℕ → Block) (end p at : ℕ) (cs : List Cell)
    → ((a : ℕ) → IsAddr at cs a → b' a ≡ b a)
    → Chain b end p at cs
    → Chain b' end p at cs
Chain-headers b b' end p at [] same ch = ch
Chain-headers b b' end p at (c ∷ cs) same ch = (
  IsBlock-same end b b' p at c (link (after at c) cs) (same at (inl refl)) ch.0,
  Chain-headers b b' end at (after at c) cs (λ a y. same a (inr y)) ch.1,
)

-- No header of the list overlaps a payload in use.
Clear : ℕ → ℕ → ℕ → Type 0
Clear a q s = (a + header_size ≤ q) ⊎ (q + s ≤ a)

InUse-Clear : (at : ℕ) (cs : List Cell) (q s a : ℕ) → InUse at cs q s → IsAddr at cs a → Clear a q s
unfolding Clear
InUse-Clear at [] q s a u y = absurd u
InUse-Clear at (c ∷ cs) q s a (inl (f, e, t)) (inl i) = inl (omega (arith, e, i))
InUse-Clear at (c ∷ cs) q s a (inl (f, e, t)) (inr y) =
    inr (omega (arith, e, t, IsAddr-le (after at c) cs a y))
InUse-Clear at (c ∷ cs) q s a (inr u) (inl i) =
    inl (omega (arith, i, InUse-le (after at c) cs q s u))
InUse-Clear at (c ∷ cs) q s a (inr u) (inr y) = InUse-Clear (after at c) cs q s a u y

reread-Clear :
    (blocks : ℕ → Block) (mem : ℕ → ℕ) (p n s a : ℕ)
    → n ≤ s
    → Clear a p s
    → reread blocks mem p n a ≡ blocks a
unfolding reread Clear
reread-Clear blocks mem p n s a le (inl x) =
    let t : ltb p (a + header_size) ≡ false = not_below p (a + header_size) x in rw t refl
reread-Clear blocks mem p n s a le (inr x) =
    let t : ltb a (p + n) ≡ false = not_below a (p + n) (omega (arith, x, le)) in
    elim (Bool-cases (ltb p (a + header_size))) [ inl u ↦ rw (u, t) refl | inr u ↦ rw u refl ]

-- A payload in use that is written leaves the heap in order.
IsHeap-reread :
    (h : Heap) (cs : List Cell) (mem : ℕ → ℕ) (p n s : ℕ)
    → IsHeap h cs
    → InUse h.base cs p s
    → n ≤ s
    → IsHeap (record h { blocks = reread h.blocks mem p n; bytes = mem }) cs
IsHeap-reread h cs mem p n s x u le = record {
  initialized = x.initialized;
  head = x.head;
  some_block = x.some_block;
  base = x.base;
  aligned = x.aligned;
  below = x.below;
  chain =
      Chain-headers h.blocks (reread h.blocks mem p n) h.end 0 h.base cs
        (λ a y. reread-Clear h.blocks mem p n s a le (InUse-Clear h.base cs p s a u y)) x.chain;
}

apart-outside :
    (p n size q s a : ℕ)
    → n ≤ size
    → (q + s ≤ p) ⊎ (p + size ≤ q)
    → q ≤ a
    → a < q + s
    → (a < p) ⊎ (p + n ≤ a)
apart-outside p n size q s a le (inl x) from to = inl (omega arith)
apart-outside p n size q s a le (inr x) from to = inr (omega arith)

clear_payload-Zeroed :
    (h : Heap) (cs : List Cell) (total : ℕ) (r : ℕ × Heap)
    → r.1.base ≡ h.base
    → Allocated h cs total r
    → Zeroed h cs total (clear_payload total r)
unfolding clear_payload
clear_payload-Zeroed h cs total (p, h') base x =
    let z = not_null p (omega (arith, InUse-le h.base x.cells p x.size x.handed_out)) in
    let mem = zero_bytes h'.bytes p total in
    let there : InUse h'.base x.cells p x.size = rw base x.handed_out in
    rw z (record {
      cells = x.cells;
      in_order = IsHeap-reread h' x.cells mem p total x.size x.in_order there x.enough;
      size = x.size;
      enough = x.enough;
      handed_out = x.handed_out;
      kept = x.kept;
      apart = x.apart;
      zero_inside = zero_bytes-inside h'.bytes p total;
      same_bytes = λ q s a u from to.
          zero_bytes-outside h'.bytes p total a
            (apart-outside p total x.size q s a x.enough (x.apart q s u) from to)
          ∙ x.same_bytes q s a u from to;
    })

-- The test of `kmem_calloc` by a division.
module _ (count bytes : ℕ) where
  overflow_test-fits :
      count * bytes < u64_mod → (not (count == 0) && ltb ((u64_mod - 1) / count) bytes) ≡ false
  overflow_test-fits lt = elim (Bool-cases (count == 0)) [
    | inl z ↦ rw z refl
    | inr z ↦
        let small : bytes * count ≤ u64_mod - 1 = omega (arith, mul_comm count bytes, lt) in
        let q : bytes ≤ (u64_mod - 1) / count = (le-div_iff_mul-le (ground arith)).1 small in
        rw (z, not_below ((u64_mod - 1) / count) bytes q) refl
  ]

  overflow_test-over :
      u64_mod ≤ count * bytes → (not (count == 0) && ltb ((u64_mod - 1) / count) bytes) ≡ true
  overflow_test-over le = elim (Bool-cases (count == 0)) [
    | inl z ↦
        let none_asked : count * bytes ≡ 0 * bytes = ap (λ n. n * bytes) ((==_iff count 0).0 z) in
        absurd (omega (arith, none_asked, le))
    | inr z ↦
        let pos_count : 0 < count = ground arith in
        let q : (u64_mod - 1) / count < bytes =
          (div-lt_iff_lt-mul pos_count).1 (omega (arith, mul_comm count bytes, le)) in
        let t : ltb ((u64_mod - 1) / count) bytes ≡ true = lt→ltb ((u64_mod - 1) / count) bytes q in
        rw (z, t) refl
  ]

-- `kmem_calloc` of `count` times `bytes` bytes, a product that is not 0 and is below 2 ^ 64 - 15, from a
-- heap that is in order and ends 128 bytes or more below the top of the address space: it returns
-- NULL and changes nothing, and then no free block has room for the product rounded up to 16; or it
-- returns a payload as `kmem_alloc` does, whose first `count` times `bytes` bytes are 0, and every
-- payload that was in use keeps its bytes.
pub kmem_calloc-Zeroed :
    (h : Heap) (cs : List Cell) (count bytes : ℕ)
    → IsHeap h cs
    → 0 < count * bytes
    → count * bytes + 15 < u64_mod
    → ((kmem_calloc h count bytes ≡ (0, h)) × NoRoom ((count * bytes + 15) / 16 * 16) cs)
      ⊎ Zeroed h cs (count * bytes) (kmem_calloc h count bytes)
unfolding kmem_calloc clear_payload
kmem_calloc-Zeroed h cs count bytes x some_bytes small =
    let fits = overflow_test-fits count bytes (omega (arith, small)) in
    elim (kmem_alloc-Allocated h cs (count * bytes) x some_bytes small) [
      | inl n ↦ inl (rw (kmem_calloc, fits, n.0) refl, n.1)
      | inr y ↦ inr (
          rw (kmem_calloc, fits)
            (clear_payload-Zeroed h cs (count * bytes) (kmem_alloc h (count * bytes)) y.same_base
              y))
    ]

-- A product that does not fit in 64 bits gives NULL and changes nothing.
pub kmem_calloc-overflow :
    (h : Heap) (count bytes : ℕ) → u64_mod ≤ count * bytes → kmem_calloc h count bytes ≡ (0, h)
unfolding kmem_calloc
kmem_calloc-overflow h count bytes big =
    let over = overflow_test-over count bytes big in rw (kmem_calloc, over) refl
