-- ===== src/Kmem/Checks.antt =====
-- kmem_validate and kmem_get_stats on a heap that is in order, and kmem_init.
use acep_reja_mcsos.Kmem.Chain.{
  Cell, Chain, IsHeap, link, Chain-le, Chain-length, after, align_up-aligned,
}
use acep_reja_mcsos.Kmem.{
  kmem_validate, validate_from, Heap, max_blocks, header_size, payload, align_up,
}
use acep_reja_mcsos.Common.{
  ℕ, zero, suc, ◌+◌, ◌-◌, ◌%◌, ◌≤◌, ◌<◌, ◌≡◌, refl, ap, ◌∙◌, Bool, true, false, not, ◌||◌, List, [],
  ◌∷◌, arith, ltb, leb, ◌==◌, if◌then◌else◌, length, u64_mod, ℤ, pos, negsuc,
}

pub not_below : (a b : ℕ) → b ≤ a → ltb a b ≡ false
not_below a b le = ground arith

pub same_number : (a : ℕ) → (a == a) ≡ true
same_number a = ground arith

pub not_null : (a : ℕ) → 0 < a → (a == 0) ≡ false
not_null a lt = ground arith

validate_from-Chain :
    (h : Heap) (n p at : ℕ) (cs : List Cell)
    → length cs ≤ n
    → 0 < at
    → h.base ≤ at
    → at % 16 ≡ 0
    → h.end + 128 < u64_mod
    → Chain h.blocks h.end p at cs
    → validate_from h n p at (link at cs) ≡ pos 0
unfolding validate_from
validate_from-Chain h zero p at [] le pos_at base al below ch = refl
validate_from-Chain h zero p at (c ∷ cs) le pos_at base al below ch = absurd (omega arith)
validate_from-Chain h (suc n) p at [] le pos_at base al below ch = refl
validate_from-Chain h (suc n) p at (c ∷ cs) le pos_at base al below ch =
    let inside : after at c ≤ h.end = Chain-le h.end h.blocks at (after at c) cs ch.1 in
    let c_al : c.size % 16 ≡ 0 = (ch.0).aligned in
    let z = not_null at pos_at in
    let same = same_number at in
    let t1 = not_below at h.base base in
    let t2 = not_below h.end (at + header_size) (omega arith) in
    let t3 = not_below (h.end - payload at) c.size (omega arith) in
    let up : align_up (after at c) ≡ after at c =
      align_up-aligned (after at c) (omega arith) (omega arith) in
    let t4 = not_null (after at c) (omega arith) in
    let t5 = not_below h.end (after at c) inside in
    let same_p = same_number p in
    let rest =
      validate_from-Chain h n at (after at c) cs (omega arith) (omega arith) (omega arith)
        (omega arith) below ch.1 in
    let k = ch.0 in
    rw
      (
        validate_from, z, same, t1, t2, k.magic, k.prev, same_p, k.size, t3, up, t4, t5, k.next,
        rest,
      )
      refl

-- A heap that is in order, of 1048576 blocks or fewer, passes.
pub kmem_validate-IsHeap :
    (h : Heap) (cs : List Cell) → IsHeap h cs → length cs ≤ max_blocks → kmem_validate h ≡ pos 0
unfolding kmem_validate
kmem_validate-IsHeap h [] x le = absurd (x.some_block refl)
kmem_validate-IsHeap h (c ∷ cs) x le =
    let base = x.base in
    let len = Chain-length h.end h.blocks 0 h.base (c ∷ cs) x.chain in
    let t1 = not_null h.base base in
    let t2 : leb h.end h.base ≡ false = ground arith in
    let same = same_number h.base in
    let go =
      validate_from-Chain h max_blocks 0 h.base (c ∷ cs) le x.base (omega arith) x.aligned x.below
        x.chain in
    let body : Bool → ℕ → ℤ = λ i d.
      if not i || (h.base == 0 || (leb h.end h.base || d == 0))
      then negsuc 0
      else if not (d == h.base)
      then negsuc 1
      else validate_from h max_blocks 0 h.base d in
    ap (λ i. body i h.head) x.initialized ∙ ap (body true) x.head ∙ rw (t1, t2, same) go
