-- ===== src/Kmem/Freed.antt =====
-- kmem_free_checked: which payloads are in use after it.
use acep_reja_mcsos.Kmem.Touches.{InPayload, Touches-InPayload, Touches, IsAddr}
use acep_reja_mcsos.Kmem.Checks.{kmem_validate-IsHeap, not_null}
use acep_reja_mcsos.Kmem.Fresh.{InUse, InUse-le, rounds_lem, IsHeap-SameBelow}
use acep_reja_mcsos.Kmem.Free.{
  freed, addr, HasCell, rejoin, merge_free-alone, joined_up-Chain, merge_free-Chain,
  length-absorb_cells, link-freed,
}
use acep_reja_mcsos.Kmem.Coalesce.{absorb_cells}
use acep_reja_mcsos.Kmem.{
  Heap, payload, header_size, block_magic, kmem_free_checked, merge_free, in_heap, max_blocks,
  rounds,
}
use acep_reja_mcsos.Kmem.Chain.{Cell, Chain, after, cell, Chain-le, link, IsHeap, SameBelow}
use acep_reja_mcsos.Common.{
  ℕ, zero, suc, ◌+◌, ◌-◌, ◌%◌, ◌≤◌, ◌<◌, ◌≡◌, refl, sym, ap, ◌∙◌, ◌≢◌, ◌↔◌, inl, inr, true, false,
  List, [], ◌∷◌, arith, ltb, leb, Bool-cases, length, ℤ, pos,
}

addr-le : (k at : ℕ) (cs : List Cell) → at ≤ addr k at cs
addr-le k at [] = omega arith
addr-le zero at (c ∷ cs) = omega arith
addr-le (suc k) at (c ∷ cs) = omega (arith, addr-le k (after at c) cs)

-- A free cell that takes in others: the payloads in use are those after it.
InUse-absorb_cells :
    (at : ℕ) (c : Cell) (cs : List Cell) (q s : ℕ)
    → c.free ≡ true
    → InUse at (absorb_cells c cs) q s ↔ InUse (after at c) cs q s
unfolding absorb_cells
InUse-absorb_cells at c [] q s f =
    (λ u. elim u [ inl (g, e, t) ↦ absurd (cc) | inr r ↦ absurd r ], λ u. absurd u)
InUse-absorb_cells at c (d ∷ ds) q s f =
    let more = cell (c.size + (header_size + d.size)) c.free in
    let same : after at more ≡ after (after at c) d = omega arith in
    elim (Bool-cases d.free) [
      | inl g ↦
          let (to, from) = InUse-absorb_cells at more ds q s f in
          rw (absorb_cells, g)
            (
              λ u. inr (coe 0 1 (i. InUse (same i) ds q s) (to u)),
              λ u. elim u [
                | inl (e, x, t) ↦ absurd (cc)
                | inr r ↦ from (coe 1 0 (i. InUse (same i) ds q s) r)
              ],
            )
      | inr g ↦
          rw (absorb_cells, g) (λ u. elim u [ inl (e, x, t) ↦ absurd (cc) | inr r ↦ r ], λ u. inr u)
    ]

InUse-rejoin :
    (k at : ℕ) (c : Cell) (cs : List Cell) (q s : ℕ)
    → InUse at (rejoin k c cs) q s ↔ InUse at (c ∷ cs) q s
InUse-rejoin zero at c cs q s = elim (Bool-cases c.free) [
  | inl f ↦
      let (to, from) = InUse-absorb_cells at c cs q s f in
      let list : rejoin zero c cs ≡ absorb_cells c cs = rw f refl in
      (
        λ u. inr (to (coe 0 1 (i. InUse at (list i) q s) u)),
        λ u. elim u [
          | inl (e, x, t) ↦ absurd (cc)
          | inr r ↦ coe 1 0 (i. InUse at (list i) q s) (from r)
        ],
      )
  | inr f ↦
      let list : rejoin zero c cs ≡ c ∷ cs = rw f refl in
      (λ u. coe 0 1 (i. InUse at (list i) q s) u, λ u. coe 1 0 (i. InUse at (list i) q s) u)
]
InUse-rejoin (suc k) at c cs q s = (λ u. u, λ u. u)

-- The payloads in use once a cell is freed: the others.
InUse-freed :
    (k at : ℕ) (cs : List Cell) (q s : ℕ)
    → HasCell k cs
    → InUse at (freed k cs) q s ↔ (InUse at cs q s × (q ≢ payload (addr k at cs)))
unfolding freed
InUse-freed k at [] q s has = absurd has
InUse-freed zero at (c ∷ cs) q s has =
    let (to, from) = InUse-absorb_cells at (cell c.size true) cs q s refl in
    (
      λ u. let r = to u in (inr r, λ e. absurd (omega (arith, e, InUse-le (after at c) cs q s r))),
      λ u. elim u.0 [ inl (f, e, t) ↦ absurd (u.1 e) | inr r ↦ from r ],
    )
InUse-freed (suc k) at (c ∷ cs) q s has =
    let le = addr-le k (after at c) cs in
    let (to, from) = InUse-freed k (after at c) cs q s has in
    let (there, back) = InUse-rejoin k at c (freed k cs) q s in
    (
      λ u. elim (there u) [
        | inl (f, e, t) ↦ (inl (f, e, t), λ x. absurd (omega (arith, e, x, le)))
        | inr r ↦ let (v, ne) = to r in (inr v, ne)
      ],
      λ u. elim u.0 [ inl x ↦ back (inl x) | inr r ↦ back (inr (from (r, u.1))) ],
    )

-- The cell of the payload `q`.
record Place (at : ℕ) (cs : List Cell) (q : ℕ) : Type 0 where
  index : ℕ
  has_cell : HasCell index cs
  there : q ≡ payload (addr index at cs)

-- A payload in use has a cell.
InUse-HasCell : (at : ℕ) (cs : List Cell) (q s : ℕ) → InUse at cs q s → Place at cs q
InUse-HasCell at [] q s u = absurd u
InUse-HasCell at (c ∷ cs) q s (inl (f, e, t)) = record { index = 0; has_cell = tt; there = e }
InUse-HasCell at (c ∷ cs) q s (inr r) =
    let x = InUse-HasCell (after at c) cs q s r in
    record { index = suc x.index; has_cell = x.has_cell; there = x.there }

-- What `kmem_free_checked` reads of the block of a payload in use.
record Used (h : Heap) (at q s : ℕ) : Type 0 where
  from : payload at ≤ q
  inside : q + s ≤ h.end
  magic : (h.blocks (q - header_size)).magic ≡ block_magic
  in_use : (h.blocks (q - header_size)).free ≡ false
  aligned : q % 16 ≡ 0

InUse-Used :
    (h : Heap) (p at : ℕ) (cs : List Cell) (q s : ℕ)
    → at % 16 ≡ 0
    → Chain h.blocks h.end p at cs
    → InUse at cs q s
    → Used h at q s
InUse-Used h p at [] q s al ch u = absurd u
InUse-Used h p at (c ∷ cs) q s al ch (inl (f, e, t)) =
    let k = ch.0 in
    let le = Chain-le h.end h.blocks at (after at c) cs ch.1 in
    let here : q - header_size ≡ at = omega arith in
    record {
      from = omega (arith, e);
      inside = omega (arith, e, le, t);
      magic = ap (λ a. (h.blocks a).magic) here ∙ k.magic;
      in_use = ap (λ a. (h.blocks a).free) here ∙ k.free ∙ f;
      aligned = omega (arith, e);
    }
InUse-Used h p at (c ∷ cs) q s al ch (inr r) =
    let k = ch.0 in
    let c_al = k.aligned in
    let x = InUse-Used h at (after at c) cs q s (omega arith) ch.1 r in
    record {
      from = omega (arith, x.from);
      inside = x.inside;
      magic = x.magic;
      in_use = x.in_use;
      aligned = x.aligned;
    }

length-freed : (k : ℕ) (cs : List Cell) → length (freed k cs) ≤ length cs
unfolding freed
length-freed k [] = omega arith
length-freed zero (c ∷ cs) = length-absorb_cells (cell c.size true) cs
length-freed (suc (suc k)) (c ∷ cs) = omega (arith, length-freed (suc k) cs)
length-freed (suc zero) (c ∷ cs) =
    let le = length-freed zero cs in
    elim (Bool-cases c.free) [
      | inl f ↦
          let more = length-absorb_cells c (freed zero cs) in
          let is : freed 1 (c ∷ cs) ≡ absorb_cells c (freed zero cs) = rw (freed, f) refl in
          rw is (omega (arith, le, more))
      | inr f ↦
          let is : freed 1 (c ∷ cs) ≡ c ∷ freed zero cs = rw (freed, f) refl in
          rw is (omega (arith, le))
    ]

freed-some : (k at : ℕ) (cs : List Cell) → 0 < at → HasCell k cs → freed k cs ≢ []
freed-some k at [] pos_at has e = absurd has
freed-some k at (c ∷ cs) pos_at has e =
    let z : 0 ≡ at = ap (link at) (sym e) ∙ link-freed k at (c ∷ cs) in absurd (omega (arith, z))

-- Both calls of `kmem_coalesce_forward`, from the first block of the heap.
merge_free-IsHeap :
    (h : Heap) (cs : List Cell) (k : ℕ)
    → IsHeap h cs
    → HasCell k cs
    → Chain (merge_free h (addr k h.base cs)).blocks h.end 0 h.base (freed k cs)
      × SameBelow h.base h (merge_free h (addr k h.base cs))
      × Touches (IsAddr h.base cs) h (merge_free h (addr k h.base cs))
unfolding freed
merge_free-IsHeap h [] k x has = absurd has
merge_free-IsHeap h (c ∷ cs) zero x has =
    let fuel = rounds_lem h (c ∷ cs) x in
    let short : length cs < rounds h = omega (arith, fuel) in
    let is = merge_free-alone h h.end 0 h.base c cs x.chain x.base x.aligned x.below short refl in
    rw is (joined_up-Chain h h.end 0 h.base c cs x.chain x.base x.aligned x.below short)
merge_free-IsHeap h (c ∷ cs) (suc k) x has =
    merge_free-Chain k h h.end 0 h.base (c ∷ cs) has x.base x.aligned x.below
      (rounds_lem h (c ∷ cs) x) x.chain

inside_heap :
    (h : Heap) (a : ℕ) → h.initialized ≡ true → h.base ≤ a → a < h.end → in_heap h a ≡ true
unfolding in_heap
inside_heap h a init le lt =
    let t1 : leb h.base a ≡ true = ground arith in
    let t2 : ltb a h.end ≡ true = ground arith in rw (in_heap, init, t1, t2) refl

-- What `kmem_free_checked` of the payload `q` has done: it answers 0, the heap is in order, the
-- payloads in use are those that were, without `q`, and no byte of a payload has changed.
pub record Released (h : Heap) (cs : List Cell) (q : ℕ) (r : ℤ × Heap) : Type 0 where
  pub cells : List Cell
  pub answer : r.0 ≡ pos 0
  pub in_order : IsHeap r.1 cells
  pub in_use : (p s : ℕ) → InUse h.base cells p s ↔ (InUse h.base cs p s × (p ≢ q))
  pub same_bytes : (a : ℕ) → InPayload h.base cs a → r.1.bytes a ≡ h.bytes a

-- `kmem_free_checked` of a payload in use, of one byte or more, on a heap that is in order and has
-- 1048576 blocks or fewer: it answers 0, the heap is in order, exactly the other payloads that were
-- in use are in use, and no byte of a payload has changed.
pub kmem_free_checked-Released :
    (h : Heap) (cs : List Cell) (q s : ℕ)
    → IsHeap h cs
    → length cs ≤ max_blocks
    → 0 < s
    → InUse h.base cs q s
    → Released h cs q (kmem_free_checked h q)
unfolding kmem_free_checked
kmem_free_checked-Released h cs q s x few some_bytes u =
    let y = InUse-Used h 0 h.base cs q s x.aligned x.chain u in
    let place = InUse-HasCell h.base cs q s u in
    let k = place.index in
    let there = place.there in
    let from = y.from in
    let inside = y.inside in
    let block : q - header_size ≡ addr k h.base cs = omega arith in
    let base = x.base in
    let h' = merge_free h (addr k h.base cs) in
    let (ch, same, touched) = merge_free-IsHeap h cs k x place.has_cell in
    let ordered : IsHeap h' (freed k cs) =
      IsHeap-SameBelow h h' cs (freed k cs) h.base x (freed-some k h.base cs x.base place.has_cell)
        same ch in
    let t1 = not_null q (omega arith) in
    let t2 = inside_heap h q x.initialized (omega arith) (omega arith) in
    let t3 = inside_heap h (q - header_size) x.initialized (omega arith) (omega arith) in
    let ok = kmem_validate-IsHeap h' (freed k cs) ordered (omega (arith, length-freed k cs)) in
    let is : kmem_free_checked h q ≡ (pos 0, h') =
      rw (kmem_free_checked, t1, t2, y.aligned, t3, y.magic, y.in_use, block, ok) refl in
    rw is (record {
      cells = freed k cs;
      answer = refl;
      in_order = ordered;
      in_use = λ p n. rw there (InUse-freed k h.base cs p n place.has_cell);
      same_bytes = Touches-InPayload h.base cs h h' touched;
    })
