-- ===== src/Kmem/Coalesce.antt =====
-- kmem_coalesce_forward over the list of cells.
use acep_reja_mcsos.Kmem.Touches.{
  Touches, IsAddr, Touches-trans, Touches-refl, Touches-set_block, Touches-more, Touches-set_prev,
  IsAddr-first,
}
use acep_reja_mcsos.Kmem.Chain.{
  Cell, cell, Chain, after, SameBelow, link, Chain-le, SameBelow-trans, SameBelow-set_block,
  set_prev-others, SameBelow-set_prev, set_prev-first, Chain-relink, SameBelow-refl,
  align_up-aligned,
}
use acep_reja_mcsos.Kmem.{
  Heap, header_size, set_block, set_prev, absorb, Block, coalesce_forward, align_up,
}
use acep_reja_mcsos.Common.{
  ℕ, zero, suc, ◌+◌, ◌%◌, ◌<◌, ◌≡◌, refl, sym, ap, ◌∙◌, ◌≢◌, inl, inr, true, false, List, [], ◌∷◌,
  arith, ◌==◌, if◌then◌else◌, Bool-cases, update, length, u64_mod, add64,
}

-- A cell with the free cells after it made part of it.
unfoldable pub absorb_cells : Cell → List Cell → List Cell
absorb_cells c [] = c ∷ []
absorb_cells c (d ∷ ds) =
    let more = absorb_cells (cell (c.size + (header_size + d.size)) c.free) ds in
    if d.free then more else c ∷ d ∷ ds

update-others : (f : ℕ → Block) (i : ℕ) (x : Block) (a : ℕ) → a ≢ i → update f i x a ≡ f a
update-others f i x a ne = ground arith

module _ (h : Heap) (top p at : ℕ) (c d : Cell) (ds : List Cell)
    (ch : Chain h.blocks top p at (c ∷ d ∷ ds)) (pos_at : 0 < at)
    (below : top + 128 < u64_mod) where
  abbrev nxt : ℕ
  nxt = after at c

  abbrev rest_at : ℕ
  rest_at = after nxt d

  abbrev joined : Cell
  joined = cell (c.size + (header_size + d.size)) c.free

  abbrev grown : Heap
  grown =
      set_block h at
        (record (h.blocks at) { size = c.size + (header_size + d.size); next = link rest_at ds })

  abbrev relinked : Heap
  relinked = set_prev grown (link rest_at ds) at

  abbrev wiped : Heap
  wiped =
      set_block relinked nxt
        (record (relinked.blocks nxt) { magic = 0; size = 0; prev = 0; next = 0 })

  absorb_lem : absorb h at ≡ wiped
  unfolding absorb
  absorb_lem =
      let write : ℕ → ℕ → ℕ → Heap = λ nx size nn.
        let h1 = set_block h at (record (h.blocks at) { size = size; next = nn }) in
        let h2 = set_prev h1 nn at in
        set_block h2 nx (record (h2.blocks nx) { magic = 0; size = 0; prev = 0; next = 0 }) in
      let le = Chain-le top h.blocks nxt rest_at ds (ch.1).1 in
      let k = ch.0 in
      let m = (ch.1).0 in
      let sum : add64 c.size (header_size + d.size) ≡ c.size + (header_size + d.size) =
        omega arith in
      ap
        (λ nx.
          write nx (add64 (h.blocks at).size (header_size + (h.blocks nx).size)) (h.blocks nx).next)
        k.next
      ∙ ap (λ s. write nxt (add64 s (header_size + (h.blocks nxt).size)) (h.blocks nxt).next) k.size
      ∙ ap (λ s. write nxt (add64 c.size (header_size + s)) (h.blocks nxt).next) m.size
      ∙ ap (λ nn. write nxt (add64 c.size (header_size + d.size)) nn) m.next
      ∙ ap (λ s. write nxt s (link rest_at ds)) sum

  wiped-others : (a : ℕ) → a ≢ nxt → wiped.blocks a ≡ relinked.blocks a
  wiped-others a ne = update-others relinked.blocks nxt _ a ne

  grown-others : (a : ℕ) → a ≢ at → grown.blocks a ≡ h.blocks a
  grown-others a ne = update-others h.blocks at _ a ne

  absorb-SameBelow : SameBelow at h (absorb h at)
  absorb-SameBelow = rw absorb_lem (
      SameBelow-trans at h grown wiped (SameBelow-set_block at h at _ (omega arith)) (
        SameBelow-trans at grown relinked wiped
          (SameBelow-set_prev at grown rest_at at ds (omega arith))
          (SameBelow-set_block at relinked nxt _ (omega arith))))

  absorb-Touches : Touches (IsAddr at (c ∷ d ∷ ds)) h (absorb h at)
  absorb-Touches =
      let W = IsAddr at (c ∷ d ∷ ds) in
      rw absorb_lem (
        Touches-trans W h grown wiped (Touches-set_block W h at _ (inl refl)) (
          Touches-trans W grown relinked wiped
            (Touches-set_prev W grown rest_at at ds
              (λ ne. inr (inr (IsAddr-first rest_at ds rest_at refl ne))))
            (Touches-set_block W relinked nxt _ (inr (inl refl)))))

  -- The headers once the two cells are one are among those before.
  joined-IsAddr : (q : ℕ) → IsAddr at (joined ∷ ds) q → IsAddr at (c ∷ d ∷ ds) q
  joined-IsAddr q (inl e) = inl e
  joined-IsAddr q (inr y) =
      let here : after at joined ≡ rest_at = omega arith in
      inr (inr (coe 0 1 (i. IsAddr (here i) ds q) y))

  absorb-Chain : Chain (absorb h at).blocks top p at (joined ∷ ds)
  absorb-Chain =
      let b = (absorb h at).blocks in
      let is : (a : ℕ) → b a ≡ wiped.blocks a = λ a. ap (λ x. x.blocks a) absorb_lem in
      let k = ch.0 in
      let m = (ch.1).0 in
      let c_al = k.aligned in
      let d_al = m.aligned in
      let self : b at ≡ record (h.blocks at) {
        size = c.size + (header_size + d.size);
        next = link rest_at ds;
      } =
        is at
        ∙ wiped-others at (λ e. absurd (omega (arith, e)))
        ∙ set_prev-others grown rest_at at ds at (λ e. absurd (omega (arith, e)))
        ∙ ground arith in
      let here : after at joined ≡ rest_at = omega arith in
      let first : ds ≢ [] → b rest_at ≡ record (h.blocks rest_at) { prev = at } = λ ne.
        is rest_at
        ∙ wiped-others rest_at (λ e. absurd (omega (arith, e)))
        ∙ set_prev-first grown rest_at at ds (omega arith) ne
        ∙ ap (λ (x : Block). record x { prev = at })
            (grown-others rest_at (λ e. absurd (omega (arith, e)))) in
      let others : (a : ℕ) → rest_at < a → b a ≡ h.blocks a = λ a lt.
        is a
        ∙ wiped-others a (λ e. absurd (omega (arith, e)))
        ∙ set_prev-others grown rest_at at ds a (λ e. absurd (omega (arith, e)))
        ∙ grown-others a (λ e. absurd (omega (arith, e))) in
      (
        record {
          magic = ap (λ x. x.magic) self ∙ k.magic;
          size = ap (λ x. x.size) self;
          free = ap (λ x. x.free) self ∙ k.free;
          prev = ap (λ x. x.prev) self ∙ k.prev;
          next = ap (λ x. x.next) self ∙ ap (λ a. link a ds) (sym here);
          aligned = omega arith;
        },
        rw here (Chain-relink top h.blocks b nxt rest_at at ds first others (ch.1).1),
      )

-- The loop joins all the free blocks after a block to it.
pub coalesce_forward-Chain :
    (n : ℕ) (h : Heap) (top p at : ℕ) (c : Cell) (cs : List Cell)
    → length cs < n
    → 0 < at
    → at % 16 ≡ 0
    → top + 128 < u64_mod
    → Chain h.blocks top p at (c ∷ cs)
    → Chain (coalesce_forward n h at).blocks top p at (absorb_cells c cs)
      × SameBelow at h (coalesce_forward n h at)
      × Touches (IsAddr at (c ∷ cs)) h (coalesce_forward n h at)
unfolding coalesce_forward absorb_cells
coalesce_forward-Chain zero h top p at c cs lt pos_at al below ch = absurd (omega arith)
coalesce_forward-Chain (suc n) h top p at c [] lt pos_at al below ch =
    let z : (at == 0) ≡ false = ground arith in
    let k = ch.0 in
    let stay : coalesce_forward (suc n) h at ≡ h = rw (coalesce_forward, z, k.next) refl in
    rw stay (ch, SameBelow-refl at h, Touches-refl (IsAddr at (c ∷ [])) h)
coalesce_forward-Chain (suc n) h top p at c (d ∷ ds) lt pos_at al below ch =
    let z : (at == 0) ≡ false = ground arith in
    let nz : (after at c == 0) ≡ false = ground arith in
    let k = ch.0 in
    let m = (ch.1).0 in
    let c_al = k.aligned in
    let le = Chain-le top h.blocks at (after at c) (d ∷ ds) ch.1 in
    let up : align_up (after at c) ≡ after at c =
      align_up-aligned (after at c) (omega arith) (omega arith) in
    let same : (after at c == after at c) ≡ true = ground arith in
    elim (Bool-cases d.free) [
      | inr f ↦
          let stay : coalesce_forward (suc n) h at ≡ h =
            rw (coalesce_forward, z, k.next, nz, m.free, f) refl in
          let list : absorb_cells c (d ∷ ds) ≡ c ∷ d ∷ ds = rw (absorb_cells, f) refl in
          rw (stay, list) (ch, SameBelow-refl at h, Touches-refl (IsAddr at (c ∷ d ∷ ds)) h)
      | inl f ↦
          let h1 = absorb h at in
          let go : coalesce_forward (suc n) h at ≡ coalesce_forward n h1 at =
            rw (coalesce_forward, z, k.next, nz, m.free, f, k.size, up, same) refl in
          let list : absorb_cells c (d ∷ ds)
              ≡ absorb_cells (joined h top p at c d ds ch pos_at below) ds =
            rw (absorb_cells, f) refl in
          let s1 = absorb-SameBelow h top p at c d ds ch pos_at below in
          let (ch2, s2, w2) =
            coalesce_forward-Chain n h1 top p at (joined h top p at c d ds ch pos_at below) ds
              (omega arith) pos_at al below (absorb-Chain h top p at c d ds ch pos_at below) in
          rw (go, list)
            (
              ch2,
              SameBelow-trans at h h1 (coalesce_forward n h1 at) s1 s2,
              Touches-trans (IsAddr at (c ∷ d ∷ ds)) h h1 (coalesce_forward n h1 at)
                  (absorb-Touches h top p at c d ds ch pos_at below)
                  (Touches-more (IsAddr at (joined h top p at c d ds ch pos_at below ∷ ds))
                    (IsAddr at (c ∷ d ∷ ds)) h1 (coalesce_forward n h1 at)
                    (joined-IsAddr h top p at c d ds ch pos_at below) w2),
            )
    ]
