-- ===== src/Kmem/Free.antt =====
-- kmem_free_checked over the list of cells.
use acep_reja_mcsos.Kmem.Touches.{IsAddr, Touches, Touches-trans, Touches-more, Touches-set_block}
use acep_reja_mcsos.Kmem.Coalesce.{absorb_cells, coalesce_forward-Chain}
use acep_reja_mcsos.Kmem.{Block, Heap, coalesce_forward, rounds, set_block, merge_free, header_size}
use acep_reja_mcsos.Kmem.Chain.{
  Cell, after, cell, link, Chain, Chain-frame, SameBelow, IsBlock, SameBelow-trans, IsBlock-same,
  SameBelow-set_block, SameBelow-lower,
}
use acep_reja_mcsos.Common.{
  ℕ, zero, suc, ◌+◌, ◌%◌, ◌≤◌, ◌<◌, ◌≡◌, refl, sym, ap, ◌∙◌, ◌≢◌, inl, inr, true, false, List, [],
  ◌∷◌, arith, ◌==◌, if◌then◌else◌, Bool-cases, length, u64_mod,
}

-- The address of the cell with index `k`.
abbrev pub addr : ℕ → ℕ → List Cell → ℕ
addr k at [] = at
addr zero at (c ∷ cs) = at
addr (suc k) at (c ∷ cs) = addr k (after at c) cs

-- There is a cell with index `k`.
abbrev pub HasCell : ℕ → List Cell → Type 0
HasCell k [] = ⊥
HasCell zero (c ∷ cs) = Unit {0}
HasCell (suc k) (c ∷ cs) = HasCell k cs

-- The cell before the one that is freed: if it is free, it takes in what follows.
abbrev pub rejoin : ℕ → Cell → List Cell → List Cell
rejoin zero c cs = if c.free then absorb_cells c cs else c ∷ cs
rejoin (suc k) c cs = c ∷ cs

-- The cells once the one with index `k` is free.
unfoldable pub freed : ℕ → List Cell → List Cell
freed k [] = []
freed zero (c ∷ cs) = absorb_cells (cell c.size true) cs
freed (suc k) (c ∷ cs) = rejoin k c (freed k cs)

link-absorb_cells : (at : ℕ) (c : Cell) (cs : List Cell) → link at (absorb_cells c cs) ≡ at
unfolding absorb_cells
link-absorb_cells at c [] = refl
link-absorb_cells at c (d ∷ ds) = elim (Bool-cases d.free) [
  | inl f ↦
      rw (absorb_cells, f) (link-absorb_cells at (cell (c.size + (header_size + d.size)) c.free) ds)
  | inr f ↦ rw (absorb_cells, f) refl
]

pub link-freed : (k at : ℕ) (cs : List Cell) → link at (freed k cs) ≡ link at cs
unfolding freed
link-freed k at [] = refl
link-freed zero at (c ∷ cs) = link-absorb_cells at (cell c.size true) cs
link-freed (suc zero) at (c ∷ cs) = elim (Bool-cases c.free) [
  | inl f ↦ rw (freed, f) (link-absorb_cells at _ (freed zero cs))
  | inr f ↦ rw (freed, f) refl
]
link-freed (suc (suc k)) at (c ∷ cs) = refl

pub length-absorb_cells : (c : Cell) (cs : List Cell) → length (absorb_cells c cs) ≤ suc (length cs)
unfolding absorb_cells
length-absorb_cells c [] = omega arith
length-absorb_cells c (d ∷ ds) = elim (Bool-cases d.free) [
  | inl f ↦
      let le = length-absorb_cells (cell (c.size + (header_size + d.size)) c.free) ds in
      rw (absorb_cells, f) (omega (arith, le))
  | inr f ↦ rw (absorb_cells, f) (omega arith)
]

-- The first block of a list: its predecessor.
Chain-first :
    (b : ℕ → Block) (end p at : ℕ) (cs : List Cell)
    → cs ≢ []
    → Chain b end p at cs
    → (b at).prev ≡ p
Chain-first b end p at [] ne ch = absurd (ne refl)
Chain-first b end p at (c ∷ cs) ne ch = (ch.0).prev

absorb_cells-some : (c : Cell) (cs : List Cell) → absorb_cells c cs ≢ []
unfolding absorb_cells
absorb_cells-some c [] e = absurd (cc)
absorb_cells-some c (d ∷ ds) e = elim (Bool-cases d.free) [
  | inl f ↦
      let h : absorb_cells (cell (c.size + (header_size + d.size)) c.free) ds ≡ [] =
        sym (rw (absorb_cells, f) refl) ∙ e in
      absorb_cells-some (cell (c.size + (header_size + d.size)) c.free) ds h
  | inr f ↦ let h : c ∷ d ∷ ds ≡ [] = sym (rw (absorb_cells, f) refl) ∙ e in absurd (cc)
]

-- The headers that are left are among those before.
absorb_cells-IsAddr :
    (at : ℕ) (c : Cell) (cs : List Cell) (q : ℕ)
    → IsAddr at (absorb_cells c cs) q
    → IsAddr at (c ∷ cs) q
unfolding absorb_cells
absorb_cells-IsAddr at c [] q y = y
absorb_cells-IsAddr at c (d ∷ ds) q y = elim (Bool-cases d.free) [
  | inl f ↦
      let more = cell (c.size + (header_size + d.size)) c.free in
      let list : absorb_cells c (d ∷ ds) ≡ absorb_cells more ds = rw (absorb_cells, f) refl in
      let here : after at more ≡ after (after at c) d = omega arith in
      elim (absorb_cells-IsAddr at more ds q (coe 0 1 (i. IsAddr at (list i) q) y)) [
        | inl e ↦ inl e
        | inr z ↦ inr (inr (coe 0 1 (i. IsAddr (here i) ds q) z))
      ]
  | inr f ↦
      let list : absorb_cells c (d ∷ ds) ≡ c ∷ d ∷ ds = rw (absorb_cells, f) refl in
      coe 0 1 (i. IsAddr at (list i) q) y
]

-- The first call of `kmem_coalesce_forward`.
abbrev pub joined_up : Heap → ℕ → Heap
joined_up h at =
    coalesce_forward (rounds h) (set_block h at (record (h.blocks at) { free = true })) at

module _ (h : Heap) (top p at : ℕ) (c : Cell) (cs : List Cell)
    (ch : Chain h.blocks top p at (c ∷ cs)) (pos_at : 0 < at) (al : at % 16 ≡ 0)
    (below : top + 128 < u64_mod) (fuel : length cs < rounds h) where
  abbrev freed_block : Heap
  freed_block = set_block h at (record (h.blocks at) { free = true })

  freed_block-Chain : Chain freed_block.blocks top p at (cell c.size true ∷ cs)
  freed_block-Chain =
      let self : freed_block.blocks at ≡ record (h.blocks at) { free = true } = ground arith in
      let k = ch.0 in
      (
        record {
          magic = ap (λ x. x.magic) self ∙ k.magic;
          size = ap (λ x. x.size) self ∙ k.size;
          free = ap (λ x. x.free) self;
          prev = ap (λ x. x.prev) self ∙ k.prev;
          next = ap (λ x. x.next) self ∙ k.next;
          aligned = k.aligned;
        },
        Chain-frame top h.blocks freed_block.blocks at (after at c) cs (λ a le. ground arith) ch.1,
      )

  pub joined_up-Chain :
      Chain (joined_up h at).blocks top p at (absorb_cells (cell c.size true) cs)
      × SameBelow at h (joined_up h at)
      × Touches (IsAddr at (c ∷ cs)) h (joined_up h at)
  joined_up-Chain =
      let W = IsAddr at (c ∷ cs) in
      let (ch', s, w) =
        coalesce_forward-Chain (rounds h) freed_block top p at (cell c.size true) cs fuel pos_at al
          below freed_block-Chain in
      (
        ch',
        SameBelow-trans at h freed_block (joined_up h at)
            (SameBelow-set_block at h at _ (omega arith)) s,
        Touches-trans W h freed_block (joined_up h at) (Touches-set_block W h at _ (inl refl)) w,
      )

  -- A block whose predecessor is NULL.
  pub merge_free-alone : p ≡ 0 → merge_free h at ≡ joined_up h at
  unfolding merge_free
  merge_free-alone z =
      let (ch', s, w) = joined_up-Chain in
      let before : ((joined_up h at).blocks at).prev ≡ 0 =
        Chain-first _ top p at _ (absorb_cells-some _ cs) ch' ∙ z in
      rw (merge_free, before) refl

-- A block with a predecessor at `q`, which comes first in the list.
module _ (h : Heap) (top p q : ℕ) (b : Cell) (c : Cell) (cs : List Cell)
    (ch : Chain h.blocks top p q (b ∷ c ∷ cs)) (pos_q : 0 < q) (al : q % 16 ≡ 0)
    (below : top + 128 < u64_mod) (fuel : length (c ∷ cs) < rounds h) where
  merge_free-second :
      Chain (merge_free h (after q b)).blocks top p q (freed 1 (b ∷ c ∷ cs))
      × SameBelow q h (merge_free h (after q b))
      × Touches (IsAddr q (b ∷ c ∷ cs)) h (merge_free h (after q b))
  unfolding merge_free freed
  merge_free-second =
      let at = after q b in
      let k = ch.0 in
      let b_al = k.aligned in
      let (ch', s, w) =
        joined_up-Chain h top q at c cs ch.1 (omega arith) (omega arith) below (omega arith) in
      let h2 = joined_up h at in
      let before : (h2.blocks at).prev ≡ q =
        Chain-first _ top q at _ (absorb_cells-some _ cs) ch' in
      let z : (q == 0) ≡ false = ground arith in
      let same = s.same_below q (omega arith) in
      let flag : (h2.blocks q).free ≡ b.free = ap (λ x. x.free) same ∙ k.free in
      let list = absorb_cells (cell c.size true) cs in
      let block : IsBlock h2.blocks p q b (link at list) =
        rw (link-absorb_cells at (cell c.size true) cs)
          (IsBlock-same top h.blocks h2.blocks p q b at same k) in
      let low = SameBelow-lower q at h h2 (omega arith) s in
      let W = IsAddr q (b ∷ c ∷ cs) in
      let w' = Touches-more (IsAddr at (c ∷ cs)) W h h2 (λ a y. inr y) w in
      elim (Bool-cases b.free) [
        | inr f ↦
            let is : merge_free h at ≡ h2 = rw (merge_free, before, z, flag, f) refl in
            let r : freed 1 (b ∷ c ∷ cs) ≡ b ∷ list = rw (freed, f) refl in
            rw (is, r) ((block, ch'), low, w')
        | inl f ↦
            let h3 = coalesce_forward (rounds h) h2 q in
            let is : merge_free h at ≡ h3 = rw (merge_free, before, z, flag, f) refl in
            let r : freed 1 (b ∷ c ∷ cs) ≡ absorb_cells b list = rw (freed, f) refl in
            let len = length-absorb_cells (cell c.size true) cs in
            let (ch3, s3, w3) =
              coalesce_forward-Chain (rounds h) h2 top p q b list (omega (arith, fuel, len)) pos_q
                al below (block, ch') in
            let among : (a : ℕ) → IsAddr q (b ∷ list) a → W a = λ a y. elim y [
              | inl e ↦ inl e
              | inr v ↦ inr (absorb_cells-IsAddr at (cell c.size true) cs a v)
            ] in
            rw (is, r)
              (
                ch3,
                SameBelow-trans q h h2 h3 low s3,
                Touches-trans W h h2 h3 w' (Touches-more (IsAddr q (b ∷ list)) W h2 h3 among w3),
              )
      ]

-- A block with a predecessor, at any place of the list.
pub merge_free-Chain :
    (k : ℕ) (h : Heap) (top p at : ℕ) (cs : List Cell)
    → HasCell (suc k) cs
    → 0 < at
    → at % 16 ≡ 0
    → top + 128 < u64_mod
    → length cs < rounds h
    → Chain h.blocks top p at cs
    → Chain (merge_free h (addr (suc k) at cs)).blocks top p at (freed (suc k) cs)
      × SameBelow at h (merge_free h (addr (suc k) at cs))
      × Touches (IsAddr at cs) h (merge_free h (addr (suc k) at cs))
unfolding freed
merge_free-Chain k h top p at [] has pos_at al below fuel ch = absurd has
merge_free-Chain k h top p at (b ∷ []) has pos_at al below fuel ch = absurd has
merge_free-Chain zero h top p at (b ∷ c ∷ cs) has pos_at al below fuel ch =
    merge_free-second h top p at b c cs ch pos_at al below (omega arith)
merge_free-Chain (suc k) h top p at (b ∷ c ∷ cs) has pos_at al below fuel ch =
    let d = ch.0 in
    let b_al = d.aligned in
    let (ch', s, w) =
      merge_free-Chain k h top at (after at b) (c ∷ cs) has (omega arith) (omega arith) below
        (omega arith) ch.1 in
    let h' = merge_free h (addr (suc k) (after at b) (c ∷ cs)) in
    (
      (
        rw (link-freed (suc k) (after at b) (c ∷ cs)) (
            IsBlock-same top h.blocks h'.blocks p at b (after at b) (s.same_below at (omega arith))
              d),
        ch',
      ),
      SameBelow-lower at (after at b) h h' (omega arith) s,
      Touches-more (IsAddr (after at b) (c ∷ cs)) (IsAddr at (b ∷ c ∷ cs)) h h' (λ a y. inr y) w,
    )
