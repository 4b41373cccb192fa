-- ===== src/Kmem/Alloc.antt =====
-- kmem_alloc over the list of cells: the first cell that fits, cut down when enough is left.
use acep_reja_mcsos.Kmem.Touches.{
  Touches-more, Touches, IsAddr, Touches-set_block, Touches-trans, Touches-set_prev, IsAddr-first,
}
use acep_reja_mcsos.Kmem.{
  Heap, header_size, min_split, payload, split_if_useful, link_new, align_up, Block, set_block,
  set_prev, block_magic, take_block, alloc_from,
}
use acep_reja_mcsos.Kmem.Chain.{
  Cell, Chain, after, cell, Chain-le, align_up-aligned, Chain-frame, link, Chain-relink, SameBelow,
  SameBelow-set_block, set_prev-others, set_prev-first, SameBelow-trans, SameBelow-set_prev,
  IsBlock-same, SameBelow-lower,
}
use acep_reja_mcsos.Common.{
  ℕ, ◌+◌, ◌-◌, ◌%◌, ◌≤◌, ◌<◌, ◌≡◌, refl, sym, ap, ◌∙◌, ◌≢◌, inl, inr, true, false, ◌&&◌, Option,
  none, some, List, [], ◌∷◌, ◌++◌, arith, ltb, leb, ◌==◌, if◌then◌else◌, Bool-cases, u64_mod, add64,
  zero, suc, length,
}

-- What becomes of a free cell that is taken for `wanted` bytes.
unfoldable pub carve : ℕ → Cell → List Cell
carve wanted c =
    if ltb (wanted + header_size + min_split) c.size
    then cell wanted false ∷ cell (c.size - wanted - header_size) true ∷ []
    else cell c.size false ∷ []

abbrev pub pass : Cell → Option (ℕ × List Cell) → Option (ℕ × List Cell)
pass c none = none
pass c (some (p, cs)) = some (p, c ∷ cs)

-- The address of the first cell that fits, and the cells once it is taken.
unfoldable pub first_fit : ℕ → ℕ → List Cell → Option (ℕ × List Cell)
first_fit wanted at [] = none
first_fit wanted at (c ∷ cs) =
    if c.free && leb wanted c.size
    then some (at, carve wanted c ++ cs)
    else pass c (first_fit wanted (after at c) cs)

module _ (h : Heap) (prev at : ℕ) (c : Cell) (cs : List Cell) (wanted : ℕ)
    (ch : Chain h.blocks h.end prev at (c ∷ cs)) (pos_at : 0 < at) (al : at % 16 ≡ 0)
    (below : h.end + 128 < u64_mod) (wal : wanted % 16 ≡ 0) (fits : wanted ≤ c.size) where
  abbrev new : ℕ
  new = payload at + wanted

  inside : after at c ≤ h.end
  inside = Chain-le h.end h.blocks at (after at c) cs ch.1

  split_lem :
      split_if_useful h at wanted
      ≡ (if ltb (wanted + header_size + min_split) c.size then link_new h at wanted new else h)
  unfolding split_if_useful
  split_lem =
      let le = inside in
      let size = (ch.0).size in
      let where_new : align_up (payload at + wanted) ≡ new =
        align_up-aligned new (omega arith) (omega arith) in
      let s1 : add64 (add64 wanted header_size) min_split ≡ wanted + header_size + min_split =
        omega arith in
      let cut : new - payload at ≡ wanted = omega arith in
      let some_new : (new == 0) ≡ false = ground arith in
      elim (Bool-cases (ltb (wanted + header_size + min_split) c.size)) [
        | inl b ↦
            let t1 : ltb c.size (wanted + header_size + min_split) ≡ false = ground arith in
            let t2 : leb h.end (new + header_size) ≡ false = ground arith in
            let t3 : leb c.size (wanted + header_size + min_split) ≡ false = ground arith in
            rw (b, split_if_useful, where_new, size, cut, s1, t1, some_new, t2, t3) refl
        | inr b ↦ elim (Bool-cases (ltb c.size (wanted + header_size + min_split))) [
          | inl t1 ↦ rw (b, split_if_useful, where_new, size, s1, t1) refl
          | inr t1 ↦
              let t3 : leb c.size (wanted + header_size + min_split) ≡ true = ground arith in
              elim (Bool-cases (leb h.end (new + header_size))) [
                | inl t2 ↦ rw (b, split_if_useful, where_new, size, s1, t1, some_new, t2) refl
                | inr t2 ↦
                    rw (b, split_if_useful, where_new, size, cut, s1, t1, some_new, t2, t3) refl
              ]
        ]
      ]

  -- Without a cut.
  Chain-whole :
      (b : ℕ → Block)
      → b at ≡ record (h.blocks at) { free = false }
      → ((a : ℕ) → at < a → b a ≡ h.blocks a)
      → Chain b h.end prev at (cell c.size false ∷ cs)
  Chain-whole b self others = (
    record {
      magic = ap (λ x. x.magic) self ∙ (ch.0).magic;
      size = ap (λ x. x.size) self ∙ (ch.0).size;
      free = ap (λ x. x.free) self;
      prev = ap (λ x. x.prev) self ∙ (ch.0).prev;
      next = ap (λ x. x.next) self ∙ (ch.0).next;
      aligned = (ch.0).aligned;
    },
    Chain-frame h.end h.blocks b at (after at c) cs (λ a le. others a (omega arith)) ch.1,
  )

  abbrev new_cell : Cell
  new_cell = cell (c.size - wanted - header_size) true

  abbrev new_block : Block
  new_block = record {
    magic = block_magic;
    size = c.size - wanted - header_size;
    free = true;
    prev = at;
    next = link (after at c) cs;
  }

  -- With a cut: the two blocks, and the first of the rest linked to the new one.
  Chain-cut :
      (b : ℕ → Block)
      → wanted + header_size + min_split < c.size
      → b at ≡ record (h.blocks at) { free = false; next = new; size = wanted }
      → b new ≡ new_block
      → (cs ≢ [] → b (after at c) ≡ record (h.blocks (after at c)) { prev = new })
      → ((a : ℕ) → after at c < a → b a ≡ h.blocks a)
      → Chain b h.end prev at (cell wanted false ∷ new_cell ∷ cs)
  Chain-cut b room self made first others =
      let end_new : after new new_cell ≡ after at c = omega arith in
      let rest : Chain b h.end new (after at c) cs =
        Chain-relink h.end h.blocks b at (after at c) new cs first others ch.1 in
      let size_al = (ch.0).aligned in
      (
        record {
          magic = ap (λ x. x.magic) self ∙ (ch.0).magic;
          size = ap (λ x. x.size) self;
          free = ap (λ x. x.free) self;
          prev = ap (λ x. x.prev) self ∙ (ch.0).prev;
          next = ap (λ x. x.next) self;
          aligned = wal;
        },
        (
          record {
            magic = ap (λ x. x.magic) made;
            size = ap (λ x. x.size) made;
            free = ap (λ x. x.free) made;
            prev = ap (λ x. x.prev) made;
            next = ap (λ x. x.next) made ∙ ap (λ x. link x cs) (sym end_new);
            aligned = omega arith;
          },
          rw end_new rest,
        ),
      )

  abbrev placed : Heap
  placed = set_block h new new_block

  abbrev relinked : Heap
  relinked = set_prev placed (link (after at c) cs) new

  -- What `link_new` writes, with what it reads from the old block.
  linked-relinked :
      link_new h at wanted new
      ≡ set_block relinked at (record (relinked.blocks at) { next = new; size = wanted })
  unfolding link_new
  linked-relinked =
      let write : ℕ → ℕ → ℕ → Heap = λ nx size used.
        let h1 = set_block h new (record {
          magic = block_magic;
          size = size - used - header_size;
          free = true;
          prev = at;
          next = nx;
        }) in
        let h2 = set_prev h1 nx new in
        set_block h2 at (record (h2.blocks at) { next = new; size = wanted }) in
      let cut : new - payload at ≡ wanted = omega arith in
      ap (λ nx. write nx (h.blocks at).size (new - payload at)) (ch.0).next
      ∙ ap (λ size. write (link (after at c) cs) size (new - payload at)) (ch.0).size
      ∙ ap (λ used. write (link (after at c) cs) c.size used) cut

  abbrev taken : Heap
  taken = take_block h at wanted

  take_block-whole :
      split_if_useful h at wanted ≡ h
      → Chain taken.blocks h.end prev at (cell c.size false ∷ cs)
        × SameBelow at h taken
        × Touches (IsAddr at (cell c.size false ∷ cs)) h taken
  unfolding take_block
  take_block-whole same =
      let h' = set_block h at (record (h.blocks at) { free = false }) in
      let is : taken ≡ h' = rw (take_block, same) refl in
      let at_a : (a : ℕ) → taken.blocks a ≡ h'.blocks a = λ a. ap (λ x. x.blocks a) is in
      (
        Chain-whole taken.blocks (at_a at ∙ ground arith) (λ a lt. at_a a ∙ ground arith),
        rw is (SameBelow-set_block at h at (record (h.blocks at) { free = false }) (omega arith)),
        rw is (
            Touches-set_block (IsAddr at (cell c.size false ∷ cs)) h at
              (record (h.blocks at) { free = false }) (inl refl)),
      )

  cut-Touches :
      wanted + header_size + min_split < c.size
      → let h3 =
          set_block relinked at (record (relinked.blocks at) { next = new; size = wanted }) in
        Touches
          (IsAddr at (cell wanted false ∷ new_cell ∷ cs))
          h
          (set_block h3 at (record (h3.blocks at) { free = false }))
  cut-Touches room =
      let h3 = set_block relinked at (record (relinked.blocks at) { next = new; size = wanted }) in
      let h' = set_block h3 at (record (h3.blocks at) { free = false }) in
      let W = IsAddr at (cell wanted false ∷ new_cell ∷ cs) in
      let end_new : after at c ≡ after new new_cell = omega arith in
      Touches-trans W h placed h' (Touches-set_block W h new new_block (inr (inl refl))) (
        Touches-trans W placed relinked h'
          (Touches-set_prev W placed (after at c) new cs
            (λ ne. inr (inr (IsAddr-first (after new new_cell) cs (after at c) end_new ne))))
          (Touches-trans W relinked h3 h' (Touches-set_block W relinked at _ (inl refl))
            (Touches-set_block W h3 at _ (inl refl))))

  take_block-cut :
      split_if_useful h at wanted ≡ link_new h at wanted new
      → wanted + header_size + min_split < c.size
      → Chain taken.blocks h.end prev at (cell wanted false ∷ new_cell ∷ cs)
        × SameBelow at h taken
        × Touches (IsAddr at (cell wanted false ∷ new_cell ∷ cs)) h taken
  unfolding take_block
  take_block-cut split room =
      let h3 = set_block relinked at (record (relinked.blocks at) { next = new; size = wanted }) in
      let h' = set_block h3 at (record (h3.blocks at) { free = false }) in
      let eq : split_if_useful h at wanted ≡ h3 = split ∙ linked-relinked in
      let is : taken ≡ h' = rw (take_block, eq) refl in
      let at_a : (a : ℕ) → taken.blocks a ≡ h'.blocks a = λ a. ap (λ x. x.blocks a) is in
      let relink : (a : ℕ)
          → placed.blocks a ≡ h.blocks a
          → record (placed.blocks a) { prev = new } ≡ record (h.blocks a) { prev = new } =
        λ a e. ap (λ (x : Block). record x { prev = new }) e in
      let apart : at ≢ after at c = λ e. absurd (omega (arith, e)) in
      let old : relinked.blocks at ≡ h.blocks at =
        set_prev-others placed (after at c) new cs at apart ∙ ground arith in
      let self : h'.blocks at ≡ record (h.blocks at) { free = false; next = new; size = wanted } =
        ground (arith, old) in
      let above : (a : ℕ) → at < a → h'.blocks a ≡ relinked.blocks a = λ a lt. ground arith in
      let made : relinked.blocks new ≡ new_block =
        set_prev-others placed (after at c) new cs new (λ e. absurd (omega (arith, e)))
        ∙ ground arith in
      let first : cs ≢ []
          → relinked.blocks (after at c) ≡ record (h.blocks (after at c)) { prev = new } =
        λ ne.
          set_prev-first placed (after at c) new cs (omega arith) ne
          ∙ relink (after at c) (ground arith) in
      let rest : (a : ℕ) → after at c < a → relinked.blocks a ≡ h.blocks a = λ a lt.
        set_prev-others placed (after at c) new cs a (λ e. absurd (omega (arith, e)))
        ∙ ground arith in
      (
        Chain-cut taken.blocks room (at_a at ∙ self) (at_a new ∙ above new (omega arith) ∙ made)
            (λ ne. at_a (after at c) ∙ above (after at c) (omega arith) ∙ first ne)
            (λ a lt. at_a a ∙ above a (omega arith) ∙ rest a lt),
        rw is (
            SameBelow-trans at h placed h' (SameBelow-set_block at h new new_block (omega arith)) (
              SameBelow-trans at placed relinked h'
                (SameBelow-set_prev at placed (after at c) new cs (omega arith))
                (SameBelow-trans at relinked h3 h'
                  (SameBelow-set_block at relinked at _ (omega arith))
                  (SameBelow-set_block at h3 at _ (omega arith))))),
        rw is (cut-Touches room),
      )

  -- The block that is taken.
  take_block-carve :
      Chain taken.blocks h.end prev at (carve wanted c ++ cs)
      × SameBelow at h taken
      × Touches (IsAddr at (carve wanted c ++ cs)) h taken
  unfolding carve
  take_block-carve = elim (Bool-cases (ltb (wanted + header_size + min_split) c.size)) [
    | inl b ↦
        let (ch', s, w) = take_block-cut (split_lem ∙ rw b refl) (ground arith) in
        let e : carve wanted c ++ cs ≡ cell wanted false ∷ new_cell ∷ cs = rw (carve, b) refl in
        (rw e ch', s, rw e w)
    | inr b ↦
        let (ch', s, w) = take_block-whole (split_lem ∙ rw b refl) in
        let e : carve wanted c ++ cs ≡ cell c.size false ∷ cs = rw (carve, b) refl in
        (rw e ch', s, rw e w)
  ]

-- What a search from `at` answers, by the first cell that fits.
unfoldable pub Takes : Heap → ℕ → ℕ → ℕ × Heap → Option (ℕ × List Cell) → Type 0
Takes h prev at r none = r ≡ (0, h)
Takes h prev at r (some (p, cs)) =
    (r.0 ≡ payload p)
    × Chain r.1.blocks h.end prev at cs
    × SameBelow at h r.1
    × Touches (IsAddr at cs) h r.1

carve-link : (wanted at : ℕ) (c : Cell) (cs : List Cell) → link at (carve wanted c ++ cs) ≡ at
unfolding carve
carve-link wanted at c cs = elim (Bool-cases (ltb (wanted + header_size + min_split) c.size)) [
  | inl b ↦ rw (b, carve) refl
  | inr b ↦ rw (b, carve) refl
]

-- Another list starts where the list started.
SameLink : ℕ → List Cell → Option (ℕ × List Cell) → Type 0
SameLink at cs none = Unit {0}
SameLink at cs (some (p, cs')) = link at cs' ≡ link at cs

pass-SameLink :
    (at : ℕ) (c : Cell) (cs : List Cell) (o : Option (ℕ × List Cell))
    → SameLink at (c ∷ cs) (pass c o)
unfolding SameLink
pass-SameLink at c cs none = tt
pass-SameLink at c cs (some (p, cs')) = refl

first_fit-link : (wanted at : ℕ) (cs : List Cell) → SameLink at cs (first_fit wanted at cs)
unfolding first_fit SameLink
first_fit-link wanted at [] = tt
first_fit-link wanted at (c ∷ cs) = elim (Bool-cases (c.free && leb wanted c.size)) [
  | inl b ↦ rw (b, first_fit) (carve-link wanted at c cs)
  | inr b ↦ rw (b, first_fit) (pass-SameLink at c cs (first_fit wanted (after at c) cs))
]

module _ (h : Heap) (wanted : ℕ) (below : h.end + 128 < u64_mod) (wal : wanted % 16 ≡ 0) where
  Takes-pass :
      (prev at : ℕ) (c : Cell) (cs : List Cell) (r : ℕ × Heap) (o : Option (ℕ × List Cell))
      → Chain h.blocks h.end prev at (c ∷ cs)
      → SameLink (after at c) cs o
      → Takes h at (after at c) r o
      → Takes h prev at r (pass c o)
  unfolding Takes SameLink
  Takes-pass prev at c cs r none ch same t = t
  Takes-pass prev at c cs r (some (p, cs')) ch same t =
      let s = t.2 in
      (
        t.0,
        (
          rw same (
              IsBlock-same h.end h.blocks r.1.blocks prev at c (link (after at c) cs)
                (s.same_below at (omega arith)) ch.0),
          t.1,
        ),
        SameBelow-lower at (after at c) h r.1 (omega arith) s,
        Touches-more (IsAddr (after at c) cs') (IsAddr at (c ∷ cs')) h r.1 (λ q y. inr y) t.3,
      )

  pub alloc_from-Takes :
      (n prev at : ℕ) (cs : List Cell)
      → length cs < n
      → 0 < at
      → at % 16 ≡ 0
      → Chain h.blocks h.end prev at cs
      → Takes h prev at (alloc_from h wanted n (link at cs)) (first_fit wanted at cs)
  unfolding alloc_from first_fit Takes
  alloc_from-Takes zero prev at cs lt pos_at al ch = absurd (omega arith)
  alloc_from-Takes (suc n) prev at [] lt pos_at al ch = refl
  alloc_from-Takes (suc n) prev at (c ∷ cs) lt pos_at al ch =
      let z : (at == 0) ≡ false = ground arith in
      let k = ch.0 in
      let size_al = k.aligned in
      elim (Bool-cases (c.free && leb wanted c.size)) [
        | inl f ↦
            let x = take_block-carve h prev at c cs wanted ch pos_at al below wal (ground arith) in
            rw (first_fit, alloc_from, z, k.magic, k.free, k.size, f) (refl, x.0, x.1, x.2)
        | inr f ↦
            let rest =
              alloc_from-Takes n at (after at c) cs (omega arith) (omega arith) (omega arith)
                ch.1 in
            rw (first_fit, alloc_from, z, k.magic, k.free, k.size, k.next, f)
              (Takes-pass prev at c cs _ _ ch (first_fit-link wanted (after at c) cs) rest)
      ]
