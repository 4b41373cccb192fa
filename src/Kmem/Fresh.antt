-- ===== src/Kmem/Fresh.antt =====
-- kmem_alloc: what it hands out.
use acep_reja_mcsos.Kmem.Touches.{Touches-InPayload, InPayload}
use acep_reja_mcsos.Kmem.{
  payload, header_size, min_split, Heap, kmem_alloc, align_up, alloc_from, rounds,
}
use acep_reja_mcsos.Kmem.Alloc.{carve, first_fit, pass, Takes, alloc_from-Takes}
use acep_reja_mcsos.Kmem.Chain.{Cell, after, cell, link, IsHeap, SameBelow, Chain, Chain-length}
use acep_reja_mcsos.Common.{
  ℕ, ◌+◌, ◌-◌, ◌≤◌, ◌≡◌, refl, ◌⊎◌, inl, inr, true, false, ◌&&◌, Option, none, some, List, [], ◌∷◌,
  ◌++◌, arith, ltb, leb, Bool-cases, ◌*◌, ◌/◌, ◌%◌, ◌<◌, sym, ◌∙◌, ◌≢◌, ◌==◌, Option-cases, length,
  u64_mod,
}

-- The payload at `q`, of `s` bytes, is in use.
abbrev pub InUse : ℕ → List Cell → ℕ → ℕ → Type 0
InUse at [] q s = ⊥
InUse at (c ∷ cs) q s =
    ((c.free ≡ false) × (q ≡ payload at) × (s ≡ c.size)) ⊎ InUse (after at c) cs q s

pub InUse-le : (at : ℕ) (cs : List Cell) (q s : ℕ) → InUse at cs q s → payload at ≤ q
InUse-le at [] q s u = absurd u
InUse-le at (c ∷ cs) q s (inl (f, e, t)) = omega (arith, e)
InUse-le at (c ∷ cs) q s (inr u) = omega (arith, InUse-le (after at c) cs q s u)

pub InUse-InPayload :
    (at : ℕ) (cs : List Cell) (q s a : ℕ) → InUse at cs q s → q ≤ a → a < q + s → InPayload at cs a
InUse-InPayload at [] q s a u le lt = absurd u
InUse-InPayload at (c ∷ cs) q s a (inl (f, e, t)) le lt =
    inl (omega (arith, e, le), omega (arith, e, t, lt))
InUse-InPayload at (c ∷ cs) q s a (inr u) le lt =
    inr (InUse-InPayload (after at c) cs q s a u le lt)

-- What the search leaves of the payloads that were in use, and the new one.
record Serves (bytes at p : ℕ) (cs cs' : List Cell) : Type 0 where
  size : ℕ
  enough : bytes ≤ size
  handed_out : InUse at cs' (payload p) size
  kept : (q s : ℕ) → InUse at cs q s → InUse at cs' q s
  apart : (q s : ℕ) → InUse at cs q s → (q + s ≤ payload p) ⊎ (payload p + size ≤ q)

InUse-carve :
    (wanted at : ℕ) (c : Cell) (cs : List Cell)
    → c.free ≡ true
    → wanted ≤ c.size
    → Serves wanted at at (c ∷ cs) (carve wanted c ++ cs)
unfolding carve
InUse-carve wanted at c cs f fits =
    elim (Bool-cases (ltb (wanted + header_size + min_split) c.size)) [
      | inl b ↦
          let end_new : after (after at (cell wanted false))
                (cell (c.size - wanted - header_size) true)
              ≡ after at c =
            ground arith in
          rw (b, carve)
            (record {
              size = wanted;
              enough = omega arith;
              handed_out = inl (refl, refl, refl);
              kept = λ q s u. elim u [
                | inl (g, e, t) ↦ absurd (cc)
                | inr r ↦ inr (inr (rw end_new r))
              ];
              apart = λ q s u. elim u [
                | inl (g, e, t) ↦ absurd (cc)
                | inr r ↦ inr (ground (arith, InUse-le (after at c) cs q s r))
              ];
            })
      | inr b ↦
          rw (b, carve)
            (record {
              size = c.size;
              enough = fits;
              handed_out = inl (refl, refl, refl);
              kept = λ q s u. elim u [ inl (g, e, t) ↦ absurd (cc) | inr r ↦ inr r ];
              apart = λ q s u. elim u [
                | inl (g, e, t) ↦ absurd (cc)
                | inr r ↦ inr (omega (arith, InUse-le (after at c) cs q s r))
              ];
            })
    ]

ServesOption : ℕ → ℕ → List Cell → Option (ℕ × List Cell) → Type 0
ServesOption bytes at cs none = Unit {0}
ServesOption bytes at cs (some (p, cs')) = (at ≤ p) × Serves bytes at p cs cs'

pass-Serves :
    (bytes at : ℕ) (c : Cell) (cs : List Cell) (o : Option (ℕ × List Cell))
    → ServesOption bytes (after at c) cs o
    → ServesOption bytes at (c ∷ cs) (pass c o)
unfolding ServesOption
pass-Serves bytes at c cs none x = tt
pass-Serves bytes at c cs (some (p, cs')) (le, x) = (
  omega arith,
  record {
    size = x.size;
    enough = x.enough;
    handed_out = inr x.handed_out;
    kept = λ q s u. elim u [ inl here ↦ inl here | inr r ↦ inr (x.kept q s r) ];
    apart =
        λ q s u. elim u [ inl (g, e, t) ↦ inl (omega (arith, e, t, le)) | inr r ↦ x.apart q s r ];
  },
)

first_fit-Serves :
    (wanted at : ℕ) (cs : List Cell) → ServesOption wanted at cs (first_fit wanted at cs)
unfolding first_fit ServesOption
first_fit-Serves wanted at [] = tt
first_fit-Serves wanted at (c ∷ cs) = elim (Bool-cases (c.free && leb wanted c.size)) [
  | inl b ↦
      rw (b, first_fit) (omega arith, InUse-carve wanted at c cs (ground arith) (ground arith))
  | inr b ↦
      rw (b, first_fit)
        (pass-Serves wanted at c cs (first_fit wanted (after at c) cs)
          (first_fit-Serves wanted (after at c) cs))
]

-- What a successful allocation of `bytes` bytes has done: the heap is in order, the payload that is
-- returned is in use and large enough, and every payload that was in use still is, apart from it and
-- with the bytes it had.
pub record Allocated (h : Heap) (cs : List Cell) (bytes : ℕ) (r : ℕ × Heap) : Type 0 where
  pub cells : List Cell
  pub same_base : r.1.base ≡ h.base
  pub in_order : IsHeap r.1 cells
  pub size : ℕ
  pub enough : bytes ≤ size
  pub handed_out : InUse h.base cells r.0 size
  pub kept : (q s : ℕ) → InUse h.base cs q s → InUse h.base cells q s
  pub apart : (q s : ℕ) → InUse h.base cs q s → (q + s ≤ r.0) ⊎ (r.0 + size ≤ q)
  pub same_bytes : (q s a : ℕ) → InUse h.base cs q s → q ≤ a → a < q + s → r.1.bytes a ≡ h.bytes a

-- No free cell has room.
abbrev pub NoRoom : ℕ → List Cell → Type 0
NoRoom bytes [] = Unit {0}
NoRoom bytes (c ∷ cs) = (c.free ≡ true → c.size < bytes) × NoRoom bytes cs

pub some_link : (at : ℕ) (cs : List Cell) → cs ≢ [] → link at cs ≡ at
some_link at [] ne = absurd (ne refl)
some_link at (c ∷ cs) ne = refl

some_cell : (at : ℕ) (cs : List Cell) (q s : ℕ) → InUse at cs q s → cs ≢ []
some_cell at [] q s u e = absurd u
some_cell at (c ∷ cs) q s u e = absurd (cc)

pub IsHeap-SameBelow :
    (h h' : Heap) (cs cs' : List Cell) (at : ℕ)
    → IsHeap h cs
    → cs' ≢ []
    → SameBelow at h h'
    → Chain h'.blocks h.end 0 h.base cs'
    → IsHeap h' cs'
IsHeap-SameBelow h h' cs cs' at x ne s ch = record {
  initialized = s.same_initialized ∙ x.initialized;
  head = s.same_head ∙ x.head ∙ sym s.same_base;
  some_block = ne;
  base = rw s.same_base x.base;
  aligned = rw s.same_base x.aligned;
  below = rw s.same_end x.below;
  chain = rw (s.same_end, s.same_base) ch;
}

first_fit-NoRoom :
    (wanted at : ℕ) (cs : List Cell) → first_fit wanted at cs ≡ none → NoRoom wanted cs
unfolding first_fit
first_fit-NoRoom wanted at [] e = tt
first_fit-NoRoom wanted at (c ∷ cs) e = elim (Bool-cases (c.free && leb wanted c.size)) [
  | inl b ↦
      let h : some (at, carve wanted c ++ cs) ≡ none = sym (rw (b, first_fit) refl) ∙ e in
      absurd (cc)
  | inr b ↦ elim (Option-cases (first_fit wanted (after at c) cs)) [
    | inl n ↦ (λ f. ground arith, first_fit-NoRoom wanted (after at c) cs n)
    | inr ((p, ds), n) ↦
        let h : some (p, c ∷ ds) ≡ none = sym (rw (b, n, first_fit) refl) ∙ e in absurd (cc)
  ]
]

pub align_up-request : (n : ℕ) → n + 15 < u64_mod → align_up n ≡ (n + 15) / 16 * 16
unfolding align_up
align_up-request n small =
    let b : ltb (u64_mod - 1 - 15) n ≡ false = ground arith in rw (b, align_up) refl

-- The fuel of a loop over the list is enough.
pub rounds_lem : (h : Heap) (cs : List Cell) → IsHeap h cs → length cs < rounds h
rounds_lem h cs x = let enough = Chain-length h.end h.blocks 0 h.base cs x.chain in omega arith

alloc_from_lem :
    (h : Heap) (cs : List Cell) (bytes : ℕ)
    → IsHeap h cs
    → 0 < bytes
    → bytes + 15 < u64_mod
    → kmem_alloc h bytes ≡ alloc_from h ((bytes + 15) / 16 * 16) (rounds h) (link h.base cs)
unfolding kmem_alloc
alloc_from_lem h cs bytes x pos_bytes small =
    let wanted = (bytes + 15) / 16 * 16 in
    let up = align_up-request bytes small in
    let init = x.initialized in
    let some_bytes : (bytes == 0) ≡ false = ground arith in
    let some_wanted : (wanted == 0) ≡ false = ground arith in
    let first : h.head ≡ link h.base cs = x.head ∙ sym (some_link h.base cs x.some_block) in
    rw (kmem_alloc, init, some_bytes, up, some_wanted, first) refl

-- `kmem_alloc` of some bytes, fewer than 2 ^ 64 - 15, from a heap that is in order, whose end is 128
-- bytes or more below the top of the address space: it returns NULL and changes nothing, and then no
-- free block has room for the bytes rounded up to 16; or it returns a payload of as many bytes or
-- more that overlaps no payload in use, every payload in use stays so and keeps its bytes, and the
-- heap is in order.
pub kmem_alloc-Allocated :
    (h : Heap) (cs : List Cell) (bytes : ℕ)
    → IsHeap h cs
    → 0 < bytes
    → bytes + 15 < u64_mod
    → ((kmem_alloc h bytes ≡ (0, h)) × NoRoom ((bytes + 15) / 16 * 16) cs)
      ⊎ Allocated h cs bytes (kmem_alloc h bytes)
unfolding Takes ServesOption
kmem_alloc-Allocated h cs bytes x pos_bytes small =
    let wanted = (bytes + 15) / 16 * 16 in
    let whole : wanted % 16 ≡ 0 = omega arith in
    let is = alloc_from_lem h cs bytes x pos_bytes small in
    let r = alloc_from h wanted (rounds h) (link h.base cs) in
    let t : Takes h 0 h.base r (first_fit wanted h.base cs) =
      alloc_from-Takes h wanted x.below whole (rounds h) 0 h.base cs (rounds_lem h cs x) x.base
        x.aligned x.chain in
    let s = first_fit-Serves wanted h.base cs in
    elim (Option-cases (first_fit wanted h.base cs)) [
      | inl n ↦
          let t' : Takes h 0 h.base r none = coe 0 1 (i. Takes h 0 h.base r (n i)) t in
          inl (is ∙ t', first_fit-NoRoom wanted h.base cs n)
      | inr ((p, ds), n) ↦
          let (at, ch, same, touched) : Takes h 0 h.base r (some (p, ds)) =
            coe 0 1 (i. Takes h 0 h.base r (n i)) t in
          let (le, y) : ServesOption wanted h.base cs (some (p, ds)) =
            coe 0 1 (i. ServesOption wanted h.base cs (n i)) s in
          let there : InUse h.base ds r.0 y.size = rw at y.handed_out in
          let done_it : Allocated h cs bytes r = record {
            cells = ds;
            same_base = same.same_base;
            in_order =
                IsHeap-SameBelow h r.1 cs ds h.base x (some_cell h.base ds r.0 y.size there) same
                  ch;
            size = y.size;
            enough = omega (arith, y.enough);
            handed_out = there;
            kept = y.kept;
            apart = λ q n u. rw at (y.apart q n u);
            same_bytes = λ q n a u le lt.
                Touches-InPayload h.base ds h r.1 touched a
                  (InUse-InPayload h.base ds q n a (y.kept q n u) le lt);
          } in
          inr (rw is done_it)
    ]
