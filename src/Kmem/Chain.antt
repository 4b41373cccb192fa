-- ===== src/Kmem/Chain.antt =====
-- The heap as a list of cells: each block's size, and whether it is free.
use acep_reja_mcsos.Kmem.{
  Heap, Block, align_up, payload, header_size, block_magic, set_prev, set_block,
}
use acep_reja_mcsos.Common.{
  ℕ, ◌+◌, ◌-◌, ◌*◌, ◌%◌, ◌≤◌, ◌<◌, ◌≡◌, refl, ap, ◌∙◌, ◌≢◌, inl, inr, Bool, true, false, List, [],
  ◌∷◌, arith, ltb, ◌==◌, Bool-cases, length, u64_mod,
}

pub record Cell : Type 0 where
  pub size : ℕ
  pub free : Bool

abbrev pub cell : ℕ → Bool → Cell
cell n f = record { size = n; free = f }

-- The address after a block at `at`.
abbrev pub after : ℕ → Cell → ℕ
after at c = payload at + c.size

-- The link to a list that starts at `at`.
abbrev pub link : ℕ → List Cell → ℕ
link at [] = 0
link at (c ∷ cs) = at

-- The block at `at` is one of the list, before `next`.
pub record IsBlock (blocks : ℕ → Block) (p at : ℕ) (c : Cell) (n : ℕ) : Type 0 where
  pub magic : (blocks at).magic ≡ block_magic
  pub size : (blocks at).size ≡ c.size
  pub free : (blocks at).free ≡ c.free
  pub prev : (blocks at).prev ≡ p
  pub next : (blocks at).next ≡ n
  pub aligned : c.size % 16 ≡ 0

-- The blocks from `at` to the end of the heap are the cells.
abbrev pub Chain : (ℕ → Block) → ℕ → ℕ → ℕ → List Cell → Type 0
Chain blocks end prev at [] = at ≡ end
Chain blocks end prev at (c ∷ cs) =
    IsBlock blocks prev at c (link (after at c) cs) × Chain blocks end at (after at c) cs

-- The heap is in order, and its blocks are the cells. It ends 128 bytes or more below 2 ^ 64.
pub record IsHeap (h : Heap) (cs : List Cell) : Type 0 where
  pub initialized : h.initialized ≡ true
  pub head : h.head ≡ h.base
  pub some_block : cs ≢ []
  pub base : 0 < h.base
  pub aligned : h.base % 16 ≡ 0
  pub below : h.end + 128 < u64_mod
  pub chain : Chain h.blocks h.end 0 h.base cs

pub align_up-aligned : (n : ℕ) → n % 16 ≡ 0 → n + 15 < u64_mod → align_up n ≡ n
unfolding align_up
align_up-aligned n a h =
    let small : ltb (u64_mod - 1 - 15) n ≡ false = ground arith in rw small (omega arith)

module _ (end : ℕ) where
  pub Chain-le : (b : ℕ → Block) (prev at : ℕ) (cs : List Cell) → Chain b end prev at cs → at ≤ end
  Chain-le b prev at [] c = omega (arith, c)
  Chain-le b prev at (x ∷ xs) c = omega (arith, Chain-le b at (after at x) xs c.1)

  -- A list fits in its part of the heap.
  pub Chain-length :
      (b : ℕ → Block) (prev at : ℕ) (cs : List Cell)
      → Chain b end prev at cs
      → at + header_size * length cs ≤ end
  Chain-length b prev at [] c = omega (arith, c)
  Chain-length b prev at (x ∷ xs) c = omega (arith, Chain-length b at (after at x) xs c.1)

  pub IsBlock-same :
      (b b' : ℕ → Block) (prev at : ℕ) (x : Cell) (next : ℕ)
      → b' at ≡ b at
      → IsBlock b prev at x next
      → IsBlock b' prev at x next
  IsBlock-same b b' prev at x next same k = record {
    magic = ap (λ c. c.magic) same ∙ k.magic;
    size = ap (λ c. c.size) same ∙ k.size;
    free = ap (λ c. c.free) same ∙ k.free;
    prev = ap (λ c. c.prev) same ∙ k.prev;
    next = ap (λ c. c.next) same ∙ k.next;
    aligned = k.aligned;
  }

  -- Writes below a list leave it.
  pub Chain-frame :
      (b b' : ℕ → Block) (prev at : ℕ) (cs : List Cell)
      → ((a : ℕ) → at ≤ a → b' a ≡ b a)
      → Chain b end prev at cs
      → Chain b' end prev at cs
  Chain-frame b b' prev at [] same c = c
  Chain-frame b b' prev at (x ∷ xs) same c = (
    IsBlock-same b b' prev at x (link (after at x) xs) (same at (omega arith)) c.0,
    Chain-frame b b' at (after at x) xs (λ a le. same a (omega arith)) c.1,
  )

  -- Another predecessor, written to the first block.
  pub Chain-relink :
      (b b' : ℕ → Block) (p at q : ℕ) (cs : List Cell)
      → (cs ≢ [] → b' at ≡ record (b at) { prev = q })
      → ((a : ℕ) → at < a → b' a ≡ b a)
      → Chain b end p at cs
      → Chain b' end q at cs
  Chain-relink b b' p at q [] first rest c = c
  Chain-relink b b' p at q (x ∷ xs) first rest c =
      let self = first (λ e. absurd (cc)) in
      (
        record {
          magic = ap (λ c. c.magic) self ∙ (c.0).magic;
          size = ap (λ c. c.size) self ∙ (c.0).size;
          free = ap (λ c. c.free) self ∙ (c.0).free;
          prev = ap (λ c. c.prev) self;
          next = ap (λ c. c.next) self ∙ (c.0).next;
          aligned = (c.0).aligned;
        },
        Chain-frame b b' at (after at x) xs (λ a le. rest a (omega arith)) c.1,
      )

-- What `set_prev` does to the block of a list that starts at `at`.
pub set_prev-first :
    (h : Heap) (at q : ℕ) (cs : List Cell)
    → 0 < at
    → cs ≢ []
    → (set_prev h (link at cs) q).blocks at ≡ record (h.blocks at) { prev = q }
set_prev-first h at q [] pos_at some_cell = absurd (some_cell refl)
set_prev-first h at q (x ∷ xs) pos_at some_cell =
    let z : (at == 0) ≡ false = ground arith in rw z (ground arith)

pub set_prev-others :
    (h : Heap) (at q : ℕ) (cs : List Cell) (a : ℕ)
    → a ≢ at
    → (set_prev h (link at cs) q).blocks a ≡ h.blocks a
set_prev-others h at q [] a ne = refl
set_prev-others h at q (x ∷ xs) a ne = elim (Bool-cases (at == 0)) [
  | inl z ↦ rw z refl
  | inr z ↦ rw z (ground arith)
]

-- The heap is the same up to its memory and the headers at `at` and above.
pub record SameBelow (at : ℕ) (h h' : Heap) : Type 0 where
  pub same_base : h'.base ≡ h.base
  pub same_end : h'.end ≡ h.end
  pub same_head : h'.head ≡ h.head
  pub same_initialized : h'.initialized ≡ h.initialized
  pub same_below : (a : ℕ) → a < at → h'.blocks a ≡ h.blocks a

pub SameBelow-set_block :
    (at : ℕ) (h : Heap) (p : ℕ) (b : Block) → at ≤ p → SameBelow at h (set_block h p b)
SameBelow-set_block at h p b le = record {
  same_base = refl;
  same_end = refl;
  same_head = refl;
  same_initialized = refl;
  same_below = λ a lt. ground arith;
}

pub SameBelow-refl : (at : ℕ) (h : Heap) → SameBelow at h h
SameBelow-refl at h = record {
  same_base = refl;
  same_end = refl;
  same_head = refl;
  same_initialized = refl;
  same_below = λ a lt. refl;
}

pub SameBelow-trans :
    (at : ℕ) (h h' h2 : Heap) → SameBelow at h h' → SameBelow at h' h2 → SameBelow at h h2
SameBelow-trans at h h' h2 x y = record {
  same_base = y.same_base ∙ x.same_base;
  same_end = y.same_end ∙ x.same_end;
  same_head = y.same_head ∙ x.same_head;
  same_initialized = y.same_initialized ∙ x.same_initialized;
  same_below = λ a lt. y.same_below a lt ∙ x.same_below a lt;
}

pub SameBelow-set_prev :
    (at : ℕ) (h : Heap) (p q : ℕ) (cs : List Cell)
    → at ≤ p
    → SameBelow at h (set_prev h (link p cs) q)
SameBelow-set_prev at h p q [] le = SameBelow-refl at h
SameBelow-set_prev at h p q (x ∷ xs) le = elim (Bool-cases (p == 0)) [
  | inl z ↦ rw z (SameBelow-refl at h)
  | inr z ↦ rw z (SameBelow-set_block at h p (record (h.blocks p) { prev = q }) le)
]

pub SameBelow-lower : (at at' : ℕ) (h h' : Heap) → at ≤ at' → SameBelow at' h h' → SameBelow at h h'
SameBelow-lower at at' h h' le x = record {
  same_base = x.same_base;
  same_end = x.same_end;
  same_head = x.same_head;
  same_initialized = x.same_initialized;
  same_below = λ a lt. x.same_below a (omega arith);
}
