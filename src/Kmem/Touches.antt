-- ===== src/Kmem/Touches.antt =====
-- The memory of the heap: which bytes the writes to headers change.
use acep_reja_mcsos.Kmem.Chain.{Cell, after, link}
use acep_reja_mcsos.Kmem.{put_header, Heap, header_size, Block, set_prev, payload, set_block}
use acep_reja_mcsos.Common.{
  ℕ, ◌+◌, ◌≤◌, ◌<◌, ◌≡◌, refl, ◌∙◌, ◌≢◌, ◌⊎◌, inl, inr, false, List, [], ◌∷◌, arith, ltb, leb, ◌==◌,
  Bool-cases,
}

-- The byte at `a` is not one of the header at `p`.
abbrev pub Outside : ℕ → ℕ → Type 0
Outside p a = (a < p) ⊎ (p + header_size ≤ a)

-- The memories differ only in the headers at the addresses that `W` holds of.
pub record Touches (W : ℕ → Type 0) (h h' : Heap) : Type 0 where
  pub same : (a : ℕ) → ((p : ℕ) → W p → Outside p a) → h'.bytes a ≡ h.bytes a

put_header-Outside :
    (mem : ℕ → ℕ) (p : ℕ) (b : Block) (a : ℕ) → Outside p a → put_header mem p b a ≡ mem a
unfolding put_header
put_header-Outside mem p b a (inl lt) = let t : leb p a ≡ false = ground arith in rw t refl
put_header-Outside mem p b a (inr le) =
    let t : ltb a (p + header_size) ≡ false = ground arith in
    elim (Bool-cases (leb p a)) [ inl u ↦ rw (u, t) refl | inr u ↦ rw u refl ]

module _ (W : ℕ → Type 0) where
  pub Touches-refl : (h : Heap) → Touches W h h
  Touches-refl h = record { same = λ a out. refl }

  pub Touches-trans : (h h' h2 : Heap) → Touches W h h' → Touches W h' h2 → Touches W h h2
  Touches-trans h h' h2 x y = record { same = λ a out. y.same a out ∙ x.same a out }

  pub Touches-set_block : (h : Heap) (p : ℕ) (b : Block) → W p → Touches W h (set_block h p b)
  Touches-set_block h p b w = record { same = λ a out. put_header-Outside h.bytes p b a (out p w) }

  pub Touches-set_prev :
      (h : Heap) (p q : ℕ) (cs : List Cell)
      → (cs ≢ [] → W p)
      → Touches W h (set_prev h (link p cs) q)
  Touches-set_prev h p q [] w = Touches-refl h
  Touches-set_prev h p q (x ∷ xs) w = elim (Bool-cases (p == 0)) [
    | inl z ↦ rw z (Touches-refl h)
    | inr z ↦ rw z (Touches-set_block h p (record (h.blocks p) { prev = q }) (w (λ e. absurd (cc))))
  ]

pub Touches-more :
    (W W' : ℕ → Type 0) (h h' : Heap) → ((p : ℕ) → W p → W' p) → Touches W h h' → Touches W' h h'
Touches-more W W' h h' f x = record { same = λ a out. x.same a (λ p w. out p (f p w)) }

-- There is a cell at `p`.
abbrev pub IsAddr : ℕ → List Cell → ℕ → Type 0
IsAddr at [] p = ⊥
IsAddr at (c ∷ cs) p = (p ≡ at) ⊎ IsAddr (after at c) cs p

-- The byte at `a` is one of a payload.
abbrev pub InPayload : ℕ → List Cell → ℕ → Type 0
InPayload at [] a = ⊥
InPayload at (c ∷ cs) a = ((payload at ≤ a) × (a < after at c)) ⊎ InPayload (after at c) cs a

pub IsAddr-le : (at : ℕ) (cs : List Cell) (p : ℕ) → IsAddr at cs p → at ≤ p
IsAddr-le at [] p x = absurd x
IsAddr-le at (c ∷ cs) p (inl e) = omega (arith, e)
IsAddr-le at (c ∷ cs) p (inr x) = omega (arith, IsAddr-le (after at c) cs p x)

pub InPayload-le : (at : ℕ) (cs : List Cell) (a : ℕ) → InPayload at cs a → payload at ≤ a
InPayload-le at [] a x = absurd x
InPayload-le at (c ∷ cs) a (inl (le, lt)) = le
InPayload-le at (c ∷ cs) a (inr x) = omega (arith, InPayload-le (after at c) cs a x)

-- No byte of a payload is one of a header of the list.
pub InPayload-Outside :
    (at : ℕ) (cs : List Cell) (a p : ℕ) → InPayload at cs a → IsAddr at cs p → Outside p a
InPayload-Outside at [] a p x y = absurd x
InPayload-Outside at (c ∷ cs) a p (inl (le, lt)) (inl e) = inr (omega (arith, le, e))
InPayload-Outside at (c ∷ cs) a p (inl (le, lt)) (inr y) =
    inl (omega (arith, lt, IsAddr-le (after at c) cs p y))
InPayload-Outside at (c ∷ cs) a p (inr x) (inl e) =
    inr (omega (arith, e, InPayload-le (after at c) cs a x))
InPayload-Outside at (c ∷ cs) a p (inr x) (inr y) = InPayload-Outside (after at c) cs a p x y

-- Writes to the headers of a list leave its payloads.
pub Touches-InPayload :
    (at : ℕ) (cs : List Cell) (h h' : Heap)
    → Touches (IsAddr at cs) h h'
    → (a : ℕ) → InPayload at cs a
    → h'.bytes a ≡ h.bytes a
Touches-InPayload at cs h h' x a u = x.same a (λ p w. InPayload-Outside at cs a p u w)

pub IsAddr-first : (at : ℕ) (cs : List Cell) (p : ℕ) → p ≡ at → cs ≢ [] → IsAddr at cs p
IsAddr-first at [] p e ne = absurd (ne refl)
IsAddr-first at (c ∷ cs) p e ne = inl e
