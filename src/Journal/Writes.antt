-- ===== src/Journal/Writes.antt =====
-- A run of block writes as a list, and the device that a failure in the middle of it leaves.
use acep_reja_mcsos.Journal.{
  Outcome, M, BlockDev, Block, pure, max_blocks, done, and_then, write_block, fail, store, io,
  valid_lba, ◌>>◌,
}
use acep_reja_mcsos.Common.{
  ℕ, zero, suc, ◌<◌, ◌≡◌, refl, ◌∙◌, Bool, true, false, none, some, List, [], ◌∷◌, ◌++◌, arith, leb,
  update, length, take, ◌≢◌, inl, inr, ◌==◌, Bool-cases,
}

abbrev pub Write : Type 0
Write = ℕ × Block

abbrev pub Blocks : Type 0
Blocks = ℕ → Block

-- The blocks after the writes.
unfoldable pub apply : List Write → Blocks → Blocks
apply [] b = b
apply ((lba, block) ∷ ws) b = apply ws (update b lba block)

unfoldable pub write_all : List Write → M (Unit {0})
write_all [] = pure tt
write_all ((lba, block) ∷ ws) = do write_block lba block; write_all ws

-- Every write goes to a block that the device has.
abbrev pub AllValid : BlockDev → List Write → Type 0
AllValid d [] = Unit {0}
AllValid d ((lba, block) ∷ ws) = (lba < d.total_blocks) × (lba < max_blocks) × AllValid d ws

-- The device that a call leaves, and whether it succeeded.
abbrev pub device {ℓ} : {A : Type ℓ} → Outcome A → BlockDev
device (done a d) = d
device (fail e d) = d

abbrev pub succeeded {ℓ} : {A : Type ℓ} → Outcome A → Bool
succeeded (done a d) = true
succeeded (fail e d) = false

pub apply-append : (xs ys : List Write) (b : Blocks) → apply (xs ++ ys) b ≡ apply ys (apply xs b)
unfolding apply
apply-append [] ys b = refl
apply-append ((lba, block) ∷ xs) ys b = apply-append xs ys (update b lba block)

pub write_all-append :
    (xs ys : List Write) (d : BlockDev)
    → write_all (xs ++ ys) d ≡ and_then (write_all xs d) (λ _. write_all ys)
unfolding write_all
write_all-append [] ys d = refl
write_all-append ((lba, block) ∷ xs) ys d = step (write_block lba block d) (write_all-append xs ys)
  where
    step :
        (r : Outcome (Unit {0}))
        → ((e : BlockDev) → write_all (xs ++ ys) e ≡ and_then (write_all xs e) (λ _. write_all ys))
        → and_then r (λ _. write_all (xs ++ ys))
          ≡ and_then (and_then r (λ _. write_all xs)) (λ _. write_all ys)
    step (done a e) h = h e
    step (fail x e) h = refl

-- A device on which `n` more writes succeed and every later one fails.
abbrev pub faulty : BlockDev → ℕ → BlockDev
faulty d n = record d { fail_after = some n }

-- The device on which the fault injection is turned off.
abbrev pub healthy : BlockDev → BlockDev
healthy d = record d { fail_after = none }

pub AllValid-store :
    (ws : List Write) (d e : BlockDev)
    → e.total_blocks ≡ d.total_blocks
    → AllValid d ws
    → AllValid e ws
AllValid-store [] d e h v = tt
AllValid-store ((lba, block) ∷ ws) d e h v = (omega arith, v.1, AllValid-store ws d e h v.2)

-- A run of writes that is cut short has done exactly the writes before the cut.
pub write_all-faulty :
    (ws : List Write) (d : BlockDev) (n : ℕ)
    → AllValid d ws
    → ((device (write_all ws (faulty d n))).blocks ≡ apply (take n ws) d.blocks)
      × ((device (write_all ws (faulty d n))).total_blocks ≡ d.total_blocks)
      × (succeeded (write_all ws (faulty d n)) ≡ leb (length ws) n)
unfolding write_all apply
write_all-faulty [] d zero v = (refl, refl, refl)
write_all-faulty [] d (suc n) v = (refl, refl, ground arith)
write_all-faulty ((lba, block) ∷ ws) d zero v =
    let r : write_block lba block (faulty d 0) ≡ fail io (faulty d 0) =
      unfold write_block valid_lba in ground (arith, v.0, v.1) in
    rw r (refl, refl, ground arith)
write_all-faulty ((lba, block) ∷ ws) d (suc n) v =
    let d' = store lba block none d in
    let r : write_block lba block (faulty d (suc n)) ≡ done tt (faulty d' n) =
      unfold write_block valid_lba store in ground (arith, v.0, v.1) in
    let rest = write_all-faulty ws d' n (AllValid-store ws d d' (unfold store in refl) v.2) in
    rw r (unfold store in (rest.0, rest.1, rest.2 ∙ ground arith))

-- With no fault every write is done.
pub write_all-healthy :
    (ws : List Write) (d : BlockDev)
    → AllValid d ws
    → d.fail_after ≡ none
    → (e : BlockDev) × (write_all ws d ≡ done tt e)
      × (e.blocks ≡ apply ws d.blocks)
      × (e.total_blocks ≡ d.total_blocks)
      × (e.fail_after ≡ none)
unfolding write_all apply
write_all-healthy [] d v f = (d, refl, refl, refl, f)
write_all-healthy ((lba, block) ∷ ws) d v f =
    let d' = store lba block none d in
    let r : write_block lba block d ≡ done tt d' =
      unfold write_block valid_lba in ground (arith, v.0, v.1) in
    let rest =
      write_all-healthy ws d' (AllValid-store ws d d' (unfold store in refl) v.2)
        (unfold store in refl) in
    (rest.0, rw r rest.1, unfold store in rest.2, unfold store in rest.3, rest.4)

-- No write of the run goes to the block.
abbrev pub Avoids : ℕ → List Write → Type 0
Avoids lba [] = Unit {0}
Avoids lba ((target, block) ∷ ws) = (target ≢ lba) × Avoids lba ws

pub Avoids-append :
    (lba : ℕ) (xs ys : List Write) → Avoids lba xs → Avoids lba ys → Avoids lba (xs ++ ys)
Avoids-append lba [] ys a b = b
Avoids-append lba (w ∷ xs) ys a b = (a.0, Avoids-append lba xs ys a.1 b)

pub Avoids-take : (lba n : ℕ) (ws : List Write) → Avoids lba ws → Avoids lba (take n ws)
Avoids-take lba zero ws a = tt
Avoids-take lba (suc n) [] a = tt
Avoids-take lba (suc n) (w ∷ ws) a = (a.0, Avoids-take lba n ws a.1)

pub apply-Avoids : (lba : ℕ) (ws : List Write) (b : Blocks) → Avoids lba ws → apply ws b lba ≡ b lba
unfolding apply
apply-Avoids lba [] b a = refl
apply-Avoids lba ((target, block) ∷ ws) b a =
    apply-Avoids lba ws (update b target block) a.1 ∙ ground arith

-- A block that a run writes is the same afterwards whatever it was before.
pub apply-determined :
    (lba : ℕ) (ws : List Write) (b c : Blocks)
    → (Avoids lba ws → b lba ≡ c lba)
    → apply ws b lba ≡ apply ws c lba
unfolding apply
apply-determined lba [] b c h = h tt
apply-determined lba ((target, block) ∷ ws) b c h =
    apply-determined lba ws (update b target block) (update c target block) λ a.
      elim (Bool-cases (target == lba)) [
        | inl e ↦ ground arith
        | inr e ↦ let same = h (ground arith, a) in ground arith
      ]

-- Doing part of a run and then the whole of it is doing the whole of it.
pub apply-apply-take :
    (lba n : ℕ) (ws : List Write) (b c : Blocks)
    → b lba ≡ c lba
    → apply ws (apply (take n ws) b) lba ≡ apply ws c lba
apply-apply-take lba n ws b c h =
    apply-determined lba ws (apply (take n ws) b) c
      λ a. apply-Avoids lba (take n ws) b (Avoids-take lba n ws a) ∙ h

pub AllValid-append :
    (d : BlockDev) (xs ys : List Write) → AllValid d xs → AllValid d ys → AllValid d (xs ++ ys)
AllValid-append d [] ys a b = b
AllValid-append d (w ∷ xs) ys a b = (a.0, a.1, AllValid-append d xs ys a.2 b)
