-- ===== src/Sync/Lockdep/Stack.antt =====
-- The arrays of lockdep.c as a stack of held classes that rises from the bottom to the top.
use acep_reja_mcsos.Common.{
  ℕ, zero, suc, ◌≤◌, ◌<◌, ◌≡◌, refl, ap, ◌≢◌, List, [], ◌∷◌, ◌++◌, false, arith, length, get_or,
  set, take,
}
use acep_reja_mcsos.Sync.Lockdep.{LockdepState, max_held, scan}

-- The classes held, oldest first.
abbrev pub held : LockdepState → List ℕ
held st = take st.depth st.held_class

-- Each entry is above the one before it, and the first is above `lo`.
abbrev pub Rises : ℕ → List ℕ → Type 0
Rises lo [] = Unit {0}
Rises lo (x ∷ xs) = (lo < x) × Rises x xs

abbrev pub AllBelow : ℕ → List ℕ → Type 0
AllBelow c [] = Unit {0}
AllBelow c (x ∷ xs) = (x < c) × AllBelow c xs

-- The arrays have their size, the classes held rise from above 0, and the slots past the top are
-- empty.
pub record IsValid (st : LockdepState) : Type 0 where
  pub classes : length st.held_class ≡ max_held
  pub names : length st.held_name ≡ max_held
  pub fits : st.depth ≤ max_held
  pub rises : Rises 0 (held st)
  pub clear_class : (i : ℕ) → st.depth ≤ i → get_or st.held_class i 0 ≡ 0
  pub clear_name : (i : ℕ) → st.depth ≤ i → get_or st.held_name i 0 ≡ 0

pub Rises-append :
    (lo c : ℕ) (xs : List ℕ) → Rises lo xs → AllBelow c xs → lo < c → Rises lo (xs ++ c ∷ [])
Rises-append lo c [] r b h = (h, tt)
Rises-append lo c (x ∷ xs) r b h = (r.0, Rises-append x c xs r.1 b.1 b.0)

pub scan-AllBelow : (xs : List ℕ) (n c : ℕ) → AllBelow c (take n xs) → scan xs n c ≡ false
unfolding scan
scan-AllBelow xs zero c b = refl
scan-AllBelow [] (suc n) c b = refl
scan-AllBelow (x ∷ xs) (suc n) c b = ground (arith, scan-AllBelow xs n c b.1)

-- In a rising stack the top is the largest: a class above it is above all that are held.
pub AllBelow-of_top :
    (xs : List ℕ) (lo n c : ℕ)
    → Rises lo (take (suc n) xs)
    → n < length xs
    → get_or xs n 0 < c
    → AllBelow c (take (suc n) xs)
AllBelow-of_top [] lo n c r h t = absurd (omega arith)
AllBelow-of_top (x ∷ xs) lo zero c r h t = (t, tt)
AllBelow-of_top (x ∷ []) lo (suc n) c r h t = absurd (omega arith)
AllBelow-of_top (x ∷ y ∷ xs) lo (suc n) c r h t =
    let rest = AllBelow-of_top (y ∷ xs) x n c r.1 (omega arith) t in
    (omega (arith, r.1.0, rest.0), rest)

-- A class that the scan misses is not at the top.
pub scan-top_ne :
    (xs : List ℕ) (n c : ℕ) → n < length xs → scan xs (suc n) c ≡ false → get_or xs n 0 ≢ c
unfolding scan
scan-top_ne [] n c h s = absurd (omega arith)
scan-top_ne (x ∷ xs) zero c h s = ground arith
scan-top_ne (x ∷ xs) (suc n) c h s = scan-top_ne xs n c (omega arith) (ground arith)

pub AllBelow-top :
    (xs : List ℕ) (n c : ℕ) → n < length xs → AllBelow c (take (suc n) xs) → get_or xs n 0 < c
AllBelow-top [] n c h b = absurd (omega arith)
AllBelow-top (x ∷ xs) zero c h b = b.0
AllBelow-top (x ∷ xs) (suc n) c h b = AllBelow-top xs n c (omega arith) b.1

-- Writing at or past the end of a prefix leaves the prefix alone.
pub take-set_past : (xs : List ℕ) (n i v : ℕ) → n ≤ i → take n (set xs i v) ≡ take n xs
take-set_past xs zero i v h = refl
take-set_past [] (suc n) i v h = refl
take-set_past (x ∷ xs) (suc n) zero v h = absurd (omega arith)
take-set_past (x ∷ xs) (suc n) (suc i) v h = ap (◌∷◌ x) (take-set_past xs n i v (omega arith))

pub Rises-take : (xs : List ℕ) (lo n : ℕ) → Rises lo (take (suc n) xs) → Rises lo (take n xs)
Rises-take xs lo zero r = tt
Rises-take [] lo (suc n) r = tt
Rises-take (x ∷ xs) lo (suc n) r = (r.0, Rises-take xs x n r.1)
