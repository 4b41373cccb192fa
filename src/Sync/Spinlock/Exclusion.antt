-- ===== src/Sync/Spinlock/Exclusion.antt =====
-- spinlock.c under any interleaving: the invariant of its word and of where the threads stand.
use acep_reja_mcsos.Sync.System.{Reach, later, pick, here}
use acep_reja_mcsos.Sync.Spinlock.{
  SpinSystem, Pc, Spinlock, idle, Move, is_locked, trying, call_unlock, spinning,
}
use acep_reja_mcsos.Common.{ℕ, ◌≡◌, Bool, true}

abbrev pub holds : Pc → Bool
holds (idle b) = b
holds (trying b) = b
holds (spinning b) = b

-- A move that is a call of `mcs_spin_unlock` is one of a thread that holds the lock.
abbrev pub ByHolder : {i : ℕ} {l l' : Spinlock} {p p' : Pc} → Move i l p l' p' → Type 0
ByHolder (call_unlock {b}) = b ≡ true
ByHolder _ = Unit

-- In the run so far only threads that held the lock have called `mcs_spin_unlock`.
abbrev pub OnlyHolders : {s t : SpinSystem} → Reach Move s t → Type 0
OnlyHolders here = Unit
OnlyHolders (later r (pick i mv)) = OnlyHolders r × ByHolder mv

record Inv (l : Spinlock) (pc : ℕ → Pc) : Type 0 where
  unique : (i j : ℕ) → holds (pc i) ≡ true → holds (pc j) ≡ true → i ≡ j
  taken : (i : ℕ) → holds (pc i) ≡ true → is_locked l ≡ true
