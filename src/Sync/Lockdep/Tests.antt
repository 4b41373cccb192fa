-- ===== src/Sync/Lockdep/Tests.antt =====
-- The lock-order checker on short runs.
use acep_reja_mcsos.Sync.Lockdep.Order.{before_acquire-ok_iff, after_release-IsValid}
use acep_reja_mcsos.Sync.Lockdep.Deadlock.{
  Call, Waits, run, run-init-IsValid, acquire, not-Waits_self, release, step, for,
}
use acep_reja_mcsos.Sync.Lockdep.{
  before_acquire, LockdepState, init, ok, after_release, scan, max_held,
}
use acep_reja_mcsos.Sync.Lockdep.Stack.{IsValid, AllBelow, held}
use acep_reja_mcsos.Common.{ℕ, ◌<◌, ◌≡◌, refl, ◌↔◌, inl, List, [], ◌∷◌, arith, ◌==◌, if◌then◌else◌}

-- Classes 2 and 5 are held.
abbrev two_held : LockdepState
two_held = run init (acquire 2 20 ∷ acquire 5 50 ∷ [])

two_held-IsValid : IsValid two_held
two_held-IsValid = run-init-IsValid (acquire 2 20 ∷ acquire 5 50 ∷ [])

admits_nine : (before_acquire two_held 9 90).0 ≡ ok
unfolding before_acquire init scan run step
admits_nine = refl

before_acquire-ok_iff_example :
    ((before_acquire two_held 9 90).0 ≡ ok)
    ↔ ((two_held.depth < max_held) × AllBelow 9 (held two_held))
before_acquire-ok_iff_example = before_acquire-ok_iff two_held 9 90 two_held-IsValid (omega arith)

after_release-IsValid_example : IsValid (after_release two_held 2 20).1
after_release-IsValid_example = after_release-IsValid two_held 2 20 two_held-IsValid

run-init-IsValid_example : IsValid (run init (acquire 4 1 ∷ acquire 4 1 ∷ release 4 1 ∷ []))
run-init-IsValid_example = run-init-IsValid (acquire 4 1 ∷ acquire 4 1 ∷ release 4 1 ∷ [])

-- Context 0 holds class 1 and wants 2; context 1 holds class 2 and wants 1.
abbrev crossed : ℕ → List Call
crossed i = if i == 0 then acquire 1 0 ∷ [] else acquire 2 0 ∷ []

abbrev crossed_wants : ℕ → ℕ
crossed_wants i = if i == 0 then 2 else 1

-- Context 0 may go on and wait for context 1; the checker keeps context 1 from closing the ring.
crossed-Waits : Waits crossed crossed_wants 0 1
unfolding before_acquire init scan run step
crossed-Waits = for {j = 1} refl (inl refl)

not-Waits_self_example : ¬ Waits crossed crossed_wants 0 0
not-Waits_self_example = not-Waits_self crossed crossed_wants 0
