-- ===== src/Sync/Spinlock/Tests.antt =====
-- The spinlock with two threads.
use acep_reja_mcsos.Sync.System.{Reach, later, here, pick}
use acep_reja_mcsos.Sync.Spinlock.{
  init, SpinSystem, idle, try_lock, trying, unlock, spinning, Move, start, call_lock, try_win, win,
  call_unlock, lose,
}
use acep_reja_mcsos.Common.{refl, true, false, update}

-- Thread 0 holds the lock, and thread 1 spins.
abbrev contended : SpinSystem
contended = record {
  mem = record { locked = 1; class_id = 3; name = 7 };
  pc =
      update
        (update (update (update (λ _. idle false) 0 (trying false)) 0 (idle true)) 1 (trying false))
        1 (spinning false);
}

contended-Reach : Reach Move (start 3 7) contended
unfolding init try_lock
contended-Reach =
    later (later (later (later here (pick 0 call_lock)) (pick 0 (win refl))) (pick 1 call_lock))
      (pick 1 (lose refl))

-- Thread 2 unlocks what thread 0 holds, and thread 1 takes it too.
abbrev ended_early : SpinSystem
ended_early = record {
  mem = record { locked = 1; class_id = 3; name = 7 };
  pc = update (update (update (λ _. idle false) 0 (idle true)) 2 (idle false)) 1 (idle true);
}

ended_early_test : Reach Move (start 3 7) ended_early
unfolding init try_lock unlock
ended_early_test =
    later (later (later here (pick 0 (try_win refl))) (pick 2 call_unlock)) (pick 1 (try_win refl))
