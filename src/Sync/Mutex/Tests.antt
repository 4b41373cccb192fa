-- ===== src/Sync/Mutex/Tests.antt =====
-- The mutex with two threads.
use acep_reja_mcsos.Sync.System.{Reach, later, here, pick}
use acep_reja_mcsos.Sync.Mutex.Exclusion.{mutex_exclusive}
use acep_reja_mcsos.Sync.Mutex.Threads.{
  MutexSystem, outside, won, lost, inside, Move, start, cas_win, cas_lose, store_owner,
}
use acep_reja_mcsos.Sync.Mutex.{is_locked, init}
use acep_reja_mcsos.Common.{ℕ, ◌≡◌, refl, true, arith, update}

-- Thread 0 is inside, and thread 1 has lost the exchange to it.
abbrev contended : MutexSystem
contended = record {
  mem = record { locked = 1; owner = 1; class_id = 3; name = 7 };
  pc = update (update (update (λ _. outside) 0 won) 1 lost) 0 inside;
}

contended-Reach : Reach Move (start 3 7) contended
unfolding init
contended-Reach =
    later (later (later here (pick 0 (cas_win refl))) (pick 1 (cas_lose (omega arith))))
      (pick 0 store_owner)

mutex_exclusive_example :
    (◌≡◌ {A = ℕ} 0 0) × (is_locked contended.mem ≡ true) × (contended.mem.owner ≡ 1)
mutex_exclusive_example = mutex_exclusive 3 7 0 0 contended-Reach refl refl
