-- ===== src/Sync/Mutex/Threads.antt =====
-- The atomic accesses of mutex.c. Thread `i` calls with the owner id `i + 1`.
use acep_reja_mcsos.Sync.Lockdep.{ok, eperm}
use acep_reja_mcsos.Common.{ℕ, ◌≡◌, suc, ◌≢◌, Bool-cases, ◌==◌, inl, arith, inr}
use acep_reja_mcsos.Sync.System.{System}
use acep_reja_mcsos.Sync.Mutex.{try_lock, unlock, Mutex, init, lost_status}

-- Where a thread stands. `won` and `lost` are in `mcs_mutex_try_lock` after the exchange, `relost` is
-- the same for a thread that holds the lock already, `owned` and `cleared` are in `mcs_mutex_unlock`
-- before the two stores.
pub data Pc : Type 0 where
  outside won lost inside relost owned cleared : Pc

-- A thread may call either function wherever it is outside of both, whether it holds the lock or not.
pub data Move (i : ℕ) (m : Mutex) : Pc → Mutex → Pc → Type 0 where
  cas_win : m.locked ≡ 0 → Move i m outside (record m { locked = 1 }) won
  cas_lose : m.locked ≢ 0 → Move i m outside m lost
  busy : Move i m lost m outside
  store_owner : Move i m won (record m { owner = suc i }) inside
  again_win : m.locked ≡ 0 → Move i m inside (record m { locked = 1 }) won
  again_lose : m.locked ≢ 0 → Move i m inside m relost
  refused : Move i m relost m inside
  check : m.owner ≡ suc i → Move i m inside m owned
  check_outside : m.owner ≡ suc i → Move i m outside m owned
  not_owner : m.owner ≢ suc i → Move i m inside m inside
  not_owner_outside : m.owner ≢ suc i → Move i m outside m outside
  clear_owner : Move i m owned (record m { owner = 0 }) cleared
  clear_locked : Move i m cleared (record m { locked = 0 }) outside

abbrev pub MutexSystem : Type 0
MutexSystem = System Move

abbrev pub start : ℕ → ℕ → MutexSystem
start class_id name = record { mem = init class_id name; pc = λ _. outside }

-- The accesses of one thread in a row, with none of another thread between them.
pub data Moves (i : ℕ) (m : Mutex) (p : Pc) : Mutex → Pc → Type 0 where
  done : Moves i m p m p
  more : {n k : Mutex} {q r : Pc} → Moves i m p n q → Move i n q k r → Moves i m p k r

lost-Moves :
    (i : ℕ) (m : Mutex)
    → Moves i m outside m outside
    → Moves i m outside m (elim (lost_status m (suc i)) [ ok ↦ inside | _ ↦ outside ])
unfolding lost_status
lost-Moves i m w = elim (Bool-cases (m.owner == suc i)) [
  | inl e ↦ rw (e, lost_status) w
  | inr e ↦ rw (e, lost_status) w
]

-- The accesses of one thread alone add up to mcs_mutex_try_lock: from outside it ends inside if the
-- call reports success, and outside otherwise, with the state that the call leaves.
pub try_lock-Moves :
    (i : ℕ) (m : Mutex)
    → Moves i m outside
        (try_lock m (suc i)).1
        (elim (try_lock m (suc i)).0 [ ok ↦ inside | _ ↦ outside ])
unfolding try_lock
try_lock-Moves i m = elim (Bool-cases (m.locked == 0)) [
  | inl e ↦
      let r : try_lock m (suc i) ≡ (ok, record m { locked = 1; owner = suc i }) = ground arith in
      rw r (more (more done (cas_win (ground arith))) store_owner)
  | inr e ↦
      let r : try_lock m (suc i) ≡ (lost_status m (suc i), m) = ground arith in
      rw r (lost-Moves i m (more (more done (cas_lose (ground arith))) busy))
]

-- The accesses of one thread alone add up to mcs_mutex_unlock: from inside it ends outside if the
-- call reports success, and inside otherwise, with the state that the call leaves.
pub unlock-Moves :
    (i : ℕ) (m : Mutex)
    → Moves i m inside
        (unlock m (suc i)).1
        (elim (unlock m (suc i)).0 [ ok ↦ outside | _ ↦ inside ])
unfolding unlock
unlock-Moves i m = elim (Bool-cases (m.owner == suc i)) [
  | inl e ↦
      let r : unlock m (suc i) ≡ (ok, record m { owner = 0; locked = 0 }) = ground arith in
      rw r (more (more (more done (check (ground arith))) clear_owner) clear_locked)
  | inr e ↦
      let r : unlock m (suc i) ≡ (eperm, m) = ground arith in
      rw r (more done (not_owner (ground arith)))
]
