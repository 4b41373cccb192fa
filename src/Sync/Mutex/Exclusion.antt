-- ===== src/Sync/Mutex/Exclusion.antt =====
-- mutex.c under any interleaving: the invariant of its two words and of where the threads stand.
use acep_reja_mcsos.Sync.System.{Reach, Step, pick, later, here}
use acep_reja_mcsos.Common.{ℕ, Bool, ◌≡◌, false, true, suc, arith, ◌≢◌, refl, update}
use acep_reja_mcsos.Sync.Mutex.Threads.{
  Pc, MutexSystem, Move, outside, cas_win, cas_lose, again_win, again_lose, check, check_outside,
  start, inside, relost, lost, owned,
}
use acep_reja_mcsos.Sync.Mutex.{Mutex, init, is_locked, edeadlk, ebusy, lost_status}

-- From the exchange that took the lock to the store that gives it back.
abbrev pub holds : Pc → Bool
holds outside = false
holds lost = false
holds _ = true

-- From the store of the owner to the store that clears it.
abbrev pub stored : Pc → Bool
stored inside = true
stored relost = true
stored owned = true
stored _ = false

pub record Inv (m : Mutex) (pc : ℕ → Pc) : Type 0 where
  pub unique : (i j : ℕ) → holds (pc i) ≡ true → holds (pc j) ≡ true → i ≡ j
  pub taken : (i : ℕ) → holds (pc i) ≡ true → m.locked ≢ 0
  pub owner_in : (i : ℕ) → m.owner ≡ suc i → stored (pc i) ≡ true
  pub in_owner : (i : ℕ) → stored (pc i) ≡ true → m.owner ≡ suc i

-- The premise of a move.
abbrev Guard : {i : ℕ} {m m' : Mutex} {p p' : Pc} → Move i m p m' p' → Type 0
Guard {m} (cas_win _) = m.locked ≡ 0
Guard {m} (cas_lose _) = m.locked ≢ 0
Guard {m} (again_win _) = m.locked ≡ 0
Guard {m} (again_lose _) = m.locked ≢ 0
Guard {i} {m} (check _) = m.owner ≡ suc i
Guard {i} {m} (check_outside _) = m.owner ≡ suc i
Guard _ = Unit

guard : {i : ℕ} {m m' : Mutex} {p p' : Pc} (mv : Move i m p m' p') → Guard mv
guard (cas_win g) = g
guard (cas_lose g) = g
guard (again_win g) = g
guard (again_lose g) = g
guard (check g) = g
guard (check_outside g) = g
guard _ = tt

module _ {m : Mutex} {pc : ℕ → Pc} (inv : Inv m pc) (i : ℕ) where
  open inv use {unique, taken, owner_in, in_owner}

  Move-unique :
      {p p' : Pc} {m' : Mutex}
      → Move i m p m' p'
      → pc i ≡ p
      → (a b : ℕ) → holds (update pc i p' a) ≡ true
      → holds (update pc i p' b) ≡ true
      → a ≡ b
  Move-unique (cas_win g) e a b ha hb = ground (arith, unique a b, taken a, taken b)
  Move-unique mv e a b ha hb =
      ground (arith, guard mv, unique a b, unique i a, unique i b, owner_in i)

  Move-taken :
      {p p' : Pc} {m' : Mutex}
      → Move i m p m' p'
      → pc i ≡ p
      → (a : ℕ) → holds (update pc i p' a) ≡ true
      → m'.locked ≢ 0
  Move-taken (cas_win g) e a ha = ground arith
  Move-taken mv e a ha = ground (arith, guard mv, taken a, taken i, unique i a, owner_in i)

  Move-owner_in :
      {p p' : Pc} {m' : Mutex}
      → Move i m p m' p'
      → pc i ≡ p
      → (a : ℕ) → m'.owner ≡ suc a
      → stored (update pc i p' a) ≡ true
  Move-owner_in (cas_win g) e a h = ground (arith, owner_in a)
  Move-owner_in mv e a h = ground (arith, guard mv, owner_in a, owner_in i, taken i)

  Move-in_owner :
      {p p' : Pc} {m' : Mutex}
      → Move i m p m' p'
      → pc i ≡ p
      → (a : ℕ) → stored (update pc i p' a) ≡ true
      → m'.owner ≡ suc a
  Move-in_owner (cas_win g) e a h = ground (arith, in_owner a)
  Move-in_owner mv e a h = ground (arith, guard mv, in_owner a, in_owner i, taken i, unique i a)

Step-Inv : {s t : MutexSystem} → Step Move s t → Inv s.mem s.pc → Inv t.mem t.pc
Step-Inv (pick i mv) v = record {
  unique = Move-unique v i mv refl;
  taken = Move-taken v i mv refl;
  owner_in = Move-owner_in v i mv refl;
  in_owner = Move-in_owner v i mv refl;
}

start-Inv : (c n : ℕ) → Inv (init c n) (λ _. outside)
unfolding init
start-Inv c n = record {
  unique = λ i j h k. cc;
  taken = λ i h. cc;
  owner_in = λ i h. absurd (omega arith);
  in_owner = λ i h. cc;
}

Reach-Inv : (c n : ℕ) {s : MutexSystem} → Reach Move (start c n) s → Inv s.mem s.pc
Reach-Inv c n here = start-Inv c n
Reach-Inv c n (later r st) = Step-Inv st (Reach-Inv c n r)

-- In every interleaving of the atomic accesses of mutex.c two threads inside the mutex are one, the
-- lock is marked as taken while a thread is inside, and its owner field names that thread.
pub mutex_exclusive :
    (c n : ℕ) {s : MutexSystem} (i j : ℕ)
    → Reach Move (start c n) s
    → s.pc i ≡ inside
    → s.pc j ≡ inside
    → (i ≡ j) × (is_locked s.mem ≡ true) × (s.mem.owner ≡ suc i)
unfolding is_locked
mutex_exclusive c n i j r hi hj =
    let v = Reach-Inv c n r in
    (v.unique i j (rw hi) (rw hj), ground (arith, v.taken i), v.in_owner i (rw hi))

-- In every interleaving, a thread that lost the exchange reports a deadlock if it holds the mutex
-- itself, and busy if it does not.
pub lost_status-verdict :
    (c n : ℕ) {s : MutexSystem} (i : ℕ)
    → Reach Move (start c n) s
    → (s.pc i ≡ relost → lost_status s.mem (suc i) ≡ edeadlk)
      × (s.pc i ≡ lost → lost_status s.mem (suc i) ≡ ebusy)
unfolding lost_status
lost_status-verdict c n i r =
    let v = Reach-Inv c n r in
    (λ h. ground (arith, v.in_owner i), λ h. ground (arith, v.owner_in i))
