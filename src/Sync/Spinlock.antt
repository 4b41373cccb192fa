-- ===== src/Sync/Spinlock.antt =====
-- kernel/sync/spinlock.c: the spinlock, its functions on a lock that no other thread touches, and the
-- interleavings of their atomic accesses.
pub mod Exclusion
mod Tests
use acep_reja_mcsos.Common.{
  Bool, ℕ, ◌==◌, not, ◌≡◌, true, false, zero, suc, ◌+◌, ◌-◌, ◌*◌, ◌/◌, ◌%◌, ◌^◌, ◌≤◌, ◌<◌, min,
  bit_and, bit_or, refl, sym, ap, ◌∙◌, fun_ext, ◌≢◌, ◌↔◌, ◌⊎◌, inl, inr, ◌&&◌, ◌||◌, Option, none,
  some, List, [], ◌∷◌, ◌++◌, map, append_assoc, append-nil, arith, ltb, leb, if◌then◌else◌, ltb→lt,
  lt→ltb, ==_iff, Bool-cases, Option-cases, all_below, all_below_sound, update, length, get_or, set,
  take, drop, replicate, length-append, length-set, length-replicate, get_or-set_self,
  get_or-set_ne, set-set_back, get_or-out, take-suc-set, get_or-set_default, get_or-replicate,
  take-append_left, take-append_right, take-all, u8_mod, u32_mod, u64_mod, add32, add64, sub64,
  left_by, bind, bind_ext, bind-value, Result-cases, Outcome-cases, proceed, add_signed, to_int32,
  to_int64,
}
use acep_reja_mcsos.Sync.System.{System}

-- mcs_spinlock_t
pub record Spinlock : Type 0 where
  pub locked : ℕ
  pub class_id : ℕ
  pub name : ℕ

pub init : ℕ → ℕ → Spinlock
init class_id name = record { locked = 0; class_id = class_id; name = name }

-- The exchange stores 1 whatever it finds, and reports whether it found 0.
pub try_lock : Spinlock → Bool × Spinlock
try_lock l = (l.locked == 0, record l { locked = 1 })

pub unlock : Spinlock → Spinlock
unlock l = record l { locked = 0 }

pub is_locked : Spinlock → Bool
is_locked l = not (l.locked == 0)

-- Where a thread stands, with whether it holds the lock: it has taken it, and has not called
-- `mcs_spin_unlock` since. `idle` is outside of the calls, `trying` is before the exchange in the outer
-- loop of `mcs_spin_lock`, and `spinning` is in its inner loop.
pub data Pc : Type 0 where
  idle trying spinning : Bool → Pc

-- One access of one thread. Any thread that is idle makes any call, whether it holds the lock or not.
-- `try_win` and `try_lose` are a call of `mcs_spin_try_lock` on its own.
pub data Move (i : ℕ) (l : Spinlock) : Pc → Spinlock → Pc → Type 0 where
  call_lock : {b : Bool} → Move i l (idle b) l (trying b)
  win : {b : Bool} → (try_lock l).0 ≡ true → Move i l (trying b) (try_lock l).1 (idle true)
  lose : {b : Bool} → (try_lock l).0 ≡ false → Move i l (trying b) (try_lock l).1 (spinning b)
  relax : {b : Bool} → is_locked l ≡ true → Move i l (spinning b) l (spinning b)
  retry : {b : Bool} → is_locked l ≡ false → Move i l (spinning b) l (trying b)
  try_win : {b : Bool} → (try_lock l).0 ≡ true → Move i l (idle b) (try_lock l).1 (idle true)
  try_lose : {b : Bool} → (try_lock l).0 ≡ false → Move i l (idle b) (try_lock l).1 (idle b)
  call_unlock : {b : Bool} → Move i l (idle b) (unlock l) (idle false)

abbrev pub SpinSystem : Type 0
SpinSystem = System Move

abbrev pub start : ℕ → ℕ → SpinSystem
start class_id name = record { mem = init class_id name; pc = λ _. idle false }
