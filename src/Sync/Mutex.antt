-- ===== src/Sync/Mutex.antt =====
-- kernel/sync/mutex.c: a lock that knows its owner. Each function as one thread runs it when no other
-- thread comes between; `Threads` takes the functions apart into their atomic accesses.
pub mod Threads
pub mod Exclusion
mod Tests
use acep_reja_mcsos.Common.{
  ℕ, Bool, if◌then◌else◌, not, ◌==◌, zero, suc, ◌+◌, ◌-◌, ◌*◌, ◌/◌, ◌%◌, ◌^◌, ◌≤◌, ◌<◌, min,
  bit_and, bit_or, ◌≡◌, refl, sym, ap, ◌∙◌, fun_ext, ◌≢◌, ◌↔◌, ◌⊎◌, inl, inr, true, false, ◌&&◌,
  ◌||◌, Option, none, some, List, [], ◌∷◌, ◌++◌, map, append_assoc, append-nil, arith, ltb, leb,
  ltb→lt, lt→ltb, ==_iff, Bool-cases, Option-cases, all_below, all_below_sound, update, length,
  get_or, set, take, drop, replicate, length-append, length-set, length-replicate, get_or-set_self,
  get_or-set_ne, set-set_back, get_or-out, take-suc-set, get_or-set_default, get_or-replicate,
  take-append_left, take-append_right, take-all, u8_mod, u32_mod, u64_mod, add32, add64, sub64,
}
use acep_reja_mcsos.Sync.Lockdep.{Status, ok, einval, ebusy, eperm, edeadlk}

-- mcs_mutex_t
pub record Mutex : Type 0 where
  pub locked : ℕ
  pub owner : ℕ
  pub class_id : ℕ
  pub name : ℕ

pub init : ℕ → ℕ → Mutex
init class_id name = record { locked = 0; owner = 0; class_id = class_id; name = name }

-- What a failed exchange reports, by the owner that it reads.
unfoldable pub lost_status : Mutex → ℕ → Status
lost_status m owner_id = if m.owner == owner_id then edeadlk else ebusy

-- `expected` is 0: the exchange goes through if `locked` is 0.
pub try_lock : Mutex → ℕ → Status × Mutex
try_lock m owner_id =
    if owner_id == 0
    then (einval, m)
    else if m.locked == 0
    then (ok, record m { locked = 1; owner = owner_id })
    else (lost_status m owner_id, m)

pub unlock : Mutex → ℕ → Status × Mutex
unlock m owner_id =
    if owner_id == 0
    then (einval, m)
    else if m.owner == owner_id
    then (ok, record m { owner = 0; locked = 0 })
    else (eperm, m)

pub is_locked : Mutex → Bool
is_locked m = not (m.locked == 0)
