-- ===== src/Sync/Lockdep.antt =====
-- kernel/sync/lockdep.c: the stack of lock classes that one context holds. A `const char *` is an
-- opaque number, 0 for NULL; the state itself is a value, so the tests of it for NULL are left out.
pub mod Stack
pub mod Order
pub mod Deadlock
mod Tests
use acep_reja_mcsos.Common.{
  ℕ, zero, suc, ◌-◌, List, [], ◌∷◌, Bool, false, ◌||◌, ltb, leb, ◌==◌, if◌then◌else◌, not, get_or,
  set, replicate, add32, ◌+◌, ◌*◌, ◌/◌, ◌%◌, ◌^◌, ◌≤◌, ◌<◌, min, bit_and, bit_or, ◌≡◌, refl, sym,
  ap, ◌∙◌, fun_ext, ◌≢◌, ◌↔◌, ◌⊎◌, inl, inr, true, ◌&&◌, Option, none, some, ◌++◌, map,
  append_assoc, append-nil, arith, ltb→lt, lt→ltb, ==_iff, Bool-cases, Option-cases, all_below,
  all_below_sound, update, length, take, drop, length-append, length-set, length-replicate,
  get_or-set_self, get_or-set_ne, set-set_back, get_or-out, take-suc-set, get_or-set_default,
  get_or-replicate, take-append_left, take-append_right, take-all, u8_mod, u32_mod, u64_mod, add64,
  sub64,
}

-- MCS_LOCKDEP_MAX_HELD
abbrev pub max_held : ℕ
max_held = 16

-- The MCS_SYNC codes.
pub data Status : Type 0 where
  ok einval ebusy eperm edeadlk eoverflow : Status

-- mcs_lockdep_state_t
pub record LockdepState : Type 0 where
  pub held_class : List ℕ
  pub held_name : List ℕ
  pub depth : ℕ
  pub violation_count : ℕ

pub init : LockdepState
init = record {
  held_class = replicate max_held 0;
  held_name = replicate max_held 0;
  depth = 0;
  violation_count = 0;
}

-- `for (i = 0; i < n; i++) if (held_class[i] == class_id) return true;`
pub scan : List ℕ → ℕ → ℕ → Bool
scan xs zero class_id = false
scan [] (suc n) class_id = false
scan (x ∷ xs) (suc n) class_id = x == class_id || scan xs n class_id

-- The loop is bounded by both `depth` and the size of the array.
pub is_held : LockdepState → ℕ → Bool
is_held st class_id =
    if class_id == 0
    then false
    else scan st.held_class (if ltb st.depth max_held then st.depth else max_held) class_id

abbrev violation : LockdepState → LockdepState
violation st = record st { violation_count = add32 st.violation_count 1 }

-- Whether the class comes before the newest one held; nothing does on an empty stack.
abbrev pub below_top : LockdepState → ℕ → Bool
below_top st class_id =
    if ltb 0 st.depth then ltb class_id (get_or st.held_class (st.depth - 1) 0) else false

abbrev pub push : LockdepState → ℕ → ℕ → LockdepState
push st class_id name = record st {
  held_class = set st.held_class st.depth class_id;
  held_name = set st.held_name st.depth name;
  depth = add32 st.depth 1;
}

pub before_acquire : LockdepState → ℕ → ℕ → Status × LockdepState
before_acquire st class_id name =
    if class_id == 0
    then (einval, st)
    else if leb max_held st.depth
    then (eoverflow, violation st)
    else if scan st.held_class st.depth class_id
    then (edeadlk, violation st)
    else if below_top st class_id
    then (edeadlk, violation st)
    else (ok, push st class_id name)

-- `depth` is not 0 where 1 is taken from it.
pub after_release : LockdepState → ℕ → ℕ → Status × LockdepState
after_release st class_id name =
    if class_id == 0
    then (einval, st)
    else if st.depth == 0
    then (eperm, violation st)
    else let index = st.depth - 1 in
      if not (get_or st.held_class index 0 == class_id) then (edeadlk, violation st) else (
        ok,
        record st {
          held_class = set st.held_class index 0;
          held_name = set st.held_name index 0;
          depth = index;
        },
      )
