-- ===== src/Sync/Lockdep/Deadlock.antt =====
-- Contexts that ask the checker of lockdep.c before each lock, and who of them waits for whom.
use acep_reja_mcsos.Sync.Lockdep.Order.{
  before_acquire-ok_iff, refused-IsValid, admitted-ne_zero, before_acquire-IsValid,
  after_release-IsValid,
}
use acep_reja_mcsos.Sync.Lockdep.Stack.{IsValid, AllBelow, held}
use acep_reja_mcsos.Sync.Lockdep.{LockdepState, before_acquire, init, after_release, ok, max_held}
use acep_reja_mcsos.Common.{
  ℕ, List, ◌∷◌, ◌<◌, arith, ◌≡◌, ◌⊎◌, [], get_or-replicate, inl, inr, suc, refl, zero,
}

pub data Call : Type 0 where
  acquire release : (class_id name : ℕ) → Call

unfoldable pub step : LockdepState → Call → LockdepState
step st (acquire c name) = (before_acquire st c name).1
step st (release c name) = (after_release st c name).1

-- The state of a context after its calls, from `mcs_lockdep_init`.
unfoldable pub run : LockdepState → List Call → LockdepState
run st [] = st
run st (c ∷ cs) = run (step st c) cs

init-IsValid : IsValid init
unfolding init
init-IsValid = record {
  classes = refl;
  names = refl;
  fits = omega arith;
  rises = tt;
  clear_class = λ i h. get_or-replicate max_held i;
  clear_name = λ i h. get_or-replicate max_held i;
}

step-IsValid : (st : LockdepState) (c : Call) → IsValid st → IsValid (step st c)
unfolding step
step-IsValid st (acquire zero name) v = refused-IsValid st name v
step-IsValid st (acquire (suc c) name) v =
    (before_acquire-IsValid st (suc c) name v (omega arith)).0
step-IsValid st (release c name) v = after_release-IsValid st c name v

run-IsValid : (st : LockdepState) (cs : List Call) → IsValid st → IsValid (run st cs)
unfolding run
run-IsValid st [] v = v
run-IsValid st (c ∷ cs) v = run-IsValid (step st c) cs (step-IsValid st c v)

-- After any sequence of calls from mcs_lockdep_init at most 16 classes are held, they rise strictly,
-- and the arrays agree with the depth.
pub run-init-IsValid : (cs : List Call) → IsValid (run init cs)
run-init-IsValid cs = run-IsValid init cs init-IsValid

abbrev pub Has : ℕ → List ℕ → Type 0
Has c [] = ⊥
Has c (x ∷ xs) = (x ≡ c) ⊎ Has c xs

Has-AllBelow : (c b : ℕ) (xs : List ℕ) → Has c xs → AllBelow b xs → c < b
Has-AllBelow c b [] h a = absurd h
Has-AllBelow c b (x ∷ xs) (inl e) a = omega arith
Has-AllBelow c b (x ∷ xs) (inr h) a = Has-AllBelow c b xs h a.1

module _ (history : ℕ → List Call) (wants : ℕ → ℕ) where
  -- The checker has let context `i` go on to take the lock of the class that it wants.
  abbrev pub IsAdmitted : ℕ → Type 0
  IsAdmitted i = (before_acquire (run init (history i)) (wants i) 0).0 ≡ ok

  -- Context `i` may go on and waits, directly or through others, for a lock that `j` holds.
  pub data Waits (i : ℕ) : ℕ → Type 0 where
    for : {j : ℕ} → IsAdmitted i → Has (wants i) (held (run init (history j))) → Waits i j
    through :
        {j k : ℕ}
        → Waits i j
        → IsAdmitted j
        → Has (wants j) (held (run init (history k)))
        → Waits i k

  admitted_above :
      (i j : ℕ) → IsAdmitted i → Has (wants j) (held (run init (history i))) → wants j < wants i
  admitted_above i j a h =
      Has-AllBelow (wants j) (wants i) (held (run init (history i))) h
        ((before_acquire-ok_iff (run init (history i)) (wants i) 0 (run-init-IsValid (history i))
            (admitted-ne_zero (run init (history i)) (wants i) a)).0
          a).1

  Waits-lt : (i : ℕ) {j : ℕ} → Waits i j → IsAdmitted j → wants i < wants j
  Waits-lt i {j} (for a h) b = admitted_above j i b h
  Waits-lt i {j} (through {j = m} w a h) b = omega (arith, Waits-lt i w a, admitted_above j m b h)

  Waits-IsAdmitted : (i : ℕ) {j : ℕ} → Waits i j → IsAdmitted i
  Waits-IsAdmitted i (for a h) = a
  Waits-IsAdmitted i (through w a h) = Waits-IsAdmitted i w

  -- Contexts that take locks only as mcs_lockdep_before_acquire admits them never wait for one
  -- another in a ring, whatever calls they have made.
  pub not-Waits_self : (i : ℕ) → ¬ Waits i i
  not-Waits_self i w = omega (arith, Waits-lt i w (Waits-IsAdmitted i w))
