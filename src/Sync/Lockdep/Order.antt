-- ===== src/Sync/Lockdep/Order.antt =====
-- What the lock-order checker accepts, and its stack afterwards.
use acep_reja_mcsos.Common.{
  ℕ, zero, suc, ◌-◌, ◌≤◌, ◌<◌, ◌≡◌, refl, ◌≢◌, ◌↔◌, List, false, ltb, if◌then◌else◌, arith, length,
  get_or, take, ◌++◌, length-set, ◌⊎◌, ◌∙◌, Bool-cases, get_or-set_ne, ◌∷◌, ◌+◌, ◌==◌, [], inl, ◌%◌,
  ◌^◌, inr, ap, take-suc-set, leb, get_or-set_self, add32, set-set_back, set, ==_iff,
  get_or-set_default,
}
use acep_reja_mcsos.Sync.Lockdep.{
  LockdepState, ok, max_held, scan, before_acquire, push, after_release, Status, below_top,
}
use acep_reja_mcsos.Sync.Lockdep.Stack.{
  held, Rises, AllBelow, IsValid, scan-AllBelow, AllBelow-of_top, scan-top_ne, AllBelow-top,
  Rises-append, take-set_past, Rises-take,
}

clear_of_AllBelow :
    (xs : List ℕ) (d c : ℕ)
    → d ≤ length xs
    → AllBelow c (take d xs)
    → (scan xs d c ≡ false) × ((if ltb 0 d then ltb c (get_or xs (d - 1) 0) else false) ≡ false)
clear_of_AllBelow xs zero c h b = (scan-AllBelow xs zero c b, refl)
clear_of_AllBelow xs (suc n) c h b =
    let e : suc n - 1 ≡ n = omega arith in
    (scan-AllBelow xs (suc n) c b, rw e (ground (arith, AllBelow-top xs n c)))

AllBelow-of_clear :
    (xs : List ℕ) (d c : ℕ)
    → d ≤ length xs
    → Rises 0 (take d xs)
    → scan xs d c ≡ false
    → (if ltb 0 d then ltb c (get_or xs (d - 1) 0) else false) ≡ false
    → AllBelow c (take d xs)
AllBelow-of_clear xs zero c h r s t = tt
AllBelow-of_clear xs (suc n) c h r s t =
    AllBelow-of_top xs 0 n c r (omega arith) (ground (arith, e, scan-top_ne xs n c))
  where
    e : suc n - 1 ≡ n
    e = omega arith

-- On a valid stack, mcs_lockdep_before_acquire admits a class other than 0 exactly if fewer than 16
-- are held and the class is above every class held.
pub before_acquire-ok_iff :
    (st : LockdepState) (c name : ℕ)
    → IsValid st
    → c ≢ 0
    → ((before_acquire st c name).0 ≡ ok) ↔ ((st.depth < max_held) × AllBelow c (held st))
unfolding before_acquire
before_acquire-ok_iff st c name v nz = (λ h. there h, λ h. back h)
  where
    there : (before_acquire st c name).0 ≡ ok → (st.depth < max_held) × AllBelow c (held st)
    there h = (
      ground arith,
      AllBelow-of_clear st.held_class st.depth c (ground (arith, v.classes, v.fits)) v.rises
          (ground arith) (ground arith),
    )

    back : (st.depth < max_held) × AllBelow c (held st) → (before_acquire st c name).0 ≡ ok
    back h =
        ground (arith, clear_of_AllBelow st.held_class st.depth c (omega (arith, v.classes)) h.1)

module _ (st : LockdepState) (c name : ℕ) (v : IsValid st) (room : st.depth < max_held) where
  held-push : held (push st c name) ≡ held st ++ c ∷ []
  held-push =
      let e : (st.depth + 1) % 2 ^ 32 ≡ suc st.depth = omega arith in
      rw e (take-suc-set st.held_class st.depth c (omega (arith, v.classes)))

  push-IsValid : c ≢ 0 → AllBelow c (held st) → IsValid (push st c name)
  push-IsValid nz b = record {
    classes = length-set st.held_class st.depth c ∙ v.classes;
    names = length-set st.held_name st.depth name ∙ v.names;
    fits = omega arith;
    rises = rw held-push (Rises-append 0 c (held st) v.rises b (omega arith));
    clear_class = λ i h.
        get_or-set_ne st.held_class st.depth i c 0 (omega arith) ∙ v.clear_class i (omega arith);
    clear_name = λ i h.
        get_or-set_ne st.held_name st.depth i name 0 (omega arith) ∙ v.clear_name i (omega arith);
  }

counted-IsValid :
    (st : LockdepState) (n : ℕ) → IsValid st → IsValid (record st { violation_count = n })
counted-IsValid st n v = record {
  classes = v.classes;
  names = v.names;
  fits = v.fits;
  rises = v.rises;
  clear_class = v.clear_class;
  clear_name = v.clear_name;
}

-- An array cleared at the last slot that is in use is clear from there on.
clear-set :
    (xs : List ℕ) (d : ℕ)
    → d ≢ 0
    → ((i : ℕ) → d ≤ i → get_or xs i 0 ≡ 0)
    → (i : ℕ) → d - 1 ≤ i
    → get_or (set xs (d - 1) 0) i 0 ≡ 0
clear-set xs d nz h i le = elim (Bool-cases (i == d - 1)) [
  | inl e ↦ rw ((==_iff i (d - 1)).0 e) (get_or-set_default xs (d - 1) 0)
  | inr e ↦ get_or-set_ne xs (d - 1) i 0 0 (ground arith) ∙ h i (ground arith)
]

popped-IsValid :
    (st : LockdepState)
    → IsValid st
    → st.depth ≢ 0
    → IsValid (record st {
      held_class = set st.held_class (st.depth - 1) 0;
      held_name = set st.held_name (st.depth - 1) 0;
      depth = st.depth - 1;
    })
popped-IsValid st v nz = record {
  classes = length-set st.held_class (st.depth - 1) 0 ∙ v.classes;
  names = length-set st.held_name (st.depth - 1) 0 ∙ v.names;
  fits = omega (arith, v.fits);
  rises = rw (take-set_past st.held_class (st.depth - 1) (st.depth - 1) 0 (omega arith)) (
      Rises-take st.held_class 0 (st.depth - 1)
        (let e : suc (st.depth - 1) ≡ st.depth = omega arith in rw e v.rises));
  clear_class = clear-set st.held_class st.depth nz v.clear_class;
  clear_name = clear-set st.held_name st.depth nz v.clear_name;
}

-- What `before_acquire` does: it pushes the class and reports success, or it reports a failure and
-- changes nothing but the count of violations.
pub before_acquire_cases :
    (st : LockdepState) (c name : ℕ)
    → (before_acquire st c name ≡ (ok, push st c name))
      ⊎ (((before_acquire st c name).0 ≢ ok)
          × ((n : ℕ) × ((before_acquire st c name).1 ≡ record st { violation_count = n })))
unfolding before_acquire
before_acquire_cases st c name = elim (Bool-cases (c == 0)) [
  | inl e ↦ inr (ground arith, (st.violation_count, ground arith))
  | inr e ↦ elim (Bool-cases (leb max_held st.depth)) [
    | inl full ↦ inr (ground arith, (add32 st.violation_count 1, ground arith))
    | inr room ↦ elim (Bool-cases (scan st.held_class st.depth c)) [
      | inl twice ↦ inr (ground arith, (add32 st.violation_count 1, ground arith))
      | inr fresh ↦ elim (Bool-cases (below_top st c)) [
        | inl low ↦ inr (ground arith, (add32 st.violation_count 1, ground arith))
        | inr high ↦ inl (ground arith)
      ]
    ]
  ]
]

-- mcs_lockdep_before_acquire keeps a valid stack valid whatever it reports for a class other than 0,
-- and on success it puts the class on top.
pub before_acquire-IsValid :
    (st : LockdepState) (c name : ℕ)
    → IsValid st
    → c ≢ 0
    → IsValid (before_acquire st c name).1
      × ((before_acquire st c name).0 ≡ ok → held (before_acquire st c name).1 ≡ held st ++ c ∷ [])
before_acquire-IsValid st c name v nz = elim (before_acquire_cases st c name) [
  | inl e ↦
      let acc =
        (before_acquire-ok_iff st c name v nz).0 (ap (λ (r : Status × LockdepState). r.0) e) in
      rw e (push-IsValid st c name v acc.0 nz acc.1, λ _. held-push st c name v acc.0)
  | inr (bad, rest) ↦ (rw rest.1 (counted-IsValid st rest.0 v), λ h. absurd (bad h))
]

-- mcs_lockdep_after_release of the class that mcs_lockdep_before_acquire has just admitted succeeds
-- and restores the whole state of a valid stack.
pub after_release-before_acquire :
    (st : LockdepState) (c name other : ℕ)
    → IsValid st
    → (before_acquire st c name).0 ≡ ok
    → after_release (before_acquire st c name).1 c other ≡ (ok, st)
unfolding before_acquire after_release
after_release-before_acquire st c name other v h = ground (
  arith,
  e,
  v.classes,
  v.names,
  get_or-set_self st.held_class st.depth c 0,
  set-set_back st.held_class st.depth c 0 0 (v.clear_class st.depth (omega arith)),
  set-set_back st.held_name st.depth name 0 0 (v.clear_name st.depth (omega arith)),
)
  where
    e : (st.depth + 1) % 2 ^ 32 - 1 ≡ st.depth
    e = omega (arith, v.fits)

-- A release keeps the stack valid: it pops the top or changes only the count of violations.
pub after_release-IsValid :
    (st : LockdepState) (c name : ℕ) → IsValid st → IsValid (after_release st c name).1
unfolding after_release
after_release-IsValid st c name v = elim (Bool-cases (c == 0)) [
  | inl e ↦ rw (e, after_release) v
  | inr e ↦ elim (Bool-cases (st.depth == 0)) [
    | inl z ↦ rw (e, z, after_release) (counted-IsValid st (add32 st.violation_count 1) v)
    | inr nz ↦ elim (Bool-cases (get_or st.held_class (st.depth - 1) 0 == c)) [
      | inl top ↦ rw (e, nz, top, after_release) (popped-IsValid st v (ground arith))
      | inr other ↦
          rw (e, nz, other, after_release) (counted-IsValid st (add32 st.violation_count 1) v)
    ]
  ]
]

-- Class 0 is refused.
pub refused-IsValid :
    (st : LockdepState) (name : ℕ) → IsValid st → IsValid (before_acquire st 0 name).1
unfolding before_acquire
refused-IsValid st name v = v

pub admitted-ne_zero : (st : LockdepState) (c : ℕ) → (before_acquire st c 0).0 ≡ ok → c ≢ 0
unfolding before_acquire
admitted-ne_zero st c h = ground arith
