-- ===== src/Sched/Validate.antt =====
-- mcsos_sched_validate on a queue that is in order.
use acep_reja_mcsos.Sched.Queue.{IsQueue, Chain, AllReady, NotIn, last_or}
use acep_reja_mcsos.Sched.{
  sched_validate, validate_from, Machine, verdict, valid_thread, ok, thread_magic, ready,
}
use acep_reja_mcsos.Common.{
  ℕ, zero, suc, ◌+◌, ◌^◌, ◌<◌, ◌≡◌, ap, ◌∙◌, true, false, List, [], ◌∷◌, arith, ◌==◌, length, add64,
}

validate_from_lem :
    (m : Machine) (q : List ℕ) (n cursor last count : ℕ)
    → Chain m.threads cursor q
    → AllReady m.threads q
    → NotIn m.sched.current q
    → length q < n
    → validate_from m n cursor last count ≡ verdict m (last_or last q) (count + length q)
unfolding validate_from
validate_from_lem m q zero cursor last count c r out lt = absurd (omega arith)
validate_from_lem m [] (suc n) cursor last count c r out lt =
    let same : count + 0 ≡ count = omega arith in rw same (ground (arith, c))
validate_from_lem m (x ∷ xs) (suc n) cursor last count c r out lt =
    let here : cursor ≡ x = c.0 in
    let rest =
      validate_from_lem m xs n (m.threads x).next x (count + 1) c.2 r.2 out.1 (omega arith) in
    let same : (count + 1) + length xs ≡ count + suc (length xs) = omega arith in
    let nz : (x == 0) ≡ false = ground (arith, c.1) in
    let other : (x == m.sched.current) ≡ false = ground (arith, out.0) in
    let good : (m.threads x).magic ≡ thread_magic = r.0 in
    let is : (m.threads x).state ≡ ready = r.1 in
    rw (here, nz, good, is, other) (rest ∙ ap (λ k. verdict m (last_or x xs) k) same)

-- mcsos_sched_validate accepts an initialised scheduler with a valid current thread whose queue is
-- in order, does not hold that thread, and has fewer than 2^64 - 1 threads.
pub sched_validate-IsQueue :
    (m : Machine) (q : List ℕ)
    → IsQueue m q
    → m.sched.initialized ≡ true
    → valid_thread m m.sched.current ≡ true
    → NotIn m.sched.current q
    → length q + 1 < 2 ^ 64
    → sched_validate m ≡ ok
unfolding sched_validate verdict
sched_validate-IsQueue m q k i v out room =
    let walk =
      validate_from_lem m q (suc (add64 m.sched.runnable_count 1)) m.sched.ready_head 0 0 k.chain
        k.all_ready out (omega (arith, k.counted)) in
    ground (arith, walk, k.last, k.counted)
