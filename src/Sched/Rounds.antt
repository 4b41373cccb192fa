-- ===== src/Sched/Rounds.antt =====
-- mcsos_sched_yield on a ready queue.
use acep_reja_mcsos.Sched.Yield.{after_enqueue, yield_to, sched_yield, switch_to}
use acep_reja_mcsos.Sched.Fifo.{unlink_head-IsQueue, sched_enqueue_lem}
use acep_reja_mcsos.Sched.Queue.{
  IsQueue, NotIn, Links-Agrees, Agrees-same, Agrees-outside, NotIn-snoc,
}
use acep_reja_mcsos.Sched.{
  Status, Machine, ok, valid_thread, running, set_state, unlink_head, ready, sched_pick_next,
  Thread, sched_enqueue,
}
use acep_reja_mcsos.Common.{
  ℕ, ◌+◌, ◌^◌, ◌<◌, ◌≡◌, refl, sym, ap, ◌∙◌, ◌≢◌, true, false, not, ◌||◌, List, [], ◌∷◌, ◌++◌,
  arith, update, length, add64,
}

after_enqueue-ok :
    (r : Status × Machine) (old next : ℕ)
    → r.0 ≡ ok
    → after_enqueue r old next ≡ (ok, switch_to r.1 old next)
unfolding after_enqueue
after_enqueue-ok (ok, m) old next h = refl
after_enqueue-ok (rc, m) old next h = absurd (cc)

-- Handing the processor over touches no link of the queue.
pub switch_to-IsQueue :
    (m : Machine) (old next : ℕ) (q : List ℕ)
    → IsQueue m q
    → NotIn next q
    → IsQueue (switch_to m old next) q
      × ((switch_to m old next).sched.current ≡ next)
      × (((switch_to m old next).threads next).state ≡ running)
unfolding switch_to
switch_to-IsQueue m old next q k out =
    let t1 = (set_state m next running).threads in
    let v1 = record (t1 old) { switches = add64 (t1 old).switches 1 } in
    let t2 = update t1 old v1 in
    let v2 = record (t2 next) { switches = add64 (t2 next).switches 1 } in
    (
      Links-Agrees t2 (update t2 next v2) q (Agrees-same t2 next v2 q refl refl refl) (
          Links-Agrees t1 t2 q (Agrees-same t1 old v1 q refl refl refl) (
            Links-Agrees m.threads t1 q
              (Agrees-outside m.threads next (record (m.threads next) { state = running }) q out)
              k)),
      refl,
      ground arith,
    )

pub sched_yield_lem :
    (m : Machine) (x : ℕ) (m1 : Machine)
    → m.sched.initialized ≡ true
    → valid_thread m m.sched.current ≡ true
    → sched_pick_next m ≡ (x, m1)
    → sched_yield m ≡ yield_to m1 m.sched.current x
unfolding sched_yield
sched_yield_lem m x m1 i v picked =
    let g : (not m.sched.initialized || not (valid_thread m m.sched.current)) ≡ false =
      ground arith in
    rw (g, sched_yield) (ap (λ (p : ℕ × Machine). yield_to p.1 m.sched.current p.0) picked)

yield_to-requeue :
    (m : Machine) (old next : ℕ)
    → valid_thread m next ≡ true
    → next ≢ old
    → (m.threads old).state ≡ running
    → old ≢ m.sched.idle
    → yield_to m old next ≡ after_enqueue (sched_enqueue (set_state m old ready) old) old next
unfolding yield_to
yield_to-requeue m old next v other run busy = ground arith

-- When a running thread other than the idle one yields, with a ready queue that is in order and does
-- not hold it, mcsos_sched_yield succeeds (for fewer than 2^64 threads), the thread at the front of
-- the queue runs, and the queue is its rest with the old thread at its end.
pub sched_yield-IsQueue :
    (m : Machine) (x : ℕ) (q : List ℕ)
    → IsQueue m (x ∷ q)
    → m.sched.initialized ≡ true
    → valid_thread m m.sched.current ≡ true
    → NotIn m.sched.current (x ∷ q)
    → m.sched.current ≢ m.sched.idle
    → (m.threads m.sched.current).state ≡ running
    → length q + 1 < 2 ^ 64
    → let (rc, after) = sched_yield m in
      (rc ≡ ok)
      × (after.sched.current ≡ x)
      × ((after.threads x).state ≡ running)
      × IsQueue after (q ++ m.sched.current ∷ [])
sched_yield-IsQueue m x q k i v out busy run room =
    let cur = m.sched.current in
    let m1 = unlink_head m in
    let m2 = set_state m1 cur ready in
    let head : m.sched.ready_head ≡ x = k.chain.0 in
    let picked : sched_pick_next m ≡ (x, m1) =
      unfold sched_pick_next in ground (arith, k.chain.1) in
    let same : m1.threads cur ≡ m.threads cur = ground (arith, out.0) in
    let next_valid : valid_thread m1 x ≡ true = ground (arith, k.chain.1, k.all_ready.0) in
    let cur_running : (m1.threads cur).state ≡ running = ap (λ (t : Thread). t.state) same ∙ run in
    let k1 : IsQueue m1 q = unlink_head-IsQueue m x q k in
    let k2 : IsQueue m2 q =
      Links-Agrees m1.threads m2.threads q
        (Agrees-outside m1.threads cur (record (m1.threads cur) { state = ready }) q out.1) k1 in
    let enq =
      sched_enqueue_lem m2 cur q k2 i (ground (arith, ap (λ (t : Thread). t.magic) same, v))
        (ground arith) out.1 room in
    let r : sched_yield m ≡ after_enqueue (sched_enqueue m2 cur) cur x =
      sched_yield_lem m x m1 i v picked
      ∙ yield_to-requeue m1 cur x next_valid (λ e. out.0 e) cur_running busy in
    let fin =
      switch_to-IsQueue (sched_enqueue m2 cur).1 cur x (q ++ cur ∷ []) enq.1
        (NotIn-snoc x cur q k.distinct.0 (λ e. out.0 (sym e))) in
    rw (r, after_enqueue-ok (sched_enqueue m2 cur) cur x enq.0) (refl, fin.1, fin.2, fin.0)
