-- ===== src/Sched/Blocking.antt =====
-- mcsos_thread_block_current and mcsos_thread_mark_ready on the ready queue, and a thread that is
-- queued twice.
use acep_reja_mcsos.Sched.Yield.{yield_to, mark_ready, block_current, switch_to, sched_yield}
use acep_reja_mcsos.Sched.Fifo.{sched_enqueue_lem, unlink_head-IsQueue}
use acep_reja_mcsos.Sched.Rounds.{sched_yield_lem, switch_to-IsQueue}
use acep_reja_mcsos.Sched.Queue.{
  IsQueue, NotIn, Chain, Links-Agrees, Agrees-outside, NotIn-last, Chain-last,
}
use acep_reja_mcsos.Sched.{
  sched_enqueue, Machine, valid_thread, blocked, ok, running, set_next, set_state, unlink_head,
  ready, append_tail, sched_pick_next,
}
use acep_reja_mcsos.Common.{
  ℕ, ◌+◌, ◌^◌, ◌<◌, ◌≡◌, refl, ◌∙◌, ◌≢◌, true, false, List, [], ◌∷◌, ◌++◌, arith, ◌==◌, length,
}

yield_to-leave :
    (m : Machine) (old next : ℕ)
    → valid_thread m next ≡ true
    → next ≢ old
    → (m.threads old).state ≡ blocked
    → yield_to m old next ≡ (ok, switch_to m old next)
unfolding yield_to
yield_to-leave m old next v other b = ground arith

-- When a thread other than the idle one blocks, with a ready queue that is in order and does not
-- hold it, mcsos_thread_block_current succeeds, the thread at the front of the queue runs, the old
-- one is blocked, and the queue is its rest.
pub block_current-IsQueue :
    (m : Machine) (x : ℕ) (q : List ℕ)
    → IsQueue m (x ∷ q)
    → m.sched.initialized ≡ true
    → valid_thread m m.sched.current ≡ true
    → NotIn m.sched.current (x ∷ q)
    → m.sched.current ≢ m.sched.idle
    → let (rc, after) = block_current m in
      (rc ≡ ok)
      × (after.sched.current ≡ x)
      × ((after.threads x).state ≡ running)
      × ((after.threads m.sched.current).state ≡ blocked)
      × IsQueue after q
unfolding block_current
block_current-IsQueue m x q k i v out busy =
    let cur = m.sched.current in
    let m0 = set_state m cur blocked in
    let m1 = unlink_head m0 in
    let k0 : IsQueue m0 (x ∷ q) =
      Links-Agrees m.threads m0.threads (x ∷ q)
        (Agrees-outside m.threads cur (record (m.threads cur) { state = blocked }) (x ∷ q) out) k in
    let v0 : valid_thread m0 cur ≡ true = ground arith in
    let picked : sched_pick_next m0 ≡ (x, m1) =
      unfold sched_pick_next in ground (arith, k0.chain.0, k0.chain.1) in
    let far : x ≢ cur = out.0 in
    let head : m.sched.ready_head ≡ x = k.chain.0 in
    let next_valid : valid_thread m1 x ≡ true = ground (arith, k0.chain.1, k0.all_ready.0) in
    let cur_blocked : (m1.threads cur).state ≡ blocked = ground arith in
    let r1 : block_current m ≡ sched_yield m0 = ground arith in
    let r : block_current m ≡ (ok, switch_to m1 cur x) =
      r1
      ∙ (sched_yield_lem m0 x m1 i v0 picked
          ∙ yield_to-leave m1 cur x next_valid far cur_blocked) in
    let fin = switch_to-IsQueue m1 cur x q (unlink_head-IsQueue m0 x q k0) k0.distinct.0 in
    rw r (refl, fin.1, fin.2, unfold switch_to in ground arith, fin.0)

-- A blocked thread that is marked as ready goes to the end of the queue.
pub mark_ready-IsQueue :
    (m : Machine) (x : ℕ) (q : List ℕ)
    → IsQueue m q
    → m.sched.initialized ≡ true
    → valid_thread m x ≡ true
    → (m.threads x).state ≡ blocked
    → NotIn x q
    → length q + 1 < 2 ^ 64
    → ((mark_ready m x).0 ≡ ok) × IsQueue (mark_ready m x).1 (q ++ x ∷ [])
unfolding mark_ready
mark_ready-IsQueue m x q k i v b out room =
    let r : mark_ready m x ≡ sched_enqueue m x = ground arith in
    rw r (sched_enqueue_lem m x q k i v (ground arith) out room)

-- On an initialised scheduler, mcsos_sched_enqueue of the thread at the front of a queue of two
-- threads or more succeeds and leaves a list of that thread alone, while it counts all the threads
-- and that one twice.
pub sched_enqueue-twice :
    (m : Machine) (x y : ℕ) (q : List ℕ)
    → IsQueue m (x ∷ y ∷ q)
    → m.sched.initialized ≡ true
    → length q + 3 < 2 ^ 64
    → let (rc, after) = sched_enqueue m x in
      (rc ≡ ok)
      × Chain after.threads after.sched.ready_head (x ∷ [])
      × (after.sched.runnable_count ≡ length q + 3)
unfolding sched_enqueue
sched_enqueue-twice m x y q k i room =
    let m1 = set_next (set_state m x ready) x 0 in
    let v : valid_thread m x ≡ true = ground (arith, k.chain.1, k.all_ready.0) in
    let r : sched_enqueue m x ≡ (ok, append_tail m1 x) = ground (arith, k.all_ready.1) in
    let far = NotIn-last x y q k.distinct.0 in
    let some_tail : (m.sched.ready_tail == 0) ≡ false =
      ground (arith, k.last, Chain-last m.threads (m.threads x).next y q k.chain.2) in
    rw (r, some_tail, k.last) (refl, (k.chain.0, k.chain.1, ground arith), omega (arith, k.counted))
