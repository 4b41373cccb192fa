-- ===== src/Sched/Fifo.antt =====
-- mcsos_sched_enqueue and mcsos_sched_pick_next on the ready queue as a list.
use acep_reja_mcsos.Sched.Queue.{
  IsQueue, NotIn, Links, Links-Agrees, last_or, Agrees-outside, Chain-last, NotIn-last, Chain-snoc,
  Distinct-snoc, last_or-snoc, AllReady-snoc, Chain, AllReady-next,
}
use acep_reja_mcsos.Sched.{
  sched_enqueue, Machine, sched_pick_next, valid_thread, Thread, ready, append_tail, can_enqueue,
  set_next, set_state, ok, unlink_head,
}
use acep_reja_mcsos.Common.{
  ℕ, ◌+◌, ◌-◌, ◌^◌, ◌<◌, ◌≡◌, refl, sym, ◌∙◌, ◌≢◌, true, false, List, [], ◌∷◌, ◌++◌, arith, ltb,
  ◌==◌, if◌then◌else◌, update, length, length-append,
}

module _ (m : Machine) (x : ℕ) (q : List ℕ) (k : IsQueue m q) (out : NotIn x q) where
  -- The threads once `x` is marked as ready and its link is cleared.
  abbrev marked : ℕ → Thread
  marked = (set_next (set_state m x ready) x 0).threads

  marked-Links : Links m.sched.ready_head m.sched.ready_tail m.sched.runnable_count marked q
  marked-Links =
      let t1 = (set_state m x ready).threads in
      Links-Agrees t1 marked q (Agrees-outside t1 x (record (t1 x) { next = 0 }) q out) (
        Links-Agrees m.threads t1 q
          (Agrees-outside m.threads x (record (m.threads x) { state = ready }) q out) k)

  marked_next : (marked x).next ≡ 0
  marked_next = ground arith

  marked_magic : (marked x).magic ≡ (m.threads x).magic
  marked_magic = ground arith

  marked_state : (marked x).state ≡ ready
  marked_state = ground arith

-- A thread that ends the list, with the links and the count that `append_tail` leaves.
append_tail-IsQueue :
    (m : Machine) (x : ℕ) (q : List ℕ)
    → IsQueue m q
    → NotIn x q
    → valid_thread m x ≡ true
    → length q + 1 < 2 ^ 64
    → IsQueue (append_tail (set_next (set_state m x ready) x 0) x) (q ++ x ∷ [])
append_tail-IsQueue m x [] k out v room =
    let e : m.sched.ready_tail ≡ 0 = k.last in
    rw e (record {
      chain = (refl, ground arith, marked_next m x [] k tt);
      distinct = (tt, tt);
      all_ready = (marked_magic m x [] k tt ∙ ground arith, marked_state m x [] k tt, tt);
      last = refl;
      counted = omega (arith, k.counted);
    })
append_tail-IsQueue m x (y ∷ ys) k out v room =
    let l = last_or y ys in
    let t = marked m x (y ∷ ys) k out in
    let links = marked-Links m x (y ∷ ys) k out in
    let tail : m.sched.ready_tail ≡ l = k.last in
    let some_tail : (m.sched.ready_tail == 0) ≡ false =
      ground (arith, Chain-last m.threads m.sched.ready_head y ys k.chain) in
    let t' = update t l (record (t l) { next = x }) in
    let far : l ≢ x = NotIn-last x y ys out in
    rw (some_tail, tail)
      (record {
        chain =
            Chain-snoc t m.sched.ready_head x y ys k.distinct out (ground arith)
              (marked_next m x (y ∷ ys) k out) links.chain;
        distinct = Distinct-snoc x (y ∷ ys) k.distinct out;
        all_ready =
            AllReady-snoc t' x (y ∷ ys) (AllReady-next t l x (y ∷ ys) links.all_ready)
              (ground (arith, marked_magic m x (y ∷ ys) k out)) (ground arith);
        last = sym (last_or-snoc 0 x (y ∷ ys));
        counted = omega (arith, k.counted, length-append (y ∷ ys) (x ∷ []));
      })

-- On an initialised scheduler whose queue is in order, mcsos_sched_enqueue of a valid thread that is
-- new, ready or blocked and not in the queue (of fewer than 2^64 - 1 threads) succeeds and appends
-- it to the queue.
pub sched_enqueue_lem :
    (m : Machine) (x : ℕ) (q : List ℕ)
    → IsQueue m q
    → m.sched.initialized ≡ true
    → valid_thread m x ≡ true
    → can_enqueue (m.threads x).state ≡ true
    → NotIn x q
    → length q + 1 < 2 ^ 64
    → ((sched_enqueue m x).0 ≡ ok) × IsQueue (sched_enqueue m x).1 (q ++ x ∷ [])
unfolding sched_enqueue
sched_enqueue_lem m x q k i v c out room =
    let r : sched_enqueue m x ≡ (ok, append_tail (set_next (set_state m x ready) x 0) x) =
      ground arith in
    rw r (refl, append_tail-IsQueue m x q k out v room)

-- The tail is cleared with the last link.
tail_lem :
    (t : ℕ → Thread) (x head : ℕ) (q : List ℕ)
    → Chain t head q
    → (if head == 0 then 0 else last_or x q) ≡ last_or 0 q
tail_lem t x head [] c = ground arith
tail_lem t x head (y ∷ ys) c = ground (arith, c.0, c.1)

pub unlink_head-IsQueue :
    (m : Machine) (x : ℕ) (q : List ℕ) → IsQueue m (x ∷ q) → IsQueue (unlink_head m) q
unlink_head-IsQueue m x q k =
    let t = m.threads in
    let rest : Links (t x).next (last_or 0 q) (length q) t q = record {
      chain = k.chain.2;
      distinct = k.distinct.1;
      all_ready = k.all_ready.2;
      last = refl;
      counted = refl;
    } in
    let tail = tail_lem t x (t x).next q k.chain.2 in
    let count : (if ltb 0 m.sched.runnable_count
          then m.sched.runnable_count - 1
          else m.sched.runnable_count)
        ≡ length q =
      ground (arith, k.counted) in
    rw (k.chain.0, k.last, tail, count)
      (Links-Agrees t (update t x (record (t x) { next = 0 })) q
        (Agrees-outside t x (record (t x) { next = 0 }) q k.distinct.0) rest)

-- On an initialised scheduler whose queue is in order and not empty, mcsos_sched_pick_next returns
-- the front of the queue and leaves the rest in order.
pub sched_pick_next_lem :
    (m : Machine) (x : ℕ) (q : List ℕ)
    → IsQueue m (x ∷ q)
    → m.sched.initialized ≡ true
    → ((sched_pick_next m).0 ≡ x) × IsQueue (sched_pick_next m).1 q
unfolding sched_pick_next
sched_pick_next_lem m x q k i =
    let r : sched_pick_next m ≡ (m.sched.ready_head, unlink_head m) =
      ground (arith, k.chain.0, k.chain.1) in
    rw r (k.chain.0, unlink_head-IsQueue m x q k)
