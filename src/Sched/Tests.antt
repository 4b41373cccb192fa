-- ===== src/Sched/Tests.antt =====
-- Three threads: 1 runs, and 2 and 3 wait.
use acep_reja_mcsos.Sched.Rounds.{sched_yield-IsQueue}
use acep_reja_mcsos.Sched.Fifo.{sched_pick_next_lem, sched_enqueue_lem}
use acep_reja_mcsos.Sched.Blocking.{block_current-IsQueue, mark_ready-IsQueue}
use acep_reja_mcsos.Sched.Queue.{IsQueue}
use acep_reja_mcsos.Sched.Yield.{sched_yield, mark_ready, block_current}
use acep_reja_mcsos.Sched.{
  Machine, sched_enqueue, sched_pick_next, ThreadState, Thread, running, ok, thread_magic, ready,
  blocked,
}
use acep_reja_mcsos.Common.{ℕ, ◌≡◌, refl, true, [], ◌∷◌, ◌++◌, arith, ◌==◌, if◌then◌else◌}

abbrev plain_thread : ThreadState → ℕ → Thread
plain_thread s next_thread = record {
  magic = thread_magic;
  id = 0;
  name = 0;
  state = s;
  context = record { rsp = 0; rbp = 0; rbx = 0; r12 = 0; r13 = 0; r14 = 0; r15 = 0; rip = 0 };
  entry = 0;
  arg = 0;
  stack_base = 0;
  stack_size = 0;
  next = next_thread;
  switches = 0;
  ticks = 0;
  exit_code = 0;
}

abbrev three : Machine
three = record {
  sched = record {
    initialized = true;
    current = 1;
    idle = 9;
    ready_head = 2;
    ready_tail = 3;
    runnable_count = 2;
    context_switches = 0;
    ticks = 0;
    next_id = 4;
  };
  threads = λ p.
      if p == 1
      then plain_thread running 0
      else if p == 2
      then plain_thread ready 3
      else if p == 3
      then plain_thread ready 0
      else plain_thread blocked 0;
  memory = λ _. 0;
}

three-IsQueue : IsQueue three (2 ∷ 3 ∷ [])
three-IsQueue = record {
  chain = (refl, omega arith, (refl, omega arith, refl));
  distinct = ((omega arith, tt), (tt, tt));
  all_ready = (refl, refl, (refl, refl, tt));
  last = refl;
  counted = refl;
}

sched_enqueue_lem_example :
    ((sched_enqueue three 4).0 ≡ ok) × IsQueue (sched_enqueue three 4).1 ((2 ∷ 3 ∷ []) ++ 4 ∷ [])
sched_enqueue_lem_example =
    sched_enqueue_lem three 4 (2 ∷ 3 ∷ []) three-IsQueue refl refl refl
      (omega arith, (omega arith, tt)) (omega arith)

sched_pick_next_lem_example :
    ((sched_pick_next three).0 ≡ 2) × IsQueue (sched_pick_next three).1 (3 ∷ [])
sched_pick_next_lem_example = sched_pick_next_lem three 2 (3 ∷ []) three-IsQueue refl

sched_yield-IsQueue_example :
    let (rc, after) = sched_yield three in
    (rc ≡ ok)
    × (after.sched.current ≡ 2)
    × ((after.threads 2).state ≡ running)
    × IsQueue after ((3 ∷ []) ++ 1 ∷ [])
sched_yield-IsQueue_example =
    sched_yield-IsQueue three 2 (3 ∷ []) three-IsQueue refl refl (omega arith, (omega arith, tt))
      (omega arith) refl (omega arith)

block_current-IsQueue_example :
    let (rc, after) = block_current three in
    (rc ≡ ok)
    × (after.sched.current ≡ 2)
    × ((after.threads 2).state ≡ running)
    × ((after.threads 1).state ≡ blocked)
    × IsQueue after (3 ∷ [])
block_current-IsQueue_example =
    block_current-IsQueue three 2 (3 ∷ []) three-IsQueue refl refl (omega arith, (omega arith, tt))
      (omega arith)

mark_ready-IsQueue_example :
    ((mark_ready three 4).0 ≡ ok) × IsQueue (mark_ready three 4).1 ((2 ∷ 3 ∷ []) ++ 4 ∷ [])
mark_ready-IsQueue_example =
    mark_ready-IsQueue three 4 (2 ∷ 3 ∷ []) three-IsQueue refl refl refl
      (omega arith, (omega arith, tt)) (omega arith)
