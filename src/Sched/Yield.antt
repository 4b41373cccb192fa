-- ===== src/Sched/Yield.antt =====
-- mcsos_sched_yield, mcsos_sched_tick and the calls that block a thread and wake it.
use acep_reja_mcsos.Sched.{
  Machine, Status, set_state, valid_thread, running, ecorrupt, einval, ok, sched_pick_next, estate,
  is_blocked, is_running, blocked, sched_enqueue, ready,
}
use acep_reja_mcsos.Common.{ℕ, not, ◌&&◌, ◌||◌, ◌==◌, if◌then◌else◌, update, add64}

-- What hands the processor over.
unfoldable pub switch_to : Machine → ℕ → ℕ → Machine
switch_to m old next =
    let m1 = set_state m next running in
    let m2 = record m1 {
      sched = record m1.sched {
        current = next;
        context_switches = add64 m1.sched.context_switches 1;
      };
      threads =
          update m1.threads old
            (record (m1.threads old) { switches = add64 (m1.threads old).switches 1 });
    } in
    record m2 {
      threads =
          update m2.threads next
            (record (m2.threads next) { switches = add64 (m2.threads next).switches 1 });
    }

unfoldable pub after_enqueue : Status × Machine → ℕ → ℕ → Status × Machine
after_enqueue (ok, m) old next = (ok, switch_to m old next)
after_enqueue (rc, m) old next = (rc, m)

-- Once the next thread is picked.
unfoldable pub yield_to : Machine → ℕ → ℕ → Status × Machine
yield_to m old next =
    if not (valid_thread m next)
    then (ecorrupt, m)
    else if next == old
    then (ok, set_state m old running)
    else if is_running (m.threads old).state && not (old == m.sched.idle)
    then after_enqueue (sched_enqueue (set_state m old ready) old) old next
    else (ok, switch_to m old next)

unfoldable pub sched_yield : Machine → Status × Machine
sched_yield m =
    if not m.sched.initialized || not (valid_thread m m.sched.current)
    then (einval, m)
    else let (next, m1) = sched_pick_next m in yield_to m1 m.sched.current next

pub sched_tick : Machine → Status × Machine
sched_tick m =
    let cur = m.sched.current in
    if not m.sched.initialized || not (valid_thread m cur) then (einval, m) else (
      ok,
      record m {
        sched = record m.sched { ticks = add64 m.sched.ticks 1 };
        threads =
            update m.threads cur (record (m.threads cur) { ticks = add64 (m.threads cur).ticks 1 });
      },
    )

unfoldable pub block_current : Machine → Status × Machine
block_current m =
    if not m.sched.initialized || not (valid_thread m m.sched.current)
    then (einval, m)
    else if m.sched.current == m.sched.idle
    then (estate, m)
    else sched_yield (set_state m m.sched.current blocked)

unfoldable pub mark_ready : Machine → ℕ → Status × Machine
mark_ready m thread =
    if not (valid_thread m thread)
    then (einval, m)
    else if is_blocked (m.threads thread).state
    then sched_enqueue m thread
    else (estate, m)
