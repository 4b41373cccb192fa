-- ===== src/Sched.antt =====
-- kernel/mcsos_thread.c and include/mcsos_thread.h: the scheduler and its threads; `Yield` has the
-- calls that hand the processor over. A pointer to a thread is a number, 0 for NULL, and the threads
-- are a store that it indexes, so that the ready queue is the linked list of the source. The assembly
-- of the context switch is left out, as it is in a host build.
pub mod Queue
pub mod Yield
pub mod Fifo
pub mod Rounds
pub mod Blocking
pub mod Validate
mod Tests
use acep_reja_mcsos.Common.{
  ℕ, zero, suc, ◌+◌, ◌-◌, ◌%◌, Bool, true, false, not, ◌&&◌, ◌||◌, ltb, leb, ◌==◌, if◌then◌else◌,
  update, add64, ◌*◌, ◌/◌, ◌^◌, ◌≤◌, ◌<◌, min, bit_and, bit_or, ◌≡◌, refl, sym, ap, ◌∙◌, fun_ext,
  ◌≢◌, ◌↔◌, ◌⊎◌, inl, inr, Option, none, some, List, [], ◌∷◌, ◌++◌, map, append_assoc, append-nil,
  arith, ltb→lt, lt→ltb, ==_iff, Bool-cases, Option-cases, all_below, all_below_sound, length,
  get_or, set, take, drop, replicate, length-append, length-set, length-replicate, get_or-set_self,
  get_or-set_ne, set-set_back, get_or-out, take-suc-set, get_or-set_default, get_or-replicate,
  take-append_left, take-append_right, take-all, u8_mod, u32_mod, u64_mod, add32, sub64,
}

-- MCSOS_THREAD_MAGIC
abbrev pub thread_magic : ℕ
thread_magic = 0x4d435448524541

-- MCSOS_MIN_KERNEL_STACK
abbrev pub min_kernel_stack : ℕ
min_kernel_stack = 4096

-- The MCSOS_SCHED codes that are returned.
pub data Status : Type 0 where
  ok einval estack estate ecorrupt : Status

-- mcsos_thread_state_t
pub data ThreadState : Type 0 where
  new ready running blocked zombie : ThreadState

-- mcsos_context_t
pub record Context : Type 0 where
  pub rsp : ℕ
  pub rbp : ℕ
  pub rbx : ℕ
  pub r12 : ℕ
  pub r13 : ℕ
  pub r14 : ℕ
  pub r15 : ℕ
  pub rip : ℕ

-- mcsos_thread_t
pub record Thread : Type 0 where
  pub magic : ℕ
  pub id : ℕ
  pub name : ℕ
  pub state : ThreadState
  pub context : Context
  pub entry : ℕ
  pub arg : ℕ
  pub stack_base : ℕ
  pub stack_size : ℕ
  pub next : ℕ
  pub switches : ℕ
  pub ticks : ℕ
  pub exit_code : ℕ

-- mcsos_scheduler_t
pub record Scheduler : Type 0 where
  pub initialized : Bool
  pub current : ℕ
  pub idle : ℕ
  pub ready_head : ℕ
  pub ready_tail : ℕ
  pub runnable_count : ℕ
  pub context_switches : ℕ
  pub ticks : ℕ
  pub next_id : ℕ

-- The scheduler, the threads, and the words of memory that `mcsos_thread_prepare` writes.
pub record Machine : Type 0 where
  pub sched : Scheduler
  pub threads : ℕ → Thread
  pub memory : ℕ → ℕ

abbrev pub is_running : ThreadState → Bool
is_running running = true
is_running _ = false

abbrev pub is_blocked : ThreadState → Bool
is_blocked blocked = true
is_blocked _ = false

abbrev pub is_ready : ThreadState → Bool
is_ready ready = true
is_ready _ = false

-- The states that `mcsos_sched_enqueue` takes a thread in.
abbrev pub can_enqueue : ThreadState → Bool
can_enqueue new = true
can_enqueue ready = true
can_enqueue blocked = true
can_enqueue _ = false

pub zero_context : Context
zero_context = record { rsp = 0; rbp = 0; rbx = 0; r12 = 0; r13 = 0; r14 = 0; r15 = 0; rip = 0 }

abbrev pub valid_thread : Machine → ℕ → Bool
valid_thread m p = not (p == 0) && (m.threads p).magic == thread_magic

-- A write to a field of a thread, and of the scheduler.
abbrev pub set_state : Machine → ℕ → ThreadState → Machine
set_state m p s = record m { threads = update m.threads p (record (m.threads p) { state = s }) }

abbrev pub set_next : Machine → ℕ → ℕ → Machine
set_next m p q = record m { threads = update m.threads p (record (m.threads p) { next = q }) }

-- `boot_name` is the address of "boot".
pub scheduler_init : Machine → ℕ → ℕ → Status × Machine
scheduler_init m boot_thread boot_name = if boot_thread == 0 then (einval, m) else (
  ok,
  record m {
    threads = update m.threads boot_thread (record {
      magic = thread_magic;
      id = 0;
      name = boot_name;
      state = running;
      context = zero_context;
      entry = 0;
      arg = 0;
      stack_base = 0;
      stack_size = 0;
      next = 0;
      switches = 0;
      ticks = 0;
      exit_code = 0;
    });
    sched = record {
      initialized = true;
      current = boot_thread;
      idle = boot_thread;
      ready_head = 0;
      ready_tail = 0;
      runnable_count = 0;
      context_switches = 0;
      ticks = 0;
      next_id = 1;
    };
  },
)

-- What is written once the stack has passed the checks; `top` is its aligned upper end.
abbrev prepared : Machine → ℕ → ℕ → ℕ → ℕ → ℕ → ℕ → ℕ → ℕ → Machine
prepared m thread name entry arg stack_base stack_size id top = record m {
  memory = update m.memory (top - 8) 0;
  threads = update m.threads thread (record {
    magic = thread_magic;
    id = id;
    name = name;
    state = new;
    context = record zero_context { rsp = top - 8; rip = entry };
    entry = entry;
    arg = arg;
    stack_base = stack_base;
    stack_size = stack_size;
    next = 0;
    switches = 0;
    ticks = 0;
    exit_code = 0;
  });
}

-- `top > low + 128` keeps 8 from wrapping below 0.
pub thread_prepare : Machine → ℕ → ℕ → ℕ → ℕ → ℕ → ℕ → ℕ → Status × Machine
thread_prepare m thread name entry arg stack_base stack_size id =
    let high = add64 stack_base stack_size in
    let top = high - high % 16 in
    if thread == 0 || (entry == 0 || stack_base == 0)
    then (einval, m)
    else if ltb stack_size min_kernel_stack
    then (estack, m)
    else if leb high stack_base || leb top (add64 stack_base 128)
    then (estack, m)
    else (ok, prepared m thread name entry arg stack_base stack_size id top)

-- The links and the count once the thread is ready and ends the list.
abbrev append_tail : Machine → ℕ → Machine
append_tail m thread =
    if m.sched.ready_tail == 0
    then record m {
      sched = record m.sched {
        ready_head = thread;
        ready_tail = thread;
        runnable_count = add64 m.sched.runnable_count 1;
      };
    }
    else record (set_next m m.sched.ready_tail thread) {
      sched = record m.sched {
        ready_tail = thread;
        runnable_count = add64 m.sched.runnable_count 1;
      };
    }

pub sched_enqueue : Machine → ℕ → Status × Machine
sched_enqueue m thread =
    if not m.sched.initialized || not (valid_thread m thread)
    then (einval, m)
    else if can_enqueue (m.threads thread).state
    then (ok, append_tail (set_next (set_state m thread ready) thread 0) thread)
    else (estate, m)

-- Past the test of an empty queue.
abbrev unlink_head : Machine → Machine
unlink_head m =
    let thread = m.sched.ready_head in
    let head = (m.threads thread).next in
    record (set_next m thread 0) {
      sched = record m.sched {
        ready_head = head;
        ready_tail = if head == 0 then 0 else m.sched.ready_tail;
        runnable_count =
            if ltb 0 m.sched.runnable_count
            then m.sched.runnable_count - 1
            else m.sched.runnable_count;
      };
    }

pub sched_pick_next : Machine → ℕ × Machine
sched_pick_next m =
    if not m.sched.initialized
    then (0, m)
    else if m.sched.ready_head == 0
    then (m.sched.idle, m)
    else (m.sched.ready_head, unlink_head m)

-- What `mcsos_sched_validate` says at the end of the list, by the last thread and the count.
pub verdict : Machine → ℕ → ℕ → Status
verdict m last count =
    if not (last == m.sched.ready_tail) || not (count == m.sched.runnable_count)
    then ecorrupt
    else ok

-- The loop of `mcsos_sched_validate`. `count` may pass `runnable_count + 1` only once, which ends it:
-- `n` is how far it is from there.
pub validate_from : Machine → ℕ → ℕ → ℕ → ℕ → Status
validate_from m zero cursor last count = ecorrupt
validate_from m (suc n) cursor last count =
    let rest = validate_from m n (m.threads cursor).next cursor (count + 1) in
    if cursor == 0
    then verdict m last count
    else if not (valid_thread m cursor) || not (is_ready (m.threads cursor).state)
    then ecorrupt
    else if cursor == m.sched.current
    then ecorrupt
    else rest

pub sched_validate : Machine → Status
sched_validate m =
    if not m.sched.initialized || not (valid_thread m m.sched.current)
    then einval
    else validate_from m (suc (add64 m.sched.runnable_count 1)) m.sched.ready_head 0 0
