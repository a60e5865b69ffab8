-- ===== src/Core0/Sched/Tests.antt =====
-- Runs of Core-0/sched/sched.c on small inputs, and the theorems at such inputs.
use hik.Prelude.{
  ℕ, ◌≡◌, refl, Option, none, some, arith, update, first, Run, ok, hang, fault, Returns,
}
use hik.Core0.Mm.{MmState, frame, scan, fill, mm_alloc, mem_type_available, mem_type_kernel}
use hik.Core0.Sched.{
  Tcb, SchedState, Tasks, zero_tcb, sched_schedule, find_ready, tick, choose, switch_to, stack_size,
  thread_state_ready, thread_state_running, thread_state_blocked, thread_state_terminated,
}
use hik.Core0.Sched.Schedule.{OneRunning, sched_schedule-OneRunning}

abbrev thread : ℕ → ℕ → Tcb
thread id state = record zero_tcb { thread_id = id; state = state; time_slice = 1 }

abbrev table : (threads : ℕ → Tcb) → SchedState
table threads = record {
  threads = threads;
  num_threads = 3;
  current_thread = 0;
  next_thread_id = 4;
  lock = 0;
  timer_ticks = 7;
}

abbrev rest : ℕ → Tcb
rest = λ _. thread 0 thread_state_terminated

-- Thread 1 runs, thread 2 is blocked and thread 3 is ready.
abbrev three : SchedState
three = table (
    update
      (update (update rest 0 (thread 1 thread_state_running)) 1 (thread 2 thread_state_blocked)) 2
      (thread 3 thread_state_ready))

current_of : {A : Type 0} → Run SchedState A → Option ℕ
current_of (ok a s) = some s.current_thread
current_of hang = none
current_of fault = none

skips_blocked : current_of (sched_schedule three) ≡ some 2
unfolding current_of sched_schedule find_ready tick choose switch_to first
skips_blocked = refl

three-OneRunning : OneRunning three
three-OneRunning = record { current_in = ground arith; only = λ i l h. ground arith }

sched_schedule-OneRunning_example :
    Returns (λ _ t. OneRunning t × (t.lock ≡ 0)) (sched_schedule three)
sched_schedule-OneRunning_example = sched_schedule-OneRunning three refl three-OneRunning

-- Memory for one stack, from page 1 on, and the memory after it has been handed out.
abbrev pool : MmState
pool = record {
  frames = update (λ _. frame mem_type_available 0) 0 (frame 0 0);
  total_pages = 17;
  available_pages = 16;
  allocated_pages = 0;
  lock = 0;
}

abbrev pool_after : MmState
pool_after = record pool {
  frames = fill (frame mem_type_kernel 1) 16 1 pool.frames;
  available_pages = 0;
  allocated_pages = 16;
}

stack_made : mm_alloc stack_size 16 mem_type_kernel 1 pool ≡ ok 0x1000 pool_after
unfolding mm_alloc scan
stack_made = refl

-- Thread 1 is ready in slot 0.
abbrev tasks : Tasks
tasks = record { sched = table (update rest 0 (thread 1 thread_state_ready)); mm = pool }
