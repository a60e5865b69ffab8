-- ===== src/Core0/Sched.antt =====
-- Core-0/include/sched.h and Core-0/sched/sched.c: the thread table and the round-robin scheduler.
-- A thread's entry point and argument are addresses.
pub mod Schedule
pub mod Threads
mod Tests
use hik.Prelude.{
  ℕ, zero, suc, ◌+◌, ◌-◌, ◌*◌, ◌/◌, ◌%◌, ◌^◌, ◌≤◌, ◌<◌, bit_and, bit_or, ◌≡◌, refl, sym, ap, ◌∙◌,
  ◌≢◌, ◌↔◌, ◌⊎◌, inl, inr, Bool, true, false, not, ◌&&◌, ◌||◌, Option, none, some, List, [], ◌∷◌,
  ◌++◌, arith, ltb, leb, ◌==◌, if◌then◌else◌, Bool-cases, Option-cases, Nat-cases, update, first,
  count, first-some, first-none, first-eq_some, first_found, first_unique, Run, ok, hang, fault,
  Cmd, and_then, ◌>>=◌, ◌>>◌, pure, gets, modify, call, Returns, within, u32, u64, dec32, dec64,
  sub64, ℤ, pos, negsuc, success, minus_one, minus_two, minus_three, is_success, length,
  length-append, values, erase, contains, length-values, values-ext, values-append, values-erase,
}
use hik.Core0.Mm.{MmState, mm_alloc, mm_free, mem_type_kernel}

abbrev pub thread_state_ready : ℕ
thread_state_ready = 0

abbrev pub thread_state_running : ℕ
thread_state_running = 1

abbrev pub thread_state_blocked : ℕ
thread_state_blocked = 2

abbrev pub thread_state_terminated : ℕ
thread_state_terminated = 3

abbrev pub thread_priority_idle : ℕ
thread_priority_idle = 0

abbrev pub thread_priority_normal : ℕ
thread_priority_normal = 2

abbrev pub max_threads : ℕ
max_threads = 128

abbrev pub stack_size : ℕ
stack_size = 64 * 1024

pub record Tcb : Type 0 where
  pub thread_id : ℕ
  pub domain_id : ℕ
  pub state : ℕ
  pub priority : ℕ
  pub stack_base : ℕ
  pub stack_size : ℕ
  pub stack_ptr : ℕ
  pub entry_point : ℕ
  pub arg : ℕ
  pub time_slice : ℕ
  pub total_time : ℕ
  pub flags : ℕ

abbrev pub zero_tcb : Tcb
zero_tcb = record {
  thread_id = 0;
  domain_id = 0;
  state = 0;
  priority = 0;
  stack_base = 0;
  stack_size = 0;
  stack_ptr = 0;
  entry_point = 0;
  arg = 0;
  time_slice = 0;
  total_time = 0;
  flags = 0;
}

pub record SchedState : Type 0 where
  pub threads : ℕ → Tcb
  pub num_threads : ℕ
  pub current_thread : ℕ
  pub next_thread_id : ℕ
  pub lock : ℕ
  pub timer_ticks : ℕ

-- The scheduler with the memory manager that its calls change.
pub record Tasks : Type 0 where
  pub sched : SchedState
  pub mm : MmState

abbrev pub on_sched : {A : Type 0} → Cmd SchedState A → Cmd Tasks A
on_sched = within (λ t. t.sched) (λ s t. record t { sched = s })

abbrev pub on_mm : {A : Type 0} → Cmd MmState A → Cmd Tasks A
on_mm = within (λ t. t.mm) (λ s t. record t { mm = s })

unfoldable pub spin_lock : Cmd SchedState (Unit {0})
spin_lock s = if s.lock == 0 then modify (λ t. record t { lock = 1 }) s else hang

unfoldable pub spin_unlock : Cmd SchedState (Unit {0})
spin_unlock = modify λ s. record s { lock = 0 }

abbrev pub set_thread : ℕ → Tcb → SchedState → SchedState
set_thread i c s = record s { threads = update s.threads i c }

unfoldable pub find_slot : SchedState → Option ℕ
find_slot s =
    first max_threads
      (λ i. (s.threads i).state == thread_state_terminated || (s.threads i).state == 0)

abbrev pub new_tcb : (id domain_id entry_point arg priority stack_base : ℕ) → Tcb
new_tcb id domain_id entry_point arg priority stack_base = record {
  thread_id = id;
  domain_id = domain_id;
  state = thread_state_ready;
  priority = priority;
  stack_base = stack_base;
  stack_size = stack_size;
  stack_ptr = u64 (stack_base + stack_size);
  entry_point = entry_point;
  arg = arg;
  time_slice = 10;
  total_time = 0;
  flags = 0;
}

unfoldable pub sched_create_thread : (domain_id entry_point arg priority : ℕ) → Cmd Tasks ℕ
unfolding spin_lock spin_unlock
sched_create_thread domain_id entry_point arg priority = do
  on_sched spin_lock
  slot ← gets (λ t. find_slot t.sched)
  elim slot [
    | none ↦ (do on_sched spin_unlock; pure 0)
    | some i ↦ (do
      stack_base ← on_mm (mm_alloc stack_size 16 mem_type_kernel domain_id)
      if stack_base == 0 then (do on_sched spin_unlock; pure 0) else (do
        id ← gets (λ t. t.sched.next_thread_id)
        on_sched (
            modify (λ s. record s {
              next_thread_id = u64 (s.next_thread_id + 1);
              threads =
                  update s.threads i (new_tcb id domain_id entry_point arg priority stack_base);
              num_threads = u32 (s.num_threads + 1);
            }))
        on_sched spin_unlock
        gets (λ t. (t.sched.threads i).thread_id)))
  ]

-- The idle thread's entry point is the address `idle`. `memset` clears the state first.
unfoldable pub sched_init : (idle : ℕ) → Cmd Tasks ℤ
unfolding sched_create_thread
sched_init idle = do
  on_sched (
      modify (λ s. record s {
        threads = λ _. zero_tcb;
        num_threads = 0;
        current_thread = 0;
        next_thread_id = 1;
        timer_ticks = 0;
        lock = 0;
      }))
  sched_create_thread 0 idle 0 thread_priority_idle
  pure success

unfoldable pub find_thread : ℕ → SchedState → Option ℕ
find_thread thread_id s = first max_threads (λ i. (s.threads i).thread_id == thread_id)

unfoldable pub sched_terminate_thread : ℕ → Cmd Tasks ℤ
unfolding spin_lock spin_unlock
sched_terminate_thread thread_id = do
  on_sched spin_lock
  slot ← gets (λ t. find_thread thread_id t.sched)
  elim slot [
    | none ↦ (do on_sched spin_unlock; pure minus_one)
    | some i ↦ (do
      c ← gets (λ t. t.sched.threads i)
      on_sched (modify (set_thread i (record c { state = thread_state_terminated })))
      on_mm (mm_free c.stack_base)
      on_sched (modify (λ s. record s { num_threads = dec32 s.num_threads }))
      on_sched spin_unlock
      pure success)
  ]

-- The body is empty in the source.
unfoldable pub sched_yield : Cmd Tasks (Unit {0})
sched_yield = pure tt

abbrev pub sched_get_current : SchedState → Option ℕ
sched_get_current s = if ltb s.current_thread max_threads then some s.current_thread else none

unfoldable pub sched_block : Cmd SchedState ℤ
unfolding spin_lock spin_unlock
sched_block = do
  spin_lock
  modify (λ s. elim (sched_get_current s) [
    | none ↦ s
    | some i ↦ let c = s.threads i in set_thread i (record c { state = thread_state_blocked }) s
  ])
  spin_unlock
  pure success

unfoldable pub find_blocked : ℕ → SchedState → Option ℕ
find_blocked thread_id s =
    first max_threads
      (λ i. (s.threads i).thread_id == thread_id && ((s.threads i).state == thread_state_blocked))

unfoldable pub sched_unblock : ℕ → Cmd SchedState ℤ
unfolding spin_lock spin_unlock
sched_unblock thread_id = do
  spin_lock
  slot ← gets (find_blocked thread_id)
  elim slot [
    | none ↦ (do spin_unlock; pure minus_one)
    | some i ↦ (do
      modify (λ s. let c = s.threads i in set_thread i (record c { state = thread_state_ready }) s)
      spin_unlock
      pure success)
  ]

-- The thread looked at in round `k` of the loop (`i` is `k + 1` in the source).
abbrev pub candidate : SchedState → ℕ → ℕ
candidate s k = (s.current_thread + (k + 1)) % max_threads

-- The round in which the loop finds a ready thread.
unfoldable pub find_ready : SchedState → Option ℕ
find_ready s = first s.num_threads (λ k. (s.threads (candidate s k)).state == thread_state_ready)

-- `timer_ticks++`, and the current thread's time slice.
unfoldable pub tick : SchedState → SchedState
tick s =
    let t = record s { timer_ticks = u64 (s.timer_ticks + 1) } in
    elim (sched_get_current s) [
      | none ↦ t
      | some i ↦
          let c = s.threads i in
          if ltb 0 c.time_slice
          then set_thread i (record c { time_slice = c.time_slice - 1 }) t
          else t
    ]

-- The switch: the old current thread becomes ready, the next one running with a new time slice.
unfoldable pub switch_to : ℕ → SchedState → SchedState
switch_to next s =
    let t = record s { current_thread = next } in
    let u : SchedState = elim (sched_get_current s) [
      | none ↦ t
      | some i ↦ let c = s.threads i in set_thread i (record c { state = thread_state_ready }) t
    ] in
    let c = u.threads next in
    set_thread next (record c { state = thread_state_running; time_slice = 10 }) u

-- `if (found && next_thread != current_thread)`
unfoldable pub choose : Option ℕ → SchedState → SchedState
choose none s = s
choose (some k) s = if candidate s k == s.current_thread then s else switch_to (candidate s k) s

unfoldable pub sched_schedule : Cmd SchedState (Unit {0})
unfolding spin_lock spin_unlock
sched_schedule = do
  spin_lock
  modify tick
  found ← gets find_ready
  modify (choose found)
  spin_unlock

unfoldable pub sched_timer_interrupt : Cmd SchedState (Unit {0})
unfolding sched_schedule
sched_timer_interrupt = sched_schedule

-- The two loops of `sched_sleep`: 1000 counts in each round.
unfoldable pub busy_wait : (rounds count : ℕ) → ℕ
busy_wait zero count = count
busy_wait (suc k) count = busy_wait k (u64 (count + 1000))

-- The local variable counts `milliseconds * 1000` rounds, and no state is touched.
unfoldable pub sched_sleep : {S : Type 0} → (milliseconds : ℕ) → Cmd S (Unit {0})
sched_sleep milliseconds = do let counted = busy_wait (u64 (milliseconds * 1000)) 0; pure tt
