-- ===== src/Core0/Sched/Schedule.antt =====
-- `sched_schedule`, `sched_block` and `sched_unblock` of Core-0/sched/sched.c.
use hik.Prelude.{
  Returns-mono, ℕ, ◌+◌, ◌%◌, ◌<◌, ◌≡◌, refl, sym, ap, ◌∙◌, ◌≢◌, inl, inr, Bool, some, arith, ◌==◌,
  if◌then◌else◌, Bool-cases, Option-cases, update, first-some, first-eq_some, first_found, ok,
  and_then, Returns, u64, success,
}
use hik.Core0.Sched.{
  choose, SchedState, sched_schedule, sched_block, find_ready, tick, switch_to, candidate,
  max_threads, thread_state_ready, thread_state_running, thread_state_blocked,
}

abbrev locked : SchedState → SchedState
locked s = record s { lock = 1 }

-- A thread index below 128, and no thread running but the current one.
pub record OneRunning (s : SchedState) : Type 0 where
  pub current_in : s.current_thread < max_threads
  pub only :
      (i : ℕ) → i < max_threads → (s.threads i).state ≡ thread_state_running → i ≡ s.current_thread

-- Round `k` of the loop finds a ready thread, and no round before it does.
pub record NextReady (s : SchedState) (k : ℕ) : Type 0 where
  pub in_rounds : k < s.num_threads
  pub ready : (s.threads (candidate s k)).state ≡ thread_state_ready
  pub earliest : (j : ℕ) → j < k → (s.threads (candidate s j)).state ≢ thread_state_ready

lock-tick : (s : SchedState) → (tick (locked s)).threads ≡ (tick s).threads
unfolding tick
lock-tick s = ground arith

state-tick : (s : SchedState) (i : ℕ) → ((tick s).threads i).state ≡ (s.threads i).state
unfolding tick
state-tick s i = elim (Bool-cases (s.current_thread == i)) [
  | inl e ↦ let q : s.current_thread ≡ i = ground arith in ground (arith, q)
  | inr e ↦ ground arith
]

tick_rest :
    (s : SchedState)
    → ((tick s).num_threads ≡ s.num_threads)
      × ((tick s).current_thread ≡ s.current_thread)
      × ((tick s).timer_ticks ≡ u64 (s.timer_ticks + 1))
unfolding tick
tick_rest s = (ground arith, ground arith, ground arith)

schedule-runs :
    (s : SchedState)
    → s.lock ≡ 0
    → sched_schedule s
      ≡ ok tt (record (choose (find_ready (tick (locked s))) (tick (locked s))) { lock = 0 })
unfolding sched_schedule
schedule-runs s free = ground arith

find_ready-NextReady :
    (s : SchedState) (k : ℕ) → find_ready (tick (locked s)) ≡ some k → NextReady s k
unfolding find_ready
find_ready-NextReady s k e =
    let u = tick (locked s) in
    let r = tick_rest (locked s) in
    let test : ℕ → Bool = λ j. (u.threads (candidate u j)).state == thread_state_ready in
    let f = first-some u.num_threads test k e in
    let same = λ (j : ℕ). state-tick (locked s) (candidate u j) in
    let at = λ (j : ℕ). ap (λ (c : ℕ). (c + (j + 1)) % max_threads) r.1 in
    record {
      in_rounds = omega (arith, f.0, r.0);
      ready = ground (arith, f.1, same k, at k);
      earliest = λ j l q. absurd (ground (arith, f.2 j l, same j, at j));
    }

NextReady-find_ready :
    (s : SchedState) (k : ℕ) → NextReady s k → find_ready (tick (locked s)) ≡ some k
unfolding find_ready
NextReady-find_ready s k v =
    let u = tick (locked s) in
    let r = tick_rest (locked s) in
    let test : ℕ → Bool = λ j. (u.threads (candidate u j)).state == thread_state_ready in
    let same = λ (j : ℕ). state-tick (locked s) (candidate u j) in
    let at = λ (j : ℕ). ap (λ (c : ℕ). (c + (j + 1)) % max_threads) r.1 in
    first-eq_some u.num_threads test k (omega (arith, v.in_rounds, r.0))
      (ground (arith, v.ready, same k, at k)) (λ j l. ground (arith, v.earliest j l, same j, at j))

-- Where some round finds a ready thread, there is a first one.
NextReady-found :
    (s : SchedState) (k : ℕ)
    → k < s.num_threads
    → (s.threads (candidate s k)).state ≡ thread_state_ready
    → (j : ℕ) × NextReady s j
NextReady-found s k l ready =
    let test : ℕ → Bool = λ j. (s.threads (candidate s j)).state == thread_state_ready in
    let (j, e) = first_found s.num_threads test k l (ground (arith, ready)) in
    let f = first-some s.num_threads test j e in
    (
      j,
      record {
        in_rounds = f.0;
        ready = ground (arith, f.1);
        earliest = λ i m q. absurd (ground (arith, f.2 i m));
      },
    )

state-switch_to :
    (s : SchedState) (next i : ℕ)
    → s.current_thread < max_threads
    → ((switch_to next s).threads i).state ≡ (
        if next == i
        then thread_state_running
        else if s.current_thread == i
        then thread_state_ready
        else (s.threads i).state)
unfolding switch_to
state-switch_to s next i l = ground arith

slice-switch_to : (s : SchedState) (next : ℕ) → ((switch_to next s).threads next).time_slice ≡ 10
unfolding switch_to
slice-switch_to s next = ground arith

current-switch_to :
    (s : SchedState) (next : ℕ)
    → ((switch_to next s).current_thread ≡ next) × ((switch_to next s).timer_ticks ≡ s.timer_ticks)
unfolding switch_to
current-switch_to s next = (ground arith, ground arith)

pub sched_schedule_switches :
    (s : SchedState) (k : ℕ)
    → s.lock ≡ 0
    → s.current_thread < max_threads
    → NextReady s k
    → candidate s k ≢ s.current_thread
    → Returns
        (λ _ t.
          (t.current_thread ≡ candidate s k)
          × ((t.threads (candidate s k)).state ≡ thread_state_running)
          × ((t.threads (candidate s k)).time_slice ≡ 10)
          × ((t.threads s.current_thread).state ≡ thread_state_ready)
          × ((i : ℕ)
              → i ≢ candidate s k
              → i ≢ s.current_thread
              → (t.threads i).state ≡ (s.threads i).state)
          × (t.timer_ticks ≡ u64 (s.timer_ticks + 1)))
        (sched_schedule s)
unfolding choose
sched_schedule_switches s k free l v ne =
    let u = tick (locked s) in
    let r = tick_rest (locked s) in
    let next = candidate s k in
    let at : candidate u k ≡ next = ap (λ (c : ℕ). (c + (k + 1)) % max_threads) r.1 in
    let goes : choose (find_ready u) u ≡ switch_to next u =
      ground (arith, NextReady-find_ready s k v, at, r.1) in
    let st = λ (i : ℕ). state-switch_to u next i (omega (arith, r.1)) in
    let c = current-switch_to u next in
    rw (schedule-runs s free, goes)
      (
        c.0,
        ground (arith, st next),
        slice-switch_to u next,
        ground (arith, st s.current_thread, r.1),
        λ i p q. ground (arith, st i, r.1, state-tick (locked s) i),
        c.1 ∙ r.2,
      )

-- `sched_schedule` with the lock free keeps the invariant that only the current thread is running.
pub sched_schedule-OneRunning :
    (s : SchedState)
    → s.lock ≡ 0
    → OneRunning s
    → Returns (λ _ t. OneRunning t × (t.lock ≡ 0)) (sched_schedule s)
unfolding choose
sched_schedule-OneRunning s free v = rw (schedule-runs s free) (elim (Option-cases (find_ready u)) [
  | inl e ↦ rw (e, choose) (ticked, refl)
  | inr (k, e) ↦ elim (Bool-cases (candidate u k == u.current_thread)) [
    | inl y ↦ rw (e, choose, y) (ticked, refl)
    | inr n ↦
        let next = candidate u k in
        let c = current-switch_to u next in
        rw (e, choose, n)
          (
            record {
              current_in = omega (arith, c.0);
              only = λ i l h. ground (
                arith,
                state-switch_to u next i (omega (arith, r.1, v.current_in)),
                c.0,
                v.only i l,
                r.1,
                state-tick (locked s) i,
              );
            },
            refl,
          )
  ]
])
  where
    u : SchedState
    u = tick (locked s)

    r :
        (u.num_threads ≡ s.num_threads)
        × (u.current_thread ≡ s.current_thread)
        × (u.timer_ticks ≡ u64 (s.timer_ticks + 1))
    r = tick_rest (locked s)

    ticked : OneRunning (record u { lock = 0 })
    ticked = record {
      current_in = omega (arith, r.1, v.current_in);
      only = λ i l h. ground (arith, v.only i l, r.1, state-tick (locked s) i);
    }

block-runs :
    (s : SchedState)
    → s.lock ≡ 0
    → s.current_thread < max_threads
    → let c = s.threads s.current_thread in
      sched_block s
      ≡ ok success (record s {
        threads = update s.threads s.current_thread (record c { state = thread_state_blocked });
      })
unfolding sched_block
block-runs s free l = ground arith

-- A blocked thread does not stay blocked: after `sched_block` and one `sched_schedule` that finds
-- another ready thread, the thread that blocked itself is ready again, though nobody called
-- `sched_unblock`.
pub block-schedule_ready :
    (s : SchedState) (k : ℕ)
    → s.lock ≡ 0
    → s.current_thread < max_threads
    → k < s.num_threads
    → candidate s k ≢ s.current_thread
    → (s.threads (candidate s k)).state ≡ thread_state_ready
    → Returns
        (λ _ t.
          (t.current_thread ≢ s.current_thread)
          × ((t.threads s.current_thread).state ≡ thread_state_ready))
        (and_then (sched_block s) (λ _. sched_schedule))
block-schedule_ready s k free l m ne ready =
    let c = s.current_thread in
    let b = s.threads c in
    let t = record s { threads = update s.threads c (record b { state = thread_state_blocked }) } in
    let (j, v) = NextReady-found t k m (ground arith) in
    let other : candidate t j ≢ c = λ q. absurd (ground (arith, v.ready)) in
    rw (block-runs s free l) (
      Returns-mono (sched_schedule t) (sched_schedule_switches t j free l v other)
        (λ a u h. (λ q. other (sym h.0 ∙ q), h.3)))
