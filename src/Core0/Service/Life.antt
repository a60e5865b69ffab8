-- ===== src/Core0/Service/Life.antt =====
-- Stopping, restarting, terminating and faulting services (Core-0/service/service.c).
use hik.Prelude.{
  first-ext, ℕ, ◌+◌, ◌≡◌, refl, ◌∙◌, ◌≢◌, inl, inr, none, some, arith, ◌==◌, Bool-cases, update, ok,
  hang, Returns, u32, success, minus_one, minus_two,
}
use hik.Core0.Service.{
  max_services, Kernel, Service, service_get, service_start, service_stop, service_restart,
  service_terminate, service_handle_fault, service_state_stopped, service_state_running,
  service_state_error,
}
use hik.Core0.Sched.{Tasks, sched_create_thread, thread_priority_normal}

-- The state with one entry of the service table rewritten.
abbrev pub put_service : ℕ → Service → Kernel → Kernel
put_service i c k = record k {
  manager = record (k.manager) { services = update k.manager.services i c };
}

module _ (k : Kernel) (id i : ℕ) (free : k.manager.lock ≡ 0)
    (found : service_get id (k.manager) ≡ some i) where
  stop_running :
      (k.manager.services i).state ≡ service_state_running
      → let c = k.manager.services i in
        service_stop id k
        ≡ ok success (put_service i (record c { state = service_state_stopped; num_threads = 0 }) k)
  unfolding service_stop service_get
  stop_running e = ground arith

  stop_other :
      (k.manager.services i).state ≢ service_state_running → service_stop id k ≡ ok minus_two k
  unfolding service_stop service_get
  stop_other ne = ground arith

  -- `service_terminate` of an existing service never returns: `service_stop` waits for the lock that
  -- `service_terminate` itself holds.
  pub service_terminate_hangs : service_terminate id k ≡ hang
  unfolding service_terminate service_stop service_get
  service_terminate_hangs = ground arith

-- `service_terminate` of an id that no slot holds answers -1 and changes nothing.
terminate_unknown :
    (k : Kernel) (id : ℕ)
    → k.manager.lock ≡ 0
    → service_get id (k.manager) ≡ none
    → service_terminate id k ≡ ok minus_one k
unfolding service_terminate service_get
terminate_unknown k id free e = ground arith

-- Rewriting an entry under its own id does not change what an id finds.
service_get-put :
    (k : Kernel) (id i : ℕ) (c : Service)
    → c.service_id ≡ (k.manager.services i).service_id
    → service_get id ((put_service i c k).manager) ≡ service_get id (k.manager)
unfolding service_get
service_get-put k id i c e =
    first-ext max_services (λ j. (update k.manager.services i c j).service_id == id)
      (λ j. (k.manager.services j).service_id == id)
      (λ j. elim (Bool-cases (i == j)) [
        | inl y ↦ let q : i ≡ j = ground arith in ground (arith, q)
        | inr n ↦ rw n
      ])

-- The entry as `service_handle_fault` marks it.
abbrev pub faulted : Service → ℕ → Service
faulted c code = record c { state = service_state_error; last_error = code }

-- Faults never lead to a restart. With the lock free, `service_handle_fault` of an existing service
-- returns -2, whatever its restart count: it marks the service as being in error with the code,
-- and `service_restart` then refuses a service that is not running. Nothing else changes.
pub service_handle_fault_lem :
    (k : Kernel) (id i code : ℕ)
    → k.manager.lock ≡ 0
    → service_get id (k.manager) ≡ some i
    → service_handle_fault id code k
      ≡ ok minus_two (put_service i (faulted (k.manager.services i) code) k)
unfolding service_handle_fault service_restart service_get
service_handle_fault_lem k id i code free found =
    let c = faulted (k.manager.services i) code in
    let t = put_service i c k in
    let again : service_get id (t.manager) ≡ some i = service_get-put k id i c refl ∙ found in
    let refused = stop_other t id i free again (ground arith) in ground (arith, refused)

-- The entry after a restart.
abbrev pub restarted : Service → Service
restarted c = record c {
  state = service_state_running;
  num_threads = 1;
  restart_count = u32 (c.restart_count + 1);
}

start_stopped :
    (k : Kernel) (id i thread_id : ℕ) (u : Tasks)
    → k.manager.lock ≡ 0
    → service_get id (k.manager) ≡ some i
    → (k.manager.services i).state ≡ service_state_stopped
    → let c = k.manager.services i in
      sched_create_thread c.domain_id c.entry_point 0 thread_priority_normal (k.tasks)
        ≡ ok thread_id u
      → thread_id ≢ 0
      → service_start id k
        ≡ ok success (record k {
          manager = record (k.manager) {
            services =
                update k.manager.services i
                  (record c { state = service_state_running; num_threads = 1 });
          };
          tasks = u;
        })
unfolding service_start service_get
start_stopped k id i thread_id u free found e made ne = ground arith

-- The entry after `service_stop`, and after its restart has been counted.
abbrev halted : Service → Service
halted c = record c { state = service_state_stopped; num_threads = 0 }

abbrev counted : Service → Service
counted c = record c { restart_count = u32 (c.restart_count + 1) }

restart-runs :
    (k : Kernel) (id i : ℕ)
    → k.manager.lock ≡ 0
    → service_get id (k.manager) ≡ some i
    → (k.manager.services i).state ≡ service_state_running
    → let c = halted (k.manager.services i) in
      service_restart id k ≡ service_start id (put_service i (counted c) (put_service i c k))
unfolding service_restart service_get
restart-runs k id i free found e =
    let c = halted (k.manager.services i) in
    let stopped = stop_running k id i free found e in
    let again : service_get id ((put_service i c k).manager) ≡ some i =
      service_get-put k id i c refl ∙ found in
    rw (stopped, again) (ground arith)

-- `service_restart` of a running service, with the lock free and where the scheduler creates the
-- new thread, returns 0: the service is running with one thread, its restart count has gone up by
-- one, and the other services are unchanged.
pub service_restart_lem :
    (k : Kernel) (id i thread_id : ℕ) (u : Tasks)
    → k.manager.lock ≡ 0
    → service_get id (k.manager) ≡ some i
    → (k.manager.services i).state ≡ service_state_running
    → let c = k.manager.services i in
      sched_create_thread c.domain_id c.entry_point 0 thread_priority_normal (k.tasks)
        ≡ ok thread_id u
      → thread_id ≢ 0
      → Returns
          (λ r t.
            (r ≡ success)
            × (t.manager.services i ≡ restarted (k.manager.services i))
            × ((j : ℕ) → j ≢ i → t.manager.services j ≡ k.manager.services j)
            × (t.tasks ≡ u))
          (service_restart id k)
service_restart_lem k id i thread_id u free found e made ne =
    let c1 = halted (k.manager.services i) in
    let k1 = put_service i c1 k in
    let c2 = counted c1 in
    let k2 = put_service i c2 k1 in
    let again : service_get id (k1.manager) ≡ some i = service_get-put k id i c1 refl ∙ found in
    let again2 : service_get id (k2.manager) ≡ some i =
      service_get-put k1 id i c2 (ground arith) ∙ again in
    rw
      (
        restart-runs k id i free found e,
        start_stopped k2 id i thread_id u free again2 (ground arith) (ground (arith, made)) ne,
      )
      (refl, ground arith, λ j d. ground arith, refl)
