-- ===== src/Core0/Service/Tests.antt =====
-- Runs of Core-0/service/service.c on small inputs, and the theorems at such inputs.
use hik.Prelude.{ℕ, ◌≡◌, refl, some, List, [], ◌∷◌, update, first, ok, minus_two, values}
use hik.Core0.Capability.{
  CapSystem, zero_capability, zero_domain, new_capability, new_domain, append_cap,
  cap_create_domain, cap_create, cap_type_service, free_domain, free_slot, cap_get_domain,
  cap_domain_add_cap,
}
use hik.Core0.Mm.{MmState, frame, scan, fill, mm_alloc, mem_type_available, mem_type_kernel}
use hik.Core0.Sched.{
  SchedState, new_tcb, zero_tcb, find_slot, sched_create_thread, thread_state_terminated,
  thread_priority_normal,
}
use hik.Core0.Service.{
  Service, ServiceManager, Kernel, zero_service, service_get, service_handle_fault, strncpy,
  service_state_running,
}
use hik.Core0.Service.Life.{put_service, faulted, service_handle_fault_lem}

short_copy : strncpy 4 (104 ∷ 105 ∷ []) ≡ some (104 ∷ 105 ∷ [])
unfolding strncpy
short_copy = refl

abbrev service : ℕ → Service
service state = record zero_service {
  service_id = 5;
  name = 97 ∷ [];
  state = state;
  domain_id = 1;
  entry_point = 0x8000;
}

abbrev caps : CapSystem
caps = record {
  capabilities = λ _. zero_capability;
  domains = λ _. zero_domain;
  next_cap_handle = 1;
  next_domain_id = 1;
  num_caps = 0;
  num_domains = 0;
  lock = 0;
}

-- Memory for one stack, from page 1 on, and the memory after it has been handed out.
abbrev pool : MmState
pool = record {
  frames = update (λ _. frame mem_type_available 0) 0 (frame 0 0);
  total_pages = 17;
  available_pages = 16;
  allocated_pages = 0;
  lock = 0;
}

abbrev pool_after : MmState
pool_after = record pool {
  frames = fill (frame mem_type_kernel 1) 16 1 pool.frames;
  available_pages = 0;
  allocated_pages = 16;
}

abbrev sched : SchedState
sched = record {
  threads = λ _. record zero_tcb { state = thread_state_terminated };
  num_threads = 0;
  current_thread = 0;
  next_thread_id = 4;
  lock = 0;
  timer_ticks = 0;
}

abbrev sched_after : SchedState
sched_after = record sched {
  threads = update sched.threads 0 (new_tcb 4 1 0x8000 0 thread_priority_normal 0x1000);
  num_threads = 1;
  next_thread_id = 5;
}

abbrev manager : ℕ → ServiceManager
manager state = record {
  services = update (λ _. zero_service) 0 (service state);
  num_services = 1;
  next_service_id = 6;
  lock = 0;
}

abbrev kernel : ℕ → Kernel
kernel state = record {
  manager = manager state;
  caps = caps;
  tasks = record { sched = sched; mm = pool };
}

service_found : (state : ℕ) → service_get 5 (manager state) ≡ some 0
unfolding service_get first
service_found state = refl

thread_made :
    sched_create_thread 1 0x8000 0 thread_priority_normal (kernel service_state_running).tasks
    ≡ ok 4 (record { sched = sched_after; mm = pool_after })
unfolding sched_create_thread mm_alloc scan find_slot first
thread_made = refl

service_handle_fault_lem_example :
    service_handle_fault 5 3 (kernel service_state_running)
    ≡ ok minus_two
        (put_service 0 (faulted (service service_state_running) 3) (kernel service_state_running))
service_handle_fault_lem_example =
    service_handle_fault_lem (kernel service_state_running) 5 0 3 refl
      (service_found service_state_running)

-- The capability system after the domain of a service of 0x1000 bytes has been made.
abbrev with_domain : CapSystem
with_domain = record caps {
  domains = update caps.domains 0 (new_domain 1 0x8000 0x11000);
  next_domain_id = 2;
  num_domains = 1;
}

domain_made : cap_create_domain 0x8000 0x11000 caps ≡ ok 1 with_domain
unfolding cap_create_domain free_domain first
domain_made = refl

abbrev with_cap : CapSystem
with_cap = record with_domain {
  capabilities = update caps.capabilities 0 (new_capability cap_type_service 3 6 0 0 1);
  domains = update with_domain.domains 0 (append_cap 1 (new_domain 1 0x8000 0x11000));
  next_cap_handle = 2;
  num_caps = 1;
}

cap_made : cap_create cap_type_service 3 6 0 0 1 with_domain ≡ ok 1 with_cap
unfolding cap_create free_slot cap_get_domain cap_domain_add_cap first
cap_made = refl

abbrev long_name : List ℕ
long_name = values (λ _. 97) 0 63
