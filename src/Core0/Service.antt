-- ===== src/Core0/Service.antt =====
-- Core-0/include/service.h and Core-0/service/service.c: the service table and the life of a
-- service. A name is the list of its bytes before the terminating zero; `service_get_api`, a table of
-- function pointers, is not modelled.
pub mod Life
pub mod Create
mod Tests
use hik.Prelude.{
  ℕ, zero, suc, ◌+◌, ◌-◌, ◌*◌, ◌/◌, ◌%◌, ◌^◌, ◌≤◌, ◌<◌, bit_and, bit_or, ◌≡◌, refl, sym, ap, ◌∙◌,
  ◌≢◌, ◌↔◌, ◌⊎◌, inl, inr, Bool, true, false, not, ◌&&◌, ◌||◌, Option, none, some, List, [], ◌∷◌,
  ◌++◌, arith, ltb, leb, ◌==◌, if◌then◌else◌, Bool-cases, Option-cases, Nat-cases, update, first,
  count, first-some, first-none, first-eq_some, first_found, first_unique, Run, ok, hang, fault,
  Cmd, and_then, ◌>>=◌, ◌>>◌, pure, gets, modify, call, Returns, Returns-mono, within, u32, u64,
  dec32, dec64, sub64, ℤ, pos, negsuc, success, minus_one, minus_two, minus_three, is_success,
  length, length-append, values, erase, contains, length-values, values-ext, values-append,
  values-erase,
}
use hik.Core0.Capability.{
  CapSystem, cap_create_domain, cap_create, cap_delete_domain, cap_type_service, cap_perm_read,
  cap_perm_write,
}
use hik.Core0.Sched.{Tasks, sched_create_thread, stack_size, thread_priority_normal}

abbrev pub service_state_stopped : ℕ
service_state_stopped = 0

abbrev pub service_state_running : ℕ
service_state_running = 2

abbrev pub service_state_stopping : ℕ
service_state_stopping = 3

abbrev pub service_state_error : ℕ
service_state_error = 4

abbrev pub max_services : ℕ
max_services = 64

pub record Service : Type 0 where
  pub service_id : ℕ
  pub name : List ℕ
  pub state : ℕ
  pub domain_id : ℕ
  pub entry_point : ℕ
  pub code_base : ℕ
  pub code_size : ℕ
  pub data_base : ℕ
  pub data_size : ℕ
  pub stack_base : ℕ
  pub stack_size : ℕ
  pub num_threads : ℕ
  pub restart_count : ℕ
  pub uptime : ℕ
  pub last_error : ℕ
  pub cap_handle : ℕ

abbrev pub zero_service : Service
zero_service = record {
  service_id = 0;
  name = [];
  state = 0;
  domain_id = 0;
  entry_point = 0;
  code_base = 0;
  code_size = 0;
  data_base = 0;
  data_size = 0;
  stack_base = 0;
  stack_size = 0;
  num_threads = 0;
  restart_count = 0;
  uptime = 0;
  last_error = 0;
  cap_handle = 0;
}

pub record ServiceManager : Type 0 where
  pub services : ℕ → Service
  pub num_services : ℕ
  pub next_service_id : ℕ
  pub lock : ℕ

-- The service manager with the components that its calls change.
pub record Kernel : Type 0 where
  pub manager : ServiceManager
  pub caps : CapSystem
  pub tasks : Tasks

abbrev pub on_manager : {A : Type 0} → Cmd ServiceManager A → Cmd Kernel A
on_manager = within (λ k. k.manager) (λ s k. record k { manager = s })

abbrev pub on_caps : {A : Type 0} → Cmd CapSystem A → Cmd Kernel A
on_caps = within (λ k. k.caps) (λ s k. record k { caps = s })

abbrev pub on_tasks : {A : Type 0} → Cmd Tasks A → Cmd Kernel A
on_tasks = within (λ k. k.tasks) (λ s k. record k { tasks = s })

unfoldable pub spin_lock : Cmd Kernel (Unit {0})
spin_lock k =
    if k.manager.lock == 0 then on_manager (modify (λ s. record s { lock = 1 })) k else hang

unfoldable pub spin_unlock : Cmd Kernel (Unit {0})
spin_unlock = on_manager (modify (λ s. record s { lock = 0 }))

unfoldable pub service_init : Cmd Kernel ℤ
service_init = do
  on_manager (
      modify (λ _. record {
        services = λ _. zero_service;
        num_services = 0;
        next_service_id = 1;
        lock = 0;
      }))
  pure success

unfoldable pub service_get : ℕ → ServiceManager → Option ℕ
service_get service_id s = first max_services (λ i. (s.services i).service_id == service_id)

-- `strcmp(a, b) == 0` on the bytes before the terminating zeros
unfoldable pub same_name : List ℕ → List ℕ → Bool
same_name [] [] = true
same_name [] (y ∷ ys) = false
same_name (x ∷ xs) [] = false
same_name (x ∷ xs) (y ∷ ys) = x == y && same_name xs ys

unfoldable pub service_get_by_name : List ℕ → ServiceManager → Option ℕ
service_get_by_name name s = first max_services (λ i. same_name (s.services i).name name)

unfoldable pub find_slot : ServiceManager → Option ℕ
find_slot s = first max_services (λ i. (s.services i).state == 0)

abbrev pub set_service : ℕ → Service → Cmd Kernel (Unit {0})
set_service i c = on_manager (modify (λ s. record s { services = update s.services i c }))

-- `strncpy(dst, src, n)` of Core-0/lib/string.c, as the string that `dst` then holds. Where the
-- source has `n` bytes or more, the test `n--` at 0 wraps `n`, and the second loop writes zeros over
-- the rest of the address space: `none`.
unfoldable pub strncpy : ℕ → List ℕ → Option (List ℕ)
strncpy zero src = none
strncpy (suc n) [] = some []
strncpy (suc n) (c ∷ src) = elim (strncpy n src) [ none ↦ none | some dst ↦ some (c ∷ dst) ]

unfoldable pub service_create :
    List ℕ → (entry_point code_base code_size data_base data_size : ℕ) → Cmd Kernel ℕ
unfolding spin_lock spin_unlock
service_create name entry_point code_base code_size data_base data_size = do
  spin_lock
  slot ← gets (λ k. find_slot k.manager)
  elim slot [
    | none ↦ (do spin_unlock; pure 0)
    | some i ↦ (do
      domain_id ← on_caps (cap_create_domain code_base (u64 (code_size + data_size + stack_size)))
      if domain_id == 0 then (do spin_unlock; pure 0) else (do
        elim (strncpy 63 name) [
          | none ↦ (λ k. fault)
          | some copied ↦ (do
            id ← gets (λ k. k.manager.next_service_id)
            cap_handle ←
                on_caps (
                  cap_create cap_type_service (bit_or cap_perm_read cap_perm_write) id 0 0
                    domain_id)
            on_manager (
                modify (λ s. record s {
                  next_service_id = u64 (s.next_service_id + 1);
                  num_services = u32 (s.num_services + 1);
                  services = update s.services i (record {
                    service_id = id;
                    name = copied;
                    state = service_state_stopped;
                    domain_id = domain_id;
                    entry_point = entry_point;
                    code_base = code_base;
                    code_size = code_size;
                    data_base = data_base;
                    data_size = data_size;
                    stack_base = u64 (data_base + data_size);
                    stack_size = stack_size;
                    num_threads = 0;
                    restart_count = 0;
                    uptime = 0;
                    last_error = 0;
                    cap_handle = cap_handle;
                  });
                }))
            spin_unlock
            gets (λ k. (k.manager.services i).service_id))
        ]))
  ]

unfoldable pub service_start : ℕ → Cmd Kernel ℤ
unfolding spin_lock spin_unlock
service_start service_id = do
  spin_lock
  slot ← gets (λ k. service_get service_id k.manager)
  elim slot [
    | none ↦ (do spin_unlock; pure minus_one)
    | some i ↦ (do
      c ← gets (λ k. k.manager.services i)
      if not (c.state == service_state_stopped) then (do spin_unlock; pure minus_two) else (do
        thread_id ←
            on_tasks (sched_create_thread c.domain_id c.entry_point 0 thread_priority_normal)
        if thread_id == 0 then (do spin_unlock; pure minus_three) else (do
          set_service i (record c { state = service_state_running; num_threads = 1 })
          spin_unlock
          pure success)))
  ]

unfoldable pub service_stop : ℕ → Cmd Kernel ℤ
unfolding spin_lock spin_unlock
service_stop service_id = do
  spin_lock
  slot ← gets (λ k. service_get service_id k.manager)
  elim slot [
    | none ↦ (do spin_unlock; pure minus_one)
    | some i ↦ (do
      c ← gets (λ k. k.manager.services i)
      if not (c.state == service_state_running) then (do spin_unlock; pure minus_two) else (do
        set_service i (record c { state = service_state_stopping })
        set_service i (record c { state = service_state_stopped; num_threads = 0 })
        spin_unlock
        pure success))
  ]

-- `service->restart_count++`, with no lock held
abbrev pub count_restart : ℕ → Cmd Kernel (Unit {0})
count_restart service_id = on_manager (
    modify (λ s. elim (service_get service_id s) [
      | none ↦ s
      | some i ↦
          let c = s.services i in
          record s {
            services = update s.services i (record c { restart_count = u32 (c.restart_count + 1) });
          }
    ]))

unfoldable pub service_restart : ℕ → Cmd Kernel ℤ
service_restart service_id = do
  result ← service_stop service_id
  if not (is_success result)
      then pure result
      else (do count_restart service_id; service_start service_id)

unfoldable pub service_terminate : ℕ → Cmd Kernel ℤ
unfolding spin_lock spin_unlock
service_terminate service_id = do
  spin_lock
  slot ← gets (λ k. service_get service_id k.manager)
  elim slot [
    | none ↦ (do spin_unlock; pure minus_one)
    | some i ↦ (do
      service_stop service_id
      domain_id ← gets (λ k. (k.manager.services i).domain_id)
      on_caps (cap_delete_domain domain_id)
      set_service i zero_service
      on_manager (modify (λ s. record s { num_services = dec32 s.num_services }))
      spin_unlock
      pure success)
  ]

unfoldable pub service_handle_fault : (service_id error_code : ℕ) → Cmd Kernel ℤ
service_handle_fault service_id error_code = do
  slot ← gets (λ k. service_get service_id k.manager)
  elim slot [
    | none ↦ pure minus_one
    | some i ↦ (do
      c ← gets (λ k. k.manager.services i)
      set_service i (record c { state = service_state_error; last_error = error_code })
      if ltb c.restart_count 3 then service_restart service_id else pure minus_two)
  ]
