-- ===== src/Core0/Process.antt =====
-- Core-0/include/process.h and Core-0/process/process.c: the processes, over the page tables, the
-- memory manager and the capability system. A pointer to a process is its index in the table; the path
-- and the argument vector are not read and are left out. `sched_yield` returns at once.
pub mod Create
mod Tests
use hik.Prelude.{
  to_int, ℕ, zero, suc, ◌+◌, ◌-◌, ◌*◌, ◌/◌, ◌%◌, ◌^◌, ◌≤◌, ◌<◌, bit_and, bit_or, ◌≡◌, refl, sym, ap,
  ◌∙◌, ◌≢◌, ◌↔◌, ◌⊎◌, inl, inr, Bool, true, false, not, ◌&&◌, ◌||◌, Option, none, some, List, [],
  ◌∷◌, ◌++◌, arith, ltb, leb, ◌==◌, if◌then◌else◌, Bool-cases, Option-cases, Nat-cases, update,
  update_here, update_else, first, count, first-some, first-none, first-eq_some, first_found,
  first_unique, first-ext, Run, ok, hang, fault, Cmd, and_then, ◌>>=◌, ◌>>◌, pure, gets, modify,
  call, Returns, Returns-mono, Returns-and_then, within, u32, u64, dec32, dec64, sub64, ℤ, pos,
  negsuc, success, minus_one, minus_two, minus_three, minus_four, minus_five, is_success, length,
  length-append, values, erase, contains, length-values, values-ext, values-append, values-erase,
}
use hik.Core0.Mm.{mm_alloc, mm_free, mem_type_application, page_size}
use hik.Core0.Capability.{cap_create_domain, cap_delete_domain}
use hik.Core0.Sched.{sched_sleep}
use hik.Core0.Paging.{
  Paging, MapType, on_mm, on_caps, isolation_create_page_tables, isolation_map_memory,
  map_type_code, map_type_data,
}

abbrev pub max_processes : ℕ
max_processes = 256

abbrev pub process_state_new : ℕ
process_state_new = 0

abbrev pub process_state_terminated : ℕ
process_state_terminated = 4

abbrev pub domain_flag_app : ℕ
domain_flag_app = 0x04

pub record Process : Type 0 where
  pub process_id : ℕ
  pub parent_pid : ℕ
  pub state : ℕ
  pub domain_id : ℕ
  pub entry_point : ℕ
  pub code_base : ℕ
  pub code_size : ℕ
  pub data_base : ℕ
  pub data_size : ℕ
  pub stack_base : ℕ
  pub stack_size : ℕ
  pub heap_base : ℕ
  pub heap_size : ℕ
  pub page_table : ℕ
  pub argc : ℕ
  pub exit_code : ℕ
  pub uptime : ℕ

abbrev pub zero_process : Process
zero_process = record {
  process_id = 0;
  parent_pid = 0;
  state = 0;
  domain_id = 0;
  entry_point = 0;
  code_base = 0;
  code_size = 0;
  data_base = 0;
  data_size = 0;
  stack_base = 0;
  stack_size = 0;
  heap_base = 0;
  heap_size = 0;
  page_table = 0;
  argc = 0;
  exit_code = 0;
  uptime = 0;
}

pub record ProcessManager : Type 0 where
  pub processes : ℕ → Process
  pub num_processes : ℕ
  pub next_pid : ℕ
  pub lock : ℕ

pub record Kernel : Type 0 where
  pub manager : ProcessManager
  pub current_pid : ℕ
  pub paging : Paging

abbrev pub on_paging : {A : Type 0} → Cmd Paging A → Cmd Kernel A
on_paging = within (λ k. k.paging) (λ p k. record k { paging = p })

abbrev pub on_manager : {A : Type 0} → Cmd ProcessManager A → Cmd Kernel A
on_manager = within (λ k. k.manager) (λ m k. record k { manager = m })

unfoldable pub spin_lock : Cmd ProcessManager (Unit {0})
spin_lock s = if s.lock == 0 then modify (λ t. record t { lock = 1 }) s else hang

unfoldable pub spin_unlock : Cmd ProcessManager (Unit {0})
spin_unlock = modify λ s. record s { lock = 0 }

unfoldable pub process_init : Cmd ProcessManager ℤ
process_init s =
    pure success
      (record { processes = λ _. zero_process; num_processes = 0; next_pid = 1; lock = 0 })

unfoldable pub find_slot : ProcessManager → Option ℕ
find_slot s = first max_processes (λ i. (s.processes i).state == 0)

-- The entry that `process_create` writes into the free slot.
abbrev pub new_process : (pid parent domain_id argc : ℕ) → Process
new_process pid parent domain_id argc = record {
  process_id = pid;
  parent_pid = parent;
  state = process_state_new;
  domain_id = domain_id;
  entry_point = 0x400000;
  code_base = 0x400000;
  code_size = 0x10000;
  data_base = 0x410000;
  data_size = 0x10000;
  stack_base = 0x420000;
  stack_size = 0x10000;
  heap_base = 0x430000;
  heap_size = 0x10000;
  page_table = 0;
  argc = argc;
  exit_code = 0;
  uptime = 0;
}

unfoldable pub write_process : (i parent domain_id argc : ℕ) → ProcessManager → ProcessManager
write_process i parent domain_id argc s = record s {
  next_pid = u64 (s.next_pid + 1);
  processes = update s.processes i (new_process s.next_pid parent domain_id argc);
}

-- The four mappings, whose results are not looked at.
unfoldable pub map_process : (domain_id phys_addr : ℕ) → Cmd Paging (Unit {0})
map_process domain_id phys_addr = do
  isolation_map_memory domain_id 0x400000 phys_addr 0x10000 map_type_code 0
  isolation_map_memory domain_id 0x410000 (u64 (phys_addr + 0x10000)) 0x10000 map_type_data 0
  isolation_map_memory domain_id 0x420000 (u64 (phys_addr + 0x20000)) 0x10000 map_type_data 0
  isolation_map_memory domain_id 0x430000 (u64 (phys_addr + 0x30000)) 0x10000 map_type_data 0
  pure tt

-- What the process needs, before it is written into its slot: its memory, its domain and its page
-- tables; `none` where one of them cannot be had, after those before it have been given back.
unfoldable pub provide : Cmd Paging (Option (ℕ × ℕ))
provide = do
  phys_addr ← on_mm (mm_alloc 0x100000 page_size mem_type_application 0)
  if phys_addr == 0 then pure none else (do
    domain_id ← on_caps (cap_create_domain phys_addr 0x100000)
    if domain_id == 0 then (do on_mm (mm_free phys_addr); pure none) else (do
      r ← isolation_create_page_tables domain_id domain_flag_app
      if not (is_success r)
          then (do on_caps (cap_delete_domain domain_id); on_mm (mm_free phys_addr); pure none)
          else pure (some (phys_addr, domain_id))))

unfoldable pub process_create : (argc : ℕ) → Cmd Kernel ℕ
unfolding spin_lock spin_unlock
process_create argc = do
  on_manager spin_lock
  slot ← gets (λ k. find_slot k.manager)
  elim slot [
    | none ↦ (do on_manager spin_unlock; pure 0)
    | some i ↦ (do
      provided ← on_paging provide
      elim provided [
        | none ↦ (do on_manager spin_unlock; pure 0)
        | some (phys_addr, domain_id) ↦ (do
          parent ← gets (λ k. k.current_pid)
          on_manager (modify (write_process i parent domain_id argc))
          on_paging (map_process domain_id phys_addr)
          on_manager (modify (λ s. record s { num_processes = u32 (s.num_processes + 1) }))
          on_manager spin_unlock
          gets (λ k. (k.manager.processes i).process_id))
      ])
  ]

abbrev pub process_fork : Cmd Kernel ℕ
process_fork = pure 0

abbrev pub process_exec : (argc : ℕ) → Cmd Kernel ℤ
process_exec argc = pure success

abbrev pub process_wait : (pid : ℕ) → Cmd Kernel ℤ
process_wait pid = pure success

unfoldable pub process_get : (pid : ℕ) → ProcessManager → Option ℕ
process_get pid s = first max_processes (λ i. (s.processes i).process_id == pid)

-- `process->state = PROCESS_STATE_TERMINATED; process->exit_code = code;`
abbrev pub terminate : (code i : ℕ) → ProcessManager → ProcessManager
terminate code i s =
    let p = s.processes i in
    record s {
      processes =
          update s.processes i (record p { state = process_state_terminated; exit_code = code });
    }

-- Behind `sched_yield` stands `__builtin_unreachable`.
unfoldable pub process_exit : (code : ℕ) → Cmd Kernel (Unit {0})
process_exit code = do
  pid ← gets (λ k. k.current_pid)
  on_manager (modify (λ s. elim (process_get pid s) [ none ↦ s | some i ↦ terminate code i s ]))
  (λ k. fault)

abbrev pub process_getpid : Kernel → ℕ
process_getpid k = k.current_pid

unfoldable pub process_getppid : Kernel → ℕ
process_getppid k = elim (process_get k.current_pid k.manager) [
  | none ↦ 0
  | some i ↦ (k.manager.processes i).parent_pid
]

abbrev pub process_kill : (pid : ℕ) → Cmd Kernel ℤ
process_kill pid = pure success

unfoldable pub process_handle_syscall : (syscall_num arg1 : ℕ) → Cmd Kernel ℤ
process_handle_syscall syscall_num arg1 =
    if syscall_num == 0
    then (do process_exit arg1; pure success)
    else if syscall_num == 11
    then gets (λ k. to_int (process_getpid k))
    else if syscall_num == 12
    then gets (λ k. to_int (process_getppid k))
    else if syscall_num == 13
    then (do sched_sleep arg1; pure success)
    else if ltb syscall_num 16
    then pure success
    else pure minus_one
