-- ===== src/Core0/Process/Tests.antt =====
-- Runs of the processes of Core-0/process/process.c, and the theorems at such inputs.
use hik.Core0.Process.Create.{process_create_overwrites}
use hik.Core0.Paging.Denied.{FreeAreEmpty}
use hik.Prelude.{
  ℕ, update, arith, Returns, first, ◌≡◌, refl, some, ◌==◌, if◌then◌else◌, Run, ok, hang, fault,
}
use hik.Core0.Capability.{zero_capability, zero_domain, new_domain, free_domain, cap_create_domain}
use hik.Core0.Mm.{frame, mm_alloc, scan, fill}
use hik.Core0.Paging.{
  Paging, zero_table, zero_gate, isolation_create_page_tables, pt_alloc_page_table,
}
use hik.Core0.Process.{process_create, new_process, find_slot, Kernel, zero_process, provide}

-- A machine with 260 pages, of which the first is reserved.
abbrev machine : Paging
machine = record {
  tables = λ _. zero_table;
  pages = λ _ _. 0;
  call_gates = record { gates = λ _. zero_gate; num_gates = 0; lock = 0 };
  mm = record {
    frames = λ i. if i == 0 then frame 0 0 else frame 1 0;
    total_pages = 260;
    available_pages = 259;
    allocated_pages = 0;
    lock = 0;
  };
  caps = record {
    capabilities = λ _. zero_capability;
    domains = λ _. zero_domain;
    next_cap_handle = 1;
    next_domain_id = 1;
    num_caps = 0;
    num_domains = 0;
    lock = 0;
  };
}

abbrev kernel : Kernel
kernel = record {
  manager = record { processes = λ _. zero_process; num_processes = 0; next_pid = 1; lock = 0 };
  current_pid = 0;
  paging = machine;
}

abbrev state_of : {A : Type 0} → Run Paging A → Paging
state_of (ok a s) = s
state_of hang = machine
state_of fault = machine

abbrev provided : Paging
provided = state_of (provide machine)

provides : provide machine ≡ ok (some (4096, 1)) provided
unfolding provide mm_alloc scan fill cap_create_domain free_domain isolation_create_page_tables
    pt_alloc_page_table first
provides = refl

slot_free : find_slot kernel.manager ≡ some 0
unfolding find_slot first
slot_free = refl

spaces-empty :
    (i j : ℕ) → (update (λ _. zero_domain) 0 (new_domain 1 4096 0x100000) i).cap_space j ≡ 0
spaces-empty i j = ground arith

provided-Empty : FreeAreEmpty provided.caps
unfolding FreeAreEmpty provide mm_alloc scan fill cap_create_domain free_domain
    isolation_create_page_tables pt_alloc_page_table first
provided-Empty = λ i j e. spaces-empty i j

provided-unlocked : provided.caps.lock ≡ 0
unfolding provide mm_alloc scan fill cap_create_domain free_domain isolation_create_page_tables
    pt_alloc_page_table first
provided-unlocked = refl

process_create_overwrites_example :
    Returns
      (λ pid r.
        (pid ≡ 1)
        × (r.manager.processes 0 ≡ new_process pid 0 1 2)
        × (r.paging ≡ provided)
        × (find_slot r.manager ≡ some 0))
      (process_create 2 kernel)
process_create_overwrites_example =
    process_create_overwrites kernel 2 0 4096 1 provided refl slot_free provides provided-Empty
      provided-unlocked
