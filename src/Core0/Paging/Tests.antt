-- ===== src/Core0/Paging/Tests.antt =====
-- Runs of the page tables of Core-0/isolation/isolation.c, and the theorems at such inputs.
use hik.Prelude.{
  ◌^◌, ◌%◌, ℕ, ◌+◌, ◌*◌, ◌<◌, ◌≡◌, refl, ◌≢◌, ◌↔◌, ◌⊎◌, arith, ◌==◌, if◌then◌else◌, ok, Returns,
  u64, success, minus_one,
}
use hik.Core0.Capability.{CapSystem, zero_capability, zero_domain, max_domains}
use hik.Core0.Mm.{frame, page_size}
use hik.Core0.Paging.{
  follow, Paging, zero_table, zero_gate, isolation_unmap_memory, isolation_verify_access,
  isolation_create_call_gate, pt_walk_get_pte, pt_setup_identity_map, pt_setup_kernel_map,
  pt_setup_user_map,
}
use hik.Core0.Paging.Access.{Mapped, Allows, verify_pages_iff}
use hik.Core0.Paging.Denied.{FreeAreEmpty, setup_maps-fail}
use hik.Core0.Paging.Gates.{IsGateTable, MayMake, Made, create_call_gate_lem}
use hik.Core0.Paging.Unmap.{unmap-verify_denied}

abbrev no_caps : CapSystem
no_caps = record {
  capabilities = λ _. zero_capability;
  domains = λ _. zero_domain;
  next_cap_handle = 1;
  next_domain_id = 1;
  num_caps = 0;
  num_domains = 0;
  lock = 0;
}

-- Domain 1 holds the capability of handle 5 for a service, with the permission to execute.
abbrev service_caps : CapSystem
service_caps = record no_caps {
  capabilities = λ i.
      if i == 4
      then record zero_capability { magic = 0x43415000; type = 5; permissions = 4 }
      else zero_capability;
  domains = λ i.
      if i == 0
      then record zero_domain {
        domain_id = 1;
        cap_space = λ j. if j == 0 then 5 else 0;
        num_caps = 1;
      }
      else zero_domain;
  next_cap_handle = 6;
}

-- Domain 3 has page tables at pages 1 to 4, which map page 0 of its addresses, writable, to frame 9.
abbrev machine : Paging
machine = record {
  tables = λ d. if d == 3 then record zero_table { pml4 = 4096; domain_id = 3 } else zero_table;
  pages = λ t i.
      if i == 0
      then if t == 4096
        then 8192 + 7
        else if t == 8192
        then 12288 + 7
        else if t == 12288
        then 16384 + 7
        else if t == 16384
        then 36864 + 7
        else 0
      else 0;
  call_gates = record { gates = λ _. zero_gate; num_gates = 0; lock = 0 };
  mm = record {
    frames = λ _. frame 1 0;
    total_pages = 16;
    available_pages = 16;
    allocated_pages = 0;
    lock = 0;
  };
  caps = service_caps;
}

empty_gates : IsGateTable machine.call_gates
empty_gates = record {
  bound = ground arith;
  present = λ i l. absurd (omega arith);
  unlocked = refl;
}

walks : pt_walk_get_pte 4096 100 machine.pages ≡ 36871
unfolding pt_walk_get_pte follow
walks = refl

not_mapped : pt_walk_get_pte 4096 4096 machine.pages ≡ 0
unfolding pt_walk_get_pte follow
not_mapped = refl

unmaps : (isolation_unmap_memory 3 0 4096 machine).0 ≡ success
unfolding isolation_unmap_memory
unmaps = refl

unmap-verify_denied_example :
    isolation_verify_access 3
      (u64 (0 + 0 * page_size))
      8
      1
      (isolation_unmap_memory 3 0 4096 machine).1
    ≡ minus_one
unmap-verify_denied_example =
    unmap-verify_denied 3 0 4096 machine 0 8 1 unmaps (ground arith) (ground arith)

verify_pages_iff_example : (isolation_verify_access 3 0 8 3 machine ≡ success) ↔ (
    (3 < max_domains)
    × ((machine.tables 3).pml4 ≢ 0)
    × ((j : ℕ)
        → j * 4096 < 8
        → (pte : ℕ) × Mapped machine.pages 4096 ((0 + j * 4096) % 2 ^ 64) pte × Allows 3 pte))
verify_pages_iff_example = verify_pages_iff 3 0 8 3 machine (ground arith)

free-Empty : FreeAreEmpty no_caps
unfolding FreeAreEmpty
free-Empty = λ i j e. refl

setup_maps-fail_example :
    (pt_setup_identity_map 3 4096 8192 (record machine { caps = no_caps })
      ≡ ok minus_one (record machine { caps = no_caps }))
    × (pt_setup_kernel_map 3 4096 8192 (record machine { caps = no_caps })
        ≡ ok minus_one (record machine { caps = no_caps }))
    × (pt_setup_user_map 3 4096 8192 (record machine { caps = no_caps })
        ≡ ok minus_one (record machine { caps = no_caps }))
setup_maps-fail_example =
    setup_maps-fail (record machine { caps = no_caps }) 3 4096 8192 0 free-Empty refl

create_call_gate_lem_example :
    Returns
      (λ r t.
        (MayMake machine 3 1 × Made machine t 0x401000 r)
        ⊎ ((MayMake machine 3 1 → ⊥) × (r ≡ minus_one) × (t ≡ machine)))
      (isolation_create_call_gate 3 0x401000 1 machine)
create_call_gate_lem_example =
    create_call_gate_lem machine 3 0x401000 1 empty_gates refl (ground arith)
