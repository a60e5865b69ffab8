-- ===== src/Core0/Service/Create.antt =====
-- Creating services (Core-0/service/service.c), and the copy of the name (Core-0/lib/string.c).
use hik.Prelude.{
  ℕ, zero, suc, ◌+◌, ◌≤◌, ◌<◌, ◌≡◌, refl, sym, ◌≢◌, inl, inr, none, some, List, [], ◌∷◌, arith, ltb,
  ◌==◌, if◌then◌else◌, Bool-cases, update, first-eq_some, ok, fault, Returns, u32, u64, length,
}
use hik.Core0.Capability.{CapSystem, cap_create_domain, cap_create, cap_type_service}
use hik.Core0.Sched.{stack_size}
use hik.Core0.Service.{
  Kernel, ServiceManager, service_create, strncpy, find_slot, max_services, service_state_stopped,
}

-- `strncpy` with a bound `n` copies a string of fewer than `n` bytes, and runs wild on any other.
strncpy_lem :
    (n : ℕ) (src : List ℕ) → strncpy n src ≡ (if ltb (length src) n then some src else none)
unfolding strncpy
strncpy_lem zero src = ground arith
strncpy_lem (suc n) [] = ground arith
strncpy_lem (suc n) (c ∷ src) = ground (arith, strncpy_lem n src)

find_slot_zero :
    (s : ServiceManager) → (s.services 0).state ≡ service_state_stopped → find_slot s ≡ some 0
unfolding find_slot
find_slot_zero s e =
    first-eq_some max_services (λ i. (s.services i).state == 0) 0 (omega arith) (ground arith)
      (λ k l. elim l [ ])

module _ (k : Kernel) (name : List ℕ) (entry code_base code_size data_base data_size d : ℕ)
    (c1 : CapSystem) (free : k.manager.lock ≡ 0)
    (stopped : (k.manager.services 0).state ≡ service_state_stopped)
    (domain : cap_create_domain code_base (u64 (code_size + data_size + stack_size)) (k.caps)
      ≡ ok d c1)
    (some_domain : d ≢ 0) where
  -- With a free slot and a new domain, `service_create` with a name of 63 bytes or more runs over
  -- the end of the name: the copy writes zeros over the rest of the address space.
  pub service_create_long_name :
      63 ≤ length name → service_create name entry code_base code_size data_base data_size k ≡ fault
  unfolding service_create find_slot
  service_create_long_name long =
      ground (arith, find_slot_zero (k.manager) stopped, strncpy_lem 63 name)

  create-runs :
      (h : ℕ) (c2 : CapSystem)
      → length name < 63
      → cap_create cap_type_service 3 k.manager.next_service_id 0 0 d c1 ≡ ok h c2
      → service_create name entry code_base code_size data_base data_size k
        ≡ ok k.manager.next_service_id (record k {
          manager = record {
            services = update k.manager.services 0 (record {
              service_id = k.manager.next_service_id;
              name = name;
              state = service_state_stopped;
              domain_id = d;
              entry_point = entry;
              code_base = code_base;
              code_size = code_size;
              data_base = data_base;
              data_size = data_size;
              stack_base = u64 (data_base + data_size);
              stack_size = stack_size;
              num_threads = 0;
              restart_count = 0;
              uptime = 0;
              last_error = 0;
              cap_handle = h;
            });
            num_services = u32 (k.manager.num_services + 1);
            next_service_id = u64 (k.manager.next_service_id + 1);
            lock = 0;
          };
          caps = c2;
        })
  unfolding service_create find_slot
  create-runs h c2 short cap =
      ground (arith, find_slot_zero (k.manager) stopped, strncpy_lem 63 name)

  -- A stopped service counts as a free slot. Where slot 0 holds a stopped service with an id that no
  -- other slot holds, and its name, domain and capability can be had, `service_create` writes the
  -- new service over it: the old id is in no slot any more, while the number of services goes up
  -- by one.
  pub service_create_overwrites :
      (old h : ℕ) (c2 : CapSystem)
      → length name < 63
      → cap_create cap_type_service 3 k.manager.next_service_id 0 0 d c1 ≡ ok h c2
      → ((i : ℕ) → i ≢ 0 → (k.manager.services i).service_id ≢ old)
      → old ≢ k.manager.next_service_id
      → Returns
          (λ id t.
            ((i : ℕ) → (t.manager.services i).service_id ≢ old)
            × ((t.manager.services 0).service_id ≡ id)
            × (t.manager.num_services ≡ u32 (k.manager.num_services + 1)))
          (service_create name entry code_base code_size data_base data_size k)
  service_create_overwrites old h c2 short cap only differ = rw (create-runs h c2 short cap) (
    λ i. elim (Bool-cases (0 == i)) [
      | inl z ↦ rw z (λ q. differ (sym q))
      | inr n ↦ rw n (only i (ground arith))
    ],
    refl,
    refl,
  )
