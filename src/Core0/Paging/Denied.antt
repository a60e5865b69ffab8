-- ===== src/Core0/Paging/Denied.antt =====
-- Mapping without a domain to ask, of Core-0/isolation/isolation.c: `isolation_map_memory` passes the
-- capability's id for the domain, and the type of the capability for its handle.
use hik.Prelude.{
  ℕ, bit_or, ◌≡◌, refl, inl, inr, false, none, some, arith, leb, ◌==◌, Bool-cases, Option-cases,
  first, first-some, ok, ℤ, minus_one, minus_two, is_success,
}
use hik.Core0.Capability.{
  cap_type_memory, CapSystem, cap_check, cap_get_domain, holds, max_domains, domain_cap_space_size,
  cap_perm_read, cap_perm_write,
}
use hik.Core0.Paging.{
  Paging, MapType, isolation_map_memory, pt_setup_identity_map, pt_setup_kernel_map,
  pt_setup_user_map, map_type_data, map_type_code, user_base, kernel_code_base,
}

-- A slot of the domain table that belongs to no domain holds no handles.
unfoldable pub FreeAreEmpty : CapSystem → Type 0
FreeAreEmpty c = (i j : ℕ) → (c.domains i).domain_id ≡ 0 → (c.domains i).cap_space j ≡ 0

check-none :
    (c : CapSystem) (perm : ℕ)
    → c.lock ≡ 0
    → cap_get_domain c 0 ≡ none
    → cap_check 0 1 perm c ≡ ok minus_one c
unfolding cap_check cap_get_domain
check-none c perm free e = ground (arith, free, e)

check-some :
    (c : CapSystem) (perm i : ℕ)
    → c.lock ≡ 0
    → cap_get_domain c 0 ≡ some i
    → holds 1 (c.domains i) ≡ none
    → cap_check 0 1 perm c ≡ ok minus_two c
unfolding cap_check cap_get_domain holds
check-some c perm i free e h = ground (arith, free, e, h)

found-free : (c : CapSystem) (i : ℕ) → cap_get_domain c 0 ≡ some i → (c.domains i).domain_id ≡ 0
unfolding cap_get_domain
found-free c i e =
    let h = first-some max_domains (λ k. (c.domains k).domain_id == 0) i e in ground (arith, h.1)

holds-none :
    (c : CapSystem) (i : ℕ)
    → FreeAreEmpty c
    → (c.domains i).domain_id ≡ 0
    → holds 1 (c.domains i) ≡ none
unfolding FreeAreEmpty holds
holds-none c i empty z =
    elim (Option-cases (first domain_cap_space_size (λ k. (c.domains i).cap_space k == 1))) [
      | inl e ↦ e
      | inr (k, e) ↦
          let h = first-some domain_cap_space_size (λ k. (c.domains i).cap_space k == 1) k e in
          absurd (ground (arith, h.1, empty i k z))
    ]

-- The check answers -1 or -2.
check-fails :
    (c : CapSystem) (perm : ℕ)
    → FreeAreEmpty c
    → c.lock ≡ 0
    → (r : ℤ) × (cap_check 0 1 perm c ≡ ok r c) × (is_success r ≡ false)
check-fails c perm empty free = elim (Option-cases (cap_get_domain c 0)) [
  | inl e ↦ (minus_one, check-none c perm free e, refl)
  | inr (i, e) ↦
      (minus_two, check-some c perm i free e (holds-none c i empty (found-free c i e)), refl)
]

denied-runs :
    (s : Paging) (domain_id virt phys size : ℕ) (type : MapType) (r : ℤ)
    → leb max_domains domain_id ≡ false
    → cap_check 0 cap_type_memory (bit_or cap_perm_read cap_perm_write) s.caps ≡ ok r s.caps
    → is_success r ≡ false
    → isolation_map_memory domain_id virt phys size type 0 s ≡ ok minus_one s
unfolding isolation_map_memory
denied-runs s domain_id virt phys size type r n e f = ground (arith, n, e, f)

-- `isolation_map_memory` with the capability id 0 answers -1 and changes nothing, for every domain,
-- address, size and type.
pub map_memory-denied :
    (s : Paging) (domain_id virt phys size : ℕ) (type : MapType)
    → FreeAreEmpty s.caps
    → s.caps.lock ≡ 0
    → isolation_map_memory domain_id virt phys size type 0 s ≡ ok minus_one s
unfolding isolation_map_memory
map_memory-denied s domain_id virt phys size type empty free =
    let (r, e, f) = check-fails s.caps (bit_or cap_perm_read cap_perm_write) empty free in
    elim (Bool-cases (leb max_domains domain_id)) [
      | inl y ↦ rw y refl
      | inr n ↦ denied-runs s domain_id virt phys size type r n e f
    ]

-- With the free slots of the domain table empty and the capability system's lock free, the three
-- functions that set up the mappings of a domain always fail, and change nothing.
pub setup_maps-fail :
    (s : Paging) (domain_id start size flags : ℕ)
    → FreeAreEmpty s.caps
    → s.caps.lock ≡ 0
    → (pt_setup_identity_map domain_id start size s ≡ ok minus_one s)
      × (pt_setup_kernel_map domain_id start size s ≡ ok minus_one s)
      × (pt_setup_user_map domain_id start size s ≡ ok minus_one s)
unfolding pt_setup_identity_map pt_setup_kernel_map pt_setup_user_map
setup_maps-fail s domain_id start size flags empty free = (
  map_memory-denied s domain_id start start size map_type_data empty free,
  map_memory-denied s domain_id kernel_code_base start size map_type_code empty free,
  map_memory-denied s domain_id user_base start size map_type_data empty free,
)
