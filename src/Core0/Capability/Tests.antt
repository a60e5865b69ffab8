-- ===== src/Core0/Capability/Tests.antt =====
-- Runs of Core-0/capability/capability.c on small inputs, and the theorems at such inputs.
use hik.Prelude.{
  ℕ, ◌-◌, ◌≡◌, refl, ◌≢◌, ◌↔◌, inl, inr, some, arith, ◌==◌, Bool-cases, update, first, count, Run,
  ok, hang, fault, Cmd, and_then, ◌>>=◌, ◌>>◌, Returns, ℤ, success, minus_three,
}
use hik.Core0.Capability.{
  CapSystem, Domain, cap_init, cap_create, cap_delete, cap_grant, cap_revoke, cap_check,
  cap_create_domain, cap_delete_domain, cap_derive, cap_get_domain, cap_get_capability, free_slot,
  free_domain, holds, cap_domain_add_cap, cap_domain_remove_cap, cap_type_memory, new_capability,
  new_domain, zero_capability, zero_domain,
}
use hik.Core0.Capability.Lookup.{Allowed, cap_check_iff}
use hik.Core0.Capability.Locks.{cap_delete_domain_hangs}
use hik.Core0.Capability.Space.{
  IsDense, caps, add_handle, remove_handle, cap_domain_add_cap_refines,
  cap_domain_remove_cap_refines,
}
use hik.Core0.Capability.Invariant.{IsConsistent, Preserves}
use hik.Core0.Capability.Preservation.{operations-IsConsistent}
use hik.Core0.Capability.Aliasing.{
  IsSequential, cap_create-get, deleted_handle_revives, cap_delete-revokes,
}

result_of : {A : Type 0} → Run CapSystem A → Run (Unit {0}) A
result_of (ok a s) = ok a tt
result_of hang = hang
result_of fault = fault

-- One domain with two capabilities, the second read-only.
two_caps : Cmd CapSystem ℕ
unfolding cap_init cap_create cap_create_domain free_slot free_domain cap_get_domain
    cap_domain_add_cap first
two_caps = do
  cap_init
  d ← cap_create_domain 0x1000 0x1000
  cap_create cap_type_memory 0x1f 7 0x1000 0x1000 d
  cap_create cap_type_memory 0x01 8 0x2000 0x1000 d

abbrev blank : CapSystem
blank = record {
  capabilities = λ _. zero_capability;
  domains = λ _. zero_domain;
  next_cap_handle = 0;
  next_domain_id = 0;
  num_caps = 0;
  num_domains = 0;
  lock = 0;
}

created : result_of (two_caps blank) ≡ ok 2 tt
unfolding result_of two_caps
created = refl

check_second : result_of ((two_caps >> cap_check 1 2 0x03) blank) ≡ ok minus_three tt
unfolding result_of two_caps cap_check holds cap_get_capability
check_second = refl

derive_hangs : result_of ((two_caps >> cap_derive 1 1) blank) ≡ hang
unfolding result_of two_caps cap_derive cap_get_capability
derive_hangs = refl

-- Domain 1 in slot 0 owns the capability with handle 1, which is in slot 0.
abbrev owner : Domain
owner = record (new_domain 1 0x1000 0x1000) { cap_space = update (λ _. 0) 0 1; num_caps = 1 }

abbrev owned : CapSystem
owned = record {
  capabilities =
      update (λ _. zero_capability) 0 (new_capability cap_type_memory 0x1f 7 0x1000 0x1000 1);
  domains = update (λ _. zero_domain) 0 owner;
  next_cap_handle = 2;
  next_domain_id = 2;
  num_caps = 1;
  num_domains = 1;
  lock = 0;
}

owner_found : cap_get_domain owned 1 ≡ some 0
unfolding cap_get_domain first
owner_found = refl

cap_found : cap_get_capability owned 1 ≡ some 0
unfolding cap_get_capability first
cap_found = refl

slot_found : free_slot owned ≡ some 1
unfolding free_slot first
slot_found = refl

owner-IsDense : IsDense owner
owner-IsDense = record { fits = ground arith; clear = λ k l. ground arith }

owned-IsConsistent : IsConsistent owned
unfolding count
owned-IsConsistent = record {
  caps_counted = refl;
  domains_counted = refl;
  dense = λ i. elim (Bool-cases (0 == i)) [
    | inl e ↦ rw e owner-IsDense
    | inr e ↦ rw e (record { fits = ground arith; clear = λ k l. refl })
  ];
}

owned-IsSequential : IsSequential owned
owned-IsSequential = record {
  some_given = ground arith;
  fits = ground arith;
  live = λ k l. ground arith;
  dead = λ k l. ground arith;
}

cap_check_iff_example :
    (r : ℤ) × (cap_check 1 1 0x03 owned ≡ ok r owned) × ((r ≡ success) ↔ Allowed owned 1 1 0x03)
cap_check_iff_example = cap_check_iff owned 1 1 0x03 refl

cap_delete_domain_hangs_example : cap_delete_domain 1 owned ≡ hang
cap_delete_domain_hangs_example =
    cap_delete_domain_hangs owned 1 0 0 refl owner_found (ground arith) (ground arith)

cap_domain_add_cap_refines_example :
    let (r, t) = cap_domain_add_cap 1 5 owned in
    ((r, caps (t.domains 0)) ≡ add_handle 5 (caps owner))
    × IsDense (t.domains 0)
    × ((k : ℕ) → k ≢ 0 → t.domains k ≡ owned.domains k)
cap_domain_add_cap_refines_example =
    cap_domain_add_cap_refines owned 1 5 0 owner_found owner-IsDense

cap_domain_remove_cap_refines_example :
    let (r, t) = cap_domain_remove_cap 1 1 owned in
    ((r, caps (t.domains 0)) ≡ remove_handle 1 (caps owner))
    × IsDense (t.domains 0)
    × ((k : ℕ) → k ≢ 0 → t.domains k ≡ owned.domains k)
cap_domain_remove_cap_refines_example =
    cap_domain_remove_cap_refines owned 1 1 0 owner_found owner-IsDense

operations-IsConsistent_example :
    Preserves (cap_create cap_type_memory 3 7 0 0 1) owned
    × Preserves (cap_delete 1) owned
    × Preserves (cap_grant 1 1) owned
    × Preserves (cap_revoke 1 1) owned
    × Preserves (cap_create_domain 0 0) owned
operations-IsConsistent_example =
    operations-IsConsistent owned cap_type_memory 3 7 0 0 1 1 refl owned-IsConsistent (ground arith)

cap_create-get_example :
    Returns
      (λ h t.
        (h ≡ 2)
        × (cap_get_capability t h ≡ some (h - 1))
        × (t.capabilities (h - 1) ≡ new_capability cap_type_memory 3 7 0 0 1)
        × IsSequential t)
      (cap_create cap_type_memory 3 7 0 0 1 owned)
cap_create-get_example =
    cap_create-get owned cap_type_memory 3 7 0 0 1 refl owned-IsSequential (ground arith)

deleted_handle_revives_example :
    Returns
      (λ _ u.
        (cap_get_capability u 1 ≡ some 0)
        × (u.capabilities 0 ≡ new_capability cap_type_memory 3 7 0 0 9))
      (and_then (cap_delete 1 owned) (λ _. cap_create cap_type_memory 3 7 0 0 9))
deleted_handle_revives_example =
    deleted_handle_revives owned 1 0 cap_type_memory 3 7 0 0 9 refl (ground arith) cap_found
      (λ k l. absurd (ground arith))

cap_delete-revokes_example :
    Returns (λ r t. r ≡ success → (d p : ℕ) → ¬ Allowed t d 1 p) (cap_delete 1 owned)
cap_delete-revokes_example = cap_delete-revokes owned 1 refl
