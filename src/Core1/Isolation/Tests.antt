-- ===== src/Core1/Isolation/Tests.antt =====
-- Runs of Core-1/isolation/isolation.c on small inputs, and the theorems at such inputs.
use hik.Prelude.{
  ◌≢◌, ◌⊎◌, minus_one, ℕ, ◌+◌, ◌≤◌, ◌<◌, bit_and, ◌≡◌, refl, ◌≢◌, ◌↔◌, ◌⊎◌, inl, inr, Bool, true,
  false, Option, none, some, arith, ◌==◌, Bool-cases, update, first, Run, ok, hang, fault, and_then,
  Returns, success, minus_two,
}
use hik.Core1.Isolation.{
  isolation_remove_region, IsolationContext, Machine, new_region, zero_region, isolation_add_region,
  isolation_verify_access, isolation_read, isolation_write, find_overlap, find_span, overlaps,
  spans, mem_perm_read, mem_perm_write,
}
use hik.Core1.Isolation.Remove.{Removed, isolation_remove_region_lem}
use hik.Core1.Isolation.Regions.{IsSound, isolation_add_region-IsSound}
use hik.Core1.Isolation.Access.{Grants, verify_access_iff}
use hik.Core1.Isolation.Bulk.{isolation_memcpy, isolation_memcpy_lem}
use hik.Core1.Isolation.Memory.{isolation_write-read}

-- Two regions: one for reading and writing, and one for reading only.
abbrev two_regions : IsolationContext
two_regions = record {
  service_id = 1;
  domain_id = 1;
  regions =
      update (update (λ _. zero_region) 0 (new_region 1 0x1000 0x1000 3 7)) 1
        (new_region 2 0x4000 0x1000 1 8);
  num_regions = 2;
  lock = 0;
  enabled = 1;
}

status : {A : Type 0} → Run IsolationContext A → Option A
status (ok a s) = some a
status hang = none
status fault = none

clash : status (isolation_add_region 1 0x1800 0x1000 3 9 two_regions) ≡ some minus_two
unfolding status isolation_add_region find_overlap overlaps first
clash = refl

read_only : status (isolation_verify_access 0x4000 8 mem_perm_write two_regions) ≡ some false
unfolding status isolation_verify_access find_span spans first
read_only = refl

two_regions-IsSound : IsSound two_regions
two_regions-IsSound = record {
  fits = ground arith;
  identity = λ i l. elim (Bool-cases (i == 0)) [
    | inl e ↦ let q : i ≡ 0 = ground arith in rw q refl
    | inr e ↦ let q : i ≡ 1 = ground arith in rw q refl
  ];
  bounded = λ i l. elim (Bool-cases (i == 0)) [
    | inl e ↦ let q : i ≡ 0 = ground arith in rw q (ground arith)
    | inr e ↦ let q : i ≡ 1 = ground arith in rw q (ground arith)
  ];
  apart = λ i j m l.
      let p : i ≡ 0 = ground arith in
      let q : j ≡ 1 = ground arith in rw (p, q) (inl (ground arith));
}

first_Grants :
    (required : ℕ)
    → (bit_and 3 required == required) ≡ true
    → Grants two_regions 0x1ff8 8 required 0
first_Grants required e = record {
  used = ground arith;
  from = ground arith;
  to = ground arith;
  covered = e;
}

isolation_add_region-IsSound_example :
    Returns (λ r t. IsSound t × (t.lock ≡ 0)) (isolation_add_region 1 0x2000 0x1000 3 9 two_regions)
isolation_add_region-IsSound_example =
    isolation_add_region-IsSound two_regions 1 0x2000 0x1000 3 9 refl two_regions-IsSound
      (ground arith)

verify_access_iff_example :
    (b : Bool) × (isolation_verify_access 0x1ff8 8 mem_perm_read two_regions ≡ ok b two_regions)
    × ((b ≡ true) ↔ ((i : ℕ) × Grants two_regions 0x1ff8 8 mem_perm_read i))
verify_access_iff_example =
    verify_access_iff two_regions 0x1ff8 8 mem_perm_read refl (ground arith) two_regions-IsSound
      (ground arith) (ground arith)

abbrev machine : Machine
machine = record { context = two_regions; memory = λ _. 0 }

isolation_write-read_example :
    Returns
      (λ r t. (r ≡ 0x123456) × ((k : ℕ) → (k < 0x1ff8) ⊎ (0x1ff8 + 8 ≤ k) → t.memory k ≡ 0))
      (and_then (isolation_write 8 0x1ff8 0x123456 machine) (λ _. isolation_read 8 0x1ff8))
isolation_write-read_example =
    isolation_write-read machine 8 0x1ff8 0x123456 0 0 refl (ground arith) two_regions-IsSound
      (ground arith) (ground arith) (ground arith) (first_Grants mem_perm_write refl)
      (first_Grants mem_perm_read refl)

-- The bytes are in the region that is read-only.
not_writable : (i : ℕ) → ¬ Grants two_regions 0x4000 8 mem_perm_write i
not_writable i g = elim (Bool-cases (i == 0)) [
  | inl e ↦ let q : i ≡ 0 = ground arith in absurd (ground (arith, q, g.from, g.to))
  | inr e ↦ let l = g.used in let q : i ≡ 1 = ground arith in absurd (ground (arith, q, g.covered))
]

-- From the region that is read-only to the other one.
isolation_memcpy_lem_example :
    Returns
      (λ r t.
        ((r ≡ success) ↔ (
          ((i : ℕ) × Grants two_regions 0x4000 8 mem_perm_read i)
          × ((j : ℕ) × Grants two_regions 0x1000 8 mem_perm_write j)))
        × (r ≡ success
            → ((k : ℕ) → k < 8 → t.memory (0x1000 + k) ≡ 0)
              × ((k : ℕ) → (k < 0x1000) ⊎ (0x1000 + 8 ≤ k) → t.memory k ≡ 0))
        × (r ≢ success → t ≡ machine))
      (isolation_memcpy 0x1000 0x4000 8 machine)
isolation_memcpy_lem_example =
    isolation_memcpy_lem machine 0x1000 0x4000 8 refl (ground arith) two_regions-IsSound
      (ground arith) (ground arith) (ground arith) (ground arith) (ground arith)
      (inr (ground arith))

isolation_remove_region_lem_example :
    Returns
      (λ r t.
        IsSound t
        × (t.lock ≡ 0)
        × (((r ≡ minus_one)
              × (t ≡ record two_regions { lock = 0 })
              × ((i : ℕ) → i < 2 → (two_regions.regions i).phys_base ≢ 0x1000))
            ⊎ ((r ≡ success) × ((i : ℕ) × Removed two_regions t 0x1000 i))))
      (isolation_remove_region 0x1000 two_regions)
isolation_remove_region_lem_example =
    isolation_remove_region_lem two_regions 0x1000 refl two_regions-IsSound
