-- ===== src/Core1/Isolation/Regions.antt =====
-- The regions of Core-1/isolation/isolation.c never overlap.
use hik.Prelude.{
  ℕ, suc, ◌+◌, ◌^◌, ◌≤◌, ◌<◌, ◌≡◌, refl, ◌⊎◌, inl, inr, false, none, some, arith, ltb, ◌==◌,
  Bool-cases, Option-cases, update, first-some, first-none, ok, Returns, u32, u64, success,
  minus_one, minus_two,
}
use hik.Core1.Isolation.{
  IsolationContext, MemRegion, max_mem_regions, isolation_add_region, find_overlap, overlaps,
  new_region,
}

-- One region ends before the other begins.
abbrev pub Apart : MemRegion → MemRegion → Type 0
Apart r q = (r.phys_base + r.size ≤ q.phys_base) ⊎ (q.phys_base + q.size ≤ r.phys_base)

-- At most 16 regions, identity mapped, none of which reaches the end of the address space, and no
-- two of which overlap.
pub record IsSound (s : IsolationContext) : Type 0 where
  pub fits : s.num_regions ≤ max_mem_regions
  pub identity : (i : ℕ) → i < s.num_regions → (s.regions i).virt_base ≡ (s.regions i).phys_base
  pub bounded : (i : ℕ) → i < s.num_regions → (s.regions i).phys_base + (s.regions i).size < 2 ^ 64
  pub apart : (i j : ℕ) → i < j → j < s.num_regions → Apart (s.regions i) (s.regions j)

pub overlaps-Apart :
    (base size : ℕ) (r : MemRegion)
    → base + size < 2 ^ 64
    → r.phys_base + r.size < 2 ^ 64
    → overlaps base size r ≡ false
    → (r.phys_base + r.size ≤ base) ⊎ (base + size ≤ r.phys_base)
unfolding overlaps
overlaps-Apart base size r b c h =
    let e : u64 (r.phys_base + r.size) ≡ r.phys_base + r.size = omega arith in
    let f : u64 (base + size) ≡ base + size = omega arith in ground arith

pub Apart-overlaps :
    (q r : MemRegion)
    → q.phys_base + q.size < 2 ^ 64
    → r.phys_base + r.size < 2 ^ 64
    → Apart q r
    → overlaps q.phys_base q.size r ≡ false
unfolding overlaps
Apart-overlaps q r b c h =
    let e : u64 (r.phys_base + r.size) ≡ r.phys_base + r.size = omega arith in
    let f : u64 (q.phys_base + q.size) ≡ q.phys_base + q.size = omega arith in ground arith

add_some :
    (s : IsolationContext) (ty b z p c i : ℕ)
    → s.lock ≡ 0
    → s.num_regions < max_mem_regions
    → find_overlap b z s ≡ some i
    → isolation_add_region ty b z p c s ≡ ok minus_two (record s { lock = 0 })
unfolding isolation_add_region find_overlap
add_some s ty b z p c i free room e = ground arith

abbrev pub added : MemRegion → IsolationContext → IsolationContext
added r s = record s {
  regions = update s.regions s.num_regions r;
  num_regions = u32 (s.num_regions + 1);
  lock = 0;
}

add_none :
    (s : IsolationContext) (ty b z p c : ℕ)
    → s.lock ≡ 0
    → s.num_regions < max_mem_regions
    → find_overlap b z s ≡ none
    → isolation_add_region ty b z p c s ≡ ok success (added (new_region ty b z p c) s)
unfolding isolation_add_region find_overlap
add_none s ty b z p c free room e = ground arith

-- A region that ends below 2 ^ 64 and is apart from those in the table is added behind them.
pub isolation_add_region-adds :
    (s : IsolationContext) (ty b z p c : ℕ)
    → s.lock ≡ 0
    → s.num_regions < max_mem_regions
    → b + z < 2 ^ 64
    → ((i : ℕ)
        → i < s.num_regions
        → ((s.regions i).phys_base + (s.regions i).size < 2 ^ 64)
          × Apart (new_region ty b z p c) (s.regions i))
    → isolation_add_region ty b z p c s ≡ ok success (added (new_region ty b z p c) s)
unfolding find_overlap
isolation_add_region-adds s ty b z p c free room small h =
    elim (Option-cases (find_overlap b z s)) [
      | inl e ↦ add_none s ty b z p c free room e
      | inr (i, e) ↦
          let r = first-some s.num_regions (λ j. overlaps b z (s.regions j)) i e in
          let k = h i r.0 in
          let no = Apart-overlaps (new_region ty b z p c) (s.regions i) small k.0 k.1 in
          absurd (ground (arith, r.1, no))
    ]

add_full :
    (s : IsolationContext) (ty b z p c : ℕ)
    → max_mem_regions ≤ s.num_regions
    → isolation_add_region ty b z p c s ≡ ok minus_one s
unfolding isolation_add_region
add_full s ty b z p c full = ground arith

pub released-IsSound : (s : IsolationContext) → IsSound s → IsSound (record s { lock = 0 })
released-IsSound s v = record {
  fits = v.fits;
  identity = v.identity;
  bounded = v.bounded;
  apart = v.apart;
}

added-IsSound :
    (s : IsolationContext) (ty b z p c : ℕ)
    → IsSound s
    → s.num_regions < max_mem_regions
    → b + z < 2 ^ 64
    → find_overlap b z s ≡ none
    → IsSound (added (new_region ty b z p c) s)
unfolding find_overlap
added-IsSound s ty b z p c v room small e =
    let n : u32 (s.num_regions + 1) ≡ suc s.num_regions = omega arith in
    record {
      fits = omega arith;
      identity = λ i l. ground (arith, v.identity i);
      bounded = λ i l. ground (arith, v.bounded i);
      apart = λ i j m l. elim (Bool-cases (s.num_regions == j)) [
        | inl last ↦
            let q : s.num_regions ≡ j = ground arith in
            let free =
              first-none s.num_regions (λ k. overlaps b z (s.regions k)) e i (omega arith) in
            ground
              (arith, q, overlaps-Apart b z (s.regions i) small (v.bounded i (omega arith)) free)
        | inr old ↦ ground (arith, v.apart i j m)
      ];
    }

-- `isolation_add_region` of a region that ends below 2 ^ 64, with the lock free, returns and keeps
-- the regions sound: the new one overlaps none of the old ones.
pub isolation_add_region-IsSound :
    (s : IsolationContext) (ty b z p c : ℕ)
    → s.lock ≡ 0
    → IsSound s
    → b + z < 2 ^ 64
    → Returns (λ r t. IsSound t × (t.lock ≡ 0)) (isolation_add_region ty b z p c s)
isolation_add_region-IsSound s ty b z p c free v small =
    elim (Bool-cases (ltb s.num_regions max_mem_regions)) [
      | inr full ↦ rw (add_full s ty b z p c (ground arith)) (v, free)
      | inl room ↦ elim (Option-cases (find_overlap b z s)) [
        | inr (i, e) ↦
            rw (add_some s ty b z p c i free (ground arith) e) (released-IsSound s v, refl)
        | inl e ↦
            rw (add_none s ty b z p c free (ground arith) e)
              (added-IsSound s ty b z p c v (ground arith) small e, refl)
      ]
    ]
