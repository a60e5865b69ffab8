-- ===== src/Core1/Start/Regions.antt =====
-- The four regions that `core1_init` of Core-1/core1.c adds for a service.

use hik.Prelude.{
  inr, inl, ◌==◌, Bool-cases, refl, ok, ℕ, success, ◌+◌, ◌*◌, ◌^◌, ◌≤◌, ◌<◌, ◌⊎◌, ◌≡◌, arith,
  Returns, Returns-and_then,
}
use hik.Blocks.{header_size}
use hik.Core1.Isolation.{
  MemRegion, new_region, isolation_add_region, isolation_init, IsolationContext,
}
use hik.Core1.Isolation.Regions.{
  isolation_add_region-adds, added, IsSound, isolation_add_region-IsSound,
}
use hik.Core1.Start.{ServiceInfo, add_regions}

-- The bytes of one range end before those of the other begin.
abbrev pub Disjoint : (base size other_base other_size : ℕ) → Type 0
Disjoint b z c y = (b + z ≤ c) ⊎ (c + y ≤ b)

-- The regions of the service end below 2 ^ 64 and lie apart, and its heap has room for two headers,
-- begins behind the null pointer and ends 33 bytes before the end of the address space.
pub record IsInfo (info : ServiceInfo) : Type 0 where
  pub code_ends : info.code_base + info.code_size < 2 ^ 64
  pub data_ends : info.data_base + info.data_size < 2 ^ 64
  pub stack_ends : info.stack_base + info.stack_size < 2 ^ 64
  pub heap_start : 0 < info.heap_base
  pub heap_room : header_size * 2 ≤ info.heap_size
  pub heap_ends : info.heap_base + info.heap_size + 33 ≤ 2 ^ 64
  pub data_code : Disjoint info.data_base info.data_size info.code_base info.code_size
  pub stack_code : Disjoint info.stack_base info.stack_size info.code_base info.code_size
  pub stack_data : Disjoint info.stack_base info.stack_size info.data_base info.data_size
  pub heap_code : Disjoint info.heap_base info.heap_size info.code_base info.code_size
  pub heap_data : Disjoint info.heap_base info.heap_size info.data_base info.data_size
  pub heap_stack : Disjoint info.heap_base info.heap_size info.stack_base info.stack_size

abbrev pub Fine : {A : Type 0} → A → IsolationContext → Type 0
Fine _ t = IsSound t × (t.lock ≡ 0)

pub add_regions-IsSound :
    (info : ServiceInfo) (s : IsolationContext)
    → IsInfo info
    → IsSound s
    → s.lock ≡ 0
    → Returns Fine (add_regions info s)
unfolding add_regions
add_regions-IsSound info s v w free =
    Returns-and_then Fine Fine _ _
      (isolation_add_region-IsSound s 0 info.code_base info.code_size 5 0 free w v.code_ends)
      (λ _ s1 h1.
        Returns-and_then Fine Fine _ _
          (isolation_add_region-IsSound s1 1 info.data_base info.data_size 3 0 h1.1 h1.0
            v.data_ends)
          (λ _ s2 h2.
            Returns-and_then Fine Fine _ _
              (isolation_add_region-IsSound s2 2 info.stack_base info.stack_size 3 0 h2.1 h2.0
                v.stack_ends)
              (λ _ s3 h3.
                Returns-and_then Fine Fine _ _
                  (isolation_add_region-IsSound s3 3 info.heap_base info.heap_size 3 0 h3.1 h3.0
                    (omega (arith, v.heap_ends)))
                  (λ _ s4 h4. h4))))

-- The four regions: readable, and the code executable, the other ones writable.
abbrev pub code_region : ServiceInfo → MemRegion
code_region info = new_region 0 info.code_base info.code_size 5 0

abbrev pub data_region : ServiceInfo → MemRegion
data_region info = new_region 1 info.data_base info.data_size 3 0

abbrev pub stack_region : ServiceInfo → MemRegion
stack_region info = new_region 2 info.stack_base info.stack_size 3 0

abbrev pub heap_region : ServiceInfo → MemRegion
heap_region info = new_region 3 info.heap_base info.heap_size 3 0

-- The table with the four regions, added one after the other.
abbrev pub added_all : ServiceInfo → IsolationContext → IsolationContext
added_all info s =
    added (heap_region info)
      (added (stack_region info) (added (data_region info) (added (code_region info) s)))

module _ (info : ServiceInfo) (v : IsInfo info) (s : IsolationContext) (free : s.lock ≡ 0)
    (none_yet : s.num_regions ≡ 0) where
  code_adds :
      isolation_add_region 0 info.code_base info.code_size 5 0 s
      ≡ ok success (added (code_region info) s)
  code_adds =
      isolation_add_region-adds s 0 info.code_base info.code_size 5 0 free (omega arith) v.code_ends
        (λ i l. absurd (omega arith))

  data_adds :
      let t = added (code_region info) s in
      isolation_add_region 1 info.data_base info.data_size 3 0 t
      ≡ ok success (added (data_region info) t)
  data_adds =
      let t = added (code_region info) s in
      isolation_add_region-adds t 1 info.data_base info.data_size 3 0 refl (omega arith) v.data_ends
        (λ i l. let z : i ≡ 0 = omega arith in rw (z, none_yet) (v.code_ends, v.data_code))

  stack_adds :
      let t = added (data_region info) (added (code_region info) s) in
      isolation_add_region 2 info.stack_base info.stack_size 3 0 t
      ≡ ok success (added (stack_region info) t)
  stack_adds =
      let t = added (data_region info) (added (code_region info) s) in
      isolation_add_region-adds t 2 info.stack_base info.stack_size 3 0 refl
        (rw none_yet (omega arith)) v.stack_ends
        (λ i l. elim (Bool-cases (i == 0)) [
          | inl y ↦ let z : i ≡ 0 = ground arith in rw (z, none_yet) (v.code_ends, v.stack_code)
          | inr n ↦
              let z : i ≡ 1 = ground (arith, l, none_yet) in
              rw (z, none_yet) (v.data_ends, v.stack_data)
        ])

  heap_adds :
      let t = added (stack_region info) (added (data_region info) (added (code_region info) s)) in
      isolation_add_region 3 info.heap_base info.heap_size 3 0 t
      ≡ ok success (added (heap_region info) t)
  heap_adds =
      let t = added (stack_region info) (added (data_region info) (added (code_region info) s)) in
      isolation_add_region-adds t 3 info.heap_base info.heap_size 3 0 refl
        (rw none_yet (omega arith)) (omega (arith, v.heap_ends))
        (λ i l. elim (Bool-cases (i == 0)) [
          | inl y ↦ let z : i ≡ 0 = ground arith in rw (z, none_yet) (v.code_ends, v.heap_code)
          | inr n ↦ elim (Bool-cases (i == 1)) [
            | inl y ↦ let z : i ≡ 1 = ground arith in rw (z, none_yet) (v.data_ends, v.heap_data)
            | inr m ↦
                let z : i ≡ 2 = ground (arith, l, none_yet) in
                rw (z, none_yet) (v.stack_ends, v.heap_stack)
          ]
        ])

  pub add_regions-adds : add_regions info s ≡ ok tt (added_all info s)
  unfolding add_regions
  add_regions-adds = rw (code_adds, data_adds, stack_adds, heap_adds) refl

pub zero-IsSound :
    (service_id domain_id : ℕ) (s : IsolationContext)
    → Returns
        (λ r t. (r ≡ success) × Fine r t × (t.num_regions ≡ 0))
        (isolation_init service_id domain_id s)
unfolding isolation_init
zero-IsSound service_id domain_id s = (
  refl,
  (
    record {
      fits = omega arith;
      identity = λ i l. absurd (omega arith);
      bounded = λ i l. absurd (omega arith);
      apart = λ i j m l. absurd (omega arith);
    },
    refl,
  ),
  refl,
)

-- Where the four regions are, in a table that was empty.
pub added_all-parts :
    (info : ServiceInfo) (s : IsolationContext)
    → s.num_regions ≡ 0
    → let t = added_all info s in
      (t.num_regions ≡ 4)
      × (t.regions 0 ≡ code_region info)
      × (t.regions 1 ≡ data_region info)
      × (t.regions 2 ≡ stack_region info)
      × (t.regions 3 ≡ heap_region info)
added_all-parts info s e = rw e (refl, refl, refl, refl, refl)
