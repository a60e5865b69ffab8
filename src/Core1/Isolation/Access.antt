-- ===== src/Core1/Isolation/Access.antt =====
-- What `isolation_verify_access` of Core-1/isolation/isolation.c grants.
use hik.Prelude.{
  ℕ, ◌+◌, ◌-◌, ◌^◌, ◌≤◌, ◌<◌, bit_and, ◌≡◌, ◌≢◌, ◌↔◌, inl, inr, Bool, true, false, none, some,
  arith, ◌==◌, Option-cases, Nat-cases, first-some, first-eq_some, first_found, ok, u64,
}
use hik.Core1.Isolation.{IsolationContext, isolation_verify_access, find_span, spans}
use hik.Core1.Isolation.Regions.{IsSound}

-- Region `i` holds all of the bytes from `addr` to `addr + size`, and grants all of `required`.
pub record Grants (s : IsolationContext) (addr size required i : ℕ) : Type 0 where
  pub used : i < s.num_regions
  pub from : (s.regions i).phys_base ≤ addr
  pub to : addr + size ≤ (s.regions i).phys_base + (s.regions i).size
  pub covered : (bit_and (s.regions i).permissions required == required) ≡ true

-- The decision of an enabled check.
pub decision : IsolationContext → ℕ → ℕ → ℕ → Bool
decision s addr size required = elim (find_span addr size s) [
  | none ↦ false
  | some i ↦ bit_and (s.regions i).permissions required == required
]

pub verify-decision :
    (s : IsolationContext) (addr size required : ℕ)
    → s.lock ≡ 0
    → s.enabled ≢ 0
    → isolation_verify_access addr size required s ≡ ok (decision s addr size required) s
unfolding isolation_verify_access decision find_span
verify-decision s addr size required free on = ground arith

find_span-some :
    (s : IsolationContext) (addr size i : ℕ)
    → find_span addr size s ≡ some i
    → (i < s.num_regions) × (spans addr size (s.regions i) ≡ true)
unfolding find_span
find_span-some s addr size i e =
    let f = first-some s.num_regions (λ i. spans addr size (s.regions i)) i e in (f.0, f.1)

find_span_found :
    (s : IsolationContext) (addr size i : ℕ)
    → i < s.num_regions
    → spans addr size (s.regions i) ≡ true
    → (r : ℕ) × (find_span addr size s ≡ some r)
unfolding find_span
find_span_found s addr size i l e =
    first_found s.num_regions (λ i. spans addr size (s.regions i)) i l e

module _ (s : IsolationContext) (addr size required : ℕ) (v : IsSound s)
    (small : addr + size < 2 ^ 64) where
  spans_iff :
      (i : ℕ)
      → i < s.num_regions
      → (spans addr size (s.regions i) ≡ true) ↔ (
          ((s.regions i).phys_base ≤ addr)
          × (addr + size ≤ (s.regions i).phys_base + (s.regions i).size))
  unfolding spans
  spans_iff i l =
      let b = v.bounded i l in
      let d = v.identity i l in
      let e : u64 (addr + size) ≡ addr + size = omega arith in
      let f : u64 ((s.regions i).phys_base + (s.regions i).size)
          ≡ (s.regions i).phys_base + (s.regions i).size =
        omega arith in
      (λ h. (ground arith, ground arith), λ h. ground arith)

  -- No two regions hold the same byte.
  spans_unique :
      (i j : ℕ)
      → 0 < size
      → i < s.num_regions
      → j < s.num_regions
      → spans addr size (s.regions i) ≡ true
      → spans addr size (s.regions j) ≡ true
      → i ≡ j
  spans_unique i j nonempty li lj hi hj =
      let a = (spans_iff i li).0 hi in
      let b = (spans_iff j lj).0 hj in
      elim (Nat-cases i j) [
        | inl lt ↦ let c = v.apart i j lt lj in absurd (omega arith)
        | inr (inl eq) ↦ eq
        | inr (inr gt) ↦ let c = v.apart j i gt li in absurd (omega arith)
      ]

  pub decision-Grants :
      decision s addr size required ≡ true → (i : ℕ) × Grants s addr size required i
  unfolding decision
  decision-Grants h = elim (Option-cases (find_span addr size s)) [
    | inl e ↦ absurd (ground arith)
    | inr (i, e) ↦
        let f = find_span-some s addr size i e in
        let a = (spans_iff i f.0).0 f.1 in
        (i, record { used = f.0; from = a.0; to = a.1; covered = ground arith })
  ]

  pub Grants-decision :
      0 < size → (i : ℕ) × Grants s addr size required i → decision s addr size required ≡ true
  unfolding decision
  Grants-decision nonempty (i, g) =
      let here = (spans_iff i g.used).1 (g.from, g.to) in
      let (j, e) = find_span_found s addr size i g.used here in
      let f = find_span-some s addr size j e in
      let q = spans_unique j i nonempty f.0 g.used f.1 here in ground (arith, g.covered)

-- With isolation enabled, the lock free and the regions sound, `isolation_verify_access` of at least
-- one byte below 2 ^ 64 returns, changes nothing, and grants the access exactly when one region
-- holds every byte of it and grants every permission that is required.
pub verify_access_iff :
    (s : IsolationContext) (addr size required : ℕ)
    → s.lock ≡ 0
    → s.enabled ≢ 0
    → IsSound s
    → 0 < size
    → addr + size < 2 ^ 64
    → (b : Bool) × (isolation_verify_access addr size required s ≡ ok b s)
      × ((b ≡ true) ↔ ((i : ℕ) × Grants s addr size required i))
verify_access_iff s addr size required free on v nonempty small = (
  decision s addr size required,
  verify-decision s addr size required free on,
  (
    decision-Grants s addr size required v small,
    Grants-decision s addr size required v small nonempty,
  ),
)

-- `addr + size` wraps: an access that starts at or above the end of the first region and runs over
-- the end of the address space is granted, if it comes down again inside that region's bounds and
-- the region has the permissions.
pub verify_access_wraps :
    (s : IsolationContext) (addr size required : ℕ)
    → s.lock ≡ 0
    → s.enabled ≢ 0
    → IsSound s
    → 0 < s.num_regions
    → (s.regions 0).phys_base + (s.regions 0).size ≤ addr
    → addr < 2 ^ 64
    → 2 ^ 64 ≤ addr + size
    → addr + size ≤ 2 ^ 64 + (s.regions 0).phys_base + (s.regions 0).size
    → (bit_and (s.regions 0).permissions required == required) ≡ true
    → isolation_verify_access addr size required s ≡ ok true s
unfolding decision spans find_span
verify_access_wraps s addr size required free on v some_region outside below wraps down covered =
    let d = v.identity 0 some_region in
    let b = v.bounded 0 some_region in
    let e : u64 (addr + size) ≡ addr + size - 2 ^ 64 = omega arith in
    let f : u64 ((s.regions 0).phys_base + (s.regions 0).size)
        ≡ (s.regions 0).phys_base + (s.regions 0).size =
      omega arith in
    let hit : find_span addr size s ≡ some 0 =
      first-eq_some s.num_regions (λ i. spans addr size (s.regions i)) 0 some_region (ground arith)
        (λ k l. elim l [ ]) in
    ground (arith, verify-decision s addr size required free on)
