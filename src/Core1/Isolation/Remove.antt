-- ===== src/Core1/Isolation/Remove.antt =====
-- What `isolation_remove_region` of Core-1/isolation/isolation.c leaves of the regions.
use hik.Prelude.{
  ℕ, zero, suc, ◌+◌, ◌-◌, ◌≤◌, ◌<◌, ◌≡◌, ◌≢◌, ◌∙◌, refl, ◌⊎◌, inl, inr, ◌&&◌, none, some, arith,
  ltb, leb, ◌==◌, if◌then◌else◌, Option-cases, update, first-some, first-none, ok, Returns, dec32,
  success, minus_one,
}
use hik.Core1.Isolation.{
  IsolationContext, MemRegion, isolation_remove_region, find_base, shift_down,
}
use hik.Core1.Isolation.Regions.{IsSound, released-IsSound}

shift_down-at :
    (k j : ℕ) (f : ℕ → MemRegion) (p : ℕ)
    → shift_down k j f p ≡ (if leb j p && ltb p (j + k) then f (suc p) else f p)
unfolding shift_down
shift_down-at zero j f p = ground arith
shift_down-at (suc k) j f p = ground (arith, shift_down-at k (suc j) (update f j (f (suc j))) p)

-- The array with the gap at `i` closed, and one region fewer.
abbrev removed : ℕ → IsolationContext → IsolationContext
removed i s = record s {
  regions = shift_down (dec32 s.num_regions - i) i s.regions;
  num_regions = dec32 s.num_regions;
  lock = 0;
}

remove_some :
    (s : IsolationContext) (b i : ℕ)
    → s.lock ≡ 0
    → find_base b s ≡ some i
    → isolation_remove_region b s ≡ ok success (removed i s)
unfolding isolation_remove_region find_base
remove_some s b i free e = ground arith

remove_none :
    (s : IsolationContext) (b : ℕ)
    → s.lock ≡ 0
    → find_base b s ≡ none
    → isolation_remove_region b s ≡ ok minus_one (record s { lock = 0 })
unfolding isolation_remove_region find_base
remove_none s b free e = ground arith

find_base-some :
    (s : IsolationContext) (b i : ℕ)
    → find_base b s ≡ some i
    → (i < s.num_regions) × ((s.regions i).phys_base ≡ b)
unfolding find_base
find_base-some s b i e =
    let f = first-some s.num_regions (λ i. (s.regions i).phys_base == b) i e in (f.0, ground arith)

module _ (s : IsolationContext) (i : ℕ) (l : i < s.num_regions) (v : IsSound s) where
  -- The old place of each region that stays.
  abbrev source : ℕ → ℕ
  source k = if ltb k i then k else suc k

  removed-source :
      (k : ℕ) → k < (removed i s).num_regions → (removed i s).regions k ≡ s.regions (source k)
  removed-source k m =
      let n : dec32 s.num_regions + 1 ≡ s.num_regions = omega (arith, v.fits) in
      ground (arith, shift_down-at (dec32 s.num_regions - i) i s.regions k)

  removed-IsSound : IsSound (removed i s)
  removed-IsSound =
      let n : dec32 s.num_regions + 1 ≡ s.num_regions = omega (arith, v.fits) in
      record {
        fits = omega (arith, v.fits, n);
        identity = λ k m. rw (removed-source k m) (v.identity (source k) (ground arith));
        bounded = λ k m. rw (removed-source k m) (v.bounded (source k) (ground arith));
        apart = λ j k m o.
            rw (removed-source j (omega (arith, m, o)), removed-source k o)
              (v.apart (source j) (source k) (ground arith) (ground arith));
      }

-- What `isolation_remove_region` of the base `b` leaves of `s`, where the region `i` has that base.
pub record Removed (s t : IsolationContext) (b i : ℕ) : Type 0 where
  pub inside : i < s.num_regions
  pub named : (s.regions i).phys_base ≡ b
  pub earliest : (j : ℕ) → j < i → (s.regions j).phys_base ≢ b
  pub one_fewer : t.num_regions + 1 ≡ s.num_regions
  pub same_before : (k : ℕ) → k < i → t.regions k ≡ s.regions k
  pub moved_down : (k : ℕ) → i ≤ k → k < t.num_regions → t.regions k ≡ s.regions (k + 1)

removed-Removed :
    (s : IsolationContext) (b i : ℕ)
    → IsSound s
    → find_base b s ≡ some i
    → Removed s (removed i s) b i
unfolding find_base
removed-Removed s b i v e =
    let f = first-some s.num_regions (λ i. (s.regions i).phys_base == b) i e in
    let n : dec32 s.num_regions + 1 ≡ s.num_regions = omega (arith, v.fits, f.0) in
    record {
      inside = f.0;
      named = ground (arith, f.1);
      earliest = λ j l h. ground (arith, f.2 j l, h);
      one_fewer = n;
      same_before = λ k l. removed-source s i f.0 v k (omega arith) ∙ ground arith;
      moved_down = λ k l m. removed-source s i f.0 v k m ∙ ground arith;
    }

no_base :
    (s : IsolationContext) (b : ℕ)
    → find_base b s ≡ none
    → (i : ℕ) → i < s.num_regions
    → (s.regions i).phys_base ≢ b
unfolding find_base
no_base s b e i l h =
    let f = first-none s.num_regions (λ i. (s.regions i).phys_base == b) e i l in
    ground (arith, f, h)

-- `isolation_remove_region` on sound regions, with the lock free, returns and leaves sound regions with
-- the lock free. Where no region has the physical base that is given it answers -1 and changes no
-- region. Else it answers 0, and the table has lost the first region with that base: the regions before
-- it are where they were, each one behind it has moved down by one, and there is one fewer.
pub isolation_remove_region_lem :
    (s : IsolationContext) (b : ℕ)
    → s.lock ≡ 0
    → IsSound s
    → Returns
        (λ r t.
          IsSound t
          × (t.lock ≡ 0)
          × (((r ≡ minus_one)
                × (t ≡ record s { lock = 0 })
                × ((i : ℕ) → i < s.num_regions → (s.regions i).phys_base ≢ b))
              ⊎ ((r ≡ success) × ((i : ℕ) × Removed s t b i))))
        (isolation_remove_region b s)
isolation_remove_region_lem s b free v = elim (Option-cases (find_base b s)) [
  | inl e ↦
      rw (remove_none s b free e) (released-IsSound s v, refl, inl (refl, refl, no_base s b e))
  | inr (i, e) ↦
      let f = find_base-some s b i e in
      rw (remove_some s b i free e)
        (removed-IsSound s i f.0 v, refl, inr (refl, (i, removed-Removed s b i v e)))
]
