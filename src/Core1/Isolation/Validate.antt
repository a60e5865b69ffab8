-- ===== src/Core1/Isolation/Validate.antt =====
-- What `isolation_validate` of Core-1/isolation/isolation.c reports.
use hik.Prelude.{
  ℕ, zero, suc, ◌+◌, ◌-◌, ◌≤◌, ◌<◌, ◌≡◌, refl, ap, ◌≢◌, inl, inr, Bool, none, arith, ◌==◌,
  Bool-cases, Option-cases, first, first-some, ok, success, minus_one,
}
use hik.Core1.Isolation.{IsolationContext, isolation_validate, validate_from, find_later, overlaps}
use hik.Core1.Isolation.Regions.{IsSound, Apart-overlaps}

module _ (s : IsolationContext) (v : IsSound s) where
  find_later-none : (i : ℕ) → i < s.num_regions → find_later i s ≡ none
  unfolding find_later
  find_later-none i l =
      let p : ℕ → Bool =
        λ k. overlaps (s.regions i).phys_base (s.regions i).size (s.regions (i + 1 + k)) in
      elim (Option-cases (first (s.num_regions - (i + 1)) p)) [
        | inl e ↦ e
        | inr (k, e) ↦
            let f = first-some (s.num_regions - (i + 1)) p k e in
            let j = i + 1 + k in
            let m : j < s.num_regions = omega (arith, f.0) in
            let free =
              Apart-overlaps (s.regions i) (s.regions j) (v.bounded i l) (v.bounded j m)
                (v.apart i j (omega arith) m) in
            absurd (ground (arith, f.1, free))
      ]

  validate_from-success :
      (k i : ℕ)
      → i + k ≤ s.num_regions
      → ((j : ℕ) → i ≤ j → j < i + k → (s.regions j).size ≢ 0)
      → validate_from k i s ≡ success
  unfolding validate_from
  validate_from-success zero i l h = refl
  validate_from-success (suc k) i l h = ground (
    arith,
    h i (omega arith) (omega arith),
    find_later-none i (omega arith),
    validate_from-success k (suc i) (omega arith) (λ j m n. h j (omega arith) (omega arith)),
  )

  validate_from-fails :
      (k i j : ℕ)
      → i + k ≤ s.num_regions
      → i ≤ j
      → j < i + k
      → (s.regions j).size ≡ 0
      → validate_from k i s ≡ minus_one
  unfolding validate_from
  validate_from-fails zero i j l m n z = absurd (omega arith)
  validate_from-fails (suc k) i j l m n z = elim (Bool-cases ((s.regions i).size == 0)) [
    | inl e ↦ rw (e, validate_from)
    | inr e ↦
        let later : i ≢ j = λ q. absurd (ground (arith, ap (λ k. (s.regions k).size) q)) in
        ground (
          arith,
          find_later-none i (omega arith),
          validate_from-fails k (suc i) j (omega arith) (omega arith) (omega arith) z,
        )
  ]

locked-IsSound : (s : IsolationContext) → IsSound s → IsSound (record s { lock = 1 })
locked-IsSound s v = record {
  fits = v.fits;
  identity = v.identity;
  bounded = v.bounded;
  apart = v.apart;
}

validate-runs :
    (s : IsolationContext)
    → s.lock ≡ 0
    → isolation_validate s ≡ ok (validate_from s.num_regions 0 (record s { lock = 1 })) s
unfolding isolation_validate
validate-runs s free = ground arith

-- On sound regions with the lock free, `isolation_validate` returns and changes nothing. It
-- answers 0 if every region in use has a size, and -1 if some region in use is empty.
pub isolation_validate_lem :
    (s : IsolationContext)
    → IsSound s
    → s.lock ≡ 0
    → (((i : ℕ) → i < s.num_regions → (s.regions i).size ≢ 0) → isolation_validate s ≡ ok success s)
      × ((i : ℕ)
          → i < s.num_regions
          → (s.regions i).size ≡ 0
          → isolation_validate s ≡ ok minus_one s)
isolation_validate_lem s v free =
    let t = record s { lock = 1 } in
    let w = locked-IsSound s v in
    (
      λ h. rw (validate-runs s free) (
          ap (λ r. ok r s)
            (validate_from-success t w s.num_regions 0 (omega arith) (λ j l m. h j (omega arith)))),
      λ i l z. rw (validate-runs s free) (
          ap (λ r. ok r s)
            (validate_from-fails t w s.num_regions 0 i (omega arith) (omega arith) (omega arith)
              z)),
    )
