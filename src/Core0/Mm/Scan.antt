-- ===== src/Core0/Mm/Scan.antt =====
-- The search for free pages in `mm_alloc` (Core-0/mm/mm.c).
use hik.Prelude.{
  ℕ, zero, suc, ◌+◌, ◌%◌, ◌≤◌, ◌<◌, ◌≡◌, refl, ◌≢◌, inl, inr, Bool, true, ◌&&◌, arith, ltb, leb,
  ◌==◌, if◌then◌else◌, Bool-cases, update,
}
use hik.Core0.Mm.{divided, MemFrame, at, scan, fill, mem_type_available}

abbrev pub is_free : (ℕ → MemFrame) → ℕ → Bool
is_free f i = (f i).type == mem_type_available

-- The `n` pages from `p` on are available.
abbrev pub FreeRun : (ℕ → MemFrame) → ℕ → ℕ → Type 0
FreeRun f p n = (k : ℕ) → p ≤ k → k < p + n → is_free f k ≡ true

module _ (f : ℕ → MemFrame) (needed align : ℕ) where
  packed :
      (p end : ℕ)
      → p + needed ≤ end
      → p < end
      → FreeRun f p needed
      → p % align ≡ 0
      → align ≢ 0
      → (p + needed ≤ end) × (p < end) × FreeRun f p needed × (p % align ≡ 0) × (align ≢ 0)
  packed p end a b c d e = (a, b, c, d, e)

  -- What the search finds is a run of free pages below the end, at an aligned page.
  pub scan-at :
      (k i start found p : ℕ)
      → (found ≢ 0 → start + found ≡ i)
      → FreeRun f start found
      → scan f needed align k i start found ≡ at p
      → (p + needed ≤ i + k) × (p < i + k) × FreeRun f p needed × (p % align ≡ 0) × (align ≢ 0)
  unfolding scan
  scan-at zero i start found p run free e = absurd (ground arith)
  scan-at (suc k) i start found p run free e = elim (Bool-cases (is_free f i)) [
    | inr taken ↦
        let ih =
          scan-at k (suc i) start 0 p (λ ne. absurd (ne refl)) (λ j l m. absurd (omega arith))
            (ground arith) in
        (omega (arith, ih.0), omega (arith, ih.1), ih.2, ih.3, ih.4)
    | inl hit ↦
        let start' = if found == 0 then i else start in
        let run' : start' + (found + 1) ≡ suc i = ground (arith, run) in
        let free' : FreeRun f start' (found + 1) = λ j l m. elim (Bool-cases (i == j)) [
          | inl same ↦ let q : i ≡ j = ground arith in ground (arith, q)
          | inr other ↦ free j (ground (arith, run)) (ground (arith, run))
        ] in
        let continue =
          λ (s' n' : ℕ) (r : n' ≢ 0 → s' + n' ≡ suc i) (g : FreeRun f s' n')
              (e' : scan f needed align k (suc i) s' n' ≡ at p).
            let ih = scan-at k (suc i) s' n' p r g e' in
            let sum : p + needed ≤ i + suc k = omega (arith, ih.0) in
            let low : p < i + suc k = omega (arith, ih.1) in
            packed p (i + suc k) sum low ih.2 ih.3 ih.4 in
        elim (Bool-cases (leb needed (found + 1))) [
          | inr few ↦ continue start' (found + 1) (λ ne. run') free' (ground arith)
          | inl enough ↦ elim (Bool-cases (align == 0)) [
            | inl zero_align ↦ absurd (ground arith)
            | inr nonzero ↦ elim (Bool-cases (start' % align == 0)) [
              | inr off ↦
                  continue start' 0 (λ ne. absurd (ne refl)) (λ j l m. absurd (omega arith))
                    (ground arith)
              | inl on ↦
                  let q : start' ≡ p = ground arith in
                  (
                    ground arith,
                    ground arith,
                    λ j l m. free' j (omega (arith, q)) (ground arith),
                    ground arith,
                    ground arith,
                  )
            ]
          ]
        ]
  ]

  -- Where pages need no alignment beyond their own, the search passes over no run of free pages.
  pub scan_complete :
      (k i start found p : ℕ)
      → align ≡ 1
      → found < needed
      → i ≤ p + found
      → p + needed ≤ i + k
      → FreeRun f p needed
      → (q : ℕ) × (scan f needed align k i start found ≡ at q)
  unfolding scan
  scan_complete zero i start found p one few l m free = absurd (omega arith)
  scan_complete (suc k) i start found p one few l m free = elim (Bool-cases (is_free f i)) [
    | inr taken ↦
        let outside : i < p = elim (Bool-cases (ltb i p)) [
          | inl y ↦ ground arith
          | inr n ↦ absurd (ground (arith, free i))
        ] in
        let (q, e) =
          scan_complete k (suc i) start 0 p one (omega arith) (omega arith) (omega arith) free in
        (q, ground (arith, e))
    | inl hit ↦
        let start' = if found == 0 then i else start in
        elim (Bool-cases (leb needed (found + 1))) [
          | inl enough ↦ (start', ground arith)
          | inr few' ↦
              let (q, e) =
                scan_complete k (suc i) start' (found + 1) p one (ground arith) (omega arith)
                  (omega arith) free in
              (q, ground (arith, e))
        ]
  ]

pub fill-at :
    (v : MemFrame) (n j : ℕ) (f : ℕ → MemFrame) (p : ℕ)
    → fill v n j f p ≡ (if leb j p && ltb p (j + n) then v else f p)
unfolding fill
fill-at v zero j f p = ground arith
fill-at v (suc n) j f p = ground (arith, fill-at v n (suc j) (update f j v) p)

module _ (f : ℕ → MemFrame) (needed align : ℕ) where
  pub scan-ne-divided :
      (k i start found : ℕ) → align ≢ 0 → scan f needed align k i start found ≢ divided
  unfolding scan
  scan-ne-divided zero i start found ne = ground arith
  scan-ne-divided (suc k) i start found ne =
      let start' = if found == 0 then i else start in
      ground (
        arith,
        scan-ne-divided k (suc i) start 0 ne,
        scan-ne-divided k (suc i) start' (found + 1) ne,
        scan-ne-divided k (suc i) start' 0 ne,
      )

  -- Without an alignment the first run that is long enough makes the search divide by zero.
  pub scan_divides :
      (k i start found p : ℕ)
      → align ≡ 0
      → found < needed
      → i ≤ p + found
      → p + needed ≤ i + k
      → FreeRun f p needed
      → scan f needed align k i start found ≡ divided
  unfolding scan
  scan_divides zero i start found p none_given few l m free = absurd (omega arith)
  scan_divides (suc k) i start found p none_given few l m free = elim (Bool-cases (is_free f i)) [
    | inr taken ↦
        let outside : i < p = elim (Bool-cases (ltb i p)) [
          | inl y ↦ ground arith
          | inr n ↦ absurd (ground (arith, free i))
        ] in
        ground (
          arith,
          scan_divides k (suc i) start 0 p none_given (omega arith) (omega arith) (omega arith)
              free,
        )
    | inl hit ↦
        let start' = if found == 0 then i else start in
        elim (Bool-cases (leb needed (found + 1))) [
          | inl enough ↦ ground arith
          | inr few' ↦ ground (
            arith,
            scan_divides k (suc i) start' (found + 1) p none_given (ground arith) (omega arith)
                (omega arith) free,
          )
        ]
  ]
