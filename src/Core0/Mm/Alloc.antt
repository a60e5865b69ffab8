-- ===== src/Core0/Mm/Alloc.antt =====
-- What `mm_alloc` of Core-0/mm/mm.c hands out.
use hik.Prelude.{
  ℕ, ◌+◌, ◌*◌, ◌%◌, ◌^◌, ◌≤◌, ◌<◌, ◌≡◌, refl, ◌≢◌, ◌⊎◌, inl, inr, arith, ok, fault, Returns, u64,
  sub64, Returns-mono,
}
use mathlib.Core.Path.{subst}
use hik.Core0.Mm.{
  mem_type_available, MemFrame, MmState, Found, at, absent, divided, frame, scan, fill, mm_alloc,
  pages_of, page_size, max_pages,
}
use hik.Core0.Mm.Scan.{FreeRun, scan-at, scan_complete, scan_divides, scan-ne-divided, fill-at}

-- `t` comes from `s` by handing out the `n` pages from `p` on as `v`.
pub record Allocated (s t : MmState) (n align : ℕ) (v : MemFrame) (p : ℕ) : Type 0 where
  pub in_range : p + n ≤ s.total_pages
  pub were_free : FreeRun s.frames p n
  pub aligned : p % align ≡ 0
  pub taken : (k : ℕ) → p ≤ k → k < p + n → t.frames k ≡ v
  pub others : (k : ℕ) → (k < p) ⊎ (p + n ≤ k) → t.frames k ≡ s.frames k
  pub same_total : t.total_pages ≡ s.total_pages
  pub unlocked : t.lock ≡ 0
  pub balance :
      u64 (t.available_pages + t.allocated_pages) ≡ u64 (s.available_pages + s.allocated_pages)

-- `n` is the least number of pages that holds `size` bytes.
abbrev pub Covers : (n size : ℕ) → Type 0
Covers n size = (size ≤ n * page_size) × (n * page_size < size + page_size)

pages_of-Covers : (size : ℕ) → size + page_size ≤ 2 ^ 64 → Covers (pages_of size) size
pages_of-Covers size small = (omega arith, omega arith)

abbrev search : MmState → ℕ → ℕ → Found
search s size align = scan s.frames (pages_of size) (pages_of align) s.total_pages 0 0 0

abbrev taken_at : MmState → ℕ → MemFrame → ℕ → MmState
taken_at s n v p = record s {
  frames = fill v n p s.frames;
  available_pages = sub64 s.available_pages n;
  allocated_pages = u64 (s.allocated_pages + n);
  lock = 0;
}

-- A run that is handed out from page 0 on began with an available page 0.
page_zero :
    (s t : MmState) (v : MemFrame) (n m q : ℕ)
    → 0 < n
    → Allocated s t n m v q
    → q ≡ 0
    → (s.frames 0).type ≡ mem_type_available
page_zero s t v n m q some_pages taken z =
    let h = taken.were_free 0 (omega (arith, z)) (omega (arith, z)) in ground (arith, h)

module _ (s : MmState) (free : s.lock ≡ 0) (size align type owner : ℕ) where
  alloc_at :
      (p : ℕ)
      → search s size align ≡ at p
      → mm_alloc size align type owner s
        ≡ ok (u64 (p * page_size)) (taken_at s (pages_of size) (frame type owner) p)
  unfolding mm_alloc
  alloc_at p e = ground arith

  alloc_absent : search s size align ≡ absent → mm_alloc size align type owner s ≡ ok 0 s
  unfolding mm_alloc
  alloc_absent e = ground arith

  alloc_divided : search s size align ≡ divided → mm_alloc size align type owner s ≡ fault
  unfolding mm_alloc
  alloc_divided e = ground arith

  module _ (small : s.total_pages ≤ max_pages) (words : s.available_pages < 2 ^ 64) where
    taken_at-Allocated :
        (p : ℕ)
        → search s size align ≡ at p
        → (u64 (p * page_size) ≡ p * page_size)
          × Allocated s
              (taken_at s (pages_of size) (frame type owner) p)
              (pages_of size)
              (pages_of align)
              (frame type owner)
              p
    taken_at-Allocated p e =
        let n = pages_of size in
        let v = frame type owner in
        let r =
          scan-at s.frames n (pages_of align) s.total_pages 0 0 0 p (λ ne. absurd (ne refl))
            (λ k l m. absurd (omega arith)) e in
        (
          omega (arith, r.1),
          record {
            in_range = omega (arith, r.0);
            were_free = r.2;
            aligned = r.3;
            taken = λ k l m. ground (arith, fill-at v n p s.frames k);
            others = λ k h. ground (arith, fill-at v n p s.frames k);
            same_total = refl;
            unlocked = refl;
            balance = omega (arith, r.0);
          },
        )

    -- Sound, in the words of the code: the pages that it counts.
    pub sound_pages :
        pages_of align ≢ 0
        → Returns
            (λ a t.
              ((a ≡ 0) × (t ≡ s))
              ⊎ ((p : ℕ) × (a ≡ p * page_size)
                  × Allocated s t (pages_of size) (pages_of align) (frame type owner) p))
            (mm_alloc size align type owner s)
    sound_pages ne = by_search (search s size align) refl
      where
        by_search :
            (r : Found)
            → search s size align ≡ r
            → Returns
                (λ a t.
                  ((a ≡ 0) × (t ≡ s))
                  ⊎ ((p : ℕ) × (a ≡ p * page_size)
                      × Allocated s t (pages_of size) (pages_of align) (frame type owner) p))
                (mm_alloc size align type owner s)
        by_search (at p) e = let r = taken_at-Allocated p e in rw (alloc_at p e) (inr (p, r.0, r.1))
        by_search absent e = rw (alloc_absent e) (inl (refl, refl))
        by_search divided e =
            absurd
              (scan-ne-divided s.frames (pages_of size) (pages_of align) s.total_pages 0 0 0 ne e)

    pub complete_pages :
        (p : ℕ)
        → pages_of align ≡ 1
        → 0 < pages_of size
        → p + pages_of size ≤ s.total_pages
        → FreeRun s.frames p (pages_of size)
        → Returns
            (λ a t.
              (q : ℕ) × (a ≡ q * page_size)
              × Allocated s t (pages_of size) (pages_of align) (frame type owner) q)
            (mm_alloc size align type owner s)
    complete_pages p one some_pages l run =
        let (q, e) =
          scan_complete s.frames (pages_of size) (pages_of align) s.total_pages 0 0 0 p one
            some_pages (omega arith) (omega arith) run in
        let r = taken_at-Allocated q e in rw (alloc_at q e) (q, r.0, r.1)

    -- `mm_alloc`, with the lock free, at most the pages of the frame table and a page counter below
    -- 2 ^ 64, for an alignment of at least 1 byte and a size and an alignment of at most
    -- 2 ^ 64 - 4096, returns. Either it answers 0 and changes nothing, or, with `n` and `m` the
    -- least numbers of pages of 4096 bytes that cover the size and the alignment, it answers the
    -- address of a page `p` (which is 0 for page 0) whose number `m` divides. The pages from `p` to
    -- `p + n` lie below the end of memory, were all available before, and have the type and owner
    -- that were asked for; every other frame is unchanged, and so is the sum of the two page
    -- counters modulo 2 ^ 64.
    pub mm_alloc_sound :
        0 < align
        → align + page_size ≤ 2 ^ 64
        → size + page_size ≤ 2 ^ 64
        → Returns
            (λ a t.
              ((a ≡ 0) × (t ≡ s))
              ⊎ ((p n m : ℕ) × Covers n size
                  × Covers m align
                  × (a ≡ p * page_size)
                  × Allocated s t n m (frame type owner) p))
            (mm_alloc size align type owner s)
    mm_alloc_sound some_align small_align small_size =
        let m = pages_of-Covers align small_align in
        Returns-mono (mm_alloc size align type owner s)
          (sound_pages (λ e. absurd (omega (arith, m, e))))
          (λ a t h. elim h [
            | inl failed ↦ inl failed
            | inr (p, e, taken) ↦
                inr (p, pages_of size, pages_of align, pages_of-Covers size small_size, m, e, taken)
          ])

    -- On a memory whose page 0 is not available, with the lock free, at most the pages of the frame
    -- table and a page counter below 2 ^ 64: `mm_alloc` of at least one byte and at most
    -- 2 ^ 64 - 4096 bytes, for an alignment of 1 to 4096 bytes, fails on no memory that has a run
    -- of available pages which covers the size. It answers an address other than 0, at which such a
    -- run begins, and hands that run out.
    pub mm_alloc_complete :
        (p n : ℕ)
        → (s.frames 0).type ≢ mem_type_available
        → 0 < align
        → align ≤ page_size
        → 0 < size
        → size + page_size ≤ 2 ^ 64
        → Covers n size
        → p + n ≤ s.total_pages
        → FreeRun s.frames p n
        → Returns
            (λ a t.
              (a ≢ 0) × ((q : ℕ) × (a ≡ q * page_size) × Allocated s t n 1 (frame type owner) q))
            (mm_alloc size align type owner s)
    mm_alloc_complete p n reserved some_align small_align some_size small_size covers l run =
        let c = pages_of-Covers size small_size in
        let d = pages_of-Covers align (omega arith) in
        let same : pages_of size ≡ n = omega (arith, c, covers) in
        let one : pages_of align ≡ 1 = omega (arith, d) in
        Returns-mono (mm_alloc size align type owner s)
          (complete_pages p one (omega (arith, c)) (rw same l) (rw same run))
          (λ a t (q, e, taken). (
            λ z. absurd (
                reserved (
                  page_zero s t (frame type owner) (pages_of size) (pages_of align) q
                    (omega (arith, c)) taken (omega (arith, z, e)))),
            (
              q,
              e,
              subst (λ k. Allocated s t k 1 (frame type owner) q) same
                  (subst (λ k. Allocated s t (pages_of size) k (frame type owner) q) one taken),
            ),
          ))

  -- `mm_alloc`, with the lock free, traps on a division by zero for an alignment of 0, and for one above
  -- 2 ^ 64 - 4096, whose number of pages wraps around to 0, if memory has a run of available pages
  -- that covers the size, of at least 1 and at most 2 ^ 64 - 4096 bytes.
  pub mm_alloc_traps :
      (p n : ℕ)
      → (align ≡ 0) ⊎ ((2 ^ 64 < align + page_size) × (align < 2 ^ 64))
      → 0 < size
      → size + page_size ≤ 2 ^ 64
      → Covers n size
      → p + n ≤ s.total_pages
      → FreeRun s.frames p n
      → mm_alloc size align type owner s ≡ fault
  mm_alloc_traps p n bad some_size small covers l run =
      let c = pages_of-Covers size small in
      let same : pages_of size ≡ n = omega (arith, c, covers) in
      let none_left : pages_of align ≡ 0 = elim bad [
        | inl z ↦ omega (arith, z)
        | inr z ↦ omega (arith, z)
      ] in
      alloc_divided (
        scan_divides s.frames (pages_of size) (pages_of align) s.total_pages 0 0 0 p none_left
          (omega (arith, c)) (omega arith) (omega (arith, same, l)) (rw same run))
