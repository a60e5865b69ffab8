-- ===== src/Core0/Mm/Free.antt =====
-- `mm_free`, `mm_reserve` and `mm_init` of Core-0/mm/mm.c.
use hik.Prelude.{
  ℕ, zero, suc, ◌+◌, ◌*◌, ◌/◌, ◌^◌, ◌≤◌, ◌<◌, ◌≡◌, refl, ap, ◌≢◌, ◌⊎◌, inl, inr, Bool, true, false,
  ◌&&◌, ◌||◌, arith, ltb, leb, ◌==◌, if◌then◌else◌, Bool-cases, update, Run, ok, hang, fault,
  and_then, Returns, u64, dec64, success, minus_one,
}
use mathlib.Core.Bool.{false≢true}
use hik.Core0.Mm.{
  mem_type_reserved, count_reserved, MemFrame, MmState, frame, mm_init, mm_alloc, mm_free,
  mm_reserve, reserve_pages, pages_of, page_size, max_pages, mem_type_available,
}
use hik.Core0.Mm.Scan.{FreeRun, is_free}
use hik.Core0.Mm.Alloc.{Allocated, complete_pages, sound_pages}

abbrev freed : ℕ → MmState → MmState
freed page s = record s {
  frames = update s.frames page (frame mem_type_available 0);
  available_pages = u64 (s.available_pages + 1);
  allocated_pages = dec64 s.allocated_pages;
  lock = 0;
}

free_runs :
    (s : MmState) (page : ℕ)
    → s.lock ≡ 0
    → page < s.total_pages
    → mm_free (page * page_size) s ≡ ok success (freed page s)
unfolding mm_free
free_runs s page free l = let e : page * 4096 / 4096 ≡ page = omega arith in ground arith

-- `mm_free` of what `mm_alloc` returned gives back one page only. If memory has a run of enough
-- available pages and one page of alignment is asked for, then after the two calls the first page
-- that was handed out is available, and each further one still has the type and owner of the
-- allocation.
pub mm_alloc-free_leaks :
    (s : MmState) (size align type owner p : ℕ)
    → s.lock ≡ 0
    → s.total_pages ≤ max_pages
    → s.available_pages < 2 ^ 64
    → pages_of align ≡ 1
    → 0 < pages_of size
    → p + pages_of size ≤ s.total_pages
    → FreeRun s.frames p (pages_of size)
    → Returns
        (λ r t.
          (q : ℕ) × (r ≡ success)
          × (is_free t.frames q ≡ true)
          × ((k : ℕ) → q < k → k < q + pages_of size → t.frames k ≡ frame type owner))
        (and_then (mm_alloc size align type owner s) mm_free)
mm_alloc-free_leaks s size align type owner p free small words one some_pages l run =
    after (mm_alloc size align type owner s)
      (complete_pages s free size align type owner small words p one some_pages l run)
  where
    after :
        (m : Run MmState ℕ)
        → Returns
            (λ a t.
              (q : ℕ) × (a ≡ q * page_size)
              × Allocated s t (pages_of size) (pages_of align) (frame type owner) q)
            m
        → Returns
            (λ r t.
              (q : ℕ) × (r ≡ success)
              × (is_free t.frames q ≡ true)
              × ((k : ℕ) → q < k → k < q + pages_of size → t.frames k ≡ frame type owner))
            (and_then m mm_free)
    after (ok a t) (q, e, v) =
        rw (e, free_runs t q v.unlocked (omega (arith, v.in_range, v.same_total)))
          (q, refl, ground arith, λ k lo hi. ground (arith, v.taken k))
    after hang h = h
    after fault h = h

reserve_pages-done :
    (v : MemFrame) (total k i : ℕ) (f : ℕ → MemFrame)
    → (reserve_pages v total k i f).0 ≡ (k == 0 || leb (i + k) total)
unfolding reserve_pages
reserve_pages-done v total zero i f = ground arith
reserve_pages-done v total (suc k) i f =
    ground (arith, reserve_pages-done v total k (suc i) (update f i v))

reserve_pages-at :
    (v : MemFrame) (total k i : ℕ) (f : ℕ → MemFrame) (p : ℕ)
    → (reserve_pages v total k i f).1 p
      ≡ (if leb i p && (ltb p (i + k) && ltb p total) then v else f p)
unfolding reserve_pages
reserve_pages-at v total zero i f p = ground arith
reserve_pages-at v total (suc k) i f p =
    ground (arith, reserve_pages-at v total k (suc i) (update f i v) p)

abbrev reserved_frames : MmState → ℕ → ℕ → MemFrame → Bool × (ℕ → MemFrame)
reserved_frames s base size v =
    reserve_pages v s.total_pages (pages_of size) (base / page_size) s.frames

reserve_done :
    (s : MmState) (base size type owner : ℕ)
    → s.lock ≡ 0
    → (reserved_frames s base size (frame type owner)).0 ≡ true
    → mm_reserve base size type owner s
      ≡ ok success
          (record (count_reserved type
            (pages_of size)
            (record s { frames = (reserved_frames s base size (frame type owner)).1 })) {
              lock = 0;
            })
unfolding mm_reserve
reserve_done s base size type owner free y = ground arith

reserve_stopped :
    (s : MmState) (base size type owner : ℕ)
    → s.lock ≡ 0
    → (reserved_frames s base size (frame type owner)).0 ≡ false
    → mm_reserve base size type owner s
      ≡ ok minus_one
          (record s { frames = (reserved_frames s base size (frame type owner)).1; lock = 0 })
unfolding mm_reserve
reserve_stopped s base size type owner free y = ground arith

module _ (s : MmState) (base size type owner : ℕ) (free : s.lock ≡ 0) where
  -- `mm_reserve` with the lock free returns, and gives the type and owner to exactly the pages of
  -- the region that lie below the end of memory. It answers 0 if the whole region lies below the
  -- end. Otherwise it answers -1 and leaves the two counters alone, though the part of the region
  -- below the end has been written.
  pub mm_reserve_lem :
      let start = base / page_size in
      let n = pages_of size in
      Returns
        (λ r t.
          ((k : ℕ)
            → t.frames k ≡ (
                if leb start k && (ltb k (start + n) && ltb k s.total_pages)
                then frame type owner
                else s.frames k))
          × (start + n ≤ s.total_pages → r ≡ success)
          × (n ≢ 0
              → s.total_pages < start + n
              → (r ≡ minus_one)
                × (t.available_pages ≡ s.available_pages)
                × (t.allocated_pages ≡ s.allocated_pages)))
        (mm_reserve base size type owner s)
  mm_reserve_lem =
      let start = base / page_size in
      let n = pages_of size in
      let v = frame type owner in
      let done = reserve_pages-done v s.total_pages n start s.frames in
      let pages = reserve_pages-at v s.total_pages n start s.frames in
      elim (Bool-cases (reserve_pages v s.total_pages n start s.frames).0) [
        | inl y ↦
            rw (reserve_done s base size type owner free y)
              (λ k. ground (arith, pages k), λ l. refl, λ ne l. absurd (ground (arith, done)))
        | inr y ↦
            rw (reserve_stopped s base size type owner free y)
              (pages, λ l. absurd (ground (arith, done)), λ ne l. (refl, refl, refl))
      ]

abbrev fresh : ℕ → MmState
fresh total = record {
  frames = λ _. frame mem_type_reserved 0;
  total_pages = total;
  available_pages = total;
  allocated_pages = 0;
  lock = 0;
}

init_runs :
    (s : MmState) (total_memory : ℕ)
    → total_memory / page_size ≤ max_pages
    → mm_init total_memory s ≡ ok success (fresh (total_memory / page_size))
unfolding mm_init
init_runs s total_memory small = ground arith

-- After `mm_init` on memory that the frame table can describe, every allocation of at least one
-- page, with an alignment that is not zero, returns 0, though the counter of available pages says
-- that all of the memory is available: every frame is reserved.
pub mm_init-alloc :
    (s : MmState) (total_memory size align type owner : ℕ)
    → total_memory / page_size ≤ max_pages
    → 0 < pages_of size
    → pages_of align ≢ 0
    → Returns
        (λ a t. (a ≡ 0) × (t.available_pages ≡ total_memory / page_size))
        (and_then (mm_init total_memory s) (λ _. mm_alloc size align type owner))
mm_init-alloc s total_memory size align type owner small some_pages ne =
    rw (init_runs s total_memory small) (
      after (mm_alloc size align type owner t)
        (sound_pages t refl size align type owner small (omega arith) ne))
  where
    t : MmState
    t = fresh (total_memory / page_size)

    after :
        (m : Run MmState ℕ)
        → Returns
            (λ a u.
              ((a ≡ 0) × (u ≡ t))
              ⊎ ((p : ℕ) × (a ≡ p * page_size)
                  × Allocated t u (pages_of size) (pages_of align) (frame type owner) p))
            m
        → Returns (λ a u. (a ≡ 0) × (u.available_pages ≡ total_memory / page_size)) m
    after (ok a u) (inl (z, same)) = (z, ap (λ w. w.available_pages) same)
    after (ok a u) (inr (p, e, v)) = absurd (false≢true (v.were_free p (omega arith) (omega arith)))
    after hang h = h
    after fault h = h
