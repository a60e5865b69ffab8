-- ===== src/Core0/Mm/Tests.antt =====
-- Runs of Core-0/mm/mm.c on small inputs, and the theorems at such inputs.
use hik.Prelude.{
  inl, ◌≢◌, ℕ, ◌*◌, ◌≡◌, refl, ◌⊎◌, arith, update, Run, ok, hang, fault, ◌>>◌, Returns, minus_one,
}
use hik.Core0.Mm.{
  MmState, frame, scan, fill, mm_alloc, mm_reserve, reserve_pages, page_size, mem_type_available,
  mem_type_reserved, mem_type_kernel,
}
use hik.Core0.Mm.Scan.{FreeRun}
use hik.Core0.Mm.Alloc.{Covers, Allocated, mm_alloc_sound, mm_alloc_traps, mm_alloc_complete}

result_of : {A : Type 0} → Run MmState A → Run (Unit {0}) A
result_of (ok a s) = ok a tt
result_of hang = hang
result_of fault = fault

-- Sixteen pages, all but page 0 available.
abbrev pool : MmState
pool = record {
  frames = update (λ _. frame mem_type_available 0) 0 (frame mem_type_reserved 0);
  total_pages = 16;
  available_pages = 15;
  allocated_pages = 0;
  lock = 0;
}

first_run : FreeRun pool.frames 1 2
first_run = λ k l m. ground arith

-- Two pages aligned to two pages: only the runs that start at pages 1, 3, 5, ... are looked at.
aligned_pair_missed : result_of (mm_alloc 0x2000 0x2000 mem_type_kernel 1 pool) ≡ ok 0 tt
unfolding result_of mm_alloc scan fill
aligned_pair_missed = refl

next_page :
    result_of ((mm_alloc 0x1000 1 mem_type_kernel 1 >> mm_alloc 0x1001 1 mem_type_kernel 1) pool)
    ≡ ok 0x2000 tt
unfolding result_of mm_alloc scan fill
next_page = refl

reserve_over_end : result_of (mm_reserve 0xe000 0x4000 mem_type_kernel 1 pool) ≡ ok minus_one tt
unfolding result_of mm_reserve reserve_pages
reserve_over_end = refl

mm_alloc_sound_example :
    Returns
      (λ a t.
        ((a ≡ 0) × (t ≡ pool))
        ⊎ ((p n m : ℕ) × Covers n 0x1800
            × Covers m 1
            × (a ≡ p * page_size)
            × Allocated pool t n m (frame mem_type_kernel 1) p))
      (mm_alloc 0x1800 1 mem_type_kernel 1 pool)
mm_alloc_sound_example =
    mm_alloc_sound pool refl 0x1800 1 mem_type_kernel 1 (ground arith) (ground arith) (ground arith)
      (ground arith) (ground arith)

mm_alloc_complete_example :
    Returns
      (λ a t.
        (a ≢ 0)
        × ((q : ℕ) × (a ≡ q * page_size) × Allocated pool t 2 1 (frame mem_type_kernel 1) q))
      (mm_alloc 0x1800 1 mem_type_kernel 1 pool)
mm_alloc_complete_example =
    mm_alloc_complete pool refl 0x1800 1 mem_type_kernel 1 (ground arith) (ground arith) 1 2
      (ground arith) (ground arith) (ground arith) (ground arith) (ground arith)
      (ground arith, ground arith) (ground arith) first_run

mm_alloc_traps_example : mm_alloc 0x1800 0 mem_type_kernel 1 pool ≡ fault
mm_alloc_traps_example =
    mm_alloc_traps pool refl 0x1800 0 mem_type_kernel 1 1 2 (inl refl) (ground arith) (ground arith)
      (ground arith, ground arith) (ground arith) first_run
