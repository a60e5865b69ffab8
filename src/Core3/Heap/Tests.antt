-- ===== src/Core3/Heap/Tests.antt =====
-- Runs of the heap of Core-3/mm/virtual_mem.c, and the theorems at such inputs.
use hik.Prelude.{
  ℕ, ◌+◌, ◌%◌, ◌^◌, ◌≤◌, ◌≡◌, refl, none, some, List, [], ◌∷◌, arith, ◌==◌, if◌then◌else◌, Run, ok,
  hang, fault, Returns,
}
use hik.Blocks.{header_size, total_of}
use hik.Blocks.Chain.{block, Block, Seg, Sized}
use hik.Blocks.Spec.{allocate, fitted}
use hik.Blocks.Merge.{released}
use hik.Core3.Heap.{AppHeap, vmm_alloc, vmm_free, realloc, calloc}
use hik.Core3.Heap.Shape.{IsAppHeap}
use hik.Core3.Heap.Alloc.{SameOutside, vmm_alloc_refines}
use hik.Core3.Heap.Free.{vmm_free_refines}
use hik.Core3.Heap.Realloc.{Moved, realloc_moves}

-- Two blocks at 4096: 41 bytes used, 215 free.
abbrev heap : AppHeap
heap = record {
  base = 4096;
  size = 256;
  used = 41;
  lock = 0;
  blocks = λ x.
      if x == 4096
      then record { size = 41; used = 1; next = 4137; prev = 0 }
      else record { size = 215; used = 0; next = 0; prev = 4096 };
  bytes = λ x. x % 256;
}

abbrev two : List Block
two = block 41 1 ∷ block 215 0 ∷ []

two-Sized : Sized two
unfolding Sized
two-Sized = (ground arith, (ground arith, tt))

heap-IsAppHeap : IsAppHeap heap two
unfolding Seg
heap-IsAppHeap = record {
  chain = (refl, (refl, tt));
  sized = two-Sized;
  covers = refl;
  start = ground arith;
  some_bytes = ground arith;
  top = ground arith;
  unlocked = refl;
  counted = refl;
}

vmm_alloc_refines_example :
    Returns
      (λ (a : ℕ) (t : AppHeap). elim (allocate (total_of 10) two) [
        | none ↦ (a ≡ 0) × (t ≡ heap)
        | some (o, l) ↦
            (a ≡ 4096 + o + header_size)
            × IsAppHeap t l
            × (o + total_of 10 ≤ 256)
            × (t.base ≡ 4096)
            × SameOutside heap t (total_of 10) (fitted (total_of 10) two) o
      ])
      (vmm_alloc 10 heap)
vmm_alloc_refines_example =
    vmm_alloc_refines heap 10 two heap-IsAppHeap (ground arith) (ground arith)

vmm_free_refines_example :
    Returns
      (λ _ t.
        IsAppHeap t (released [] (block 41 1) (block 215 0 ∷ []))
        × (t.base ≡ 4096)
        × (t.bytes ≡ heap.bytes))
      (vmm_free (4096 + 0 + header_size) heap)
vmm_free_refines_example =
    vmm_free_refines heap [] (block 41 1) (block 215 0 ∷ []) heap-IsAppHeap refl

realloc_moves_example :
    Returns
      (λ (a : ℕ) (t : AppHeap). elim (allocate (total_of 40) two) [
        | none ↦ (a ≡ 0) × (t ≡ heap)
        | some (o, l) ↦ Moved heap t a 16 (total_of 40) o [] (block 41 1) l
      ])
      (realloc (4096 + 0 + header_size) 40 heap)
realloc_moves_example =
    realloc_moves heap [] (block 41 1) (block 215 0 ∷ []) 40 heap-IsAppHeap refl (ground arith)
      (ground arith)

-- The product of the two sizes wraps around: there is room for eight bytes.
abbrev answer_of : Run AppHeap ℕ → ℕ
answer_of (ok a s) = a
answer_of hang = 0
answer_of fault = 0

calloc_wraps : answer_of (calloc (2 ^ 32) (2 ^ 32) heap) ≡ 0
unfolding calloc vmm_alloc
calloc_wraps = refl
