-- ===== src/Core1/Heap/Tests.antt =====
-- Runs of the heap of Core-1/mm/physical_mem.c, and the theorems at such inputs.
use hik.Prelude.{
  ℕ, ◌+◌, ◌≤◌, ◌≡◌, refl, none, some, List, [], ◌∷◌, arith, ◌==◌, if◌then◌else◌, ok, ◌>>=◌, Returns,
  success,
}
use hik.Blocks.{header_size, total_of}
use hik.Blocks.Chain.{block, Block, Seg, Sized}
use hik.Blocks.Spec.{allocate}
use hik.Blocks.Merge.{released}
use hik.Blocks.Undo.{Merged}
use hik.Core1.Heap.{Heap, pmm_alloc, pmm_free, pmm_validate}
use hik.Core1.Heap.Shape.{IsHeap}
use hik.Core1.Heap.Alloc.{pmm_alloc_refines}
use hik.Core1.Heap.Free.{pmm_free_refines}
use hik.Core1.Heap.Check.{pmm_validate-ends}
use hik.Core1.Heap.Undo.{alloc-free}

abbrev blank : Heap
blank = record {
  base = 0;
  size = 0;
  first_block = 0;
  lock = 0;
  blocks = λ _. record { size = 0; used = 0; next = 0; prev = 0 };
}

-- Two blocks at 4096: 41 bytes used, 215 free.
abbrev heap : Heap
heap = record {
  base = 4096;
  size = 256;
  first_block = 4096;
  lock = 0;
  blocks = λ x.
      if x == 4096
      then record { size = 41; used = 1; next = 4137; prev = 0 }
      else record { size = 215; used = 0; next = 0; prev = 4096 };
}

abbrev two : List Block
two = block 41 1 ∷ block 215 0 ∷ []

two-Sized : Sized two
unfolding Sized
two-Sized = (ground arith, (ground arith, tt))

heap-IsHeap : IsHeap heap two
unfolding Seg
heap-IsHeap = record {
  chain = (refl, (refl, tt));
  sized = two-Sized;
  covers = refl;
  first_is = refl;
  start = ground arith;
  some_bytes = ground arith;
  top = ground arith;
  unlocked = refl;
}

two-Merged : Merged two
unfolding Merged
two-Merged = (ground arith, ground arith, ground arith)

pmm_alloc_refines_example :
    Returns
      (λ (a : ℕ) (t : Heap). elim (allocate (total_of 10) two) [
        | none ↦ (a ≡ 0) × (t ≡ heap)
        | some (o, l) ↦
            (a ≡ 4096 + o + header_size) × IsHeap t l × (o + total_of 10 ≤ 256) × (t.base ≡ 4096)
      ])
      (pmm_alloc 10 heap)
pmm_alloc_refines_example = pmm_alloc_refines heap 10 two heap-IsHeap (ground arith) (ground arith)

pmm_free_refines_example :
    Returns
      (λ _ t. IsHeap t (released [] (block 41 1) (block 215 0 ∷ [])))
      (pmm_free (4096 + 0 + header_size) heap)
pmm_free_refines_example = pmm_free_refines heap [] (block 41 1) (block 215 0 ∷ []) heap-IsHeap

pmm_validate-ends_example : pmm_validate heap ≡ ok success heap
pmm_validate-ends_example = pmm_validate-ends heap two heap-IsHeap

alloc-free_example : Returns (λ _ u. IsHeap u two) ((pmm_alloc 10 >>= pmm_free) heap)
alloc-free_example = alloc-free heap 10 two heap-IsHeap two-Merged (ground arith) (ground arith)

-- A block of 41 bytes is cut from the free one.
cut_off : allocate (total_of 10) two ≡ some (41, block 41 1 ∷ block 41 1 ∷ block 174 0 ∷ [])
unfolding allocate
cut_off = refl
