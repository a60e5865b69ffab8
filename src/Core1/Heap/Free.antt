-- ===== src/Core1/Heap/Free.antt =====
-- `pmm_free` of Core-1/mm/physical_mem.c.
use hik.Prelude.{
  ℕ, ◌+◌, ◌^◌, ◌<◌, ◌≡◌, ◌∙◌, false, List, ◌∷◌, ◌++◌, arith, ◌==◌, ok, Returns, sub64,
}
use hik.Blocks.{header_size, free_block}
use hik.Blocks.Chain.{Block, span, Sized, span-append, Sized-append}
use hik.Blocks.Merge.{released}
use hik.Blocks.Release.{free_block-Seg}
use hik.Blocks.Spec.{released-Sized, span-released}
use hik.Core1.Heap.{Heap, pmm_free}
use hik.Core1.Heap.Shape.{IsHeap}

free-runs :
    (s : Heap) (b : ℕ)
    → s.lock ≡ 0
    → b + header_size < 2 ^ 64
    → pmm_free (b + header_size) s ≡ ok tt (record s { blocks = free_block b s.blocks })
unfolding pmm_free
free-runs s b free small =
    let e : sub64 (b + header_size) header_size ≡ b = omega arith in
    let n : ((b + header_size) == 0) ≡ false = ground arith in ground (arith, e, n)

-- `pmm_free` of the address that belongs to a block of a heap in order, used or not, returns, and
-- leaves the heap in order with that block free, merged with the free blocks beside it.
pub pmm_free_refines :
    (s : Heap) (before : List Block) (b : Block) (after : List Block)
    → IsHeap s (before ++ b ∷ after)
    → Returns
        (λ _ t. IsHeap t (released before b after))
        (pmm_free (s.base + span before + header_size) s)
unfolding Sized
pmm_free_refines s before b after v =
    let n = span-append before (b ∷ after) in
    let w = Sized-append before (b ∷ after) v.sized in
    rw (free-runs s (s.base + span before) v.unlocked (omega (arith, n, v.top, v.covers, w.1.0)))
      (record {
        chain =
            free_block-Seg s.blocks s.base before b after v.chain v.sized v.start
              (omega (arith, v.top, v.covers));
        sized = released-Sized before b after v.sized;
        covers = span-released before b after ∙ v.covers;
        first_is = v.first_is;
        start = v.start;
        some_bytes = v.some_bytes;
        top = v.top;
        unlocked = v.unlocked;
      })
