-- ===== src/Core3/Heap/Free.antt =====
-- `vmm_free` of Core-3/mm/virtual_mem.c.
use hik.Prelude.{
  ℕ, ◌+◌, ◌^◌, ◌<◌, ◌≡◌, refl, ◌∙◌, false, List, ◌∷◌, ◌++◌, arith, ◌==◌, ok, Returns, sub64,
}
use hik.Blocks.{header_size}
use hik.Blocks.Chain.{Block, span, Sized, span-append, Sized-append}
use hik.Blocks.Merge.{released}
use hik.Blocks.Release.{free_block-Seg}
use hik.Blocks.Choose.{block-size}
use hik.Blocks.Spec.{released-Sized, span-released}
use hik.Blocks.Used.{used_size, used-free_span, used_span-released}
use hik.Core3.Heap.{AppHeap, give_block, vmm_free}
use hik.Core3.Heap.Shape.{IsAppHeap}

free-runs :
    (s : AppHeap) (b : ℕ)
    → s.lock ≡ 0
    → b + header_size < 2 ^ 64
    → vmm_free (b + header_size) s ≡ ok tt (record (give_block b s) { lock = 0 })
unfolding vmm_free give_block
free-runs s b free small =
    let e : sub64 (b + header_size) header_size ≡ b = omega arith in
    let n : ((b + header_size) == 0) ≡ false = ground arith in ground (arith, e, n)

-- `vmm_free` of the address that belongs to a block in use of a heap in order returns, and leaves
-- the heap in order with that block free, merged with the free blocks beside it; the heap's place
-- and the memory outside of headers do not change.
pub vmm_free_refines :
    (s : AppHeap) (before : List Block) (b : Block) (after : List Block)
    → IsAppHeap s (before ++ b ∷ after)
    → (b.used == 0) ≡ false
    → Returns
        (λ _ t. IsAppHeap t (released before b after) × (t.base ≡ s.base) × (t.bytes ≡ s.bytes))
        (vmm_free (s.base + span before + header_size) s)
unfolding Sized give_block
vmm_free_refines s before b after v taken =
    let n = span-append before (b ∷ after) in
    let w = Sized-append before (b ∷ after) v.sized in
    let size_is = block-size s.blocks s.base before b after v.chain in
    let in_use : used_size b ≡ b.size = rw taken refl in
    rw (free-runs s (s.base + span before) v.unlocked (omega (arith, n, v.top, v.covers, w.1.0))) (
      record {
        chain =
            free_block-Seg s.blocks s.base before b after v.chain v.sized v.start
              (omega (arith, v.top, v.covers));
        sized = released-Sized before b after v.sized;
        covers = span-released before b after ∙ v.covers;
        start = v.start;
        some_bytes = v.some_bytes;
        top = v.top;
        unlocked = refl;
        counted = omega (
          arith,
          v.counted,
          v.covers,
          v.top,
          size_is,
          in_use,
          used_span-released before b after,
          used-free_span (before ++ b ∷ after),
        );
      },
      refl,
      refl,
    )
