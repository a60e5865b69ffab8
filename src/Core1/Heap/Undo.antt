-- ===== src/Core1/Heap/Undo.antt =====
-- `pmm_alloc` followed by `pmm_free`, of Core-1/mm/physical_mem.c.
use hik.Blocks.Merge.{released}
use mathlib.Core.Path.{subst}
use hik.Prelude.{
  Returns-and_then, ℕ, ◌+◌, ◌≤◌, ◌<◌, ◌≡◌, refl, sym, inl, inr, List, ok, ◌>>=◌, Returns,
}
use hik.Blocks.{header_size, total_of}
use hik.Blocks.Chain.{Block}
use hik.Blocks.Undo.{Merged, Undo, allocate-Undo}
use hik.Core1.Heap.{Heap, pmm_alloc, pmm_free}
use hik.Core1.Heap.Shape.{IsHeap}
use hik.Core1.Heap.Alloc.{pmm_alloc_refines}
use hik.Core1.Heap.Free.{pmm_free_refines}

free-null : (s : Heap) → pmm_free 0 s ≡ ok tt s
unfolding pmm_free
free-null s = refl

free-Undo :
    (t : Heap) (bs : List Block) (o : ℕ) (l : List Block)
    → IsHeap t l
    → Undo bs o l
    → Returns (λ _ u. IsHeap u bs) (pmm_free (t.base + o + header_size) t)
free-Undo t bs o l v u =
    let r = pmm_free_refines t u.before u.taken u.after (subst (λ k. IsHeap t k) u.parts v) in
    subst (λ k. Returns (λ _ w. IsHeap w k) (pmm_free (t.base + o + header_size) t)) u.undone
      (subst
        (λ k.
          Returns (λ _ w. IsHeap w (released u.before u.taken u.after))
            (pmm_free (t.base + k + header_size) t))
        (sym u.offset) r)

-- On a heap in order whose neighbouring free blocks are merged, and for a size of at least one byte for
-- which the size of the block does not wrap around below the header's size: freeing the address that
-- `pmm_alloc` has just answered, a null pointer included, returns, and gives back the list of blocks
-- that the heap had before.
pub alloc-free :
    (s : Heap) (size : ℕ) (bs : List Block)
    → IsHeap s bs
    → Merged bs
    → 0 < size
    → header_size ≤ total_of size
    → Returns (λ _ u. IsHeap u bs) ((pmm_alloc size >>= pmm_free) s)
alloc-free s size bs v m some_size header_fits =
    Returns-and_then _ (λ _ u. IsHeap u bs) (pmm_alloc size s) pmm_free
      (pmm_alloc_refines s size bs v some_size header_fits)
      (elim (allocate-Undo (total_of size) bs m) [
        | inl e ↦ rw e (λ a t h. rw (h.0, h.1, free-null s) v)
        | inr (o, l, e, u) ↦ rw e (λ a t h. rw (h.0, sym h.3) (free-Undo t bs o l h.1 u))
      ])
