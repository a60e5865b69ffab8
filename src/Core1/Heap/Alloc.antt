-- ===== src/Core1/Heap/Alloc.antt =====
-- `pmm_alloc` of Core-1/mm/physical_mem.c.

use hik.Blocks.Choose.{choose_lem}
use hik.Blocks.Spec.{allocate}
use hik.Core1.Heap.Shape.{first-link, IsHeap}
use hik.Blocks.Chain.{Block}
use hik.Prelude.{
  refl, inr, ◌∙◌, ap, inl, none, some, Returns, ◌≤◌, List, ℕ, ◌+◌, ◌<◌, ◌≡◌, arith, ok, u64,
}
use hik.Blocks.{Fit, at, absent, header_size, total_of, find_fit, place}
use hik.Core1.Heap.{Heap, pmm_alloc}

module _ (s : Heap) (size : ℕ) (some_size : 0 < size) (free : s.lock ≡ 0) where
  abbrev search : Fit
  search = find_fit (s.size + 1) (total_of size) s.first_block s.blocks

  alloc_absent : search ≡ absent → pmm_alloc size s ≡ ok 0 s
  unfolding pmm_alloc
  alloc_absent e = ground arith

  alloc_at :
      (b : ℕ)
      → search ≡ at b
      → pmm_alloc size s
        ≡ ok (u64 (b + header_size)) (record s { blocks = place (total_of size) b s.blocks })
  unfolding pmm_alloc
  alloc_at b e = ground arith

-- `pmm_alloc` on a heap in order, of at least one byte and for which the size of the block does not
-- wrap around below the header's size, refines first fit on the list of blocks: it returns; where
-- no free block is large enough it answers 0 and changes nothing; else it answers the address behind
-- the header of the chosen block, the heap is in order with the new list, and the block lies inside
-- the heap, which still begins where it did.
pub pmm_alloc_refines :
    (s : Heap) (size : ℕ) (bs : List Block)
    → IsHeap s bs
    → 0 < size
    → header_size ≤ total_of size
    → Returns
        (λ (a : ℕ) (t : Heap). elim (allocate (total_of size) bs) [
          | none ↦ (a ≡ 0) × (t ≡ s)
          | some (o, l) ↦
              (a ≡ s.base + o + header_size)
              × IsHeap t l
              × (o + total_of size ≤ s.size)
              × (t.base ≡ s.base)
        ])
        (pmm_alloc size s)
pmm_alloc_refines s size bs v some_size header_fits =
    let total = total_of size in
    let link_is = first-link s bs v in
    elim (choose_lem s.blocks s.base total (s.size + 1) bs v.chain v.sized header_fits v.start
      (omega (arith, v.covers, v.top)) (omega (arith, v.covers))) [
        | inl (e, n) ↦
            rw
              (
                alloc_absent s size some_size v.unlocked
                    (ap (λ x. find_fit (s.size + 1) total x s.blocks) link_is ∙ e),
                n,
              )
              (refl, refl)
        | inr (q, e) ↦
            rw
              (
                alloc_at s size some_size v.unlocked (s.base + q.place_at)
                    (ap (λ x. find_fit (s.size + 1) total x s.blocks) link_is ∙ e),
                q.chosen_by,
              )
              (
                omega (arith, v.top, v.covers, q.within_span),
                record {
                  chain = q.chain;
                  sized = q.sized;
                  covers = q.same_span ∙ v.covers;
                  first_is = v.first_is;
                  start = v.start;
                  some_bytes = v.some_bytes;
                  top = v.top;
                  unlocked = v.unlocked;
                },
                omega (arith, v.covers, q.within_span),
                refl,
              )
      ]
