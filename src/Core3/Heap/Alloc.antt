-- ===== src/Core3/Heap/Alloc.antt =====
-- `vmm_alloc` of Core-3/mm/virtual_mem.c.
use hik.Prelude.{
  ◌^◌, ℕ, ◌+◌, ◌≤◌, ◌<◌, ◌≡◌, refl, ap, ◌⊎◌, ◌∙◌, inl, inr, none, some, List, arith, ok, Returns,
  u64,
}
use hik.Blocks.{Blocks, Fit, at, absent, header_size, total_of, find_fit}
use hik.Blocks.Chain.{Block}
use hik.Blocks.Choose.{Placement, choose_lem}
use hik.Blocks.Spec.{allocate, fitted}
use hik.Blocks.Used.{used-free_span}
use hik.Core3.Heap.{AppHeap, take_block, split_bytes, write_header, vmm_alloc}
use hik.Core3.Heap.Shape.{IsAppHeap, base-link}

module _ (s : AppHeap) (size : ℕ) (some_size : 0 < size) (free : s.lock ≡ 0) where
  abbrev search : Fit
  search = find_fit (s.size + 1) (total_of size) s.base s.blocks

  alloc_absent : search ≡ absent → vmm_alloc size s ≡ ok 0 s
  unfolding vmm_alloc
  alloc_absent e = ground arith

  alloc_at :
      (b : ℕ)
      → search ≡ at b
      → vmm_alloc size s
        ≡ ok (u64 (b + header_size)) (record (take_block (total_of size) b s) { lock = 0 })
  unfolding vmm_alloc take_block
  alloc_at b e = ground arith

-- The bytes are the same below the end of the `total` bytes that are handed out at `o`, from the end of
-- a header behind them on, and behind the chosen block of `wide` bytes.
abbrev pub SameOutside : (s t : AppHeap) (total wide o : ℕ) → Type 0
SameOutside s t total wide o =
    (k : ℕ)
    → (k < s.base + o + total) ⊎ (s.base + o + total + header_size ≤ k) ⊎ (s.base + o + wide ≤ k)
    → t.bytes k ≡ s.bytes k

-- The heap after a block has been taken.
taken-IsAppHeap :
    (s : AppHeap) (total : ℕ) (bs : List Block) (v : IsAppHeap s bs)
    (q : Placement s.blocks s.base total bs)
    → IsAppHeap (record (take_block total (s.base + q.place_at) s) { lock = 0 }) q.blocks_after
unfolding take_block
taken-IsAppHeap s total bs v q = record {
  chain = q.chain;
  sized = q.sized;
  covers = q.same_span ∙ v.covers;
  start = v.start;
  some_bytes = v.some_bytes;
  top = v.top;
  unlocked = refl;
  counted =
      omega (
        arith,
        v.counted,
        v.covers,
        v.top,
        q.used_more,
        q.same_span,
        used-free_span q.blocks_after,
      );
}

-- A split writes only into the block that it splits, between what is handed out and its rest.
split_bytes-outside :
    (f : Blocks) (m : ℕ → ℕ) (total b k : ℕ)
    → 0 < b
    → b + total + 33 ≤ 2 ^ 64
    → (k < b + total) ⊎ (b + total + header_size ≤ k) ⊎ (b + (f b).size ≤ k)
    → split_bytes total b f m k ≡ m k
unfolding split_bytes write_header
split_bytes-outside f m total b k start fits out =
    let here : u64 (b + total) ≡ b + total = omega arith in
    let room : u64 (total + header_size + 8) ≡ total + header_size + 8 = omega arith in
    ground (arith, here, room, out)

-- `vmm_alloc` on a heap in order, of at least one byte and for which the size of the block does not
-- wrap around below the header's size, refines first fit on the list of blocks: it returns; where
-- no free block is large enough it answers 0 and changes nothing; else it answers the address behind
-- the header of the chosen block, the heap is in order with the new list, and the block lies inside
-- the heap, which still begins where it did. Of the memory outside of headers nothing has changed
-- below the end of the block that is handed out, nor behind the chosen block, nor from the place on
-- where the header of the rest of the chosen block ends.
pub vmm_alloc_refines :
    (s : AppHeap) (size : ℕ) (bs : List Block)
    → IsAppHeap s bs
    → 0 < size
    → header_size ≤ total_of size
    → Returns
        (λ (a : ℕ) (t : AppHeap). elim (allocate (total_of size) bs) [
          | none ↦ (a ≡ 0) × (t ≡ s)
          | some (o, l) ↦
              (a ≡ s.base + o + header_size)
              × IsAppHeap t l
              × (o + total_of size ≤ s.size)
              × (t.base ≡ s.base)
              × SameOutside s t (total_of size) (fitted (total_of size) bs) o
        ])
        (vmm_alloc size s)
unfolding take_block
vmm_alloc_refines s size bs v some_size header_fits =
    let total = total_of size in
    let link_is = base-link s bs v in
    elim (choose_lem s.blocks s.base total (s.size + 1) bs v.chain v.sized header_fits v.start
      (omega (arith, v.covers, v.top)) (omega (arith, v.covers))) [
        | inl (e, n) ↦
            rw
              (
                alloc_absent s size some_size v.unlocked
                    (ap (λ x. find_fit (s.size + 1) total x s.blocks) link_is ∙ e),
                n,
              )
              (refl, refl)
        | inr (q, e) ↦
            rw
              (
                alloc_at s size some_size v.unlocked (s.base + q.place_at)
                    (ap (λ x. find_fit (s.size + 1) total x s.blocks) link_is ∙ e),
                q.chosen_by,
              )
              (
                omega (arith, v.top, v.covers, q.within_span),
                taken-IsAppHeap s total bs v q,
                omega (arith, v.covers, q.within_span),
                refl,
                λ k out.
                    split_bytes-outside s.blocks s.bytes total (s.base + q.place_at) k
                      (omega (arith, v.start)) (omega (arith, v.top, v.covers, q.within_span))
                      (rw q.size_at out),
              )
      ]
