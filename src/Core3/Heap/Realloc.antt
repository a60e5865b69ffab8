-- ===== src/Core3/Heap/Realloc.antt =====
-- `realloc` of Core-3/mm/virtual_mem.c.

use hik.Core3.Heap.Alloc.{SameOutside, vmm_alloc_refines}
use hik.Core3.Heap.Free.{vmm_free_refines}
use hik.Blocks.Choose.{block-size}
use hik.Blocks.Spec.{fitted, total_of-room, allocate}
use hik.Blocks.Keep.{allocate-Keeps, Keeps}
use mathlib.Core.Path.{subst}
use hik.Prelude.{
  sub64, none, some, ap, ◌∙◌, inl, inr, Returns-mono, arith, ◌-◌, Returns-and_then, Returns, ◌^◌, ℕ,
  ◌+◌, ◌≤◌, ◌<◌, ◌≡◌, refl, ◌⊎◌, false, List, ◌∷◌, ◌++◌, leb, ◌==◌, if◌then◌else◌, Cmd, ◌>>=◌, ◌>>◌,
  pure, modify,
}
use hik.Blocks.{total_of, header_size}
use hik.Blocks.Chain.{Sized, span-append, Sized-append, Block, span}
use hik.Blocks.Merge.{released}
use hik.Core1.Isolation.Bulk.{memcpy-outside, memcpy-inside, memcpy}
use hik.Core3.Heap.{AppHeap, data_size, vmm_alloc, vmm_free, realloc}
use hik.Core3.Heap.Shape.{IsAppHeap}

-- What is left to do once `vmm_alloc` has answered.
abbrev move_to : (old_size ptr new_ptr : ℕ) → Cmd AppHeap ℕ
move_to old_size ptr new_ptr = if new_ptr == 0 then pure 0 else (do
  modify (λ s. record s { bytes = memcpy old_size new_ptr ptr s.bytes })
  vmm_free ptr
  pure new_ptr)

realloc-grows :
    (s : AppHeap) (ptr size : ℕ)
    → (ptr == 0) ≡ false
    → (size == 0) ≡ false
    → leb size (data_size ptr s) ≡ false
    → realloc ptr size s ≡ (vmm_alloc size >>= move_to (data_size ptr s) ptr) s
unfolding realloc
realloc-grows s ptr size p q r = rw (p, q, r) refl

with-bytes :
    (s : AppHeap) (m : ℕ → ℕ) (bs : List Block)
    → IsAppHeap s bs
    → IsAppHeap (record s { bytes = m }) bs
with-bytes s m bs v = record {
  chain = v.chain;
  sized = v.sized;
  covers = v.covers;
  start = v.start;
  some_bytes = v.some_bytes;
  top = v.top;
  unlocked = v.unlocked;
  counted = v.counted;
}

-- The heap `t` after the block `b` behind `before` has moved to the address `a`, behind the header of a
-- block of `total` bytes at the distance `o` in the heap `s`: the copied bytes, and the memory outside
-- of the copy, the old headers and a header behind the new block.
pub record Moved (s t : AppHeap) (a old_size total o : ℕ) (before : List Block) (b : Block)
    (l : List Block) : Type 0 where
  pub answer : a ≡ s.base + o + header_size
  pub left : List Block
  pub right : List Block
  pub parts : l ≡ left ++ b ∷ right
  pub in_order : IsAppHeap t (released left b right)
  pub copied :
      (k : ℕ) → k < old_size → t.bytes (a + k) ≡ s.bytes (s.base + span before + header_size + k)
  pub others :
      (k : ℕ)
      → (k < a) ⊎ (a + old_size ≤ k)
      → (k < s.base + o + total) ⊎ (s.base + o + total + header_size ≤ k)
      → t.bytes k ≡ s.bytes k

-- What `move_to` does with the new block.
move-runs :
    (t : AppHeap) (old_size ptr a : ℕ) (P : ℕ → AppHeap → Type 0)
    → (a == 0) ≡ false
    → Returns (λ _ u. P a u) (vmm_free ptr (record t { bytes = memcpy old_size a ptr t.bytes }))
    → Returns P (move_to old_size ptr a t)
move-runs t old_size ptr a P e h = rw e (
    Returns-and_then _ P (vmm_free ptr (record t { bytes = memcpy old_size a ptr t.bytes }))
      (λ _. pure a) h (λ _ u k. k))

move-Moved :
    (s t : AppHeap) (total wide o : ℕ) (before : List Block) (b : Block) (l : List Block)
    → Keeps total wide o before b l
    → (b.used == 0) ≡ false
    → IsAppHeap t l
    → t.base ≡ s.base
    → SameOutside s t total wide o
    → header_size ≤ b.size
    → b.size ≤ total
    → Returns
        (λ a u. Moved s u a (b.size - header_size) total o before b l)
        (move_to
          (b.size - header_size)
          (s.base + span before + header_size)
          (s.base + o + header_size)
          t)
move-Moved s t total wide o before b l k taken v same_base same_bytes sized enough =
    let old_size = b.size - header_size in
    let a = s.base + o + header_size in
    let ptr = s.base + span before + header_size in
    let m = memcpy old_size a ptr t.bytes in
    let here : t.base + span k.left + header_size ≡ ptr = omega (arith, same_base, k.same_place) in
    move-runs t old_size ptr a (λ c u. Moved s u c old_size total o before b l) (ground arith)
      (Returns-mono (vmm_free ptr (record t { bytes = m }))
        (subst
          (λ x.
            Returns
              (λ _ u. IsAppHeap u (released k.left b k.right) × (u.base ≡ t.base) × (u.bytes ≡ m))
              (vmm_free x (record t { bytes = m })))
          here
          (vmm_free_refines (record t { bytes = m }) k.left b k.right
            (subst (λ x. IsAppHeap (record t { bytes = m }) x) k.parts (with-bytes t m l v)) taken))
        (λ _ u h. record {
          answer = refl;
          left = k.left;
          right = k.right;
          parts = k.parts;
          in_order = h.0;
          copied = λ i w.
              ap (λ f. f (a + i)) h.2
              ∙ memcpy-inside old_size a ptr t.bytes i
                  (elim k.apart [
                    | inl q ↦ inr (omega (arith, k.holds))
                    | inr q ↦ inl (omega arith)
                  ])
                  w
              ∙ same_bytes (ptr + i)
                  (elim k.apart [ inl q ↦ inr (inr (omega arith)) | inr q ↦ inl (omega arith) ]);
          others = λ i w x.
              ap (λ f. f i) h.2
              ∙ memcpy-outside old_size a ptr t.bytes i w
              ∙ same_bytes i (elim x [ inl y ↦ inl y | inr y ↦ inr (inl y) ]);
        }))

-- `realloc` finds the old size in the header.
data_size-block :
    (s : AppHeap) (before : List Block) (b : Block) (after : List Block)
    → IsAppHeap s (before ++ b ∷ after)
    → data_size (s.base + span before + header_size) s ≡ b.size - header_size
unfolding Sized
data_size-block s before b after v =
    let w = Sized-append before (b ∷ after) v.sized in
    let n = span-append before (b ∷ after) in
    let place : sub64 (s.base + span before + header_size) header_size ≡ s.base + span before =
      omega (arith, n, v.top, v.covers) in
    let size_is = block-size s.blocks s.base before b after v.chain in
    let cut : sub64 b.size header_size ≡ b.size - header_size =
      omega (arith, n, v.top, v.covers, w.1.0) in
    ap (λ x. sub64 (s.blocks x).size header_size) place
    ∙ ap (λ x. sub64 x header_size) size_is
    ∙ cut

-- `realloc` of a block in use of a heap in order to a size that is larger than the block's and at
-- most 2 ^ 64 - 32 returns. Where no free block is large enough it answers 0 and changes nothing.
-- Else the answer is the address of the block that first fit takes, which holds the bytes of the old
-- block; the heap is in order, with the old block freed; and the memory outside of headers is
-- unchanged but for that copy and the 25 bytes behind the new block, where a split puts the header of
-- what is left.
pub realloc_moves :
    (s : AppHeap) (before : List Block) (b : Block) (after : List Block) (size : ℕ)
    → IsAppHeap s (before ++ b ∷ after)
    → (b.used == 0) ≡ false
    → b.size < size + header_size
    → size + 32 ≤ 2 ^ 64
    → Returns
        (λ (a : ℕ) (t : AppHeap). elim (allocate (total_of size) (before ++ b ∷ after)) [
          | none ↦ (a ≡ 0) × (t ≡ s)
          | some (o, l) ↦ Moved s t a (b.size - header_size) (total_of size) o before b l
        ])
        (realloc (s.base + span before + header_size) size s)
unfolding Sized
realloc_moves s before b after size v taken grows fits =
    let total = total_of size in
    let w = Sized-append before (b ∷ after) v.sized in
    let n = span-append before (b ∷ after) in
    let ptr = s.base + span before + header_size in
    let room = (total_of-room size (omega arith)).1 fits in
    let enough : b.size ≤ total = omega (arith, room) in
    let old = data_size-block s before b after v in
    let some_ptr : (ptr == 0) ≡ false = ground arith in
    let some_size : (size == 0) ≡ false = ground (arith, w.1.0) in
    let larger : leb size (data_size ptr s) ≡ false = rw old (ground (arith, w.1.0)) in
    rw (realloc-grows s ptr size some_ptr some_size larger, old)
      (Returns-and_then _ _ (vmm_alloc size s) (move_to (b.size - header_size) ptr)
        (vmm_alloc_refines s size (before ++ b ∷ after) v (omega (arith, w.1.0))
          (omega (arith, room)))
        (elim (allocate-Keeps total before b after taken) [
          | inl e ↦ rw e (λ a t h. rw (h.0, h.1) (refl, refl))
          | inr (o, l, e, k) ↦ rw e (λ a t h. rw h.0 (
              move-Moved s t total (fitted total (before ++ b ∷ after)) o before b l k taken h.1 h.3
                h.4 w.1.0 enough))
        ]))
