-- ===== src/Core1/Heap/Shape.antt =====
-- When the heap of Core-1/mm/physical_mem.c is in order.
use hik.Prelude.{◌+◌, ◌^◌, ◌≤◌, ◌<◌, ◌≡◌, List, [], ◌∷◌, arith}
use hik.Blocks.Chain.{Block, span, link, Seg, Sized}
use hik.Core1.Heap.{Heap}

-- The heap's memory, which begins behind the null pointer and ends at least 33 bytes before the end
-- of the address space, is cut into the blocks `bs`, each of which has room for its header.
pub record IsHeap (s : Heap) (bs : List Block) : Type 0 where
  pub chain : Seg s.blocks 0 s.base bs 0
  pub sized : Sized bs
  pub covers : span bs ≡ s.size
  pub first_is : s.first_block ≡ s.base
  pub start : 0 < s.base
  pub some_bytes : 0 < s.size
  pub top : s.base + s.size + 33 ≤ 2 ^ 64
  pub unlocked : s.lock ≡ 0

pub first-link : (s : Heap) (bs : List Block) → IsHeap s bs → s.first_block ≡ link s.base bs 0
first-link s [] v = absurd (omega (arith, v.covers, v.some_bytes))
first-link s (b ∷ bs) v = v.first_is
