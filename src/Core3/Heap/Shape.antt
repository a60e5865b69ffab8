-- ===== src/Core3/Heap/Shape.antt =====
-- When the heap of Core-3/mm/virtual_mem.c is in order.
use hik.Prelude.{◌+◌, ◌^◌, ◌≤◌, ◌<◌, ◌≡◌, refl, List, [], ◌∷◌, arith}
use hik.Blocks.Chain.{Block, span, link, Seg, Sized}
use hik.Blocks.Used.{used_span}
use hik.Core3.Heap.{AppHeap}

-- The heap's memory, which begins behind the null pointer and ends at least 33 bytes before the end
-- of the address space, is cut into the blocks `bs`, each of which has room for its header, and the
-- counter holds the bytes of the blocks in use.
pub record IsAppHeap (s : AppHeap) (bs : List Block) : Type 0 where
  pub chain : Seg s.blocks 0 s.base bs 0
  pub sized : Sized bs
  pub covers : span bs ≡ s.size
  pub start : 0 < s.base
  pub some_bytes : 0 < s.size
  pub top : s.base + s.size + 33 ≤ 2 ^ 64
  pub unlocked : s.lock ≡ 0
  pub counted : s.used ≡ used_span bs

pub base-link : (s : AppHeap) (bs : List Block) → IsAppHeap s bs → s.base ≡ link s.base bs 0
base-link s [] v = absurd (omega (arith, v.covers, v.some_bytes))
base-link s (b ∷ bs) v = refl
