-- ===== src/Core3/Heap/Check.antt =====
-- `vmm_init`, `vmm_stats` and `vmm_validate` of Core-3/mm/virtual_mem.c.
use hik.Prelude.{
  ℕ, ◌+◌, ◌*◌, ◌^◌, ◌≤◌, ◌<◌, ◌≡◌, refl, ap, ◌∙◌, false, some, List, [], ◌∷◌, arith, ltb, update,
  update_here, ok, Returns, sub64, ℤ, success,
}
use hik.Blocks.{header_size, validate_walk}
use hik.Blocks.Chain.{Block, block, Seg, Sized}
use hik.Blocks.Spec.{length-le-span}
use hik.Blocks.Used.{used_span, free_span, used-free_span}
use hik.Blocks.Validate.{validate_walk-ok}
use hik.Core3.Heap.{AppHeap, vmm_init, write_header, vmm_stats, vmm_validate}
use hik.Core3.Heap.Shape.{IsAppHeap, base-link}

init-runs :
    (s : AppHeap) (base size : ℕ)
    → header_size * 2 ≤ size
    → vmm_init base size s
      ≡ ok success (record s {
        base = base;
        size = size;
        used = 0;
        lock = 0;
        blocks = update s.blocks base (record { size = size; used = 0; next = 0; prev = 0 });
        bytes = write_header base (record { size = size; used = 0; next = 0; prev = 0 }) s.bytes;
      })
unfolding vmm_init
init-runs s base size l = let e : ltb size (header_size * 2) ≡ false = ground arith in rw e refl

-- `vmm_init` on memory of at least two headers, behind the null pointer and at least 33 bytes before
-- the end of the address space, succeeds, and leaves a heap in order whose only block is free and
-- takes all the memory.
pub vmm_init-IsAppHeap :
    (s : AppHeap) (base size : ℕ)
    → header_size * 2 ≤ size
    → 0 < base
    → base + size + 33 ≤ 2 ^ 64
    → Returns (λ r t. (r ≡ success) × IsAppHeap t (block size 0 ∷ [])) (vmm_init base size s)
unfolding Seg Sized
vmm_init-IsAppHeap s base size l start top = rw (init-runs s base size l) (
  refl,
  record {
    chain = (update_here s.blocks base (record { size = size; used = 0; next = 0; prev = 0 }), tt);
    sized = (omega arith, tt);
    covers = omega arith;
    start = start;
    some_bytes = omega arith;
    top = top;
    unlocked = refl;
    counted = refl;
  },
)

validate-runs :
    (s : AppHeap) (r : ℤ)
    → s.lock ≡ 0
    → validate_walk (s.size + 1) s.base s.size s.base 0 s.blocks ≡ some r
    → vmm_validate s ≡ ok r s
unfolding vmm_validate
validate-runs s r free e = ground arith

-- `vmm_validate` ends on every heap in order, finds no fault and changes nothing.
pub vmm_validate-ends :
    (s : AppHeap) (bs : List Block) → IsAppHeap s bs → vmm_validate s ≡ ok success s
vmm_validate-ends s bs v = validate-runs s success v.unlocked (
    ap (λ x. validate_walk (s.size + 1) s.base s.size x 0 s.blocks) (base-link s bs v)
    ∙ validate_walk-ok (s.size + 1) s.base s.size s.blocks 0 s.base 0 bs v.chain v.sized
        (omega (arith, length-le-span bs v.sized, v.covers)) (omega arith) (omega (arith, v.covers))
        (omega (arith, v.top)) v.start refl)

stats-runs :
    (s : AppHeap)
    → s.lock ≡ 0
    → vmm_stats s ≡ ok (record { total = s.size; used = s.used; free = sub64 s.size s.used }) s
unfolding vmm_stats
stats-runs s free = ground arith

-- `vmm_stats` on a heap in order returns, changes nothing, and answers the heap's size, the bytes of
-- the used blocks and those of the free ones.
pub vmm_stats_lem :
    (s : AppHeap) (bs : List Block)
    → IsAppHeap s bs
    → vmm_stats s ≡ ok (record { total = s.size; used = used_span bs; free = free_span bs }) s
vmm_stats_lem s bs v =
    let e : sub64 s.size (used_span bs) ≡ free_span bs =
      omega (arith, v.covers, v.top, used-free_span bs) in
    stats-runs s v.unlocked ∙ rw (v.counted, e) refl
