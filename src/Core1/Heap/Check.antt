-- ===== src/Core1/Heap/Check.antt =====
-- `pmm_init`, `pmm_stats` and `pmm_validate` of Core-1/mm/physical_mem.c.
use hik.Prelude.{
  ℕ, zero, suc, ◌+◌, ◌*◌, ◌^◌, ◌≤◌, ◌<◌, ◌≡◌, refl, ap, ◌∙◌, inl, inr, false, some, List, [], ◌∷◌,
  arith, ltb, ◌==◌, Bool-cases, update, update_here, ok, Returns, u64, ℤ, success, length,
}
use hik.Blocks.{Blocks, header_size, validate_walk}
use hik.Blocks.Chain.{Block, block, span, link, Seg, Sized}
use hik.Blocks.Spec.{length-le-span}
use hik.Blocks.Validate.{validate_walk-ok}
use hik.Blocks.Used.{used_size, free_size, used_span, free_span}
use hik.Core1.Heap.{Heap, Stats, pmm_init, pmm_validate, stats_walk, pmm_stats}
use hik.Core1.Heap.Shape.{IsHeap, first-link}

init-runs :
    (s : Heap) (base size : ℕ)
    → header_size * 2 ≤ size
    → pmm_init base size s
      ≡ ok success (record {
        base = base;
        size = size;
        first_block = base;
        lock = 0;
        blocks = update s.blocks base (record { size = size; used = 0; next = 0; prev = 0 });
      })
unfolding pmm_init
init-runs s base size l = let e : ltb size (header_size * 2) ≡ false = ground arith in rw e refl

-- `pmm_init` on memory of at least two headers, behind the null pointer and at least 33 bytes before
-- the end of the address space, succeeds, and leaves a heap in order whose only block is free and
-- takes all the memory.
pub pmm_init-IsHeap :
    (s : Heap) (base size : ℕ)
    → header_size * 2 ≤ size
    → 0 < base
    → base + size + 33 ≤ 2 ^ 64
    → Returns (λ r t. (r ≡ success) × IsHeap t (block size 0 ∷ [])) (pmm_init base size s)
unfolding Seg Sized
pmm_init-IsHeap s base size l start top = rw (init-runs s base size l) (
  refl,
  record {
    chain = (update_here s.blocks base (record { size = size; used = 0; next = 0; prev = 0 }), tt);
    sized = (omega arith, tt);
    covers = omega arith;
    first_is = refl;
    start = start;
    some_bytes = omega arith;
    top = top;
    unlocked = refl;
  },
)

validate-runs :
    (s : Heap) (r : ℤ)
    → s.lock ≡ 0
    → validate_walk (s.size + 1) s.base s.size s.first_block 0 s.blocks ≡ some r
    → pmm_validate s ≡ ok r s
unfolding pmm_validate
validate-runs s r free e = ground arith

-- `pmm_validate` ends on every heap in order, finds no fault and changes nothing.
pub pmm_validate-ends : (s : Heap) (bs : List Block) → IsHeap s bs → pmm_validate s ≡ ok success s
pmm_validate-ends s bs v = validate-runs s success v.unlocked (
    ap (λ x. validate_walk (s.size + 1) s.base s.size x 0 s.blocks) (first-link s bs v)
    ∙ validate_walk-ok (s.size + 1) s.base s.size s.blocks 0 s.base 0 bs v.chain v.sized
        (omega (arith, length-le-span bs v.sized, v.covers)) (omega arith) (omega (arith, v.covers))
        (omega (arith, v.top)) v.start refl)

abbrev stats : (total used free : ℕ) → Stats
stats total used free = record { total = total; used = used; free = free }

stats-ext : (t u v x y z : ℕ) → t ≡ x → u ≡ y → v ≡ z → some (stats t u v) ≡ some (stats x y z)
stats-ext t u v x y z p q r = rw (p, q, r) refl

stats_round :
    (k : ℕ) (f : Blocks) (a n p t u v : ℕ) (b : Block)
    → f a ≡ record { size = b.size; used = b.used; next = n; prev = p }
    → 0 < a
    → u + v ≡ t
    → t + b.size < 2 ^ 64
    → stats_walk (suc k) a f (stats t u v)
      ≡ stats_walk k n f (stats (t + b.size) (u + used_size b) (v + free_size b))
unfolding stats_walk
stats_round k f a n p t u v b e start parts top =
    let z : (a == 0) ≡ false = ground arith in
    let c : u64 (t + b.size) ≡ t + b.size = omega arith in
    let i : u64 (u + b.size) ≡ u + b.size = omega arith in
    let j : u64 (v + b.size) ≡ v + b.size = omega arith in
    let m : u + 0 ≡ u = omega arith in
    let o : v + 0 ≡ v = omega arith in
    elim (Bool-cases (b.used == 0)) [
      | inl free ↦ rw (z, e, free, c, j, m) refl
      | inr taken ↦ rw (z, e, taken, c, i, o) refl
    ]

stats_end :
    (k : ℕ) (f : Blocks) (t u v : ℕ)
    → stats_walk (suc k) 0 f (stats t u v) ≡ some (stats (t + 0) (u + 0) (v + 0))
unfolding stats_walk
stats_end k f t u v =
    stats-ext t u v (t + 0) (u + 0) (v + 0) (omega arith) (omega arith) (omega arith)

both : (b : Block) (u v t : ℕ) → u + v ≡ t → u + used_size b + (v + free_size b) ≡ t + b.size
both b u v t e = ground arith

stats_walk_lem :
    (k : ℕ) (f : Blocks) (p a : ℕ) (bs : List Block) (t u v : ℕ)
    → Seg f p a bs 0
    → Sized bs
    → length bs < k
    → 0 < a
    → t + span bs < 2 ^ 64
    → u + v ≡ t
    → stats_walk k (link a bs 0) f (stats t u v)
      ≡ some (stats (t + span bs) (u + used_span bs) (v + free_span bs))
unfolding Seg Sized
stats_walk_lem zero f p a bs t u v s w m start top parts = absurd (omega arith)
stats_walk_lem (suc k) f p a [] t u v s w m start top parts = stats_end k f t u v
stats_walk_lem (suc k) f p a (b ∷ bs) t u v s w m start top parts =
    stats_round k f a (link (a + b.size) bs 0) p t u v b s.0 start parts (omega arith)
    ∙ stats_walk_lem k f a (a + b.size) bs (t + b.size) (u + used_size b) (v + free_size b) s.1 w.1
        (omega arith) (omega arith) (omega arith) (both b u v t parts)
    ∙ stats-ext (t + b.size + span bs) (u + used_size b + used_span bs)
        (v + free_size b + free_span bs) (t + span (b ∷ bs)) (u + used_span (b ∷ bs))
        (v + free_span (b ∷ bs)) (omega arith) (omega arith) (omega arith)

stats-runs :
    (s : Heap) (c : Stats)
    → s.lock ≡ 0
    → stats_walk (s.size + 1) s.first_block s.blocks (stats 0 0 0) ≡ some c
    → pmm_stats s ≡ ok c s
unfolding pmm_stats
stats-runs s c free e = ground arith

-- `pmm_stats` ends on every heap in order, changes nothing, and answers the heap's size, the bytes
-- of the used blocks and those of the free ones.
pub pmm_stats-ends :
    (s : Heap) (bs : List Block)
    → IsHeap s bs
    → pmm_stats s ≡ ok (stats s.size (used_span bs) (free_span bs)) s
pmm_stats-ends s bs v = stats-runs s (stats s.size (used_span bs) (free_span bs)) v.unlocked (
    ap (λ x. stats_walk (s.size + 1) x s.blocks (stats 0 0 0)) (first-link s bs v)
    ∙ stats_walk_lem (s.size + 1) s.blocks 0 s.base bs 0 0 0 v.chain v.sized
        (omega (arith, length-le-span bs v.sized, v.covers)) v.start
        (omega (arith, v.covers, v.top)) (omega arith)
    ∙ stats-ext (0 + span bs) (0 + used_span bs) (0 + free_span bs) s.size (used_span bs)
        (free_span bs) (omega (arith, v.covers)) (omega arith) (omega arith))
