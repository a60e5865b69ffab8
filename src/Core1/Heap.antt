-- ===== src/Core1/Heap.antt =====
-- Core-1/include/physical_mem.h and Core-1/mm/physical_mem.c: the heap of a service. The allocator's
-- handling of the block list is that of Blocks. A walk along the list that has not ended after as
-- many steps as the heap has bytes does not end at all where a block lies on the list twice, and
-- counts as a hang.
pub mod Shape
pub mod Alloc
pub mod Free
pub mod Check
pub mod Undo
mod Tests
use hik.Prelude.{
  ℕ, zero, suc, ◌+◌, ◌*◌, Option, none, some, ltb, ◌==◌, if◌then◌else◌, update, hang, Cmd, ◌>>=◌,
  ◌>>◌, pure, gets, modify, u64, sub64, ℤ, success, minus_one,
}
use hik.Blocks.{
  Blocks, at, absent, endless, header_size, total_of, find_fit, place, free_block, validate_walk,
}

pub record Heap : Type 0 where
  pub base : ℕ
  pub size : ℕ
  pub first_block : ℕ
  pub lock : ℕ
  pub blocks : Blocks

unfoldable pub spin_lock : Cmd Heap (Unit {0})
spin_lock s = if s.lock == 0 then modify (λ t. record t { lock = 1 }) s else hang

unfoldable pub spin_unlock : Cmd Heap (Unit {0})
spin_unlock = modify λ s. record s { lock = 0 }

unfoldable pub pmm_init : (base size : ℕ) → Cmd Heap ℤ
pmm_init base size s =
    if ltb size (header_size * 2)
    then pure minus_one s
    else pure success (record {
      base = base;
      size = size;
      first_block = base;
      lock = 0;
      blocks = update s.blocks base (record { size = size; used = 0; next = 0; prev = 0 });
    })

-- The alignment is not used.
unfoldable pub pmm_alloc_aligned : (size alignment : ℕ) → Cmd Heap ℕ
unfolding spin_lock spin_unlock
pmm_alloc_aligned size alignment =
    let total = total_of size in
    if size == 0 then pure 0 else (do
      spin_lock
      best ← gets (λ s. find_fit (s.size + 1) total s.first_block s.blocks)
      elim best [
        | endless ↦ (λ s. hang)
        | absent ↦ (do spin_unlock; pure 0)
        | at b ↦ (do
          modify (λ s. record s { blocks = place total b s.blocks })
          spin_unlock
          pure (u64 (b + header_size)))
      ])

unfoldable pub pmm_alloc : (size : ℕ) → Cmd Heap ℕ
unfolding pmm_alloc_aligned
pmm_alloc size = pmm_alloc_aligned size 8

unfoldable pub pmm_free : (ptr : ℕ) → Cmd Heap (Unit {0})
unfolding spin_lock spin_unlock
pmm_free ptr = if ptr == 0 then pure tt else (do
  spin_lock
  modify (λ s. record s { blocks = free_block (sub64 ptr header_size) s.blocks })
  spin_unlock)

-- The three counters of `pmm_stats`.
pub record Stats : Type 0 where
  pub total : ℕ
  pub used : ℕ
  pub free : ℕ

unfoldable pub stats_walk : (steps block : ℕ) → Blocks → Stats → Option Stats
stats_walk zero block f c = none
stats_walk (suc k) block f c =
    let b = f block in
    let rest = stats_walk k b.next f (record {
      total = u64 (c.total + b.size);
      used = if b.used == 0 then c.used else u64 (c.used + b.size);
      free = if b.used == 0 then u64 (c.free + b.size) else c.free;
    }) in
    if block == 0 then some c else rest

unfoldable pub pmm_stats : Cmd Heap Stats
unfolding spin_lock spin_unlock
pmm_stats = do
  spin_lock
  result ← gets (λ s.
      stats_walk (s.size + 1) s.first_block s.blocks (record { total = 0; used = 0; free = 0 }))
  elim result [ none ↦ (λ s. hang) | some c ↦ (do spin_unlock; pure c) ]

unfoldable pub pmm_validate : Cmd Heap ℤ
unfolding spin_lock spin_unlock
pmm_validate = do
  spin_lock
  result ← gets (λ s. validate_walk (s.size + 1) s.base s.size s.first_block 0 s.blocks)
  elim result [ none ↦ (λ s. hang) | some r ↦ (do spin_unlock; pure r) ]
