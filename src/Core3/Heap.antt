-- ===== src/Core3/Heap.antt =====
-- Core-3/include/virtual_mem.h and Core-3/mm/virtual_mem.c: the heap of an application. The handling of
-- the block list is that of Blocks. `blocks` holds the headers and `bytes` the memory outside of them:
-- where a header lies, `bytes` is not looked at, and stores to a header that is already there change
-- `blocks` only. A header that is new, at the start of the heap or where a block is split, is written
-- over bytes, and changes both; what is left in memory of a header that a merge dissolves is not
-- followed. Copying and filling are the byte loops of Core-1/lib/string.c, which Core-3/lib/string.c
-- repeats.
pub mod Shape
pub mod Alloc
pub mod Free
pub mod Check
pub mod Realloc
mod Tests
use hik.Prelude.{
  ℕ, zero, suc, ◌+◌, ◌-◌, ◌*◌, ◌/◌, ◌%◌, ◌^◌, ◌≤◌, ◌<◌, bit_and, bit_or, ◌≡◌, refl, sym, ap, ◌∙◌,
  ◌≢◌, ◌↔◌, ◌⊎◌, inl, inr, Bool, true, false, not, ◌&&◌, ◌||◌, Option, none, some, List, [], ◌∷◌,
  ◌++◌, arith, ltb, leb, ◌==◌, if◌then◌else◌, Bool-cases, Option-cases, Nat-cases, update,
  update_here, update_else, first, count, first-some, first-none, first-eq_some, first_found,
  first_unique, first-ext, Run, ok, hang, fault, Cmd, and_then, ◌>>=◌, ◌>>◌, pure, gets, modify,
  call, Returns, Returns-mono, Returns-and_then, within, u32, u64, dec32, dec64, sub64, ℤ, pos,
  negsuc, success, minus_one, minus_two, minus_three, minus_four, minus_five, is_success, length,
  length-append, values, erase, contains, length-values, values-ext, values-append, values-erase,
}
use hik.Blocks.{
  MemBlock, Blocks, at, absent, endless, header_size, total_of, find_fit, place, free_block,
  validate_walk,
}
use hik.Core1.Isolation.Bulk.{memcpy, memset}

pub record AppHeap : Type 0 where
  pub base : ℕ
  pub size : ℕ
  pub used : ℕ
  pub lock : ℕ
  pub blocks : Blocks
  pub bytes : ℕ → ℕ

unfoldable pub spin_lock : Cmd AppHeap (Unit {0})
spin_lock s = if s.lock == 0 then modify (λ t. record t { lock = 1 }) s else hang

unfoldable pub spin_unlock : Cmd AppHeap (Unit {0})
spin_unlock = modify λ s. record s { lock = 0 }

-- The byte of a packed header at a distance below 25 from its address: the size, the mark and the two
-- links, each with its low byte first.
unfoldable pub header_byte : MemBlock → ℕ → ℕ
header_byte h i =
    if ltb i 8
    then h.size / 256 ^ i % 256
    else if i == 8
    then h.used % 256
    else if ltb i 17
    then h.next / 256 ^ (i - 9) % 256
    else h.prev / 256 ^ (i - 17) % 256

-- The bytes once a header has been stored at `a`.
unfoldable pub write_header : (a : ℕ) → MemBlock → (ℕ → ℕ) → ℕ → ℕ
write_header a h m k = if leb a k && ltb k (a + header_size) then header_byte h (k - a) else m k

-- The bytes after `place`: a split stores a new header in the free block, `total` bytes behind its own.
unfoldable pub split_bytes : (total block : ℕ) → Blocks → (ℕ → ℕ) → ℕ → ℕ
split_bytes total block f m =
    let new_block = u64 (block + total) in
    if leb (u64 (total + header_size + 8)) (f block).size
    then write_header new_block (place total block f new_block) m
    else m

unfoldable pub vmm_init : (base size : ℕ) → Cmd AppHeap ℤ
vmm_init base size s =
    if ltb size (header_size * 2)
    then pure minus_one s
    else (let initial_block : MemBlock = record { size = size; used = 0; next = 0; prev = 0 } in
        pure success (record s {
          base = base;
          size = size;
          used = 0;
          lock = 0;
          blocks = update s.blocks base initial_block;
          bytes = write_header base initial_block s.bytes;
        }))

-- The chosen block is placed, and its size is added to the counter.
unfoldable pub take_block : (total block : ℕ) → AppHeap → AppHeap
take_block total block s =
    let f = place total block s.blocks in
    record s {
      blocks = f;
      used = u64 (s.used + (f block).size);
      bytes = split_bytes total block s.blocks s.bytes;
    }

-- The alignment is not used.
unfoldable pub vmm_alloc_aligned : (size alignment : ℕ) → Cmd AppHeap ℕ
unfolding spin_lock spin_unlock take_block
vmm_alloc_aligned size alignment =
    let total = total_of size in
    if size == 0 then pure 0 else (do
      spin_lock
      best ← gets (λ s. find_fit (s.size + 1) total s.base s.blocks)
      elim best [
        | endless ↦ (λ s. hang)
        | absent ↦ (do spin_unlock; pure 0)
        | at b ↦ (do modify (take_block total b); spin_unlock; pure (u64 (b + header_size)))
      ])

unfoldable pub vmm_alloc : (size : ℕ) → Cmd AppHeap ℕ
unfolding vmm_alloc_aligned
vmm_alloc size = vmm_alloc_aligned size 16

-- The size is taken off the counter before the block is merged.
unfoldable pub give_block : (block : ℕ) → AppHeap → AppHeap
give_block block s = record s {
  used = sub64 s.used (s.blocks block).size;
  blocks = free_block block s.blocks;
}

unfoldable pub vmm_free : (ptr : ℕ) → Cmd AppHeap (Unit {0})
unfolding spin_lock spin_unlock give_block
vmm_free ptr =
    if ptr == 0
    then pure tt
    else (do spin_lock; modify (give_block (sub64 ptr header_size)); spin_unlock)

unfoldable pub vmm_mmap : (addr length prot flags fd offset : ℕ) → Cmd AppHeap ℕ
vmm_mmap addr length prot flags fd offset = vmm_alloc length

unfoldable pub vmm_munmap : (addr length : ℕ) → Cmd AppHeap ℤ
vmm_munmap addr length = do vmm_free addr; pure success

abbrev pub vmm_mprotect : (addr len prot : ℕ) → Cmd AppHeap ℤ
vmm_mprotect addr len prot = pure success

-- The three numbers of `vmm_stats`.
pub record Stats : Type 0 where
  pub total : ℕ
  pub used : ℕ
  pub free : ℕ

unfoldable pub vmm_stats : Cmd AppHeap Stats
unfolding spin_lock spin_unlock
vmm_stats = do
  spin_lock
  r ← gets (λ s. record { total = s.size; used = s.used; free = sub64 s.size s.used })
  spin_unlock
  pure r

unfoldable pub vmm_validate : Cmd AppHeap ℤ
unfolding spin_lock spin_unlock
vmm_validate = do
  spin_lock
  result ← gets (λ s. validate_walk (s.size + 1) s.base s.size s.base 0 s.blocks)
  elim result [ none ↦ (λ s. hang) | some r ↦ (do spin_unlock; pure r) ]

unfoldable pub malloc : (size : ℕ) → Cmd AppHeap ℕ
malloc size = vmm_alloc size

unfoldable pub free : (ptr : ℕ) → Cmd AppHeap (Unit {0})
free ptr = vmm_free ptr

-- `block->size - sizeof(mem_block_t)`
abbrev pub data_size : ℕ → AppHeap → ℕ
data_size ptr s = sub64 (s.blocks (sub64 ptr header_size)).size header_size

unfoldable pub realloc : (ptr size : ℕ) → Cmd AppHeap ℕ
realloc ptr size =
    if ptr == 0 then vmm_alloc size else if size == 0 then (do vmm_free ptr; pure 0) else (do
      old_size ← gets (data_size ptr)
      if leb size old_size then pure ptr else (do
        new_ptr ← vmm_alloc size
        if new_ptr == 0 then pure 0 else (do
          modify (λ s. record s { bytes = memcpy old_size new_ptr ptr s.bytes })
          vmm_free ptr
          pure new_ptr)))

unfoldable pub calloc : (nmemb size : ℕ) → Cmd AppHeap ℕ
calloc nmemb size = do
  let total = u64 (nmemb * size)
  ptr ← vmm_alloc total
  if ptr == 0
      then pure 0
      else (do modify (λ s. record s { bytes = memset total ptr 0 s.bytes }); pure ptr)
