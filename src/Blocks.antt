-- ===== src/Blocks.antt =====
-- The block list of a heap: the allocator that Core-1/mm/physical_mem.c and Core-3/mm/virtual_mem.c
-- both contain, word for word. Memory is seen as a block header at each address; a header takes 25
-- bytes (the structure is packed), so that the headers of a list of blocks of at least that size do
-- not overlap.
pub mod Chain
pub mod Find
pub mod Place
pub mod Merge
pub mod Release
pub mod Spec
pub mod Choose
pub mod Validate
pub mod Undo
pub mod Used
pub mod Keep
mod Tests
use hik.Prelude.{
  minus_five, minus_four, ℕ, zero, suc, ◌+◌, ◌-◌, ◌*◌, ◌/◌, ◌%◌, ◌^◌, ◌≤◌, ◌<◌, bit_and, bit_or,
  ◌≡◌, refl, sym, ap, ◌∙◌, ◌≢◌, ◌↔◌, ◌⊎◌, inl, inr, Bool, true, false, not, ◌&&◌, ◌||◌, Option,
  none, some, List, [], ◌∷◌, ◌++◌, arith, ltb, leb, ◌==◌, if◌then◌else◌, Bool-cases, Option-cases,
  Nat-cases, update, first, count, first-some, first-none, first-eq_some, first_found, first_unique,
  first-ext, Run, ok, hang, fault, Cmd, and_then, ◌>>=◌, ◌>>◌, pure, gets, modify, call, Returns,
  Returns-mono, within, u32, u64, dec32, dec64, sub64, ℤ, pos, negsuc, success, minus_one,
  minus_two, minus_three, is_success, length, length-append, values, erase, contains, length-values,
  values-ext, values-append, values-erase,
}

pub record MemBlock : Type 0 where
  pub size : ℕ
  pub used : ℕ
  pub next : ℕ
  pub prev : ℕ

-- `sizeof(mem_block_t)`
abbrev pub header_size : ℕ
header_size = 25

abbrev pub Blocks : Type 0
Blocks = ℕ → MemBlock

-- `size = (size + 7) & ~7; total_size = size + sizeof(mem_block_t);`
abbrev pub total_of : ℕ → ℕ
total_of size = u64 (u64 (size + 7) / 8 * 8 + header_size)

-- How the walk along the list ends: at a block that fits, at the end of the list, or not within the
-- given number of steps.
pub data Fit : Type 0 where
  at : ℕ → Fit
  absent : Fit
  endless : Fit

-- `!block->used && block->size >= total_size`
abbrev pub fits : ℕ → MemBlock → Bool
fits total b = (b.used == 0) && leb total b.size

unfoldable pub find_fit : (steps total block : ℕ) → Blocks → Fit
find_fit zero total block f = endless
find_fit (suc k) total block f =
    let rest = find_fit k total (f block).next f in
    if block == 0 then absent else if fits total (f block) then at block else rest

-- `if (block != NULL) block->prev = prev;`
abbrev pub set_prev : (block prev : ℕ) → Blocks → Blocks
set_prev block prev f = if block == 0 then f else update f block (record (f block) { prev = prev })

-- Cuts the block after `total` bytes; the rest becomes a free block.
unfoldable pub split_block : (total block : ℕ) → Blocks → Blocks
split_block total block f =
    let b = f block in
    let new_block = u64 (block + total) in
    let f1 =
      update f new_block
        (record { size = sub64 b.size total; used = 0; next = b.next; prev = block }) in
    let f2 = set_prev b.next new_block f1 in
    update f2 block (record (f2 block) { next = new_block; size = total })

-- `if (best_block->size >= total_size + sizeof(mem_block_t) + 8)`
unfoldable pub place : (total block : ℕ) → Blocks → Blocks
unfolding split_block
place total block f =
    let g =
      if leb (u64 (total + header_size + 8)) (f block).size then split_block total block f else f in
    update g block (record (g block) { used = 1 })

-- `if (block->next != NULL && !block->next->used) ...`
unfoldable pub merge_next : (block : ℕ) → Blocks → Blocks
merge_next block f =
    let b = f block in
    let n = f b.next in
    if b.next == 0 || not (n.used == 0)
    then f
    else set_prev n.next block
        (update f block (record b { size = u64 (b.size + n.size); next = n.next }))

-- `if (block->prev != NULL && !block->prev->used) ...`
unfoldable pub merge_prev : (block : ℕ) → Blocks → Blocks
merge_prev block f =
    let b = f block in
    let p = f b.prev in
    if b.prev == 0 || not (p.used == 0)
    then f
    else set_prev b.next b.prev
        (update f b.prev (record p { size = u64 (p.size + b.size); next = b.next }))

unfoldable pub free_block : (block : ℕ) → Blocks → Blocks
unfolding merge_next merge_prev
free_block block f =
    merge_prev block (merge_next block (update f block (record (f block) { used = 0 })))

-- The loop of the integrity check: its answer, `none` where it does not end within the given number
-- of steps.
unfoldable pub validate_walk : (steps base heap_size block offset : ℕ) → Blocks → Option ℤ
validate_walk zero base heap_size block offset f = none
validate_walk (suc k) base heap_size block offset f =
    let b = f block in
    let rest = validate_walk k base heap_size b.next (u64 (offset + b.size)) f in
    if block == 0
    then some success
    else if not (block == u64 (base + offset))
    then some minus_one
    else if ltb b.size header_size
    then some minus_two
    else if ltb heap_size (u64 (offset + b.size))
    then some minus_three
    else if not (b.next == 0) && not ((f b.next).prev == block)
    then some minus_four
    else if not (b.prev == 0) && not ((f b.prev).next == block)
    then some minus_five
    else rest
