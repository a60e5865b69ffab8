-- ===== src/Core0/Mm.antt =====
-- Core-0/include/mm.h and Core-0/mm/mm.c: physical memory as a table of page frames.
pub mod Alloc
pub mod Free
pub mod Scan
mod Tests
use hik.Prelude.{
  ℕ, zero, suc, ◌+◌, ◌-◌, ◌*◌, ◌/◌, ◌%◌, ◌^◌, ◌≤◌, ◌<◌, bit_and, bit_or, ◌≡◌, refl, sym, ap, ◌∙◌,
  ◌≢◌, ◌↔◌, ◌⊎◌, inl, inr, Bool, true, false, not, ◌&&◌, ◌||◌, Option, none, some, List, [], ◌∷◌,
  ◌++◌, arith, ltb, leb, ◌==◌, if◌then◌else◌, Bool-cases, Option-cases, Nat-cases, update, first,
  count, first-some, first-none, first-eq_some, first_found, first_unique, Run, ok, hang, fault,
  Cmd, and_then, ◌>>=◌, ◌>>◌, pure, gets, modify, call, Returns, u32, u64, dec32, dec64, sub64, ℤ,
  pos, negsuc, success, minus_one, minus_two, minus_three, is_success, length, length-append,
  values, erase, contains, length-values, values-ext, values-append, values-erase,
}

abbrev pub page_size : ℕ
page_size = 4096

abbrev pub max_pages : ℕ
max_pages = 512 * 1024 * 1024 / 4096

abbrev pub mem_type_reserved : ℕ
mem_type_reserved = 0

abbrev pub mem_type_available : ℕ
mem_type_available = 1

abbrev pub mem_type_kernel : ℕ
mem_type_kernel = 2

abbrev pub mem_type_application : ℕ
mem_type_application = 4

pub record MemFrame : Type 0 where
  pub type : ℕ
  pub owner : ℕ

abbrev pub frame : ℕ → ℕ → MemFrame
frame type owner = record { type = type; owner = owner }

pub record MmState : Type 0 where
  pub frames : ℕ → MemFrame
  pub total_pages : ℕ
  pub available_pages : ℕ
  pub allocated_pages : ℕ
  pub lock : ℕ

unfoldable pub spin_lock : Cmd MmState (Unit {0})
spin_lock s = if s.lock == 0 then modify (λ t. record t { lock = 1 }) s else hang

unfoldable pub spin_unlock : Cmd MmState (Unit {0})
spin_unlock = modify λ s. record s { lock = 0 }

-- The loop over the frames writes past the end of the table where there are more pages than frames.
-- Every frame is cleared to the reserved type, owner 0, by the `memset` before it.
unfoldable pub mm_init : ℕ → Cmd MmState ℤ
mm_init total_memory s =
    let total = total_memory / page_size in
    if ltb max_pages total
    then fault
    else pure success (record {
      frames = λ _. frame mem_type_reserved 0;
      total_pages = total;
      available_pages = total;
      allocated_pages = 0;
      lock = 0;
    })

-- `(size + PAGE_SIZE - 1) / PAGE_SIZE` in 64-bit words
abbrev pub pages_of : ℕ → ℕ
pages_of size = u64 (size + (page_size - 1)) / page_size

-- How the search of `mm_alloc` ends: with a start page, without one, or with a division by zero.
pub data Found : Type 0 where
  at : ℕ → Found
  absent : Found
  divided : Found

-- The loop of `mm_alloc` from page `i` on, with the variables `start_page` and `found_pages`.
unfoldable pub scan : (ℕ → MemFrame) → (needed align rounds i start found : ℕ) → Found
scan f needed align zero i start found = absent
scan f needed align (suc k) i start found = elim ((f i).type == mem_type_available) [
  | false ↦ scan f needed align k (suc i) start 0
  | true ↦
      let start' = if found == 0 then i else start in
      elim (leb needed (found + 1)) [
        | false ↦ scan f needed align k (suc i) start' (found + 1)
        | true ↦ elim (align == 0) [
          | true ↦ divided
          | false ↦ elim (start' % align == 0) [
            | true ↦ at start'
            | false ↦ scan f needed align k (suc i) start' 0
          ]
        ]
      ]
]

-- `for (; rounds > 0; j++) frames[j] = v;`
unfoldable pub fill : MemFrame → ℕ → ℕ → (ℕ → MemFrame) → ℕ → MemFrame
fill v zero j f = f
fill v (suc k) j f = fill v k (suc j) (update f j v)

unfoldable pub mm_alloc : (size align type owner : ℕ) → Cmd MmState ℕ
unfolding spin_lock spin_unlock
mm_alloc size align type owner = do
  spin_lock
  place ← gets (λ s. scan s.frames (pages_of size) (pages_of align) s.total_pages 0 0 0)
  elim place [
    | absent ↦ (do spin_unlock; pure 0)
    | divided ↦ (λ s. fault)
    | at p ↦ (do
      modify (λ s. record s {
        frames = fill (frame type owner) (pages_of size) p s.frames;
        available_pages = sub64 s.available_pages (pages_of size);
        allocated_pages = u64 (s.allocated_pages + pages_of size);
      })
      spin_unlock
      pure (u64 (p * page_size)))
  ]

unfoldable pub mm_free : ℕ → Cmd MmState ℤ
unfolding spin_lock spin_unlock
mm_free addr = do
  spin_lock
  total ← gets (λ s. s.total_pages)
  if leb total (addr / page_size) then (do spin_unlock; pure minus_one) else (do
    modify (λ s. record s {
      frames = update s.frames (addr / page_size) (frame mem_type_available 0);
      available_pages = u64 (s.available_pages + 1);
      allocated_pages = dec64 s.allocated_pages;
    })
    spin_unlock
    pure success)

-- The loop of `mm_reserve` from page `i` on: whether it ran to its end, and the frames.
unfoldable pub reserve_pages :
    MemFrame → (total rounds i : ℕ) → (ℕ → MemFrame) → Bool × (ℕ → MemFrame)
reserve_pages v total zero i f = (true, f)
reserve_pages v total (suc k) i f = elim (leb total i) [
  | true ↦ (false, f)
  | false ↦ reserve_pages v total k (suc i) (update f i v)
]

-- The counters after `n` pages of the type have been reserved.
abbrev pub count_reserved : ℕ → ℕ → MmState → MmState
count_reserved type n s =
    if type == mem_type_available
    then record s { available_pages = u64 (s.available_pages + n) }
    else record s {
      available_pages = sub64 s.available_pages n;
      allocated_pages = u64 (s.allocated_pages + n);
    }

unfoldable pub mm_reserve : (base size type owner : ℕ) → Cmd MmState ℤ
unfolding spin_lock spin_unlock
mm_reserve base size type owner = do
  spin_lock
  done ← call (λ s.
      let (done, f) =
        reserve_pages (frame type owner) s.total_pages (pages_of size) (base / page_size)
          s.frames in
      (done, record s { frames = f }))
  if done
      then (do modify (count_reserved type (pages_of size)); spin_unlock; pure success)
      else (do spin_unlock; pure minus_one)

unfoldable pub mm_get_type : ℕ → MmState → ℕ
mm_get_type addr s =
    if leb s.total_pages (addr / page_size)
    then mem_type_reserved
    else (s.frames (addr / page_size)).type

-- The frame is returned as its index.
unfoldable pub mm_get_frame : ℕ → MmState → Option ℕ
mm_get_frame addr s = if leb s.total_pages (addr / page_size) then none else some (addr / page_size)

unfoldable pub mm_get_available : MmState → ℕ
mm_get_available s = u64 (s.available_pages * page_size)

unfoldable pub mm_get_allocated : MmState → ℕ
mm_get_allocated s = u64 (s.allocated_pages * page_size)
