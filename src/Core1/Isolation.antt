-- ===== src/Core1/Isolation.antt =====
-- Core-1/include/isolation.h and Core-1/isolation/isolation.c: the memory regions of a service, and
-- the check of each access against them. The functions that return a truth value as an `int` return
-- a `Bool` here. `Memory` is the physical memory, a byte for each address.
pub mod Regions
pub mod Remove
pub mod Access
pub mod Memory
pub mod Validate
pub mod Bulk
mod Tests
use hik.Prelude.{
  ℕ, zero, suc, ◌+◌, ◌-◌, ◌*◌, ◌/◌, ◌%◌, ◌^◌, ◌≤◌, ◌<◌, bit_and, bit_or, ◌≡◌, refl, sym, ap, ◌∙◌,
  ◌≢◌, ◌↔◌, ◌⊎◌, inl, inr, Bool, true, false, not, ◌&&◌, ◌||◌, Option, none, some, List, [], ◌∷◌,
  ◌++◌, arith, ltb, leb, ◌==◌, if◌then◌else◌, Bool-cases, Option-cases, Nat-cases, update, first,
  count, first-some, first-none, first-eq_some, first_found, first_unique, Run, ok, hang, fault,
  Cmd, and_then, ◌>>=◌, ◌>>◌, pure, gets, modify, call, Returns, u32, u64, dec32, dec64, sub64, ℤ,
  pos, negsuc, success, minus_one, minus_two, minus_three, is_success, length, length-append,
  values, erase, contains, length-values, values-ext, values-append, values-erase,
}

abbrev pub mem_perm_read : ℕ
mem_perm_read = 0x01

abbrev pub mem_perm_write : ℕ
mem_perm_write = 0x02

abbrev pub mem_perm_execute : ℕ
mem_perm_execute = 0x04

abbrev pub max_mem_regions : ℕ
max_mem_regions = 16

pub record MemRegion : Type 0 where
  pub type : ℕ
  pub phys_base : ℕ
  pub virt_base : ℕ
  pub size : ℕ
  pub permissions : ℕ
  pub cap_handle : ℕ

abbrev pub zero_region : MemRegion
zero_region = record {
  type = 0;
  phys_base = 0;
  virt_base = 0;
  size = 0;
  permissions = 0;
  cap_handle = 0;
}

pub record IsolationContext : Type 0 where
  pub service_id : ℕ
  pub domain_id : ℕ
  pub regions : ℕ → MemRegion
  pub num_regions : ℕ
  pub lock : ℕ
  pub enabled : ℕ

unfoldable pub spin_lock : Cmd IsolationContext (Unit {0})
spin_lock s = if s.lock == 0 then modify (λ t. record t { lock = 1 }) s else hang

unfoldable pub spin_unlock : Cmd IsolationContext (Unit {0})
spin_unlock = modify λ s. record s { lock = 0 }

-- The loop clears all 16 regions, which are the whole array.
unfoldable pub isolation_init : ℕ → ℕ → Cmd IsolationContext ℤ
isolation_init service_id domain_id s = pure success (record s {
  service_id = service_id;
  domain_id = domain_id;
  num_regions = 0;
  lock = 0;
  enabled = 0;
  regions = λ _. zero_region;
})

-- The 64-bit test for an overlap of a region with `size` bytes from `base`.
unfoldable pub overlaps : ℕ → ℕ → MemRegion → Bool
overlaps base size r = ltb base (u64 (r.phys_base + r.size)) && ltb r.phys_base (u64 (base + size))

abbrev pub new_region : ℕ → ℕ → ℕ → ℕ → ℕ → MemRegion
new_region type phys_base size permissions cap_handle = record {
  type = type;
  phys_base = phys_base;
  virt_base = phys_base;
  size = size;
  permissions = permissions;
  cap_handle = cap_handle;
}

unfoldable pub find_overlap : ℕ → ℕ → IsolationContext → Option ℕ
find_overlap base size s = first s.num_regions (λ i. overlaps base size (s.regions i))

unfoldable pub isolation_add_region : ℕ → ℕ → ℕ → ℕ → ℕ → Cmd IsolationContext ℤ
unfolding spin_lock spin_unlock
isolation_add_region type phys_base size permissions cap_handle = do
  n ← gets (λ s. s.num_regions)
  if leb max_mem_regions n then pure minus_one else (do
    spin_lock
    clash ← gets (find_overlap phys_base size)
    elim clash [
      | some _ ↦ (do spin_unlock; pure minus_two)
      | none ↦ (do
        modify (λ s. record s {
          regions =
              update s.regions s.num_regions
                (new_region type phys_base size permissions cap_handle);
          num_regions = u32 (s.num_regions + 1);
        })
        spin_unlock
        pure success)
    ])

-- `for (; rounds > 0; j++) regions[j] = regions[j + 1];`
unfoldable pub shift_down : ℕ → ℕ → (ℕ → MemRegion) → ℕ → MemRegion
shift_down zero j f = f
shift_down (suc k) j f = shift_down k (suc j) (update f j (f (suc j)))

unfoldable pub find_base : ℕ → IsolationContext → Option ℕ
find_base phys_base s = first s.num_regions (λ i. (s.regions i).phys_base == phys_base)

unfoldable pub isolation_remove_region : ℕ → Cmd IsolationContext ℤ
unfolding spin_lock spin_unlock
isolation_remove_region phys_base = do
  spin_lock
  place ← gets (find_base phys_base)
  elim place [
    | none ↦ (do spin_unlock; pure minus_one)
    | some i ↦ (do
      modify (λ s. record s {
        regions = shift_down (dec32 s.num_regions - i) i s.regions;
        num_regions = dec32 s.num_regions;
      })
      spin_unlock
      pure success)
  ]

-- `addr >= virt_base && addr + size <= virt_base + region->size`, in 64-bit words
unfoldable pub spans : ℕ → ℕ → MemRegion → Bool
spans addr size r = leb r.virt_base addr && leb (u64 (addr + size)) (u64 (r.virt_base + r.size))

unfoldable pub find_span : ℕ → ℕ → IsolationContext → Option ℕ
find_span addr size s = first s.num_regions (λ i. spans addr size (s.regions i))

unfoldable pub isolation_verify_access : ℕ → ℕ → ℕ → Cmd IsolationContext Bool
unfolding spin_lock spin_unlock
isolation_verify_access addr size required = do
  on ← gets (λ s. s.enabled)
  if on == 0 then pure true else (do
    spin_lock
    place ← gets (find_span addr size)
    elim place [
      | none ↦ (do spin_unlock; pure false)
      | some i ↦ (do
        r ← gets (λ s. s.regions i)
        if bit_and r.permissions required == required
            then (do spin_unlock; pure true)
            else (do spin_unlock; pure false))
    ])

-- `addr >= virt_base && addr < virt_base + size`
unfoldable pub holds_address : ℕ → MemRegion → Bool
holds_address addr r = leb r.virt_base addr && ltb addr (u64 (r.virt_base + r.size))

unfoldable pub find_address : ℕ → IsolationContext → Option ℕ
find_address addr s = first s.num_regions (λ i. holds_address addr (s.regions i))

unfoldable pub isolation_is_service_memory : ℕ → Cmd IsolationContext Bool
unfolding spin_lock spin_unlock
isolation_is_service_memory addr = do
  spin_lock
  place ← gets (find_address addr)
  elim place [ some _ ↦ (do spin_unlock; pure true) | none ↦ (do spin_unlock; pure false) ]

-- The region is returned as its index.
unfoldable pub isolation_get_region : ℕ → Cmd IsolationContext (Option ℕ)
unfolding spin_lock spin_unlock
isolation_get_region addr = do
  spin_lock
  place ← gets (find_address addr)
  elim place [ some i ↦ (do spin_unlock; pure (some i)) | none ↦ (do spin_unlock; pure none) ]

unfoldable pub isolation_enable : Cmd IsolationContext ℤ
isolation_enable s = pure success (record s { enabled = 1 })

unfoldable pub isolation_disable : Cmd IsolationContext ℤ
isolation_disable s = pure success (record s { enabled = 0 })

-- The inner loop of `isolation_validate`: a region above `i` that overlaps region `i`.
unfoldable pub find_later : ℕ → IsolationContext → Option ℕ
find_later i s =
    first (s.num_regions - (i + 1))
      (λ k. overlaps (s.regions i).phys_base (s.regions i).size (s.regions (i + 1 + k)))

-- The outer loop, from region `i` on.
unfoldable pub validate_from : ℕ → ℕ → IsolationContext → ℤ
validate_from zero i s = success
validate_from (suc k) i s = elim ((s.regions i).size == 0) [
  | true ↦ minus_one
  | false ↦ elim (find_later i s) [ some _ ↦ minus_two | none ↦ validate_from k (suc i) s ]
]

unfoldable pub isolation_validate : Cmd IsolationContext ℤ
unfolding spin_lock spin_unlock
isolation_validate = do
  spin_lock
  result ← gets (λ s. validate_from s.num_regions 0 s)
  spin_unlock
  pure result

-- The service's memory beside the context.
pub record Machine : Type 0 where
  pub context : IsolationContext
  pub memory : ℕ → ℕ

-- A command on the context alone.
abbrev pub on_context : {A : Type 0} → Cmd IsolationContext A → Cmd Machine A
on_context m s = elim (m s.context) [
  | ok a c ↦ ok a (record s { context = c })
  | hang ↦ hang
  | fault ↦ fault
]

-- A little-endian load of `n` bytes, and the store.
unfoldable pub load : ℕ → ℕ → (ℕ → ℕ) → ℕ
load zero addr m = 0
load (suc n) addr m = m addr + 256 * load n (suc addr) m

unfoldable pub store : ℕ → ℕ → ℕ → (ℕ → ℕ) → ℕ → ℕ
store zero addr value m = m
store (suc n) addr value m = store n (suc addr) (value / 256) (update m addr (value % 256))

-- `isolation_read8`, `16`, `32` and `64` are this at 1, 2, 4 and 8 bytes.
unfoldable pub isolation_read : ℕ → ℕ → Cmd Machine ℕ
isolation_read n addr = do
  granted ← on_context (isolation_verify_access addr n mem_perm_read)
  if granted then gets (λ s. load n addr s.memory) else pure 0

-- `isolation_write8`, `16`, `32` and `64` are this at 1, 2, 4 and 8 bytes.
unfoldable pub isolation_write : ℕ → ℕ → ℕ → Cmd Machine (Unit {0})
isolation_write n addr value = do
  granted ← on_context (isolation_verify_access addr n mem_perm_write)
  if granted then modify (λ s. record s { memory = store n addr value s.memory }) else pure tt
