-- ===== src/Core1/Start.antt =====
-- `core1_init` and `core1_cleanup` of Core-1/core1.c, with the records of Core-1/include/core1.h that they
-- read: how a service's heap, regions, endpoints and framework are set up. The log is not modelled.
pub mod Regions
pub mod Init
mod Tests
use hik.Prelude.{
  ℕ, zero, suc, ◌+◌, ◌-◌, ◌*◌, ◌/◌, ◌%◌, ◌^◌, ◌≤◌, ◌<◌, bit_and, bit_or, ◌≡◌, refl, sym, ap, ◌∙◌,
  ◌≢◌, ◌↔◌, ◌⊎◌, inl, inr, Bool, true, false, not, ◌&&◌, ◌||◌, Option, none, some, List, [], ◌∷◌,
  ◌++◌, arith, ltb, leb, ◌==◌, if◌then◌else◌, Bool-cases, Option-cases, Nat-cases, update,
  update_here, update_else, first, count, first-some, first-none, first-eq_some, first_found,
  first_unique, first-ext, Run, ok, hang, fault, Cmd, and_then, ◌>>=◌, ◌>>◌, pure, gets, modify,
  call, Returns, Returns-mono, Returns-and_then, Returns-ok, within, u32, u64, dec32, dec64, sub64,
  ℤ, pos, negsuc, success, minus_one, minus_two, minus_three, minus_four, minus_five, is_success,
  to_int, length, length-append, values, erase, contains, length-values, values-ext, values-append,
  values-erase,
}
use hik.Core1.Heap.{Heap, pmm_init}
use hik.Core1.Ipc.{Ipc, on_heap, ipc_init}
use hik.Core1.Isolation.{
  IsolationContext, isolation_init, isolation_add_region, isolation_enable, isolation_disable,
  mem_perm_read, mem_perm_write, mem_perm_execute,
}
use hik.Core1.Service.{Framework, service_stop}

-- The handles of the capabilities are not read.
pub record ServiceInfo : Type 0 where
  pub service_id : ℕ
  pub domain_id : ℕ
  pub code_base : ℕ
  pub code_size : ℕ
  pub data_base : ℕ
  pub data_size : ℕ
  pub stack_base : ℕ
  pub stack_size : ℕ
  pub heap_base : ℕ
  pub heap_size : ℕ

pub record Core1 : Type 0 where
  pub isolation : IsolationContext
  pub ipc : Ipc
  pub framework : Framework

abbrev pub on_isolation : {A : Type 0} → Cmd IsolationContext A → Cmd Core1 A
on_isolation = within (λ s. s.isolation) (λ c s. record s { isolation = c })

abbrev pub on_ipc : {A : Type 0} → Cmd Ipc A → Cmd Core1 A
on_ipc = within (λ s. s.ipc) (λ c s. record s { ipc = c })

abbrev pub on_framework : {A : Type 0} → Cmd Framework A → Cmd Core1 A
on_framework = within (λ s. s.framework) (λ c s. record s { framework = c })

-- The four regions; whether they could be added is not looked at.
unfoldable pub add_regions : ServiceInfo → Cmd IsolationContext (Unit {0})
add_regions info = do
  isolation_add_region 0 info.code_base info.code_size (bit_or mem_perm_read mem_perm_execute) 0
  isolation_add_region 1 info.data_base info.data_size (bit_or mem_perm_read mem_perm_write) 0
  isolation_add_region 2 info.stack_base info.stack_size (bit_or mem_perm_read mem_perm_write) 0
  isolation_add_region 3 info.heap_base info.heap_size (bit_or mem_perm_read mem_perm_write) 0
  pure tt

unfoldable pub core1_init : ServiceInfo → Cmd Core1 ℤ
core1_init info = do
  on_ipc (modify (λ s. record s { service_id = info.service_id }))
  heap_ready ← on_ipc (on_heap (pmm_init info.heap_base info.heap_size))
  if not (is_success heap_ready) then pure minus_one else (do
    regions_ready ← on_isolation (isolation_init info.service_id info.domain_id)
    if not (is_success regions_ready) then pure minus_one else (do
      on_isolation (add_regions info)
      ipc_ready ← on_ipc ipc_init
      if not (is_success ipc_ready)
          then pure minus_one
          else (do on_isolation isolation_enable; pure success)))

module _ (invoke : ℕ → Cmd Framework ℤ) where
  unfoldable pub core1_cleanup : Cmd Core1 (Unit {0})
  core1_cleanup = do on_framework (service_stop invoke); on_isolation isolation_disable; pure tt
