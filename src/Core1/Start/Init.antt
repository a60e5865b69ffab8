-- ===== src/Core1/Start/Init.antt =====
-- `core1_init` of Core-1/core1.c: the parts of a service after it.
use hik.Core1.Heap.Check.{pmm_init-IsHeap}
use hik.Blocks.Chain.{block}
use hik.Core1.Heap.Shape.{IsHeap}
use hik.Prelude.{refl, ok, ap, ◌∙◌, ◌∷◌, Returns-ok, [], success, ◌≡◌, arith, Returns}
use mathlib.Core.Path.{subst}
use hik.Core1.Start.Regions.{
  IsInfo, Fine, code_region, data_region, stack_region, heap_region, added_all, add_regions-IsSound,
  zero-IsSound, add_regions-adds, added_all-parts,
}
use hik.Core1.Ipc.{ipc_init}
use hik.Core1.Isolation.{isolation_enable, isolation_init, IsolationContext}
use hik.Core1.Isolation.Regions.{IsSound}
use hik.Core1.Heap.{Heap, pmm_init}
use hik.Core1.Start.{core1_init, Core1, ServiceInfo, add_regions}

-- The parts after `core1_init`: isolation enabled, with the four regions of the service in the table
-- and nothing else, the heap in order with one free block, and no endpoint.
pub record IsStarted (info : ServiceInfo) (t : Core1) : Type 0 where
  pub regions : IsSound t.isolation
  pub four : t.isolation.num_regions ≡ 4
  pub code : t.isolation.regions 0 ≡ code_region info
  pub data_part : t.isolation.regions 1 ≡ data_region info
  pub stack : t.isolation.regions 2 ≡ stack_region info
  pub heap_part : t.isolation.regions 3 ≡ heap_region info
  pub isolation_unlocked : t.isolation.lock ≡ 0
  pub enabled : t.isolation.enabled ≡ 1
  pub heap : IsHeap t.ipc.heap (block info.heap_size 0 ∷ [])
  pub no_endpoints : t.ipc.endpoints ≡ []
  pub ipc_unlocked : t.ipc.lock ≡ 0

-- The state once the heap is `h` and the regions are those of `c`.
abbrev started : ServiceInfo → Core1 → Heap → IsolationContext → Core1
started info s h c = record s {
  isolation = record c { enabled = 1 };
  ipc = record (s.ipc) {
    endpoints = [];
    num_endpoints = 0;
    next_endpoint_id = 1;
    next_msg_id = 1;
    lock = 0;
    service_id = info.service_id;
    heap = h;
  };
}

init-runs :
    (info : ServiceInfo) (s : Core1) (h : Heap) (c d : IsolationContext)
    → pmm_init info.heap_base info.heap_size s.ipc.heap ≡ ok success h
    → isolation_init info.service_id info.domain_id s.isolation ≡ ok success c
    → add_regions info c ≡ ok tt d
    → core1_init info s ≡ ok success (started info s h d)
unfolding core1_init isolation_enable ipc_init
init-runs info s h c d p q r = ground (arith, p, q, r)

-- `core1_init` of a service whose code, data, stack and heap end below 2 ^ 64 and are pairwise apart,
-- and whose heap has at least 50 bytes, does not begin at address 0 and ends 33 bytes before the end of
-- the address space, succeeds from any state. Then the table of regions holds exactly four regions,
-- enabled: the code, which may be read and executed, and the data, the stack and the heap, which may be
-- read and written, each at its own address and with its own size. The heap is in order with one free
-- block of its whole size, there is no endpoint, and the locks of the regions and the endpoints are
-- free.
pub core1_init_lem :
    (info : ServiceInfo) (s : Core1)
    → IsInfo info
    → Returns (λ r t. (r ≡ success) × IsStarted info t) (core1_init info s)
core1_init_lem info s v =
    let (r1, h, e1, p) = Returns-ok _ (pmm_init info.heap_base info.heap_size s.ipc.heap) (
      pmm_init-IsHeap s.ipc.heap info.heap_base info.heap_size v.heap_room v.heap_start
        v.heap_ends) in
    let (r2, c, e2, q) =
      Returns-ok _ (isolation_init info.service_id info.domain_id s.isolation)
        (zero-IsSound info.service_id info.domain_id s.isolation) in
    let adds = add_regions-adds info v c q.1.1 q.2 in
    let w = subst (λ r. Returns Fine r) adds (add_regions-IsSound info c v q.1.0 q.1.1) in
    let parts = added_all-parts info c q.2 in
    rw
      (init-runs info s h c (added_all info c) (e1 ∙ ap (λ r. ok r h) p.0)
        (e2 ∙ ap (λ r. ok r c) q.0) adds)
      (
        refl,
        record {
          regions = record {
            fits = w.0.fits;
            identity = w.0.identity;
            bounded = w.0.bounded;
            apart = w.0.apart;
          };
          four = parts.0;
          code = parts.1;
          data_part = parts.2;
          stack = parts.3;
          heap_part = parts.4;
          isolation_unlocked = refl;
          enabled = refl;
          heap = p.1;
          no_endpoints = refl;
          ipc_unlocked = refl;
        },
      )
