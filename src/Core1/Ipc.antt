-- ===== src/Core1/Ipc.antt =====
-- The endpoints and channels of Core-1/include/ipc.h and Core-1/ipc/ipc.c, over the heap that holds
-- them. The linked list of endpoints is the list of its nodes, each with its address. A handler is the
-- address of its code; `deliver` stands for the code at an address, which belongs to the service.
-- Strings are as in Core1.Text, and null pointers are not modelled.
pub mod Endpoints
mod Tests
use hik.Prelude.{
  ℕ, zero, suc, ◌+◌, ◌-◌, ◌*◌, ◌/◌, ◌%◌, ◌^◌, ◌≤◌, ◌<◌, bit_and, bit_or, ◌≡◌, refl, sym, ap, ◌∙◌,
  ◌≢◌, ◌↔◌, ◌⊎◌, inl, inr, Bool, true, false, not, ◌&&◌, ◌||◌, Option, none, some, List, [], ◌∷◌,
  ◌++◌, arith, ltb, leb, ◌==◌, if◌then◌else◌, Bool-cases, Option-cases, Nat-cases, update,
  update_here, update_else, first, count, first-some, first-none, first-eq_some, first_found,
  first_unique, first-ext, Run, ok, hang, fault, Cmd, and_then, ◌>>=◌, ◌>>◌, pure, gets, modify,
  call, Returns, Returns-mono, Returns-and_then, within, u32, u64, dec32, dec64, sub64, ℤ, pos,
  negsuc, success, minus_one, minus_two, minus_three, minus_four, minus_five, is_success, to_int,
  length, length-append, values, erase, contains, length-values, values-ext, values-append,
  values-erase,
}
use hik.Core1.Heap.{Heap, pmm_alloc, pmm_free}
use hik.Core1.Text.{strcmp}

pub record Endpoint : Type 0 where
  pub address : ℕ
  pub endpoint_id : ℕ
  pub name : List ℕ
  pub type : ℕ
  pub service_id : ℕ
  pub handler : ℕ

-- The header of a message; the data and the fields that are not touched are left out.
pub record MsgHeader : Type 0 where
  pub msg_id : ℕ
  pub src_service : ℕ
  pub dst_service : ℕ
  pub timestamp : ℕ

pub record IpcChannel : Type 0 where
  pub phys_addr : ℕ
  pub size : ℕ
  pub cap_handle : ℕ
  pub read_ptr : ℕ
  pub write_ptr : ℕ
  pub lock : ℕ

-- `service_id` is that of `g_service_info`; `channels` holds the channel structure at each address.
pub record Ipc : Type 0 where
  pub endpoints : List Endpoint
  pub num_endpoints : ℕ
  pub next_endpoint_id : ℕ
  pub next_msg_id : ℕ
  pub lock : ℕ
  pub service_id : ℕ
  pub channels : ℕ → IpcChannel
  pub heap : Heap

abbrev pub on_heap : {A : Type 0} → Cmd Heap A → Cmd Ipc A
on_heap = within (λ s. s.heap) (λ h s. record s { heap = h })

unfoldable pub spin_lock : Cmd Ipc (Unit {0})
spin_lock s = if s.lock == 0 then modify (λ t. record t { lock = 1 }) s else hang

unfoldable pub spin_unlock : Cmd Ipc (Unit {0})
spin_unlock = modify λ s. record s { lock = 0 }

unfoldable pub ipc_init : Cmd Ipc ℤ
ipc_init s = pure success (record s {
  endpoints = [];
  num_endpoints = 0;
  next_endpoint_id = 1;
  next_msg_id = 1;
  lock = 0;
})

-- `strcmp(ep->name, name) == 0`
abbrev pub is_named : List ℕ → Endpoint → Bool
is_named name e = is_success (strcmp e.name name)

-- The walk along the list.
unfoldable pub find_named : List ℕ → List Endpoint → Option Endpoint
find_named name [] = none
find_named name (e ∷ es) = let rest = find_named name es in if is_named name e then some e else rest

unfoldable pub find_id : ℕ → List Endpoint → Option Endpoint
find_id id [] = none
find_id id (e ∷ es) = let rest = find_id id es in if e.endpoint_id == id then some e else rest

-- The first `n` bytes: the string that `strncpy` and the zero behind it leave.
unfoldable pub clip : ℕ → List ℕ → List ℕ
clip zero xs = []
clip (suc n) [] = []
clip (suc n) (x ∷ xs) = x ∷ clip n xs

-- `sizeof(struct ipc_endpoint)` and `sizeof(ipc_channel_t)`
abbrev pub endpoint_size : ℕ
endpoint_size = 104

abbrev pub channel_size : ℕ
channel_size = 56

abbrev pub new_endpoint : (address : ℕ) → List ℕ → (type handler : ℕ) → Ipc → Endpoint
new_endpoint address name type handler s = record {
  address = address;
  endpoint_id = s.next_endpoint_id;
  name = clip 63 name;
  type = type;
  service_id = s.service_id;
  handler = handler;
}

-- The new node at the head of the list.
unfoldable pub link_endpoint : (address : ℕ) → List ℕ → (type handler : ℕ) → Ipc → Ipc
link_endpoint address name type handler s = record s {
  endpoints = new_endpoint address name type handler s ∷ s.endpoints;
  num_endpoints = u32 (s.num_endpoints + 1);
  next_endpoint_id = u64 (s.next_endpoint_id + 1);
}

unfoldable pub ipc_register_endpoint : List ℕ → (type handler : ℕ) → Cmd Ipc ℤ
unfolding spin_lock spin_unlock
ipc_register_endpoint name type handler = if handler == 0 then pure minus_one else (do
  spin_lock
  found ← gets (λ s. find_named name s.endpoints)
  elim found [
    | some e ↦ (do spin_unlock; pure minus_two)
    | none ↦ (do
      new_ep ← on_heap (pmm_alloc endpoint_size)
      if new_ep == 0 then (do spin_unlock; pure minus_three) else (do
        id ← gets (λ s. s.next_endpoint_id)
        modify (link_endpoint new_ep name type handler)
        spin_unlock
        pure (to_int id)))
  ])

-- The list without the first node of that name.
unfoldable pub unlink_named : List ℕ → List Endpoint → List Endpoint
unlink_named name [] = []
unlink_named name (e ∷ es) =
    let rest = unlink_named name es in if is_named name e then es else e ∷ rest

unfoldable pub ipc_unregister_endpoint : List ℕ → Cmd Ipc ℤ
unfolding spin_lock spin_unlock
ipc_unregister_endpoint name = do
  spin_lock
  found ← gets (λ s. find_named name s.endpoints)
  elim found [
    | none ↦ (do spin_unlock; pure minus_two)
    | some e ↦ (do
      modify (λ s. record s { endpoints = unlink_named name s.endpoints })
      on_heap (pmm_free e.address)
      modify (λ s. record s { num_endpoints = dec32 s.num_endpoints })
      spin_unlock
      pure success)
  ]

unfoldable pub ipc_find_endpoint : List ℕ → Cmd Ipc (Option Endpoint)
unfolding spin_lock spin_unlock
ipc_find_endpoint name = do
  spin_lock
  found ← gets (λ s. find_named name s.endpoints)
  spin_unlock
  pure found

-- The header that the handler is given.
abbrev pub sent_header : Endpoint → Ipc → MsgHeader
sent_header e s = record {
  msg_id = u32 s.next_msg_id;
  src_service = u32 s.service_id;
  dst_service = u32 e.service_id;
  timestamp = 0;
}

module _ (deliver : ℕ → MsgHeader → Cmd Ipc (Unit {0})) where
  unfoldable pub ipc_send : (endpoint_id : ℕ) → Cmd Ipc ℤ
  unfolding spin_lock spin_unlock
  ipc_send endpoint_id = do
    spin_lock
    found ← gets (λ s. find_id endpoint_id s.endpoints)
    elim found [
      | none ↦ (do spin_unlock; pure minus_two)
      | some e ↦ (do
        header ← gets (sent_header e)
        modify (λ s. record s { next_msg_id = u64 (s.next_msg_id + 1) })
        if e.handler == 0 then pure tt else deliver e.handler header
        spin_unlock
        pure success)
    ]

abbrev pub ipc_recv : (timeout_ms : ℕ) → Cmd Ipc ℤ
ipc_recv timeout_ms = pure minus_one

abbrev pub ipc_try_recv : Cmd Ipc ℤ
ipc_try_recv = pure minus_one

abbrev pub new_channel : ℕ → IpcChannel
new_channel size = record {
  phys_addr = 0;
  size = size;
  cap_handle = 0;
  read_ptr = 0;
  write_ptr = 0;
  lock = 0;
}

-- The result, and the address of the channel.
unfoldable pub ipc_create_channel : (size : ℕ) → Cmd Ipc (ℤ × ℕ)
ipc_create_channel size = if size == 0 then pure (minus_one, 0) else (do
  ch ← on_heap (pmm_alloc channel_size)
  if ch == 0 then pure (minus_two, 0) else (do
    modify (λ s. record s { channels = update s.channels ch (new_channel size) })
    pure (success, ch)))

unfoldable pub ipc_destroy_channel : (channel : ℕ) → Cmd Ipc ℤ
ipc_destroy_channel channel =
    if channel == 0 then pure minus_one else (do on_heap (pmm_free channel); pure success)
