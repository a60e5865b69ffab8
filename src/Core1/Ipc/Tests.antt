-- ===== src/Core1/Ipc/Tests.antt =====
-- Runs of the endpoints of Core-1/ipc/ipc.c, and the theorems at such inputs.
use hik.Prelude.{
  ℕ, ◌+◌, ◌≡◌, refl, none, some, [], ◌∷◌, arith, hang, Cmd, and_then, ◌>>◌, pure, Returns,
}
use hik.Blocks.{header_size, total_of}
use hik.Blocks.Chain.{block, Seg, Sized}
use hik.Blocks.Spec.{allocate}
use hik.Core1.Text.{strcmp}
use hik.Core1.Heap.{Heap}
use hik.Core1.Heap.Shape.{IsHeap}
use hik.Core1.Ipc.{
  strcmp, Ipc, Endpoint, MsgHeader, new_endpoint, new_channel, find_id, find_named,
  ipc_register_endpoint, ipc_find_endpoint, ipc_send,
}
use hik.Core1.Ipc.Endpoints.{register-find, ipc_send_hangs}

-- One free block of 512 bytes.
abbrev heap : Heap
heap = record {
  base = 4096;
  size = 512;
  first_block = 4096;
  lock = 0;
  blocks = λ x. record { size = 512; used = 0; next = 0; prev = 0 };
}

heap-IsHeap : IsHeap heap (block 512 0 ∷ [])
unfolding Seg Sized
heap-IsHeap = record {
  chain = (refl, tt);
  sized = (ground arith, tt);
  covers = refl;
  first_is = refl;
  start = ground arith;
  some_bytes = ground arith;
  top = ground arith;
  unlocked = refl;
}

abbrev logger : Endpoint
logger = record {
  address = 9000;
  endpoint_id = 4;
  name = 108 ∷ [];
  type = 1;
  service_id = 2;
  handler = 64;
}

abbrev ipc : Ipc
ipc = record {
  endpoints = logger ∷ [];
  num_endpoints = 1;
  next_endpoint_id = 5;
  next_msg_id = 1;
  lock = 0;
  service_id = 2;
  channels = λ _. new_channel 0;
  heap = heap;
}

placed : allocate (total_of 104) (block 512 0 ∷ []) ≡ some (0, block 129 1 ∷ block 383 0 ∷ [])
unfolding allocate
placed = refl

not_taken : find_named (110 ∷ []) ipc.endpoints ≡ none
unfolding find_named strcmp
not_taken = refl

register-find_example :
    Returns
      (λ r t.
        (r ≡ some (new_endpoint (4096 + 0 + header_size) (110 ∷ []) 1 128 ipc))
        × IsHeap t.heap (block 129 1 ∷ block 383 0 ∷ []))
      ((ipc_register_endpoint (110 ∷ []) 1 128 >> ipc_find_endpoint (110 ∷ [])) ipc)
register-find_example =
    register-find ipc (110 ∷ []) 1 128 (block 512 0 ∷ []) 0 (block 129 1 ∷ block 383 0 ∷ []) refl
      (λ e. absurd (omega (arith, e))) (ground arith) not_taken heap-IsHeap placed

-- The handler looks up the endpoint of the name "n".
abbrev looking : ℕ → MsgHeader → Cmd Ipc (Unit {0})
looking p h t = and_then (ipc_find_endpoint (110 ∷ []) t) (λ _. pure tt)

found_logger : find_id 4 ipc.endpoints ≡ some logger
unfolding find_id
found_logger = refl

ipc_send_hangs_example : ipc_send looking 4 ipc ≡ hang
ipc_send_hangs_example =
    ipc_send_hangs looking ipc 4 logger (110 ∷ []) (λ _. pure tt) found_logger
      (λ e. absurd (omega (arith, e))) (λ h t. refl)
