-- ===== src/Core1/Ipc/Endpoints.antt =====
-- Registering, finding and calling the endpoints of Core-1/ipc/ipc.c.

use hik.Prelude.{
  ℕ, zero, suc, ◌+◌, ◌≤◌, ◌≡◌, refl, ap, ◌∙◌, ◌≢◌, inl, inr, true, false, Option, none, some, List,
  [], ◌∷◌, arith, ◌==◌, Bool-cases, Run, ok, hang, fault, Cmd, and_then, ◌>>◌, Returns,
  Returns-mono, u64, success, is_success, to_int, length,
}
use hik.Blocks.{header_size, total_of}
use hik.Blocks.Chain.{Block}
use hik.Blocks.Spec.{allocate}
use hik.Core1.Heap.{Heap, pmm_alloc}
use hik.Core1.Heap.Alloc.{pmm_alloc_refines}
use hik.Core1.Heap.Shape.{IsHeap}
use hik.Core1.Text.{strcmp}
use hik.Core1.Ipc.{
  Ipc, Endpoint, MsgHeader, find_named, find_id, clip, endpoint_size, new_endpoint, link_endpoint,
  ipc_register_endpoint, ipc_find_endpoint, ipc_send, sent_header,
}

pub strcmp_refl : (xs : List ℕ) → strcmp xs xs ≡ success
unfolding strcmp
strcmp_refl [] = refl
strcmp_refl (x ∷ xs) = let e : (x == x) ≡ true = ground arith in rw (strcmp, e) (strcmp_refl xs)

clip-short : (n : ℕ) (xs : List ℕ) → length xs ≤ n → clip n xs ≡ xs
unfolding clip
clip-short zero [] l = refl
clip-short zero (x ∷ xs) l = absurd (omega arith)
clip-short (suc n) [] l = refl
clip-short (suc n) (x ∷ xs) l = ap (λ t. x ∷ t) (clip-short n xs (omega arith))

find-linked :
    (s : Ipc) (a : ℕ) (name : List ℕ) (type handler : ℕ)
    → length name ≤ 63
    → find_named name (link_endpoint a name type handler s).endpoints
      ≡ some (new_endpoint a name type handler s)
unfolding find_named link_endpoint
find-linked s a name type handler l =
    let e = clip-short 63 name l in
    let same : is_success (strcmp (clip 63 name) name) ≡ true =
      rw e (ap is_success (strcmp_refl name)) in
    rw same refl

link_endpoint-lock :
    (s : Ipc) (a : ℕ) (name : List ℕ) (type handler : ℕ)
    → (link_endpoint a name type handler s).lock ≡ s.lock
unfolding link_endpoint
link_endpoint-lock s a name type handler = refl

register-runs :
    (s : Ipc) (name : List ℕ) (type handler a : ℕ) (h : Heap)
    → s.lock ≡ 0
    → handler ≢ 0
    → find_named name s.endpoints ≡ none
    → pmm_alloc endpoint_size s.heap ≡ ok a h
    → a ≢ 0
    → ipc_register_endpoint name type handler s
      ≡ ok (to_int s.next_endpoint_id) (record (link_endpoint a name type handler s) { heap = h })
unfolding ipc_register_endpoint link_endpoint
register-runs s name type handler a h free some_handler fresh e some_place =
    ground (arith, free, some_handler, fresh, e, some_place)

find-runs :
    (s : Ipc) (name : List ℕ)
    → s.lock ≡ 0
    → ipc_find_endpoint name s ≡ ok (find_named name s.endpoints) s
unfolding ipc_find_endpoint
find-runs s name free = ground (arith, free)

-- Registering a name of at most 63 bytes that is not taken, with a handler, where the heap is in
-- order and has room, and then finding it, returns the new endpoint, with that handler and the next
-- id, at an address of the heap; and the heap is in order with the endpoint's block in it.
pub register-find :
    (s : Ipc) (name : List ℕ) (type handler : ℕ) (bs : List Block) (o : ℕ) (l : List Block)
    → s.lock ≡ 0
    → handler ≢ 0
    → length name ≤ 63
    → find_named name s.endpoints ≡ none
    → IsHeap s.heap bs
    → allocate (total_of endpoint_size) bs ≡ some (o, l)
    → Returns
        (λ r t.
          (r ≡ some (new_endpoint (s.heap.base + o + header_size) name type handler s))
          × IsHeap t.heap l)
        ((ipc_register_endpoint name type handler >> ipc_find_endpoint name) s)
register-find s name type handler bs o l free some_handler short fresh v room =
    go (pmm_alloc endpoint_size s.heap) refl (
      Returns-mono (pmm_alloc endpoint_size s.heap)
        (pmm_alloc_refines s.heap endpoint_size bs v (ground arith) (ground arith))
        (rw room (λ _ _ w. (w.0, w.1))))
  where
    found-there :
        (h : Heap) (a : ℕ)
        → a ≡ s.heap.base + o + header_size
        → IsHeap h l
        → Returns
            (λ r t.
              (r ≡ some (new_endpoint (s.heap.base + o + header_size) name type handler s))
              × IsHeap t.heap l)
            (ipc_find_endpoint name (record (link_endpoint a name type handler s) { heap = h }))
    found-there h a e w =
        rw
          (
            e,
            find-runs
                (record (link_endpoint (s.heap.base + o + header_size) name type handler s) {
                  heap = h;
                })
                name
                (link_endpoint-lock s (s.heap.base + o + header_size) name type handler ∙ free),
            find-linked s (s.heap.base + o + header_size) name type handler short,
          )
          (refl, w)

    go :
        (r : Run Heap ℕ)
        → pmm_alloc endpoint_size s.heap ≡ r
        → Returns (λ (a : ℕ) (t : Heap). (a ≡ s.heap.base + o + header_size) × IsHeap t l) r
        → Returns
            (λ r t.
              (r ≡ some (new_endpoint (s.heap.base + o + header_size) name type handler s))
              × IsHeap t.heap l)
            ((ipc_register_endpoint name type handler >> ipc_find_endpoint name) s)
    go (ok a h) e w =
        rw
          (register-runs s name type handler a h free some_handler fresh e
            (λ z. absurd (omega (arith, v.start, w.0))))
          (found-there h a w.0 w.1)
    go hang e w = absurd w
    go fault e w = absurd w

find-waits : (s : Ipc) (name : List ℕ) → (s.lock == 0) ≡ false → ipc_find_endpoint name s ≡ hang
unfolding ipc_find_endpoint
find-waits s name taken = ground (arith, taken)

send-waits :
    (deliver : ℕ → MsgHeader → Cmd Ipc (Unit {0})) (s : Ipc) (id : ℕ)
    → (s.lock == 0) ≡ false
    → ipc_send deliver id s ≡ hang
unfolding ipc_send
send-waits deliver s id taken = ground (arith, taken)

send-delivers :
    (deliver : ℕ → MsgHeader → Cmd Ipc (Unit {0})) (s : Ipc) (id : ℕ) (e : Endpoint)
    → (s.lock == 0) ≡ true
    → find_id id s.endpoints ≡ some e
    → e.handler ≢ 0
    → deliver e.handler
        (sent_header e s)
        (record s { lock = 1; next_msg_id = u64 (s.next_msg_id + 1) })
      ≡ hang
    → ipc_send deliver id s ≡ hang
unfolding ipc_send
send-delivers deliver s id e free found some_handler h =
    ground (arith, free, found, some_handler, h)

-- A message to an endpoint whose handler looks up an endpoint is never delivered: `ipc_send` calls
-- the handler with the lock held that the look-up takes.
pub ipc_send_hangs :
    (deliver : ℕ → MsgHeader → Cmd Ipc (Unit {0})) (s : Ipc) (id : ℕ) (e : Endpoint) (name : List ℕ)
    (k : Option Endpoint → Cmd Ipc (Unit {0}))
    → find_id id s.endpoints ≡ some e
    → e.handler ≢ 0
    → ((h : MsgHeader) (t : Ipc) → deliver e.handler h t ≡ and_then (ipc_find_endpoint name t) k)
    → ipc_send deliver id s ≡ hang
ipc_send_hangs deliver s id e name k found some_handler looks_up = elim (Bool-cases (s.lock == 0)) [
  | inr taken ↦ send-waits deliver s id taken
  | inl free ↦
      let h = sent_header e s in
      let t = record s { lock = 1; next_msg_id = u64 (s.next_msg_id + 1) } in
      send-delivers deliver s id e free found some_handler
        (looks_up h t ∙ ap (λ r. and_then r k) (find-waits t name refl))
]
