-- ===== src/Core3/Runtime/Calls.antt =====
-- `ipc_call` of Core-3/core3.c.
use hik.Prelude.{
  ℕ, ◌+◌, ◌^◌, ◌≤◌, ◌<◌, ◌≡◌, refl, ◌∙◌, inl, inr, true, false, arith, ltb, ◌==◌, if◌then◌else◌,
  update, update_here, ok, Cmd, Returns, u32, ℤ, success,
}
use hik.Core1.Isolation.Bulk.{memcpy-outside, memcpy, memcpy-inside}
use hik.Core3.Runtime.{App, ipc_call, syscall, decode, header_bytes, ipc_max_msg_size, sys_ipc_call}

-- Memory once the request has been copied into the message at `msg`.
abbrev sent_memory : (msg request size : ℕ) → App → ℕ → ℕ
sent_memory msg request size s =
    memcpy (if ltb ipc_max_msg_size size then ipc_max_msg_size else size) (msg + header_bytes)
      request s.memory

call-runs :
    (kernel : (num arg1 arg2 arg3 arg4 arg5 : ℕ) → Cmd App ℤ) (s : App)
    (msg service_name request response size : ℕ)
    → ((a b c d e : ℕ) (t : App) → kernel sys_ipc_call a b c d e t ≡ ok success t)
    → (response == 0) ≡ false
    → ipc_call kernel msg service_name request response size s
      ≡ ok success (record s {
        data_size = update s.data_size msg (u32 size);
        memory =
            memcpy
              (update s.data_size msg (u32 size) msg)
              response
              (msg + header_bytes)
              (sent_memory msg request size s);
      })
unfolding ipc_call syscall decode
call-runs kernel s msg service_name request response size quiet some_response =
    let sent = if ltb ipc_max_msg_size size then ipc_max_msg_size else size in
    let t : App = record s {
      data_size = update s.data_size msg (u32 size);
      memory = sent_memory msg request size s;
    } in
    rw (quiet service_name msg sent 0 0 t, some_response) refl

-- `ipc_call` with a size of more than the 4096 bytes that a message holds and below 2 ^ 32, to a kernel
-- that answers every call of a service with 0 and changes nothing, and with a response that is not
-- null and begins only behind the bytes that are read over (at the message's header and `size` bytes
-- after the message, or later), returns 0; and then each byte of the response from number 4096 on and
-- below the size is the byte that lay in memory behind the message's data.
pub ipc_call_overreads :
    (kernel : (num arg1 arg2 arg3 arg4 arg5 : ℕ) → Cmd App ℤ) (s : App)
    (msg service_name request response size k : ℕ)
    → ((a b c d e : ℕ) (t : App) → kernel sys_ipc_call a b c d e t ≡ ok success t)
    → 0 < response
    → ipc_max_msg_size ≤ k
    → k < size
    → size < 2 ^ 32
    → msg + header_bytes + size ≤ response
    → Returns
        (λ r t. (r ≡ success) × (t.memory (response + k) ≡ s.memory (msg + header_bytes + k)))
        (ipc_call kernel msg service_name request response size s)
ipc_call_overreads kernel s msg service_name request response size k quiet some_response big inside
      word apart =
    let here : update s.data_size msg (u32 size) msg ≡ size =
      update_here s.data_size msg (u32 size) ∙ omega arith in
    let long : ltb ipc_max_msg_size size ≡ true = ground arith in
    rw
      (
        call-runs kernel s msg service_name request response size quiet (ground arith),
        here,
        memcpy-inside size response (msg + header_bytes) (sent_memory msg request size s) k
            (inl apart) inside,
      )
      (
        refl,
        rw long (
            memcpy-outside ipc_max_msg_size (msg + header_bytes) request s.memory
              (msg + header_bytes + k) (inr (omega arith))),
      )
