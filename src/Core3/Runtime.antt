-- ===== src/Core3/Runtime.antt =====
-- Core-3/core3.c, Core-3/ipc/ipc.c and Core-3/include/core3.h: the start of an application, its system
-- calls and the library for messages. `kernel` stands for what the `syscall` instruction does: it gets
-- the number and the five arguments, may change the application's memory, and leaves a signed 64-bit
-- number. A local variable of a function that the kernel gets a pointer to has its address as an argument.
pub mod Calls
mod Tests
use hik.Prelude.{
  ℕ, zero, suc, ◌+◌, ◌-◌, ◌*◌, ◌/◌, ◌%◌, ◌^◌, ◌≤◌, ◌<◌, bit_and, bit_or, ◌≡◌, refl, sym, ap, ◌∙◌,
  ◌≢◌, ◌↔◌, ◌⊎◌, inl, inr, Bool, true, false, not, ◌&&◌, ◌||◌, Option, none, some, List, [], ◌∷◌,
  ◌++◌, arith, ltb, leb, ◌==◌, if◌then◌else◌, Bool-cases, Option-cases, Nat-cases, update,
  update_here, update_else, first, count, first-some, first-none, first-eq_some, first_found,
  first_unique, first-ext, Run, ok, hang, fault, Cmd, and_then, ◌>>=◌, ◌>>◌, pure, gets, modify,
  call, Returns, Returns-mono, Returns-and_then, Returns-ok, within, u32, u64, dec32, dec64, sub64,
  ℤ, pos, negsuc, success, minus_one, minus_two, minus_three, minus_four, minus_five, is_success,
  to_int, length, length-append, values, erase, contains, length-values, values-ext, values-append,
  values-erase,
}
use hik.Core1.Isolation.Bulk.{memcpy}
use hik.Core3.Heap.{AppHeap, vmm_init}

abbrev pub sys_exit : ℕ
sys_exit = 0

abbrev pub sys_read : ℕ
sys_read = 1

abbrev pub sys_write : ℕ
sys_write = 2

abbrev pub sys_open : ℕ
sys_open = 3

abbrev pub sys_close : ℕ
sys_close = 4

abbrev pub sys_ipc_call : ℕ
sys_ipc_call = 8

abbrev pub sys_getpid : ℕ
sys_getpid = 11

abbrev pub sys_getppid : ℕ
sys_getppid = 12

abbrev pub sys_sleep : ℕ
sys_sleep = 13

abbrev pub sys_yield : ℕ
sys_yield = 14

abbrev pub ipc_max_msg_size : ℕ
ipc_max_msg_size = 4096

-- `sizeof(ipc_msg_header_t)`, behind which the data of a message begin
abbrev pub header_bytes : ℕ
header_bytes = 32

pub record SyscallResult : Type 0 where
  pub ret : ℤ
  pub error : ℤ

-- The part of `process_info_t` that is read.
pub record ProcessInfo : Type 0 where
  pub heap_base : ℕ
  pub heap_size : ℕ

-- `data_size` is the field of that name of the message at each address.
pub record App : Type 0 where
  pub info : Option ProcessInfo
  pub heap : AppHeap
  pub memory : ℕ → ℕ
  pub data_size : ℕ → ℕ

abbrev pub on_heap : {A : Type 0} → Cmd AppHeap A → Cmd App A
on_heap = within (λ s. s.heap) (λ h s. record s { heap = h })

-- `ipc_init` does nothing and answers 0.
unfoldable pub core3_init : ProcessInfo → Cmd App ℤ
core3_init info = do
  modify (λ s. record s { info = some info })
  heap_ready ← on_heap (vmm_init info.heap_base info.heap_size)
  if not (is_success heap_ready) then pure minus_one else pure success

-- A negative answer of the kernel is -1 with the error code, any other is the answer.
unfoldable pub decode : ℤ → SyscallResult
decode (pos n) = record { ret = pos n; error = success }
decode (negsuc n) = record { ret = minus_one; error = pos (n + 1) }

abbrev pub is_negative : ℤ → Bool
is_negative (pos n) = false
is_negative (negsuc n) = true

-- `to_int` of a signed 64-bit number.
abbrev pub narrow : ℤ → ℤ
narrow (pos n) = to_int n
narrow (negsuc n) = to_int (2 ^ 64 - 1 - n)

module _ (kernel : (num arg1 arg2 arg3 arg4 arg5 : ℕ) → Cmd App ℤ) where
  unfoldable pub syscall : (num arg1 arg2 arg3 arg4 arg5 : ℕ) → Cmd App SyscallResult
  syscall num arg1 arg2 arg3 arg4 arg5 = do
    rax ← kernel num arg1 arg2 arg3 arg4 arg5
    pure (decode rax)

  -- Behind the call stands `__builtin_unreachable`.
  unfoldable pub exit : (code : ℕ) → Cmd App (Unit {0})
  exit code = do syscall sys_exit code 0 0 0 0; (λ s. fault)

  unfoldable pub read : (fd buf count : ℕ) → Cmd App ℤ
  read fd buf count = do result ← syscall sys_read fd buf count 0 0; pure result.ret

  unfoldable pub write : (fd buf count : ℕ) → Cmd App ℤ
  write fd buf count = do result ← syscall sys_write fd buf count 0 0; pure result.ret

  unfoldable pub open_path : (pathname flags : ℕ) → Cmd App ℤ
  open_path pathname flags = do
    result ← syscall sys_open pathname flags 0 0 0
    pure (narrow result.ret)

  unfoldable pub close : (fd : ℕ) → Cmd App ℤ
  close fd = do result ← syscall sys_close fd 0 0 0 0; pure (narrow result.ret)

  -- `msg` is the address of the local message.
  unfoldable pub ipc_call : (msg service_name request response size : ℕ) → Cmd App ℤ
  ipc_call msg service_name request response size = do
    let sent = if ltb ipc_max_msg_size size then ipc_max_msg_size else size
    modify (λ s. record s {
      data_size = update s.data_size msg (u32 size);
      memory = memcpy sent (msg + header_bytes) request s.memory;
    })
    result ← syscall sys_ipc_call service_name msg sent 0 0
    if not (is_negative result.ret) && not (response == 0)
        then modify (λ s. record s {
          memory = memcpy (s.data_size msg) response (msg + header_bytes) s.memory;
        })
        else pure tt
    pure (narrow result.ret)

  unfoldable pub getpid : Cmd App ℤ
  getpid = do result ← syscall sys_getpid 0 0 0 0 0; pure (narrow result.ret)

  unfoldable pub getppid : Cmd App ℤ
  getppid = do result ← syscall sys_getppid 0 0 0 0 0; pure (narrow result.ret)

  unfoldable pub sleep_ms : (milliseconds : ℕ) → Cmd App ℤ
  sleep_ms milliseconds = do
    result ← syscall sys_sleep milliseconds 0 0 0 0
    pure (narrow result.ret)

  unfoldable pub yield : Cmd App (Unit {0})
  yield = do syscall sys_yield 0 0 0 0 0; pure tt
