-- ===== src/Core3/Runtime/Tests.antt =====
-- Runs of the runtime of Core-3/core3.c, and the theorem at such an input.
use hik.Prelude.{
  ℕ, ◌+◌, ◌%◌, ◌≡◌, refl, none, arith, Cmd, pure, Returns, ℤ, pos, negsuc, success, minus_one,
}
use hik.Core3.Runtime.{App, decode, ipc_call, header_bytes}
use hik.Core3.Runtime.Calls.{ipc_call_overreads}

abbrev app : App
app = record {
  info = none;
  heap = record {
    base = 0;
    size = 0;
    used = 0;
    lock = 0;
    blocks = λ _. record { size = 0; used = 0; next = 0; prev = 0 };
    bytes = λ _. 0;
  };
  memory = λ a. a % 256;
  data_size = λ _. 0;
}

-- A kernel that answers 0 and does nothing.
abbrev idle : (num arg1 arg2 arg3 arg4 arg5 : ℕ) → Cmd App ℤ
idle num a b c d e = pure success

-- The answer -14 is the error 14.
decodes : decode (negsuc 13) ≡ record { ret = minus_one; error = pos 14 }
unfolding decode
decodes = refl

ipc_call_overreads_example :
    Returns
      (λ r t. (r ≡ success) × (t.memory (100000 + 4500) ≡ app.memory (1000 + header_bytes + 4500)))
      (ipc_call idle 1000 64 20000 100000 5000 app)
ipc_call_overreads_example =
    ipc_call_overreads idle app 1000 64 20000 100000 5000 4500 (λ a b c d e t. refl) (ground arith)
      (ground arith) (ground arith) (ground arith) (ground arith)
