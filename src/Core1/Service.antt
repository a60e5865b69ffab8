-- ===== src/Core1/Service.antt =====
-- Core-1/include/service.h and Core-1/service/service.c: the framework that a service runs in. A
-- callback is the address of its code, 0 where none is registered; `invoke` stands for the code at an
-- address, which belongs to the service and may change the framework's state. The log, which belongs to
-- Core-0, and the wait loops are not modelled. Null pointers are not modelled.
pub mod Cycle
mod Tests
use hik.Prelude.{
  ℕ, zero, suc, ◌+◌, ◌-◌, ◌*◌, ◌/◌, ◌%◌, ◌^◌, ◌≤◌, ◌<◌, bit_and, bit_or, ◌≡◌, refl, sym, ap, ◌∙◌,
  ◌≢◌, ◌↔◌, ◌⊎◌, inl, inr, Bool, true, false, not, ◌&&◌, ◌||◌, Option, none, some, List, [], ◌∷◌,
  ◌++◌, arith, ltb, leb, ◌==◌, if◌then◌else◌, Bool-cases, Option-cases, Nat-cases, update,
  update_here, update_else, first, count, first-some, first-none, first-eq_some, first_found,
  first_unique, first-ext, Run, ok, hang, fault, Cmd, and_then, ◌>>=◌, ◌>>◌, pure, gets, modify,
  call, Returns, Returns-mono, Returns-and_then, within, u32, u64, dec32, dec64, sub64, ℤ, pos,
  negsuc, success, minus_one, minus_two, minus_three, minus_four, minus_five, is_success, length,
  length-append, values, erase, contains, length-values, values-ext, values-append, values-erase,
}
use hik.Core1.Text.{strncpy}

abbrev pub service_state_init : ℕ
service_state_init = 0

abbrev pub service_state_running : ℕ
service_state_running = 1

abbrev pub service_state_stopping : ℕ
service_state_stopping = 2

abbrev pub service_state_stopped : ℕ
service_state_stopped = 3

abbrev pub service_state_error : ℕ
service_state_error = 4

pub record ServiceCallbacks : Type 0 where
  pub init : ℕ
  pub start : ℕ
  pub stop : ℕ
  pub cleanup : ℕ
  pub error_handler : ℕ

abbrev pub no_callbacks : ServiceCallbacks
no_callbacks = record { init = 0; start = 0; stop = 0; cleanup = 0; error_handler = 0 }

-- The context, the callbacks and the lock. The two texts are the bytes before the last, which is 0.
pub record Framework : Type 0 where
  pub name : List ℕ
  pub version : List ℕ
  pub flags : ℕ
  pub priority : ℕ
  pub state : ℕ
  pub start_time : ℕ
  pub uptime : ℕ
  pub error_count : ℕ
  pub last_error : ℕ
  pub callbacks : ServiceCallbacks
  pub lock : ℕ

unfoldable pub spin_lock : Cmd Framework (Unit {0})
spin_lock s = if s.lock == 0 then modify (λ t. record t { lock = 1 }) s else hang

unfoldable pub spin_unlock : Cmd Framework (Unit {0})
spin_unlock = modify λ s. record s { lock = 0 }

abbrev pub set_state : ℕ → Framework → Framework
set_state n s = record s { state = n }

unfoldable pub service_framework_init : (name version : List ℕ) → (flags : ℕ) → Cmd Framework ℤ
unfolding spin_lock spin_unlock
service_framework_init name version flags = do
  spin_lock
  modify (λ s. record s {
    name = strncpy 63 name;
    version = strncpy 31 version;
    flags = flags;
    priority = 0;
    state = service_state_init;
    start_time = 0;
    uptime = 0;
    error_count = 0;
    last_error = 0;
  })
  spin_unlock
  pure success

unfoldable pub service_register_callbacks : ServiceCallbacks → Cmd Framework ℤ
unfolding spin_lock spin_unlock
service_register_callbacks callbacks = do
  spin_lock
  modify (λ s. record s { callbacks = callbacks })
  spin_unlock
  pure success

-- Not in one of the two states that `service_start` leaves.
abbrev pub not_startable : ℕ → Bool
not_startable state = not (state == service_state_init) && not (state == service_state_stopped)

module _ (invoke : ℕ → Cmd Framework ℤ) where
  -- `if (callback) return callback(...)`, else 0
  unfoldable pub call_back : ℕ → Cmd Framework ℤ
  call_back callback = if callback == 0 then pure success else invoke callback

  unfoldable pub service_start : Cmd Framework ℤ
  unfolding spin_lock spin_unlock
  service_start = do
    spin_lock
    state ← gets (λ s. s.state)
    if not_startable state then (do spin_unlock; pure minus_one) else (do
      modify (λ s. record s { state = service_state_running; start_time = 0 })
      spin_unlock
      callback ← gets (λ s. s.callbacks.start)
      call_back callback)

  unfoldable pub service_stop : Cmd Framework ℤ
  unfolding spin_lock spin_unlock
  service_stop = do
    spin_lock
    state ← gets (λ s. s.state)
    if not (state == service_state_running) then (do spin_unlock; pure minus_one) else (do
      modify (set_state service_state_stopping)
      spin_unlock
      callback ← gets (λ s. s.callbacks.stop)
      call_back callback
      spin_lock
      modify (set_state service_state_stopped)
      spin_unlock
      pure success)

  unfoldable pub service_restart : Cmd Framework ℤ
  service_restart = do ret ← service_stop; if not (is_success ret) then pure ret else service_start

  unfoldable pub service_report_error : (error_code : ℕ) → Cmd Framework (Unit {0})
  unfolding spin_lock spin_unlock
  service_report_error error_code = do
    spin_lock
    modify (λ s. record s { error_count = u32 (s.error_count + 1); last_error = error_code })
    spin_unlock
    callback ← gets (λ s. s.callbacks.error_handler)
    call_back callback
    pure tt

  -- Without the log.
  unfoldable pub service_main : Cmd Framework (Unit {0})
  service_main = do service_register_callbacks no_callbacks; service_start; pure tt
