-- ===== src/Core1/Service/Cycle.antt =====
-- The life of a service in the framework of Core-1/service/service.c, as a machine of states.
use mathlib.Core.Path.{subst}
use hik.Prelude.{
  if◌then◌else◌, ap, ℕ, ◌+◌, ◌≡◌, refl, ap, ◌∙◌, ◌⊎◌, inl, inr, true, false, not, List, arith, ◌==◌,
  if◌then◌else◌, Bool-cases, ok, Cmd, and_then, ◌>>◌, pure, modify, Returns, Returns-mono,
  Returns-and_then, u32, ℤ, success, minus_one, is_success,
}
use hik.Core1.Service.{
  spin_unlock, set_state, spin_lock, Framework, ServiceCallbacks, service_framework_init,
  service_register_callbacks, call_back, service_start, service_stop, service_restart,
  service_report_error, service_state_init, service_state_running, service_state_stopped,
  service_state_stopping, not_startable,
}

-- A callback that returns and leaves the state, the callbacks and the lock as they are.
unfoldable pub Quiet : (ℕ → Cmd Framework ℤ) → Type 0
Quiet invoke =
    (p : ℕ) (s : Framework)
    → Returns (λ _ t. (t.state ≡ s.state) × (t.callbacks ≡ s.callbacks) × (t.lock ≡ s.lock))
        (invoke p s)

-- The calls of a service into the framework.
pub data Call : Type 0 where
  initialise : (name version : List ℕ) → (flags : ℕ) → Call
  register : ServiceCallbacks → Call
  start : Call
  stop : Call
  restart : Call
  report : (error_code : ℕ) → Call

module _ (invoke : ℕ → Cmd Framework ℤ) where
  abbrev pub run : Call → Cmd Framework (Unit {0})
  run (initialise name version flags) = service_framework_init name version flags >> pure tt
  run (register callbacks) = service_register_callbacks callbacks >> pure tt
  run start = service_start invoke >> pure tt
  run stop = service_stop invoke >> pure tt
  run restart = service_restart invoke >> pure tt
  run (report error_code) = service_report_error invoke error_code

  -- The states that one call after the other leads to.
  pub data Reaches : Framework → Framework → Type 0 where
    here : (s : Framework) → Reaches s s
    after : (s t u : Framework) (c : Call) → Reaches s t → run c t ≡ ok tt u → Reaches s u

-- Between two calls: new, running or stopped, and the lock free.
unfoldable pub Between : Framework → Type 0
Between s =
    ((s.state ≡ service_state_init)
      ⊎ (s.state ≡ service_state_running)
      ⊎ (s.state ≡ service_state_stopped))
    × (s.lock ≡ 0)

init-Between :
    (name version : List ℕ) (flags : ℕ) (s : Framework)
    → Between s
    → Returns (λ _ t. Between t) (service_framework_init name version flags s)
unfolding Between service_framework_init
init-Between name version flags s v = rw v.1 (inl refl, refl)

register-Between :
    (callbacks : ServiceCallbacks) (s : Framework)
    → Between s
    → Returns (λ _ t. Between t) (service_register_callbacks callbacks s)
unfolding Between service_register_callbacks
register-Between callbacks s v = rw v.1 (v.0, refl)

module _ (invoke : ℕ → Cmd Framework ℤ) (quiet : Quiet invoke) where
  call_back-Quiet :
      (p : ℕ) (s : Framework)
      → Returns
          (λ _ t. (t.state ≡ s.state) × (t.callbacks ≡ s.callbacks) × (t.lock ≡ s.lock))
          (call_back invoke p s)
  unfolding Quiet call_back
  call_back-Quiet p s = elim (Bool-cases (p == 0)) [
    | inl y ↦ rw y (refl, refl, refl)
    | inr n ↦ rw n (quiet p s)
  ]

  start-refused :
      (s : Framework)
      → s.lock ≡ 0
      → not_startable s.state ≡ true
      → service_start invoke s ≡ ok minus_one s
  unfolding service_start
  start-refused s free y = ground (arith, free, y)

  start-goes :
      (s : Framework)
      → s.lock ≡ 0
      → not_startable s.state ≡ false
      → service_start invoke s
        ≡ call_back invoke s.callbacks.start
            (record s { state = service_state_running; start_time = 0; lock = 0 })
  unfolding service_start
  start-goes s free n = ground (arith, free, n)

  refused-running : (s : Framework) → Between s → not_startable s.state ≡ true → s.state ≡ 1
  unfolding Between
  refused-running s v y = ground (arith, v.0, y)

  -- A start leaves the service running, whatever its callback answers.
  start-Between :
      (s : Framework)
      → Between s
      → Returns (λ _ t. Between t × (t.state ≡ service_state_running)) (service_start invoke s)
  unfolding Between
  start-Between s v = elim (Bool-cases (not_startable s.state)) [
    | inl y ↦ rw (start-refused s v.1 y) (v, refused-running s v y)
    | inr n ↦
        let t = record s { state = service_state_running; start_time = 0; lock = 0 } in
        rw (start-goes s v.1 n) (
          Returns-mono (call_back invoke s.callbacks.start t) (call_back-Quiet s.callbacks.start t)
            (λ _ u h. ((inr (inl h.0), h.2), h.0)))
  ]

  stop-refused :
      (s : Framework)
      → s.lock ≡ 0
      → (s.state == service_state_running) ≡ false
      → service_stop invoke s ≡ ok minus_one s
  unfolding service_stop
  stop-refused s free n = ground (arith, free, n)

  -- What is left of a stop after its callback.
  abbrev finish : ℤ → Cmd Framework ℤ
  finish _ = do spin_lock; modify (set_state service_state_stopped); spin_unlock; pure success

  stop-goes :
      (s : Framework)
      → s.lock ≡ 0
      → (s.state == service_state_running) ≡ true
      → service_stop invoke s
        ≡ and_then
            (call_back invoke s.callbacks.stop
              (record s { state = service_state_stopping; lock = 0 }))
            finish
  unfolding service_stop spin_lock spin_unlock
  stop-goes s free y = ground (arith, free, y)

  finish-runs :
      (r : ℤ) (t : Framework)
      → t.lock ≡ 0
      → finish r t ≡ ok success (record t { state = service_state_stopped; lock = 0 })
  unfolding spin_lock spin_unlock
  finish-runs r t free = ground (arith, free)

  stop-Between :
      (s : Framework)
      → Between s
      → Returns
          (λ r t.
            Between t
            × (t.state
                ≡ (if s.state == service_state_running then service_state_stopped else s.state))
            × (r ≡ (if s.state == service_state_running then success else minus_one)))
          (service_stop invoke s)
  unfolding Between
  stop-Between s v = elim (Bool-cases (s.state == service_state_running)) [
    | inr n ↦ rw (stop-refused s v.1 n, n) (v, refl, refl)
    | inl y ↦
        let t = record s { state = service_state_stopping; lock = 0 } in
        rw (stop-goes s v.1 y, y)
          (Returns-and_then _ _ (call_back invoke s.callbacks.stop t) finish
            (call_back-Quiet s.callbacks.stop t)
            (λ r u h. rw (finish-runs r u h.2) ((inr (inr refl), refl), refl, refl)))
  ]

  report-goes :
      (s : Framework) (e : ℕ)
      → s.lock ≡ 0
      → service_report_error invoke e s
        ≡ and_then
            (call_back invoke s.callbacks.error_handler
              (record s { error_count = u32 (s.error_count + 1); last_error = e; lock = 0 }))
            (λ _. pure tt)
  unfolding service_report_error
  report-goes s e free = ground (arith, free)

  report-Between :
      (s : Framework) (error_code : ℕ)
      → Between s
      → Returns (λ _ t. Between t × (t.state ≡ s.state)) (service_report_error invoke error_code s)
  unfolding Between
  report-Between s e v =
      let t = record s { error_count = u32 (s.error_count + 1); last_error = e; lock = 0 } in
      rw (report-goes s e v.1) (
        Returns-and_then _ _ (call_back invoke s.callbacks.error_handler t) (λ _. pure tt)
          (call_back-Quiet s.callbacks.error_handler t) (λ _ u h. ((rw h.0 v.0, h.2), h.0)))

  restarted :
      (r : ℤ) (t : Framework)
      → r ≡ success
      → Between t
      → Returns
          (λ _ u. Between u × (u.state ≡ service_state_running))
          ((if not (is_success r) then pure r else service_start invoke) t)
  restarted r t e v = rw e (start-Between t v)

  -- `service_restart` between two calls, with callbacks that return and touch nothing of the
  -- framework's state, returns. A running service is running again, whatever its callbacks answer;
  -- for any other the answer is -1, and nothing has changed.
  pub framework_restart_lem :
      (s : Framework)
      → Between s
      → Returns
          (λ r t.
            if s.state == service_state_running
            then Between t × (t.state ≡ service_state_running)
            else (r ≡ minus_one) × (t ≡ s))
          (service_restart invoke s)
  unfolding Between service_restart
  framework_restart_lem s v = elim (Bool-cases (s.state == service_state_running)) [
    | inr n ↦ rw (stop-refused s v.1 n, n) (refl, refl)
    | inl y ↦ rw y (
        Returns-and_then _ (λ _ t. Between t × (t.state ≡ service_state_running))
          (service_stop invoke s)
          (λ ret. if not (is_success ret) then pure ret else service_start invoke)
          (stop-Between s v)
          (λ r t h. restarted r t (h.2 ∙ ap (λ b. if b then success else minus_one) y) h.0))
  ]

  restart-Between :
      (s t : Framework) (r : ℤ)
      → Between s
      → (if s.state == service_state_running
          then Between t × (t.state ≡ service_state_running)
          else (r ≡ minus_one) × (t ≡ s))
      → Between t
  restart-Between s t r v = elim (Bool-cases (s.state == service_state_running)) [
    | inl y ↦ rw y (λ h. h.0)
    | inr n ↦ rw n (λ h. rw h.1 v)
  ]

  call-Between :
      (c : Call) (s : Framework) → Between s → Returns (λ _ t. Between t) (run invoke c s)
  call-Between (initialise name version flags) s v =
      Returns-and_then _ (λ _ t. Between t) (service_framework_init name version flags s)
        (λ _. pure tt) (init-Between name version flags s v) (λ _ t h. h)
  call-Between (register callbacks) s v =
      Returns-and_then _ (λ _ t. Between t) (service_register_callbacks callbacks s) (λ _. pure tt)
        (register-Between callbacks s v) (λ _ t h. h)
  call-Between start s v =
      Returns-and_then _ (λ _ t. Between t) (service_start invoke s) (λ _. pure tt)
        (start-Between s v) (λ _ t h. h.0)
  call-Between stop s v =
      Returns-and_then _ (λ _ t. Between t) (service_stop invoke s) (λ _. pure tt)
        (stop-Between s v) (λ _ t h. h.0)
  call-Between restart s v =
      Returns-and_then _ (λ _ t. Between t) (service_restart invoke s) (λ _. pure tt)
        (framework_restart_lem s v) (λ r t h. restart-Between s t r v h)
  call-Between (report e) s v =
      Returns-mono (service_report_error invoke e s) (report-Between s e v) (λ _ t h. h.0)

  reached : (s t : Framework) → Between s → Reaches invoke s t → Between t
  reached s t v (here _) = v
  reached s u v (after _ t _ c r e) =
      subst (λ m. Returns (λ _ x. Between x) m) e (call-Between c t (reached s t v r))

  -- Between its calls into the framework, one after the other from a state in order on, with
  -- callbacks that return and touch nothing of the framework's state, a service is new, running or
  -- stopped, never stopping or in error, the lock is free, and the next call returns.
  pub service_Reaches :
      (s t : Framework) (c : Call)
      → Between s
      → Reaches invoke s t
      → Between t × Returns (λ _ u. Between u) (run invoke c t)
  service_Reaches s t c v r = let w = reached s t v r in (w, call-Between c t w)
