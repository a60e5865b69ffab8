-- ===== src/Core1/Service/Tests.antt =====
-- Runs of the service framework of Core-1/service/service.c, and the theorems at such inputs.
use hik.Prelude.{ℕ, ◌+◌, ◌≡◌, refl, inl, inr, [], ok, Cmd, Returns, ℤ, minus_one}
use hik.Core1.Service.{Framework, no_callbacks, service_start, service_stop, call_back}
use hik.Core1.Service.Cycle.{Quiet, stop, start, here, after, Between, run, service_Reaches}

abbrev running : Framework
running = record {
  name = [];
  version = [];
  flags = 0;
  priority = 0;
  state = 1;
  start_time = 0;
  uptime = 0;
  error_count = 0;
  last_error = 0;
  callbacks = record no_callbacks { start = 64; stop = 128 };
  lock = 0;
}

-- The callbacks fail, and count an error.
abbrev failing : ℕ → Cmd Framework ℤ
failing p s = ok minus_one (record s { error_count = s.error_count + 1 })

failing-Quiet : Quiet failing
unfolding Quiet
failing-Quiet p s = (refl, refl, refl)

running-Between : Between running
unfolding Between
running-Between = (inr (inl refl), refl)

-- The start callback has failed, but the service is running.
start_fails :
    service_start failing (record running { state = 0 })
    ≡ ok minus_one (record running { error_count = 1 })
unfolding service_start call_back
start_fails = refl

abbrev stopped : Framework
stopped = record running { state = 3; error_count = 1 }

stops : run failing stop running ≡ ok tt stopped
unfolding service_stop call_back
stops = refl

service_Reaches_example : Between stopped × Returns (λ _ u. Between u) (run failing start stopped)
service_Reaches_example =
    service_Reaches failing failing-Quiet running stopped start running-Between
      (after running running stopped stop (here running) stops)
