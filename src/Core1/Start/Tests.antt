-- ===== src/Core1/Start/Tests.antt =====
-- The start of a service by Core-1/core1.c, at a concrete input.
use hik.Prelude.{inr, ◌≡◌, [], arith, Returns, success}
use hik.Core1.Ipc.{new_channel}
use hik.Core1.Isolation.{zero_region}
use hik.Core1.Service.{no_callbacks}
use hik.Core1.Start.{Core1, ServiceInfo, core1_init}
use hik.Core1.Start.Regions.{IsInfo}
use hik.Core1.Start.Init.{IsStarted, core1_init_lem}

abbrev info : ServiceInfo
info = record {
  service_id = 2;
  domain_id = 3;
  code_base = 0x10000;
  code_size = 0x1000;
  data_base = 0x20000;
  data_size = 0x1000;
  stack_base = 0x30000;
  stack_size = 0x1000;
  heap_base = 0x40000;
  heap_size = 0x1000;
}

-- Before anything has been set up.
abbrev blank : Core1
blank = record {
  isolation = record {
    service_id = 0;
    domain_id = 0;
    regions = λ _. zero_region;
    num_regions = 0;
    lock = 0;
    enabled = 0;
  };
  ipc = record {
    endpoints = [];
    num_endpoints = 0;
    next_endpoint_id = 1;
    next_msg_id = 1;
    lock = 0;
    service_id = 0;
    channels = λ _. new_channel 0;
    heap = record {
      base = 0;
      size = 0;
      first_block = 0;
      lock = 0;
      blocks = λ _. record { size = 0; used = 0; next = 0; prev = 0 };
    };
  };
  framework = record {
    name = [];
    version = [];
    flags = 0;
    priority = 0;
    state = 0;
    start_time = 0;
    uptime = 0;
    error_count = 0;
    last_error = 0;
    callbacks = no_callbacks;
    lock = 0;
  };
}

info-IsInfo : IsInfo info
info-IsInfo = record {
  code_ends = ground arith;
  data_ends = ground arith;
  stack_ends = ground arith;
  heap_start = ground arith;
  heap_room = ground arith;
  heap_ends = ground arith;
  data_code = inr (ground arith);
  stack_code = inr (ground arith);
  stack_data = inr (ground arith);
  heap_code = inr (ground arith);
  heap_data = inr (ground arith);
  heap_stack = inr (ground arith);
}

core1_init_lem_example : Returns (λ r t. (r ≡ success) × IsStarted info t) (core1_init info blank)
core1_init_lem_example = core1_init_lem info blank info-IsInfo
