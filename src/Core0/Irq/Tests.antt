-- ===== src/Core0/Irq/Tests.antt =====
-- Runs of Core-0/irq/irq.c on small inputs, and the theorems at such inputs.
use hik.Prelude.{◌≡◌, refl, update, ok}
use hik.Prelude.{first}
use hik.Core0.Capability.{cap_check, cap_get_domain, CapSystem, zero_capability, zero_domain}
use hik.Core0.Irq.{IrqRouteTable, initial_entry, irq_handler, irq_handler_service, max_irq_vectors}

abbrev caps : CapSystem
caps = record {
  capabilities = λ _. zero_capability;
  domains = λ _. zero_domain;
  next_cap_handle = 1;
  next_domain_id = 1;
  num_caps = 0;
  num_domains = 0;
  lock = 0;
}

-- The table after `irq_init`, with vector 100 enabled for a service.
abbrev table : IrqRouteTable
table = record {
  entries = update (initial_entry 0x1000) 100 (record {
    handler_address = 0x5000;
    type = irq_handler_service;
    capability_id = 9;
    flags = 1;
    reserved = 0;
  });
  num_entries = max_irq_vectors;
  lock = 0;
}

service_idle : irq_handler table 100 caps ≡ ok tt caps
unfolding irq_handler cap_check cap_get_domain first
service_idle = refl
