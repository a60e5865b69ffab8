-- ===== src/Core0/Irq.antt =====
-- Core-0/include/irq.h and Core-0/irq/irq.c: the interrupt routing table and the
-- dispatcher, which asks the capability system and calls no handler.
pub mod Routing
mod Tests
use hik.Prelude.{
  ℕ, zero, suc, ◌+◌, ◌-◌, ◌*◌, ◌/◌, ◌%◌, ◌^◌, ◌≤◌, ◌<◌, bit_and, bit_or, ◌≡◌, refl, sym, ap, ◌∙◌,
  ◌≢◌, ◌↔◌, ◌⊎◌, inl, inr, Bool, true, false, not, ◌&&◌, ◌||◌, Option, none, some, List, [], ◌∷◌,
  ◌++◌, arith, ltb, leb, ◌==◌, if◌then◌else◌, Bool-cases, Option-cases, Nat-cases, update, first,
  count, first-some, first-none, first-eq_some, first_found, first_unique, Run, ok, hang, fault,
  Cmd, and_then, ◌>>=◌, ◌>>◌, pure, gets, modify, call, Returns, within, u32, u64, dec32, dec64,
  sub64, ℤ, pos, negsuc, success, minus_one, minus_two, minus_three, is_success, length,
  length-append, values, erase, contains, length-values, values-ext, values-append, values-erase,
}
use hik.Core0.Capability.{CapSystem, cap_check, cap_type_irq, cap_perm_read}

abbrev pub max_irq_vectors : ℕ
max_irq_vectors = 256

abbrev pub irq_handler_core0 : ℕ
irq_handler_core0 = 0

abbrev pub irq_handler_service : ℕ
irq_handler_service = 1

abbrev pub irq_handler_application : ℕ
irq_handler_application = 2

abbrev pub irq_flag_enabled : ℕ
irq_flag_enabled = 0x01

abbrev pub irq_flag_masked : ℕ
irq_flag_masked = 0x02

pub record IrqRouteEntry : Type 0 where
  pub handler_address : ℕ
  pub type : ℕ
  pub capability_id : ℕ
  pub flags : ℕ
  pub reserved : ℕ

abbrev pub zero_entry : IrqRouteEntry
zero_entry = record { handler_address = 0; type = 0; capability_id = 0; flags = 0; reserved = 0 }

pub record IrqRouteTable : Type 0 where
  pub entries : ℕ → IrqRouteEntry
  pub num_entries : ℕ
  pub lock : ℕ

unfoldable pub spin_lock : Cmd IrqRouteTable (Unit {0})
spin_lock s = if s.lock == 0 then modify (λ t. record t { lock = 1 }) s else hang

unfoldable pub spin_unlock : Cmd IrqRouteTable (Unit {0})
spin_unlock = modify λ s. record s { lock = 0 }

-- The entry of a vector after the three loops: vectors 0 to 47 go to Core-0's handler at the
-- address `handler`, the other ones are masked.
abbrev pub initial_entry : ℕ → ℕ → IrqRouteEntry
initial_entry handler i =
    if ltb i 48
    then record zero_entry {
      handler_address = handler;
      type = irq_handler_core0;
      flags = irq_flag_enabled;
    }
    else record zero_entry { flags = irq_flag_masked }

unfoldable pub irq_init : (handler : ℕ) → Cmd IrqRouteTable ℤ
irq_init handler s =
    pure success
      (record { entries = initial_entry handler; num_entries = max_irq_vectors; lock = 0 })

-- The vector is a byte, so it is a place in the table.
unfoldable pub irq_route : (vector handler type cap_id : ℕ) → Cmd IrqRouteTable ℤ
unfolding spin_lock spin_unlock
irq_route vector handler type cap_id = do
  spin_lock
  e ← gets (λ s. s.entries vector)
  modify (λ s. record s {
    entries =
        update s.entries vector
          (record e { handler_address = handler; type = type; capability_id = cap_id });
  })
  spin_unlock
  pure success

-- `flags &= ~flag` on 32 bits
abbrev pub clear_flag : ℕ → ℕ → ℕ
clear_flag flags flag = bit_and flags (2 ^ 32 - 1 - flag)

unfoldable pub irq_enable : ℕ → Cmd IrqRouteTable ℤ
unfolding spin_lock spin_unlock
irq_enable vector = do
  spin_lock
  e ← gets (λ s. s.entries vector)
  modify (λ s. record s {
    entries =
        update s.entries vector
          (record e { flags = clear_flag (bit_or e.flags irq_flag_enabled) irq_flag_masked });
  })
  spin_unlock
  pure success

unfoldable pub irq_disable : ℕ → Cmd IrqRouteTable ℤ
unfolding spin_lock spin_unlock
irq_disable vector = do
  spin_lock
  e ← gets (λ s. s.entries vector)
  modify (λ s. record s {
    entries =
        update s.entries vector
          (record e { flags = clear_flag (bit_or e.flags irq_flag_masked) irq_flag_enabled });
  })
  spin_unlock
  pure success

-- The dispatcher, over the capability system that `cap_check` asks. The source returns nothing and calls
-- no handler: whether the check passed, it does nothing.
unfoldable pub irq_handler : IrqRouteTable → (vector : ℕ) → Cmd CapSystem (Unit {0})
irq_handler table vector =
    let e = table.entries vector in
    if leb max_irq_vectors vector
    then pure tt
    else if bit_and e.flags irq_flag_enabled == 0
    then pure tt
    else if not (bit_and e.flags irq_flag_masked == 0)
    then pure tt
    else if e.type == irq_handler_core0
    then pure tt
    else if e.type == irq_handler_service
    then (do cap_check e.capability_id cap_type_irq cap_perm_read; pure tt)
    else if e.type == irq_handler_application
    then (do cap_check e.capability_id cap_type_irq cap_perm_read; pure tt)
    else pure tt
