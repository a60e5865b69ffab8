-- ===== src/Core0/Irq/Routing.antt =====
-- The flags that the dispatcher of Core-0/irq/irq.c tests, and that it does nothing.
use hik.Core0.Capability.Lookup.{cap_check_iff}
use hik.Prelude.{
  first, first-none, none, ◌||◌, ◌≢◌, update, Returns, ℤ, success, ok, ℕ, ◌<◌, bit_and, bit_or, ◌≡◌,
  refl, Bool, true, false, not, ◌&&◌, arith, ◌==◌,
}
use hik.Core0.Irq.{
  cap_perm_read, cap_type_irq, cap_check, CapSystem, IrqRouteTable, irq_handler, irq_disable,
  irq_enable, clear_flag, irq_flag_enabled, irq_flag_masked,
}

abbrev enabled_flags : ℕ → ℕ
enabled_flags f = clear_flag (bit_or f irq_flag_enabled) irq_flag_masked

abbrev disabled_flags : ℕ → ℕ
disabled_flags f = clear_flag (bit_or f irq_flag_masked) irq_flag_enabled

abbrev passes : ℕ → Bool
passes f = not (bit_and f irq_flag_enabled == 0) && (bit_and f irq_flag_masked == 0)

-- The flags below 16 that `irq_enable` or `irq_disable` gets wrong.
wrong_flags : ℕ → Bool
wrong_flags f = not (passes (enabled_flags f)) || passes (disabled_flags f)

flag_table : first 16 wrong_flags ≡ none
unfolding wrong_flags first
flag_table = refl

flags_lem :
    (f : ℕ) → f < 16 → (passes (enabled_flags f) ≡ true) × (passes (disabled_flags f) ≡ false)
unfolding wrong_flags
flags_lem f l = let h = first-none 16 wrong_flags flag_table f l in (ground arith, ground arith)

enable-runs :
    (s : IrqRouteTable) (v : ℕ)
    → s.lock ≡ 0
    → let e = s.entries v in
      irq_enable v s
      ≡ ok success
          (record s { entries = update s.entries v (record e { flags = enabled_flags e.flags }) })
unfolding irq_enable
enable-runs s v free = ground arith

disable-runs :
    (s : IrqRouteTable) (v : ℕ)
    → s.lock ≡ 0
    → let e = s.entries v in
      irq_disable v s
      ≡ ok success
          (record s { entries = update s.entries v (record e { flags = disabled_flags e.flags }) })
unfolding irq_disable
disable-runs s v free = ground arith

-- With the lock free and no flag bit set but the four that are defined: `irq_enable` of a vector makes
-- its flags pass the dispatcher's two tests, `irq_disable` makes them fail, and neither call changes
-- another vector's entry.
pub irq_enable-disable :
    (s : IrqRouteTable) (v : ℕ)
    → s.lock ≡ 0
    → (s.entries v).flags < 16
    → Returns
        (λ _ t. (passes (t.entries v).flags ≡ true) × ((w : ℕ) → w ≢ v → t.entries w ≡ s.entries w))
        (irq_enable v s)
      × Returns
          (λ _ t.
            (passes (t.entries v).flags ≡ false) × ((w : ℕ) → w ≢ v → t.entries w ≡ s.entries w))
          (irq_disable v s)
irq_enable-disable s v free small =
    let e = s.entries v in
    let f = flags_lem e.flags small in
    (
      rw (enable-runs s v free) (ground (arith, f.0), λ w ne. ground arith),
      rw (disable-runs s v free) (ground (arith, f.1), λ w ne. ground arith),
    )

idle-by :
    (s : IrqRouteTable) (v : ℕ) (c : CapSystem) (r : ℤ)
    → cap_check (s.entries v).capability_id cap_type_irq cap_perm_read c ≡ ok r c
    → irq_handler s v c ≡ ok tt c
unfolding irq_handler
idle-by s v c r k = ground (arith, k)

-- The dispatcher, with the lock of the capability system free, returns and changes nothing, for every
-- vector and every entry of the table: no interrupt reaches a handler.
pub irq_handler_idle :
    (s : IrqRouteTable) (v : ℕ) (c : CapSystem) → c.lock ≡ 0 → irq_handler s v c ≡ ok tt c
irq_handler_idle s v c free =
    let (r, k, _) = cap_check_iff c (s.entries v).capability_id 3 1 free in idle-by s v c r k
