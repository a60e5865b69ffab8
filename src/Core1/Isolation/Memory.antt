-- ===== src/Core1/Isolation/Memory.antt =====
-- Checked loads and stores of Core-1/isolation/isolation.c. The bytes of one access do not run over
-- the end of the address space here: `addr + n` stays below 2 ^ 64 in each statement.
use hik.Prelude.{
  ℕ, zero, suc, ◌+◌, ◌/◌, ◌%◌, ◌^◌, ◌≤◌, ◌<◌, ◌≡◌, refl, ◌≢◌, ◌⊎◌, inl, inr, arith, if◌then◌else◌,
  Bool-cases, update, ok, and_then, Returns,
}
use native.Mathlib.Nat.{pow-suc}
use hik.Core1.Isolation.{
  Machine, load, store, isolation_read, isolation_write, mem_perm_read, mem_perm_write,
}
use hik.Core1.Isolation.Regions.{IsSound}
use hik.Core1.Isolation.Access.{Grants, decision, verify-decision, Grants-decision, decision-Grants}

store-outside :
    (n addr value : ℕ) (m : ℕ → ℕ) (k : ℕ)
    → (k < addr) ⊎ (addr + n ≤ k)
    → store n addr value m k ≡ m k
unfolding store
store-outside zero addr value m k h = refl
store-outside (suc n) addr value m k h =
    ground (arith, store-outside n (suc addr) (value / 256) (update m addr (value % 256)) k)

load-store :
    (n addr value : ℕ) (m : ℕ → ℕ) → value < 256 ^ n → load n addr (store n addr value m) ≡ value
unfolding load store
load-store zero addr value m h = omega arith
load-store (suc n) addr value m h =
    let rest = update m addr (value % 256) in
    let small : value / 256 < 256 ^ n = omega (arith, pow-suc 256 n) in
    let low : store n (suc addr) (value / 256) rest addr ≡ value % 256 =
      ground (arith, store-outside n (suc addr) (value / 256) rest addr) in
    omega (arith, low, load-store n (suc addr) (value / 256) rest small)

module _ (s : Machine) (n addr : ℕ) (free : s.context.lock ≡ 0) (on : s.context.enabled ≢ 0) where
  write-runs :
      (value : ℕ)
      → isolation_write n addr value s
        ≡ ok tt (record s {
          memory =
              if decision s.context addr n mem_perm_write
              then store n addr value s.memory
              else s.memory;
        })
  unfolding isolation_write
  write-runs value = ground (arith, verify-decision s.context addr n mem_perm_write free on)

  read-runs :
      isolation_read n addr s
      ≡ ok (if decision s.context addr n mem_perm_read then load n addr s.memory else 0) s
  unfolding isolation_read
  read-runs = ground (arith, verify-decision s.context addr n mem_perm_read free on)

-- A checked store of `n` bytes, with isolation enabled on sound regions: if one region holds all of
-- the bytes and may be written, and one may be read there, then a checked load gives the value
-- back, and no byte outside of the n is changed.
pub isolation_write-read :
    (s : Machine) (n addr value i j : ℕ)
    → s.context.lock ≡ 0
    → s.context.enabled ≢ 0
    → IsSound s.context
    → 0 < n
    → addr + n < 2 ^ 64
    → value < 256 ^ n
    → Grants s.context addr n mem_perm_write i
    → Grants s.context addr n mem_perm_read j
    → Returns
        (λ r t. (r ≡ value) × ((k : ℕ) → (k < addr) ⊎ (addr + n ≤ k) → t.memory k ≡ s.memory k))
        (and_then (isolation_write n addr value s) (λ _. isolation_read n addr))
isolation_write-read s n addr value i j free on v nonempty small fits w r =
    let may_write = Grants-decision s.context addr n mem_perm_write v small nonempty (i, w) in
    let may_read = Grants-decision s.context addr n mem_perm_read v small nonempty (j, r) in
    rw (write-runs s n addr free on value, may_write)
      (rw (read-runs (record s { memory = store n addr value s.memory }) n addr free on, may_read)
        (load-store n addr value s.memory fits, λ k h. store-outside n addr value s.memory k h))

-- A checked store that no single region covers with write permission changes nothing.
pub isolation_write_denied :
    (s : Machine) (n addr value : ℕ)
    → s.context.lock ≡ 0
    → s.context.enabled ≢ 0
    → IsSound s.context
    → addr + n < 2 ^ 64
    → ((i : ℕ) → ¬ Grants s.context addr n mem_perm_write i)
    → isolation_write n addr value s ≡ ok tt s
isolation_write_denied s n addr value free on v small denied =
    elim (Bool-cases (decision s.context addr n mem_perm_write)) [
      | inl e ↦
          let (i, g) = decision-Grants s.context addr n mem_perm_write v small e in
          absurd (denied i g)
      | inr e ↦ rw (write-runs s n addr free on value, e)
    ]
