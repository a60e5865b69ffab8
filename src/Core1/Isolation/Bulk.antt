-- ===== src/Core1/Isolation/Bulk.antt =====
-- Copying, filling and comparing memory with checks: isolation_memcpy, isolation_memset and
-- isolation_memcmp of Core-1/isolation/isolation.c, with the byte loops of Core-1/lib/string.c. A null
-- pointer is the address 0.
use hik.Prelude.{
  ℕ, zero, suc, ◌+◌, ◌-◌, ◌^◌, ◌≤◌, ◌<◌, ◌≡◌, refl, sym, ◌∙◌, ◌≢◌, ◌↔◌, ◌⊎◌, inl, inr, true, false,
  not, ◌||◌, arith, leb, ◌==◌, if◌then◌else◌, Bool-cases, Nat-cases, update, ok, Cmd, ◌>>=◌, ◌>>◌,
  pure, gets, modify, Returns, ℤ, pos, negsuc, success, minus_one, minus_two, minus_three,
}
use mathlib.Core.Bool.{false≢true}
use hik.Core1.Isolation.{
  Machine, isolation_verify_access, on_context, mem_perm_read, mem_perm_write,
}
use hik.Core1.Isolation.Regions.{IsSound}
use hik.Core1.Isolation.Access.{Grants, decision, verify-decision, Grants-decision, decision-Grants}

-- `memcpy`, byte by byte from the low end.
unfoldable pub memcpy : (n dst src : ℕ) → (ℕ → ℕ) → ℕ → ℕ
memcpy zero dst src m = m
memcpy (suc n) dst src m = memcpy n (suc dst) (suc src) (update m dst (m src))

unfoldable pub memset : (n addr value : ℕ) → (ℕ → ℕ) → ℕ → ℕ
memset zero addr value m = m
memset (suc n) addr value m = memset n (suc addr) value (update m addr value)

-- `*p1 - *p2`
abbrev pub difference : ℕ → ℕ → ℤ
difference a b = if leb b a then pos (a - b) else negsuc (b - a - 1)

unfoldable pub memcmp : (n addr1 addr2 : ℕ) → (ℕ → ℕ) → ℤ
memcmp zero addr1 addr2 m = success
memcmp (suc n) addr1 addr2 m = elim (m addr1 == m addr2) [
  | true ↦ memcmp n (suc addr1) (suc addr2) m
  | false ↦ difference (m addr1) (m addr2)
]

unfoldable pub isolation_memcpy : (dst src size : ℕ) → Cmd Machine ℤ
isolation_memcpy dst src size = if dst == 0 || (src == 0 || size == 0) then pure minus_one else (do
  readable ← on_context (isolation_verify_access src size mem_perm_read)
  if not readable then pure minus_two else (do
    writable ← on_context (isolation_verify_access dst size mem_perm_write)
    if not writable
        then pure minus_three
        else (do modify (λ s. record s { memory = memcpy size dst src s.memory }); pure success)))

unfoldable pub isolation_memset : (dst value size : ℕ) → Cmd Machine ℤ
isolation_memset dst value size = if dst == 0 || size == 0 then pure minus_one else (do
  writable ← on_context (isolation_verify_access dst size mem_perm_write)
  if not writable
      then pure minus_two
      else (do modify (λ s. record s { memory = memset size dst value s.memory }); pure success))

unfoldable pub isolation_memcmp : (addr1 addr2 size : ℕ) → Cmd Machine ℤ
isolation_memcmp addr1 addr2 size =
    if addr1 == 0 || (addr2 == 0 || size == 0) then pure minus_one else (do
      first_readable ← on_context (isolation_verify_access addr1 size mem_perm_read)
      if not first_readable then pure minus_two else (do
        second_readable ← on_context (isolation_verify_access addr2 size mem_perm_read)
        if not second_readable
            then pure minus_three
            else gets (λ s. memcmp size addr1 addr2 s.memory)))

-- The two ranges of `n` bytes have no byte in common.
abbrev pub Disjoint : ℕ → ℕ → ℕ → Type 0
Disjoint n a b = (a + n ≤ b) ⊎ (b + n ≤ a)

pub memcpy-outside :
    (n dst src : ℕ) (m : ℕ → ℕ) (k : ℕ) → (k < dst) ⊎ (dst + n ≤ k) → memcpy n dst src m k ≡ m k
unfolding memcpy
memcpy-outside zero dst src m k h = refl
memcpy-outside (suc n) dst src m k h =
    ground (arith, memcpy-outside n (suc dst) (suc src) (update m dst (m src)) k)

pub memcpy-inside :
    (n dst src : ℕ) (m : ℕ → ℕ) (k : ℕ)
    → (src + n ≤ dst) ⊎ (dst + n ≤ src)
    → k < n
    → memcpy n dst src m (dst + k) ≡ m (src + k)
unfolding memcpy
memcpy-inside zero dst src m k d l = absurd (omega arith)
memcpy-inside (suc n) dst src m k d l =
    let f = update m dst (m src) in
    elim (Nat-cases 0 k) [
      | inl later ↦
          let j = k - 1 in
          let e : dst + k ≡ suc dst + j = omega arith in
          let g : src + k ≡ suc src + j = omega arith in
          rw (e, g)
            (ground (arith, memcpy-inside n (suc dst) (suc src) f j (omega arith) (omega arith)))
      | inr (inl now) ↦
          let e : dst + k ≡ dst = omega arith in
          let g : src + k ≡ src = omega arith in
          rw (e, g) (ground (arith, memcpy-outside n (suc dst) (suc src) f dst))
      | inr (inr never) ↦ absurd (omega arith)
    ]

module _ (s : Machine) (dst src size : ℕ) (free : s.context.lock ≡ 0)
    (on : s.context.enabled ≢ 0) where
  copy-runs :
      dst ≢ 0
      → src ≢ 0
      → size ≢ 0
      → isolation_memcpy dst src size s ≡ (
          if decision s.context src size mem_perm_read
          then if decision s.context dst size mem_perm_write
            then ok success (record s { memory = memcpy size dst src s.memory })
            else ok minus_three s
          else ok minus_two s)
  unfolding isolation_memcpy
  copy-runs a b c = ground (
    arith,
    verify-decision s.context src size mem_perm_read free on,
    verify-decision s.context dst size mem_perm_write free on,
  )

-- `isolation_memcpy` of at least one byte between two ranges below 2 ^ 64 that do not overlap, with
-- isolation enabled on sound regions and no null pointer, returns. It answers 0 exactly when one
-- region holds the source and may be read and one holds the destination and may be written. Then
-- the destination holds what the source held and no other byte is changed; else nothing is changed.
pub isolation_memcpy_lem :
    (s : Machine) (dst src size : ℕ)
    → s.context.lock ≡ 0
    → s.context.enabled ≢ 0
    → IsSound s.context
    → dst ≢ 0
    → src ≢ 0
    → 0 < size
    → src + size < 2 ^ 64
    → dst + size < 2 ^ 64
    → Disjoint size src dst
    → Returns
        (λ r t.
          ((r ≡ success) ↔ (
            ((i : ℕ) × Grants s.context src size mem_perm_read i)
            × ((j : ℕ) × Grants s.context dst size mem_perm_write j)))
          × (r ≡ success
              → ((k : ℕ) → k < size → t.memory (dst + k) ≡ s.memory (src + k))
                × ((k : ℕ) → (k < dst) ⊎ (dst + size ≤ k) → t.memory k ≡ s.memory k))
          × (r ≢ success → t ≡ s))
        (isolation_memcpy dst src size s)
isolation_memcpy_lem s dst src size free on v a b nonempty below_src below_dst apart =
    let c = s.context in
    let runs = copy-runs s dst src size free on a b (omega arith) in
    elim (Bool-cases (decision c src size mem_perm_read)) [
      | inr n ↦
          rw (runs, n)
            (
              (
                λ h. cc,
                λ g. absurd (
                    false≢true
                      (sym n ∙ Grants-decision c src size mem_perm_read v below_src nonempty g.0)),
              ),
              λ h. cc,
              λ ne. refl,
            )
      | inl y ↦ elim (Bool-cases (decision c dst size mem_perm_write)) [
        | inr n ↦
            rw (runs, y, n)
              (
                (
                  λ h. cc,
                  λ g. absurd (
                      false≢true (
                        sym n
                        ∙ Grants-decision c dst size mem_perm_write v below_dst nonempty g.1)),
                ),
                λ h. cc,
                λ ne. refl,
              )
        | inl w ↦
            rw (runs, y, w)
              (
                (
                  λ h. (
                    decision-Grants c src size mem_perm_read v below_src y,
                    decision-Grants c dst size mem_perm_write v below_dst w,
                  ),
                  λ g. refl,
                ),
                λ h. (
                  λ k l. memcpy-inside size dst src s.memory k apart l,
                  λ k o. memcpy-outside size dst src s.memory k o,
                ),
                λ ne. absurd (ne refl),
              )
      ]
    ]
