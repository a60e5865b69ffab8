-- ===== src/Core0/Capability/Locks.antt =====
-- The spinlock of Core-0/capability/capability.c: which calls give it back and which never return.
use hik.Prelude.{
  inr, inl, ◌==◌, Bool-cases, ◌<◌, ◌≤◌, ℕ, zero, suc, ◌+◌, ◌≡◌, ◌≢◌, refl, arith, ok, hang,
}
use hik.Core0.Capability.{
  none, some, CapSystem, cap_create, cap_revoke, cap_delete_domain, cap_derive, cap_get_domain,
  cap_get_capability, revoke_all, domain_cap_space_size,
}

-- `cap_derive` of a capability that exists never returns: `cap_create` waits for the lock that
-- `cap_derive` itself holds. For any other handle it returns 0 and changes nothing.
pub cap_derive_hangs :
    (s : CapSystem) (handle new_permissions : ℕ)
    → s.lock ≡ 0
    → ((i : ℕ) → cap_get_capability s handle ≡ some i → cap_derive handle new_permissions s ≡ hang)
      × (cap_get_capability s handle ≡ none → cap_derive handle new_permissions s ≡ ok 0 s)
unfolding cap_derive cap_create cap_get_capability
cap_derive_hangs s handle new_permissions free = (λ i e. ground arith, λ e. ground arith)

revoke_hangs : (h d : ℕ) (s : CapSystem) → s.lock ≡ 1 → cap_revoke h d s ≡ hang
unfolding cap_revoke
revoke_hangs h d s held = ground arith

revoke_all_hangs :
    (k j i d : ℕ) (s : CapSystem) (p : ℕ)
    → s.lock ≡ 1
    → j ≤ p
    → p < j + k
    → (s.domains i).cap_space p ≢ 0
    → revoke_all k j i d s ≡ hang
unfolding revoke_all
revoke_all_hangs zero j i d s p held l m ne = absurd (omega arith)
revoke_all_hangs (suc k) j i d s p held l m ne =
    elim (Bool-cases ((s.domains i).cap_space j == 0)) [
      | inl e ↦ elim (Bool-cases (j == p)) [
        | inl same ↦ let q : j ≡ p = ground arith in absurd (ground (arith, q))
        | inr other ↦
            rw (e, revoke_all)
              (revoke_all_hangs k (suc j) i d s p held (ground arith) (omega arith) ne)
      ]
      | inr e ↦ rw (e, revoke_all, revoke_hangs ((s.domains i).cap_space j) d s held)
    ]

revoke_all_skips :
    (k j i d : ℕ) (s : CapSystem)
    → ((p : ℕ) → j ≤ p → p < j + k → (s.domains i).cap_space p ≡ 0)
    → revoke_all k j i d s ≡ ok tt s
unfolding revoke_all
revoke_all_skips zero j i d s h = refl
revoke_all_skips (suc k) j i d s h = ground (
  arith,
  h j (omega arith) (omega arith),
  revoke_all_skips k (suc j) i d s (λ p l m. h p (omega arith) (omega arith)),
)

-- `cap_delete_domain` of a domain whose capability space is not all zero never returns, since
-- `cap_revoke` waits for the lock that the call itself holds.
pub cap_delete_domain_hangs :
    (s : CapSystem) (domain_id i p : ℕ)
    → s.lock ≡ 0
    → cap_get_domain s domain_id ≡ some i
    → p < domain_cap_space_size
    → (s.domains i).cap_space p ≢ 0
    → cap_delete_domain domain_id s ≡ hang
unfolding cap_delete_domain cap_get_domain
cap_delete_domain_hangs s domain_id i p free e l ne = ground (
  arith,
  revoke_all_hangs domain_cap_space_size 0 i domain_id (record s { lock = 1 }) p refl (omega arith)
      l ne,
)
