-- ===== src/Core0/Capability/Aliasing.antt =====
-- Handles against table slots in Core-0/capability/capability.c: a handle is a running number, the
-- entry goes to the first free slot, and a lookup goes to slot (handle - 1) mod 1024.
use hik.Core0.Capability.Invariant.{remove_from_domains-Keeps}
use hik.Core0.Capability.Runs.{
  delete_some, locked, delete_none, delete_entry, create_some, create_entry,
}
use hik.Prelude.{
  inr, ◌==◌, inl, Option-cases, if◌then◌else◌, ◌-◌, false, arith, ◌↔◌, and_then, true, update, some,
  success, ◌^◌, u32, ◌+◌, ◌<◌, Returns, ◌≤◌, ℕ, ◌≡◌, refl,
}
use hik.Core0.Capability.{
  max_domains, cap_magic, add_to_owner, cap_domain_add_cap, CapSystem, Capability, cap_create,
  cap_delete, cap_get_capability, free_slot, is_live, max_capabilities, new_capability,
}
use hik.Core0.Capability.Lookup.{
  cap_get_capability-some, cap_get_capability-direct, free_slot-eq_some, slot_of, Allowed,
}

capabilities-add_to_owner :
    (d h : ℕ) (s : CapSystem) → (add_to_owner d h s).capabilities ≡ s.capabilities
unfolding cap_domain_add_cap
capabilities-add_to_owner d h s = ground arith

next-add_to_owner :
    (d h : ℕ) (s : CapSystem) → (add_to_owner d h s).next_cap_handle ≡ s.next_cap_handle
unfolding cap_domain_add_cap
next-add_to_owner d h s = ground arith

module _ (s : CapSystem) (i d : ℕ) (c : Capability) where
  capabilities-create_entry : (create_entry i c d s).capabilities ≡ update s.capabilities i c
  capabilities-create_entry = capabilities-add_to_owner d s.next_cap_handle _

  next-create_entry : (create_entry i c d s).next_cap_handle ≡ u32 (s.next_cap_handle + 1)
  next-create_entry = next-add_to_owner d s.next_cap_handle _

  live-create_entry :
      (k : ℕ)
      → is_live (create_entry i c d s) k ≡ (if i == k then c.magic == cap_magic else is_live s k)
  live-create_entry k = ground (arith, capabilities-create_entry)

-- While the handles run 1, 2, 3, ... and nothing has been deleted, handle h has slot h - 1.
pub record IsSequential (s : CapSystem) : Type 0 where
  pub some_given : 0 < s.next_cap_handle
  pub fits : s.next_cap_handle ≤ max_capabilities + 1
  pub live : (k : ℕ) → k + 1 < s.next_cap_handle → is_live s k ≡ true
  pub dead : (k : ℕ) → s.next_cap_handle ≤ k + 1 → is_live s k ≡ false

-- In a table from which nothing has been deleted and that is not full, `cap_create` returns the
-- next handle, looking that handle up finds the entry that the call wrote, with the values that it
-- was given, and the table stays so.
pub cap_create-get :
    (s : CapSystem) (ty p r b z d : ℕ)
    → s.lock ≡ 0
    → IsSequential s
    → s.next_cap_handle ≤ max_capabilities
    → Returns
        (λ h t.
          (h ≡ s.next_cap_handle)
          × (cap_get_capability t h ≡ some (h - 1))
          × (t.capabilities (h - 1) ≡ new_capability ty p r b z d)
          × IsSequential t)
        (cap_create ty p r b z d s)
cap_create-get s ty p r b z d free v room =
    let i = s.next_cap_handle - 1 in
    let c = new_capability ty p r b z d in
    let t = create_entry i c d s in
    let e : free_slot s ≡ some i =
      free_slot-eq_some s i (omega arith) (v.dead i (omega arith))
        (λ k l. v.live k (omega (arith, v.some_given))) in
    let next = next-create_entry s i d c in
    rw (create_some s free ty p r b z d i e) (
      refl,
      ground (
        arith,
        cap_get_capability-direct t s.next_cap_handle,
        next,
        live-create_entry s i d c i,
        v.some_given,
      ),
      ground (arith, capabilities-create_entry s i d c),
      record {
        some_given = omega (arith, next);
        fits = omega (arith, next);
        live = λ k l. ground (arith, live-create_entry s i d c k, next, v.live k, v.some_given);
        dead = λ k l. ground (arith, live-create_entry s i d c k, next, v.dead k, v.some_given);
      },
    )

-- Whatever was deleted before: the handle that `cap_create` returns finds the entry that the call
-- wrote exactly when the first free slot is the one that belongs to the handle.
pub cap_create-get_iff :
    (s : CapSystem) (ty p r b z d i : ℕ)
    → s.lock ≡ 0
    → 0 < s.next_cap_handle
    → s.next_cap_handle + 1 < 2 ^ 32
    → free_slot s ≡ some i
    → Returns
        (λ h t. (cap_get_capability t h ≡ some i) ↔ (i ≡ slot_of h))
        (cap_create ty p r b z d s)
cap_create-get_iff s ty p r b z d i free given small e =
    let c = new_capability ty p r b z d in
    let t = create_entry i c d s in
    let look = cap_get_capability-direct t s.next_cap_handle in
    let next = next-create_entry s i d c in
    rw (create_some s free ty p r b z d i e)
      (λ q. ground (arith, look), λ q. ground (arith, look, next, live-create_entry s i d c i))

-- A deleted handle comes back to life. With the lock free and a next handle below 2 ^ 32 - 1, where the
-- slots below that of a live handle are live: `cap_delete` of the handle and then `cap_create` of any
-- other capability, for any domain, return, and the deleted handle finds the new entry.
pub deleted_handle_revives :
    (s : CapSystem) (h i ty p r b z d : ℕ)
    → s.lock ≡ 0
    → s.next_cap_handle + 1 < 2 ^ 32
    → cap_get_capability s h ≡ some i
    → ((k : ℕ) → k < i → is_live s k ≡ true)
    → Returns
        (λ _ u.
          (cap_get_capability u h ≡ some i) × (u.capabilities i ≡ new_capability ty p r b z d))
        (and_then (cap_delete h s) (λ _. cap_create ty p r b z d))
deleted_handle_revives s h i ty p r b z d free small e below =
    let at = cap_get_capability-some s h i e in
    let t = delete_entry i h s in
    let c = new_capability ty p r b z d in
    let u = create_entry i c d t in
    let k = remove_from_domains-Keeps max_domains 0 h (locked s) in
    let slot : free_slot t ≡ some i =
      free_slot-eq_some t i at.0 (ground arith)
        (λ j l. ground (arith, k.capabilities, below j l)) in
    rw (delete_some s free h i e, create_some t refl ty p r b z d i slot)
      (
        ground (
          arith,
          cap_get_capability-direct u h,
          next-create_entry t i d c,
          k.next_cap_handle,
          live-create_entry t i d c i,
          at,
        ),
        ground (arith, capabilities-create_entry t i d c),
      )

-- After `cap_delete` of a capability returns 0, no domain is allowed any access by the handle.
pub cap_delete-revokes :
    (s : CapSystem) (h : ℕ)
    → s.lock ≡ 0
    → Returns (λ r t. r ≡ success → (d p : ℕ) → ¬ Allowed t d h p) (cap_delete h s)
cap_delete-revokes s h free = elim (Option-cases (cap_get_capability s h)) [
  | inl e ↦ rw (delete_none s free h e) (λ q. cc)
  | inr (i, e) ↦
      rw (delete_some s free h i e)
        (λ q d p a. let at = cap_get_capability-some s h i e in ground (arith, a.live, at.2))
]
