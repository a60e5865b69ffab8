-- ===== src/Core0/Capability/Runs.antt =====
-- The operations of Core-0/capability/capability.c as one step each: the result and the state that
-- a call leaves, on each of its paths, when it starts with the lock free.
use hik.Prelude.{
  true, false, is_success, ◌==◌, arith, ◌+◌, if◌then◌else◌, minus_one, success, dec32, u32, bit_and,
  ok, update, some, none, ℕ, ◌≡◌,
}
use hik.Core0.Capability.{
  free_domain, cap_create_domain, new_domain, cap_domain_add_cap, adjust_refs, cap_perm_grant,
  cap_domain_remove_cap, CapSystem, Capability, cap_create, cap_delete, cap_grant, cap_revoke,
  cap_get_capability, free_slot, add_to_owner, new_capability, zero_capability, remove_from_domains,
  max_domains,
}

-- `t` with the lock free again.
abbrev pub released : CapSystem → CapSystem
released t = record t { lock = 0 }

abbrev pub locked : CapSystem → CapSystem
locked t = record t { lock = 1 }

abbrev pub create_entry : ℕ → Capability → ℕ → CapSystem → CapSystem
create_entry i c d s =
    let t = add_to_owner d s.next_cap_handle (record s {
      capabilities = update s.capabilities i c;
      next_cap_handle = u32 (s.next_cap_handle + 1);
      lock = 1;
    }) in
    record t { num_caps = u32 (t.num_caps + 1); lock = 0 }

abbrev pub delete_entry : ℕ → ℕ → CapSystem → CapSystem
delete_entry i handle s =
    let t = remove_from_domains max_domains 0 handle (locked s) in
    record t {
      capabilities = update t.capabilities i zero_capability;
      num_caps = dec32 t.num_caps;
      lock = 0;
    }

abbrev pub create_domain_entry : ℕ → ℕ → ℕ → CapSystem → CapSystem
create_domain_entry i b z s = record s {
  domains = update s.domains i (new_domain s.next_domain_id b z);
  next_domain_id = u32 (s.next_domain_id + 1);
  num_domains = u32 (s.num_domains + 1);
  lock = 0;
}

module _ (s : CapSystem) (free : s.lock ≡ 0) where
  pub create_none :
      (ty p r b z d : ℕ) → free_slot s ≡ none → cap_create ty p r b z d s ≡ ok 0 (released s)
  unfolding cap_create free_slot
  create_none ty p r b z d e = ground arith

  pub create_some :
      (ty p r b z d i : ℕ)
      → free_slot s ≡ some i
      → cap_create ty p r b z d s
        ≡ ok s.next_cap_handle (create_entry i (new_capability ty p r b z d) d s)
  unfolding cap_create free_slot
  create_some ty p r b z d i e = ground arith

  pub delete_none :
      (h : ℕ) → cap_get_capability s h ≡ none → cap_delete h s ≡ ok minus_one (released s)
  unfolding cap_delete cap_get_capability
  delete_none h e = ground arith

  pub delete_some :
      (h i : ℕ) → cap_get_capability s h ≡ some i → cap_delete h s ≡ ok success (delete_entry i h s)
  unfolding cap_delete cap_get_capability
  delete_some h i e = ground arith

  pub revoke_some :
      (h d i : ℕ)
      → cap_get_capability s h ≡ some i
      → let (r, t) = cap_domain_remove_cap d h (locked s) in
        cap_revoke h d s ≡ ok r (released (if is_success r then adjust_refs dec32 i t else t))
  unfolding cap_revoke cap_get_capability
  revoke_some h d i e = ground arith

  pub grant_some :
      (h d i : ℕ)
      → cap_get_capability s h ≡ some i
      → (bit_and (s.capabilities i).permissions cap_perm_grant == 0) ≡ false
      → let (r, t) = cap_domain_add_cap d h (locked s) in
        cap_grant h d s
        ≡ ok h (released (if is_success r then adjust_refs (λ n. u32 (n + 1)) i t else t))
  unfolding cap_grant cap_get_capability
  grant_some h d i e g = ground arith

  pub grant_refused :
      (h d i : ℕ)
      → cap_get_capability s h ≡ some i
      → (bit_and (s.capabilities i).permissions cap_perm_grant == 0) ≡ true
      → cap_grant h d s ≡ ok 0 (released s)
  unfolding cap_grant cap_get_capability
  grant_refused h d i e g = ground arith

  pub grant_none : (h d : ℕ) → cap_get_capability s h ≡ none → cap_grant h d s ≡ ok 0 (released s)
  unfolding cap_grant cap_get_capability
  grant_none h d e = ground arith

  pub revoke_none :
      (h d : ℕ) → cap_get_capability s h ≡ none → cap_revoke h d s ≡ ok minus_one (released s)
  unfolding cap_revoke cap_get_capability
  revoke_none h d e = ground arith

  pub create_domain_none :
      (b z : ℕ) → free_domain s ≡ none → cap_create_domain b z s ≡ ok 0 (released s)
  unfolding cap_create_domain free_domain
  create_domain_none b z e = ground arith

  pub create_domain_some :
      (b z i : ℕ)
      → free_domain s ≡ some i
      → cap_create_domain b z s ≡ ok s.next_domain_id (create_domain_entry i b z s)
  unfolding cap_create_domain free_domain
  create_domain_some b z i e = ground arith
