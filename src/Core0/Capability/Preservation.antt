-- ===== src/Core0/Capability/Preservation.antt =====
-- Each operation of Core-0/capability/capability.c keeps the invariant of the tables.
use hik.Core0.Capability.Runs.{
  grant_some, create_domain_some, grant_refused, create_domain_none, revoke_some, grant_none,
  revoke_none, create_domain_entry, delete_some, create_some, delete_none, locked, create_none,
}
use hik.Prelude.{
  dec32, is_success, bit_and, count-le, u32, count_set, arith, inr, inl, ◌==◌, Bool-cases,
  Option-cases, ℕ, ◌+◌, ◌<◌, ◌≡◌, refl,
}
use hik.Core0.Capability.{
  cap_perm_grant, free_domain, cap_create_domain, cap_grant, cap_revoke, new_capability,
  adjust_refs, CapSystem, max_domains, cap_create, cap_delete, cap_get_capability,
  cap_domain_add_cap, cap_domain_remove_cap, free_slot,
}
use hik.Core0.Capability.Lookup.{free_domain-some, cap_get_capability-some, free_slot-some}
use hik.Core0.Capability.Invariant.{
  IsConsistent, Preserves, Keeps-IsConsistent, adjusted-IsConsistent, released-IsConsistent,
  locked-IsConsistent, create_entry-IsConsistent, delete_entry-IsConsistent, add_cap-Keeps,
  remove_cap-Keeps, is_used,
}

module _ (s : CapSystem) (free : s.lock ≡ 0) (v : IsConsistent s) where
  cap_create-IsConsistent : (ty p r b z d : ℕ) → Preserves (cap_create ty p r b z d) s
  cap_create-IsConsistent ty p r b z d = elim (Option-cases (free_slot s)) [
    | inl e ↦ rw (create_none s free ty p r b z d e) (released-IsConsistent s v, refl)
    | inr (i, e) ↦
        let f = free_slot-some s i e in
        rw (create_some s free ty p r b z d i e)
          (create_entry-IsConsistent s v i f.0 d (new_capability ty p r b z d) f.1 refl, refl)
  ]

  cap_delete-IsConsistent : (h : ℕ) → Preserves (cap_delete h) s
  cap_delete-IsConsistent h = elim (Option-cases (cap_get_capability s h)) [
    | inl e ↦ rw (delete_none s free h e) (released-IsConsistent s v, refl)
    | inr (i, e) ↦
        let f = cap_get_capability-some s h i e in
        rw (delete_some s free h i e) (delete_entry-IsConsistent s v i f.0 h f.1, refl)
  ]

  cap_revoke-IsConsistent : (h d : ℕ) → Preserves (cap_revoke h d) s
  cap_revoke-IsConsistent h d = elim (Option-cases (cap_get_capability s h)) [
    | inl e ↦ rw (revoke_none s free h d e) (released-IsConsistent s v, refl)
    | inr (i, e) ↦
        let t = (cap_domain_remove_cap d h (locked s)).1 in
        let w : IsConsistent t =
          Keeps-IsConsistent (locked s) t (remove_cap-Keeps (locked s) d h)
            (locked-IsConsistent s v) in
        rw (revoke_some s free h d i e)
          (elim (Bool-cases (is_success (cap_domain_remove_cap d h (locked s)).0)) [
            | inl y ↦ rw y (
              released-IsConsistent (adjust_refs dec32 i t) (adjusted-IsConsistent dec32 i t w),
              refl,
            )
            | inr n ↦ rw n (released-IsConsistent t w, refl)
          ])
  ]

  cap_grant-IsConsistent : (h d : ℕ) → Preserves (cap_grant h d) s
  cap_grant-IsConsistent h d = elim (Option-cases (cap_get_capability s h)) [
    | inl e ↦ rw (grant_none s free h d e) (released-IsConsistent s v, refl)
    | inr (i, e) ↦ elim (Bool-cases (bit_and (s.capabilities i).permissions cap_perm_grant == 0)) [
      | inl g ↦ rw (grant_refused s free h d i e g) (released-IsConsistent s v, refl)
      | inr g ↦
          let t = (cap_domain_add_cap d h (locked s)).1 in
          let inc : ℕ → ℕ = λ n. u32 (n + 1) in
          let w : IsConsistent t =
            Keeps-IsConsistent (locked s) t (add_cap-Keeps (locked s) d h)
              (locked-IsConsistent s v) in
          rw (grant_some s free h d i e g)
            (elim (Bool-cases (is_success (cap_domain_add_cap d h (locked s)).0)) [
              | inl y ↦ rw y (
                released-IsConsistent (adjust_refs inc i t) (adjusted-IsConsistent inc i t w),
                refl,
              )
              | inr n ↦ rw n (released-IsConsistent t w, refl)
            ])
    ]
  ]

-- A new domain takes a free slot with an empty space.
create_domain_entry-IsConsistent :
    (s : CapSystem) (i b z : ℕ)
    → IsConsistent s
    → i < max_domains
    → (s.domains i).domain_id ≡ 0
    → 0 < s.next_domain_id
    → IsConsistent (create_domain_entry i b z s)
create_domain_entry-IsConsistent s i b z v l f pos =
    let t = create_domain_entry i b z s in
    let grown =
      count_set max_domains (is_used s) (is_used t) i l (ground arith) (ground arith)
        (λ j ne. ground arith) in
    record {
      caps_counted = v.caps_counted;
      domains_counted = omega (arith, grown, v.domains_counted, count-le max_domains (is_used t));
      dense = λ k. elim (Bool-cases (i == k)) [
        | inl e ↦ rw e (record { fits = omega arith; clear = λ j m. refl })
        | inr e ↦ rw e (v.dense k)
      ];
    }

cap_create_domain-IsConsistent :
    (s : CapSystem) (b z : ℕ)
    → s.lock ≡ 0
    → IsConsistent s
    → 0 < s.next_domain_id
    → Preserves (cap_create_domain b z) s
cap_create_domain-IsConsistent s b z free v pos = elim (Option-cases (free_domain s)) [
  | inl e ↦ rw (create_domain_none s free b z e) (released-IsConsistent s v, refl)
  | inr (i, e) ↦
      let f = free_domain-some s i e in
      rw (create_domain_some s free b z i e)
        (create_domain_entry-IsConsistent s i b z v f.0 f.1 pos, refl)
]

-- Started with the lock free, on consistent tables whose next domain id is not 0, each of the five
-- operations `cap_create`, `cap_delete`, `cap_grant`, `cap_revoke` and `cap_create_domain` returns, and
-- leaves the tables consistent and the lock free: the counters count the live entries and the domains
-- in use, and no capability space is overrun. Nothing is said of `cap_delete_domain` and `cap_derive`.
pub operations-IsConsistent :
    (s : CapSystem) (type permissions resource_id base size domain_id handle : ℕ)
    → s.lock ≡ 0
    → IsConsistent s
    → 0 < s.next_domain_id
    → Preserves (cap_create type permissions resource_id base size domain_id) s
      × Preserves (cap_delete handle) s
      × Preserves (cap_grant handle domain_id) s
      × Preserves (cap_revoke handle domain_id) s
      × Preserves (cap_create_domain base size) s
operations-IsConsistent s type permissions resource_id base size domain_id handle free v next = (
  cap_create-IsConsistent s free v type permissions resource_id base size domain_id,
  cap_delete-IsConsistent s free v handle,
  cap_grant-IsConsistent s free v handle domain_id,
  cap_revoke-IsConsistent s free v handle domain_id,
  cap_create_domain-IsConsistent s base size free v next,
)
