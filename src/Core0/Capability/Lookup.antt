-- ===== src/Core0/Capability/Lookup.antt =====
-- What `cap_get_capability` and `cap_check` of Core-0/capability/capability.c find.
use hik.Prelude.{
  not, false, ◌↔◌, first-eq_some, inr, inl, ℕ, ◌-◌, ◌%◌, ◌<◌, ◌≡◌, ◌≢◌, true, ◌&&◌, ◌||◌, none,
  some, arith, ◌==◌, leb, if◌then◌else◌, Option-cases, first_unique, first-some, first_found, ok,
  success,
}
use hik.Core0.Capability.{
  free_domain, free_slot, minus_three, minus_two, minus_one, cap_check, ℤ, Domain, CapSystem,
  is_live, max_capabilities, max_domains, domain_cap_space_size, cap_get_capability, cap_get_domain,
  holds, permits, has_perms,
}

-- The slot to which a handle belongs.
abbrev pub slot_of : ℕ → ℕ
slot_of handle = (handle - 1) % max_capabilities

-- Searching the whole table finds the live entry of slot (handle - 1) mod 1024, and nothing for
-- the handle 0, for a handle not yet given out, and for a slot that is not live.
pub cap_get_capability-direct :
    (s : CapSystem) (handle : ℕ)
    → cap_get_capability s handle ≡ (
        if handle == 0 || leb s.next_cap_handle handle
        then none
        else if is_live s (slot_of handle)
        then some (slot_of handle)
        else none)
unfolding cap_get_capability
cap_get_capability-direct s handle = ground (
  arith,
  first_unique max_capabilities (λ i. is_live s i && (i == slot_of handle)) (slot_of handle)
      (omega arith) (λ k h. ground arith),
)

pub cap_get_capability-some :
    (s : CapSystem) (handle i : ℕ)
    → cap_get_capability s handle ≡ some i
    → (i < max_capabilities)
      × (is_live s i ≡ true)
      × (i ≡ slot_of handle)
      × (0 < handle)
      × (handle < s.next_cap_handle)
cap_get_capability-some s handle i e =
    let d = cap_get_capability-direct s handle in
    (ground arith, ground arith, ground arith, ground arith, ground arith)

pub free_slot-some :
    (s : CapSystem) (i : ℕ)
    → free_slot s ≡ some i
    → (i < max_capabilities) × (is_live s i ≡ false) × ((k : ℕ) → k < i → is_live s k ≡ true)
unfolding free_slot
free_slot-some s i e =
    let f = first-some max_capabilities (λ i. not (is_live s i)) i e in
    (f.0, ground (arith, f.1), λ k l. ground (arith, f.2 k l))

pub free_slot-eq_some :
    (s : CapSystem) (i : ℕ)
    → i < max_capabilities
    → is_live s i ≡ false
    → ((k : ℕ) → k < i → is_live s k ≡ true)
    → free_slot s ≡ some i
unfolding free_slot
free_slot-eq_some s i l dead below =
    first-eq_some max_capabilities (λ i. not (is_live s i)) i l (ground arith)
      (λ k m. ground (arith, below k m))

pub free_domain-some :
    (s : CapSystem) (i : ℕ)
    → free_domain s ≡ some i
    → (i < max_domains) × ((s.domains i).domain_id ≡ 0)
unfolding free_domain
free_domain-some s i e =
    let f = first-some max_domains (λ i. (s.domains i).domain_id == 0) i e in
    (f.0, ground (arith, f.1))

-- The domain `d` may use the capability `handle` for all of `permission`: the first domain of that
-- id has the handle in its space, the handle's slot is live, and its permissions cover the request.
pub record Allowed (s : CapSystem) (d handle permission : ℕ) : Type 0 where
  pub domain : ℕ
  pub place : ℕ
  pub domain_in : domain < max_domains
  pub domain_named : (s.domains domain).domain_id ≡ d
  pub domain_first : (k : ℕ) → k < domain → (s.domains k).domain_id ≢ d
  pub place_in : place < domain_cap_space_size
  pub held : (s.domains domain).cap_space place ≡ handle
  pub handle_pos : 0 < handle
  pub handle_given : handle < s.next_cap_handle
  pub live : is_live s (slot_of handle) ≡ true
  pub covered : has_perms (s.capabilities (slot_of handle)) permission ≡ true

pub cap_get_domain-some :
    (s : CapSystem) (d i : ℕ)
    → cap_get_domain s d ≡ some i
    → (i < max_domains)
      × ((s.domains i).domain_id ≡ d)
      × ((k : ℕ) → k < i → (s.domains k).domain_id ≢ d)
unfolding cap_get_domain
cap_get_domain-some s d i e =
    let f = first-some max_domains (λ i. (s.domains i).domain_id == d) i e in
    (f.0, ground arith, λ k l q. absurd (ground (arith, f.2 k l)))

pub cap_get_domain-eq_some :
    (s : CapSystem) (d i : ℕ)
    → i < max_domains
    → (s.domains i).domain_id ≡ d
    → ((k : ℕ) → k < i → (s.domains k).domain_id ≢ d)
    → cap_get_domain s d ≡ some i
unfolding cap_get_domain
cap_get_domain-eq_some s d i l e below =
    first-eq_some max_domains (λ i. (s.domains i).domain_id == d) i l (ground arith)
      (λ k m. ground (arith, below k m))

pub holds-some :
    (handle : ℕ) (d : Domain) (j : ℕ)
    → holds handle d ≡ some j
    → (j < domain_cap_space_size) × (d.cap_space j ≡ handle)
unfolding holds
holds-some handle d j e =
    let f = first-some domain_cap_space_size (λ i. d.cap_space i == handle) j e in
    (f.0, ground arith)

pub holds_found :
    (handle : ℕ) (d : Domain) (j : ℕ)
    → j < domain_cap_space_size
    → d.cap_space j ≡ handle
    → (r : ℕ) × (holds handle d ≡ some r)
unfolding holds
holds_found handle d j l e =
    first_found domain_cap_space_size (λ i. d.cap_space i == handle) j l (ground arith)

-- The four answers of `cap_check`.
pub answer : CapSystem → ℕ → ℕ → ℕ → ℤ
answer s d handle permission = elim (cap_get_domain s d) [
  | none ↦ minus_one
  | some i ↦ elim (holds handle (s.domains i)) [
    | none ↦ minus_two
    | some _ ↦ if permits s handle permission then success else minus_three
  ]
]

pub cap_check-answer :
    (s : CapSystem) (d handle permission : ℕ)
    → s.lock ≡ 0
    → cap_check d handle permission s ≡ ok (answer s d handle permission) s
unfolding cap_check answer cap_get_domain cap_get_capability holds
cap_check-answer s d handle permission free = ground arith

answer-Allowed :
    (s : CapSystem) (d handle permission : ℕ)
    → answer s d handle permission ≡ success
    → Allowed s d handle permission
unfolding answer
answer-Allowed s d handle permission h = elim (Option-cases (cap_get_domain s d)) [
  | inl e ↦ absurd (ground arith)
  | inr (i, e) ↦ elim (Option-cases (holds handle (s.domains i))) [
    | inl f ↦ absurd (ground arith)
    | inr (j, f) ↦
        let at = cap_get_domain-some s d i e in
        let held = holds-some handle (s.domains i) j f in
        let found = cap_get_capability-direct s handle in
        record {
          domain = i;
          place = j;
          domain_in = at.0;
          domain_named = at.1;
          domain_first = at.2;
          place_in = held.0;
          held = held.1;
          handle_pos = ground arith;
          handle_given = ground arith;
          live = ground arith;
          covered = ground arith;
        }
  ]
]

Allowed-answer :
    (s : CapSystem) (d handle permission : ℕ)
    → Allowed s d handle permission
    → answer s d handle permission ≡ success
unfolding answer
Allowed-answer s d handle permission a =
    let at = cap_get_domain-eq_some s d a.domain a.domain_in a.domain_named a.domain_first in
    let held = holds_found handle (s.domains a.domain) a.place a.place_in a.held in
    let found = cap_get_capability-direct s handle in
    ground (arith, a.live, a.covered, a.handle_pos, a.handle_given)

-- With the lock free, `cap_check` returns, leaves the state as it was, and answers 0 exactly when
-- the domain may use the capability for all of the permission bits that are asked for.
pub cap_check_iff :
    (s : CapSystem) (d handle permission : ℕ)
    → s.lock ≡ 0
    → (r : ℤ) × (cap_check d handle permission s ≡ ok r s)
      × ((r ≡ success) ↔ Allowed s d handle permission)
cap_check_iff s d handle permission free = (
  answer s d handle permission,
  cap_check-answer s d handle permission free,
  (answer-Allowed s d handle permission, Allowed-answer s d handle permission),
)
