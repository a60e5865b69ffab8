-- ===== src/Core0/Capability/Invariant.antt =====
-- The invariant of the tables of Core-0/capability/capability.c, and what keeps it.
use hik.Core0.Capability.Runs.{delete_entry, locked, create_entry, released}
use hik.Prelude.{
  count-le, u32, update, count_set, true, false, leb, arith, inr, count-ext, not, Returns, inl,
  ◌==◌, Cmd, ◌∙◌, Bool, Bool-cases, count, Option-cases, ℕ, zero, suc, ◌+◌, ◌<◌, ◌≡◌, refl,
}
use hik.Core0.Capability.{
  add_to_owner, adjust_refs, cap_magic, CapSystem, Domain, Capability, is_live, max_capabilities,
  max_domains, cap_get_domain, cap_domain_add_cap, cap_domain_remove_cap, remove_from_domains,
  find_cap, set_domain, append_cap, drop_cap, domain_cap_space_size,
}
use hik.Core0.Capability.Space.{IsDense, append_cap-IsDense, drop_cap-IsDense}

abbrev pub is_used : CapSystem → ℕ → Bool
is_used s i = not ((s.domains i).domain_id == 0)

-- The two counters count the live entries and the domains in use, and every capability space is
-- dense.
pub record IsConsistent (s : CapSystem) : Type 0 where
  pub caps_counted : s.num_caps ≡ count max_capabilities (is_live s)
  pub domains_counted : s.num_domains ≡ count max_domains (is_used s)
  pub dense : (i : ℕ) → IsDense (s.domains i)

-- What `cap_domain_add_cap` and `cap_domain_remove_cap` leave alone.
pub record Keeps (s t : CapSystem) : Type 0 where
  pub capabilities : t.capabilities ≡ s.capabilities
  pub num_caps : t.num_caps ≡ s.num_caps
  pub num_domains : t.num_domains ≡ s.num_domains
  pub next_cap_handle : t.next_cap_handle ≡ s.next_cap_handle
  pub ids : (k : ℕ) → (t.domains k).domain_id ≡ (s.domains k).domain_id
  pub dense : ((k : ℕ) → IsDense (s.domains k)) → (k : ℕ) → IsDense (t.domains k)

Keeps-refl : (s : CapSystem) → Keeps s s
Keeps-refl s = record {
  capabilities = refl;
  num_caps = refl;
  num_domains = refl;
  next_cap_handle = refl;
  ids = λ k. refl;
  dense = λ h. h;
}

Keeps-trans : (s t u : CapSystem) → Keeps s t → Keeps t u → Keeps s u
Keeps-trans s t u a b = record {
  capabilities = b.capabilities ∙ a.capabilities;
  num_caps = b.num_caps ∙ a.num_caps;
  num_domains = b.num_domains ∙ a.num_domains;
  next_cap_handle = b.next_cap_handle ∙ a.next_cap_handle;
  ids = λ k. b.ids k ∙ a.ids k;
  dense = λ h. b.dense (a.dense h);
}

set_domain-Keeps :
    (s : CapSystem) (i : ℕ) (d : Domain)
    → d.domain_id ≡ (s.domains i).domain_id
    → (IsDense (s.domains i) → IsDense d)
    → Keeps s (set_domain i d s)
set_domain-Keeps s i d e h = record {
  capabilities = refl;
  num_caps = refl;
  num_domains = refl;
  next_cap_handle = refl;
  ids = λ k. elim (Bool-cases (i == k)) [
    | inl same ↦ let q : i ≡ k = ground arith in ground (arith, q)
    | inr other ↦ rw other
  ];
  dense = λ v k. elim (Bool-cases (i == k)) [
    | inl same ↦ rw same (h (v i))
    | inr other ↦ rw other (v k)
  ];
}

pub add_cap-Keeps : (s : CapSystem) (d h : ℕ) → Keeps s (cap_domain_add_cap d h s).1
unfolding cap_domain_add_cap
add_cap-Keeps s d h = elim (Option-cases (cap_get_domain s d)) [
  | inl e ↦ rw (e, cap_domain_add_cap) (Keeps-refl s)
  | inr (i, e) ↦ elim (Bool-cases (leb domain_cap_space_size (s.domains i).num_caps)) [
    | inl full ↦ rw (e, cap_domain_add_cap, full) (Keeps-refl s)
    | inr room ↦
        rw (e, cap_domain_add_cap, room)
          (set_domain-Keeps s i (append_cap h (s.domains i)) refl
            (λ v. append_cap-IsDense h (s.domains i) v (ground arith)))
  ]
]

pub remove_cap-Keeps : (s : CapSystem) (d h : ℕ) → Keeps s (cap_domain_remove_cap d h s).1
unfolding cap_domain_remove_cap drop_cap
remove_cap-Keeps s d h = elim (Option-cases (cap_get_domain s d)) [
  | inl e ↦ rw (e, cap_domain_remove_cap) (Keeps-refl s)
  | inr (i, e) ↦ elim (Option-cases (find_cap h (s.domains i))) [
    | inl f ↦ rw (e, cap_domain_remove_cap, f) (Keeps-refl s)
    | inr (j, f) ↦
        rw (e, cap_domain_remove_cap, f)
          (set_domain-Keeps s i (drop_cap j (s.domains i)) refl
            (drop_cap-IsDense h (s.domains i) j f))
  ]
]

pub remove_from_domains-Keeps : (k i h : ℕ) (s : CapSystem) → Keeps s (remove_from_domains k i h s)
unfolding remove_from_domains
remove_from_domains-Keeps zero i h s = Keeps-refl s
remove_from_domains-Keeps (suc k) i h s =
    let t = (cap_domain_remove_cap (s.domains i).domain_id h s).1 in
    Keeps-trans s t (remove_from_domains k (suc i) h t)
      (remove_cap-Keeps s (s.domains i).domain_id h) (remove_from_domains-Keeps k (suc i) h t)

-- A call that returns leaves the tables consistent.
abbrev pub Preserves : {A : Type 0} → Cmd CapSystem A → CapSystem → Type 0
Preserves m s = Returns (λ _ t. IsConsistent t × (t.lock ≡ 0)) (m s)

pub Keeps-IsConsistent : (s t : CapSystem) → Keeps s t → IsConsistent s → IsConsistent t
Keeps-IsConsistent s t k v = record {
  caps_counted =
      k.num_caps
      ∙ v.caps_counted
      ∙ count-ext max_capabilities (is_live s) (is_live t) (λ i l. ground (arith, k.capabilities));
  domains_counted =
      k.num_domains
      ∙ v.domains_counted
      ∙ count-ext max_domains (is_used s) (is_used t) (λ i l. ground (arith, k.ids i));
  dense = k.dense v.dense;
}

-- Writing a reference count keeps the entry's magic number.
pub adjusted-IsConsistent :
    (f : ℕ → ℕ) (i : ℕ) (t : CapSystem) → IsConsistent t → IsConsistent (adjust_refs f i t)
adjusted-IsConsistent f i t w = record {
  caps_counted =
      w.caps_counted
      ∙ count-ext max_capabilities (is_live t) (is_live (adjust_refs f i t)) (λ k l. same k);
  domains_counted = w.domains_counted;
  dense = w.dense;
}
  where
    same : (k : ℕ) → is_live t k ≡ is_live (adjust_refs f i t) k
    same k = elim (Bool-cases (i == k)) [
      | inl e ↦ let q : i ≡ k = ground arith in ground (arith, q)
      | inr e ↦ rw e
    ]

pub released-IsConsistent : (s : CapSystem) → IsConsistent s → IsConsistent (released s)
released-IsConsistent s v = record {
  caps_counted = v.caps_counted;
  domains_counted = v.domains_counted;
  dense = v.dense;
}

pub locked-IsConsistent : (s : CapSystem) → IsConsistent s → IsConsistent (locked s)
locked-IsConsistent s v = record {
  caps_counted = v.caps_counted;
  domains_counted = v.domains_counted;
  dense = v.dense;
}

add_to_owner-Keeps : (s : CapSystem) (d h : ℕ) → Keeps s (add_to_owner d h s)
add_to_owner-Keeps s d h = elim (Option-cases (cap_get_domain s d)) [
  | inl e ↦ rw (e, add_to_owner) (Keeps-refl s)
  | inr (i, e) ↦ rw (e, add_to_owner) (add_cap-Keeps s d h)
]

module _ (s : CapSystem) (v : IsConsistent s) (i : ℕ) (l : i < max_capabilities) where
  pub create_entry-IsConsistent :
      (d : ℕ) (c : Capability)
      → is_live s i ≡ false
      → (c.magic == cap_magic) ≡ true
      → IsConsistent (create_entry i c d s)
  create_entry-IsConsistent d c dead live =
      let t : CapSystem = record s {
        capabilities = update s.capabilities i c;
        next_cap_handle = u32 (s.next_cap_handle + 1);
        lock = 1;
      } in
      let k = add_to_owner-Keeps t d s.next_cap_handle in
      let u = add_to_owner d s.next_cap_handle t in
      let grown =
        count_set max_capabilities (is_live s) (is_live u) i l dead (ground (arith, k.capabilities))
          (λ j ne. ground (arith, k.capabilities)) in
      record {
        caps_counted =
            omega (arith, grown, v.caps_counted, k.num_caps, count-le max_capabilities (is_live u));
        domains_counted =
            k.num_domains
            ∙ v.domains_counted
            ∙ count-ext max_domains (is_used s) (is_used u) (λ j m. ground (arith, k.ids j));
        dense = k.dense v.dense;
      }

  pub delete_entry-IsConsistent : (h : ℕ) → is_live s i ≡ true → IsConsistent (delete_entry i h s)
  delete_entry-IsConsistent h live =
      let u = remove_from_domains max_domains 0 h (locked s) in
      let k = remove_from_domains-Keeps max_domains 0 h (locked s) in
      let t = delete_entry i h s in
      let shrunk =
        count_set max_capabilities (is_live t) (is_live s) i l (ground arith) live
          (λ j ne. ground (arith, k.capabilities)) in
      record {
        caps_counted =
            omega
              (arith, shrunk, v.caps_counted, k.num_caps, count-le max_capabilities (is_live s));
        domains_counted =
            k.num_domains
            ∙ v.domains_counted
            ∙ count-ext max_domains (is_used s) (is_used u) (λ j m. ground (arith, k.ids j));
        dense = k.dense v.dense;
      }
