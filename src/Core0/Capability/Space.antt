-- ===== src/Core0/Capability/Space.antt =====
-- A domain's capability space (Core-0/capability/capability.c) as the list of its handles.
use hik.Prelude.{
  refl, sym, inr, ap, ◌∙◌, Bool-cases, inl, Option-cases, values-erase, length-values, ℤ,
  contains-values_at, first-none, minus_two, contains-values, success, true, ◌&&◌, false, leb,
  contains, length, ◌==◌, ltb, none, if◌then◌else◌, values-append, [], erase, first-some, ◌∷◌,
  values, ◌++◌, arith, List, ℕ, zero, suc, ◌+◌, ◌-◌, ◌≤◌, ◌<◌, ◌≡◌, ◌≢◌,
}
use hik.Core0.Capability.{
  update, u32, dec32, some, CapSystem, Domain, domain_cap_space_size, cap_get_domain,
  cap_domain_add_cap, cap_domain_remove_cap, append_cap, drop_cap, find_cap, shift_down,
}

-- The handles that a domain holds, in the order in which they came.
abbrev pub caps : Domain → List ℕ
caps d = values d.cap_space 0 d.num_caps

-- The count fits the array, and what lies beyond the count is clear.
pub record IsDense (d : Domain) : Type 0 where
  pub fits : d.num_caps ≤ domain_cap_space_size
  pub clear : (k : ℕ) → d.num_caps ≤ k → d.cap_space k ≡ 0

shift_down-at :
    (k j : ℕ) (f : ℕ → ℕ) (p : ℕ)
    → shift_down k j f p ≡ (if leb j p && ltb p (j + k) then f (suc p) else f p)
unfolding shift_down
shift_down-at zero j f p = ground arith
shift_down-at (suc k) j f p = ground (arith, shift_down-at k (suc j) (update f j (f (suc j))) p)

pub append_cap-IsDense :
    (h : ℕ) (d : Domain) → IsDense d → d.num_caps < domain_cap_space_size → IsDense (append_cap h d)
append_cap-IsDense h d v l = record {
  fits = omega (arith, v.fits);
  clear = λ k m. ground (arith, v.clear k);
}

caps-append_cap :
    (h : ℕ) (d : Domain)
    → d.num_caps < domain_cap_space_size
    → caps (append_cap h d) ≡ caps d ++ (h ∷ [])
caps-append_cap h d l =
    let e : u32 (d.num_caps + 1) ≡ suc d.num_caps = omega arith in
    rw e (
      values-append d.cap_space (update d.cap_space d.num_caps h) 0 d.num_caps h
        (λ k m. ground arith) (ground arith))

module _ (h : ℕ) (d : Domain) (j : ℕ) (found : find_cap h d ≡ some j) (v : IsDense d) where
  found_at : (j < d.num_caps) × (d.cap_space j ≡ h) × ((k : ℕ) → k < j → d.cap_space k ≢ h)
  unfolding find_cap
  found_at =
      let f = first-some d.num_caps (λ i. d.cap_space i == h) j found in
      (f.0, ground arith, λ k l q. absurd (ground (arith, f.2 k l)))

  pub num_caps-drop_cap : (drop_cap j d).num_caps + 1 ≡ d.num_caps
  unfolding drop_cap
  num_caps-drop_cap = omega (arith, found_at, v.fits)

  pub drop_cap-IsDense : IsDense (drop_cap j d)
  unfolding drop_cap
  drop_cap-IsDense =
      let n = dec32 d.num_caps in
      let e : n + 1 ≡ d.num_caps = num_caps-drop_cap in
      record {
        fits = omega (arith, v.fits, e);
        clear =
            λ k m. ground (arith, e, found_at.0, v.clear k, shift_down-at (n - j) j d.cap_space k);
      }

  pub caps-drop_cap : caps (drop_cap j d) ≡ erase h (caps d)
  unfolding drop_cap
  caps-drop_cap =
      let n = dec32 d.num_caps in
      let e : d.num_caps ≡ suc n = omega (arith, num_caps-drop_cap) in
      let f = d.cap_space in
      let at = found_at in
      values-erase d.cap_space (update (shift_down (n - j) j d.cap_space) n 0) 0 n h j (omega arith)
        (omega (arith, at.0)) at.1 (λ k l m. at.2 k m)
        (λ k l. ground (arith, shift_down-at (n - j) j d.cap_space k, at.0))
        (λ k l m. ground (arith, shift_down-at (n - j) j d.cap_space k, at.0))
      ∙ ap (λ c. erase h (values d.cap_space 0 c)) (sym e)

module _ (h : ℕ) (d : Domain) where
  absent : find_cap h d ≡ none → contains h (caps d) ≡ false
  unfolding find_cap
  absent e =
      contains-values d.cap_space 0 d.num_caps h
        (λ k l m. ground (arith, first-none d.num_caps (λ i. d.cap_space i == h) e k (omega arith)))

  present : (j : ℕ) → find_cap h d ≡ some j → contains h (caps d) ≡ true
  unfolding find_cap
  present j e =
      let f = first-some d.num_caps (λ i. d.cap_space i == h) j e in
      contains-values_at d.cap_space 0 d.num_caps h j (omega arith) (omega (arith, f.0))
        (ground arith)

-- The specification: a list of at most 64 handles with a status.
abbrev pub add_handle : ℕ → List ℕ → ℤ × List ℕ
add_handle h l =
    if ltb (length l) domain_cap_space_size then (success, l ++ (h ∷ [])) else (minus_two, l)

abbrev pub remove_handle : ℕ → List ℕ → ℤ × List ℕ
remove_handle h l = if contains h l then (success, erase h l) else (minus_two, l)

-- `cap_domain_add_cap` of an existing domain refines appending to a list of at most 64 handles,
-- status included. It keeps the space dense and leaves the other domains alone.
pub cap_domain_add_cap_refines :
    (s : CapSystem) (d h i : ℕ)
    → cap_get_domain s d ≡ some i
    → IsDense (s.domains i)
    → let (r, t) = cap_domain_add_cap d h s in
      ((r, caps (t.domains i)) ≡ add_handle h (caps (s.domains i)))
      × IsDense (t.domains i)
      × ((k : ℕ) → k ≢ i → t.domains k ≡ s.domains k)
unfolding cap_domain_add_cap
cap_domain_add_cap_refines s d h i e v =
    let n = length-values (s.domains i).cap_space 0 (s.domains i).num_caps in
    elim (Bool-cases (leb domain_cap_space_size (s.domains i).num_caps)) [
      | inl full ↦ rw (e, cap_domain_add_cap, full) (ground (arith, n), v, λ k ne. refl)
      | inr room ↦
          rw (e, cap_domain_add_cap, room)
            (
              ground (arith, n, caps-append_cap h (s.domains i)),
              ground (arith, append_cap-IsDense h (s.domains i) v),
              λ k ne. ground arith,
            )
    ]

-- `cap_domain_remove_cap` of an existing domain refines erasing the first copy of the handle from
-- the list, status included. It keeps the space dense and leaves the other domains alone.
pub cap_domain_remove_cap_refines :
    (s : CapSystem) (d h i : ℕ)
    → cap_get_domain s d ≡ some i
    → IsDense (s.domains i)
    → let (r, t) = cap_domain_remove_cap d h s in
      ((r, caps (t.domains i)) ≡ remove_handle h (caps (s.domains i)))
      × IsDense (t.domains i)
      × ((k : ℕ) → k ≢ i → t.domains k ≡ s.domains k)
unfolding cap_domain_remove_cap
cap_domain_remove_cap_refines s d h i e v = elim (Option-cases (find_cap h (s.domains i))) [
  | inl f ↦
      rw (e, cap_domain_remove_cap, f) (ground (arith, absent h (s.domains i) f), v, λ k ne. refl)
  | inr (j, f) ↦
      rw (e, cap_domain_remove_cap, f)
        (
          ground (arith, present h (s.domains i) j f, caps-drop_cap h (s.domains i) j f v),
          ground (arith, drop_cap-IsDense h (s.domains i) j f v),
          λ k ne. ground arith,
        )
]
