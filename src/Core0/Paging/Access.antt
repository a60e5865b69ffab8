-- ===== src/Core0/Paging/Access.antt =====
-- `isolation_verify_access` of Core-0/isolation/isolation.c.
use hik.Prelude.{
  ℕ, zero, suc, ◌+◌, ◌*◌, ◌/◌, ◌%◌, ◌^◌, ◌≤◌, ◌<◌, bit_and, ◌≡◌, refl, sym, ◌∙◌, ◌≢◌, ◌↔◌, inl, inr,
  Bool, true, false, not, ◌&&◌, ◌||◌, arith, leb, ◌==◌, if◌then◌else◌, Bool-cases, Nat-cases, u64,
  success,
}
use mathlib.Core.Path.{subst}
use hik.Core0.Mm.{page_size, pages_of}
use hik.Core0.Capability.{max_domains}
use hik.Core0.Paging.{
  pt_index, pd_index, pdpt_index, pml4_index, follow, Pages, Paging, pt_walk_get_pte, entry_allows,
  verify_pages, isolation_verify_access,
}

-- The entry is present, open to user mode if bit 0 of the access is set, and writable if bit 1 is.
pub record Allows (access pte : ℕ) : Type 0 where
  pub there : bit_and pte 1 ≢ 0
  pub user : bit_and access 1 ≢ 0 → bit_and pte 4 ≢ 0
  pub writable : bit_and access 2 ≢ 0 → bit_and pte 2 ≢ 0

-- The three tests, on what the masks leave.
allowed : (there user writable needs_user needs_writable : ℕ) → Bool
allowed p u w nu nw =
    if not (not (p == 0))
    then false
    else if not (nu == 0) && (u == 0)
    then false
    else if not (nw == 0) && (w == 0)
    then false
    else true

allowed-true :
    (p u w nu nw : ℕ) → allowed p u w nu nw ≡ true → (p ≢ 0) × (nu ≢ 0 → u ≢ 0) × (nw ≢ 0 → w ≢ 0)
unfolding allowed
allowed-true p u w nu nw h = (λ e. ground arith, λ a e. ground arith, λ a e. ground arith)

true-allowed :
    (p u w nu nw : ℕ) → p ≢ 0 → (nu ≢ 0 → u ≢ 0) → (nw ≢ 0 → w ≢ 0) → allowed p u w nu nw ≡ true
unfolding allowed
true-allowed p u w nu nw a b c = ground arith

entry_allows-allowed :
    (access pte : ℕ)
    → entry_allows access pte
      ≡ allowed
          (bit_and pte 1)
          (bit_and pte 4)
          (bit_and pte 2)
          (bit_and access 1)
          (bit_and access 2)
unfolding entry_allows allowed
entry_allows-allowed access pte = refl

entry_allows-Allows : (access pte : ℕ) → (entry_allows access pte ≡ true) ↔ Allows access pte
entry_allows-Allows access pte =
    let e = entry_allows-allowed access pte in
    let p = bit_and pte 1 in
    let u = bit_and pte 4 in
    let w = bit_and pte 2 in
    (
      λ h.
          let r = allowed-true p u w (bit_and access 1) (bit_and access 2) (sym e ∙ h) in
          record { there = r.0; user = r.1; writable = r.2 },
      λ h. e ∙ true-allowed p u w (bit_and access 1) (bit_and access 2) h.there h.user h.writable,
    )

true-not-false : true ≡ false → ⊥
true-not-false e = ground (arith, e)

verify_pages-all :
    (k i t a access : ℕ) (f : Pages)
    → (verify_pages k i t a access f ≡ success) ↔ (
        (j : ℕ) → i ≤ j → j < i + k → Allows access (pt_walk_get_pte t (u64 (a + j * page_size)) f))
unfolding verify_pages
verify_pages-all zero i t a access f = (λ _ j l m. absurd (omega arith), λ _. refl)
verify_pages-all (suc k) i t a access f =
    let p = pt_walk_get_pte t (u64 (a + i * page_size)) f in
    let rest = verify_pages-all k (i + 1) t a access f in
    elim (Bool-cases (entry_allows access p)) [
      | inl y ↦ rw y (
        λ h j l m. elim (Nat-cases i j) [
          | inl later ↦ rest.0 h j (omega arith) (omega arith)
          | inr (inl now) ↦ rw (sym now) ((entry_allows-Allows access p).0 y)
          | inr (inr never) ↦ absurd (omega arith)
        ],
        λ h. rest.1 (λ j l m. h j (omega arith) (omega arith)),
      )
      | inr n ↦ rw n (
        λ h. absurd (ground (arith, h)),
        λ h. absurd (
            true-not-false
              (sym ((entry_allows-Allows access p).1 (h i (omega arith) (omega arith))) ∙ n)),
      )
    ]

-- An entry of a table that is there, and the address of the table that it points to.
pub record Leads (m : Pages) (table index next : ℕ) : Type 0 where
  pub some_table : table ≢ 0
  pub there : bit_and (m table index) 1 ≢ 0
  pub points : next ≡ bit_and (m table index) 0x000FFFFFFFFFF000

-- The entry `pte` that the four levels of tables below `pml4` hold for the address `v`: nine bits of
-- the address choose the entry of each level.
pub record Mapped (m : Pages) (pml4 v pte : ℕ) : Type 0 where
  pub pdpt : ℕ
  pub pd : ℕ
  pub pt : ℕ
  pub level4 : Leads m pml4 (v / 2 ^ 39 % 512) pdpt
  pub level3 : Leads m pdpt (v / 2 ^ 30 % 512) pd
  pub level2 : Leads m pd (v / 2 ^ 21 % 512) pt
  pub some_table : pt ≢ 0
  pub entry : pte ≡ m pt (v / 2 ^ 12 % 512)

follow-Leads : (t i : ℕ) (m : Pages) → follow t i m ≢ 0 → Leads m t i (follow t i m)
unfolding follow
follow-Leads t i m h = elim (Bool-cases (t == 0)) [
  | inl y ↦ absurd (h (rw y refl))
  | inr n ↦ elim (Bool-cases (bit_and (m t i) 1 == 0)) [
    | inl y ↦ absurd (h (rw (n, y) refl))
    | inr p ↦ record { some_table = ground arith; there = ground arith; points = rw (n, p) refl }
  ]
]

Leads-follow : (t i n : ℕ) (m : Pages) → Leads m t i n → follow t i m ≡ n
unfolding follow
Leads-follow t i n m h =
    let some_table : (t == 0) ≡ false = ground (arith, h.some_table) in
    let there : (bit_and (m t i) 1 == 0) ≡ false = ground (arith, h.there) in
    rw (some_table, there) (sym h.points)

-- What the walk of the source finds is what the tables hold.
walk-Mapped :
    (t v access : ℕ) (m : Pages)
    → Allows access (pt_walk_get_pte t v m) ↔ ((pte : ℕ) × Mapped m t v pte × Allows access pte)
unfolding pt_walk_get_pte
walk-Mapped t v access m =
    let pdpt = follow t (pml4_index v) m in
    let pd = follow pdpt (pdpt_index v) m in
    let pt = follow pd (pd_index v) m in
    (
      λ h. elim (Bool-cases (pt == 0)) [
        | inl y ↦ absurd (h.there (rw y refl))
        | inr n ↦
            let l2 = follow-Leads pd (pd_index v) m (ground (arith, n)) in
            let l3 = follow-Leads pdpt (pdpt_index v) m l2.some_table in
            let l4 = follow-Leads t (pml4_index v) m l3.some_table in
            (
              m pt (pt_index v),
              record {
                pdpt = pdpt;
                pd = pd;
                pt = pt;
                level4 = l4;
                level3 = l3;
                level2 = l2;
                some_table = ground (arith, n);
                entry = refl;
              },
              subst (λ x. Allows access x) (rw n refl) h,
            )
      ],
      λ (pte, w, h).
          let e4 : pdpt ≡ w.pdpt = Leads-follow t (pml4_index v) w.pdpt m w.level4 in
          let e3 : pd ≡ w.pd = rw e4 (Leads-follow w.pdpt (pdpt_index v) w.pd m w.level3) in
          let e2 : pt ≡ w.pt = rw e3 (Leads-follow w.pd (pd_index v) w.pt m w.level2) in
          let n : (w.pt == 0) ≡ false = ground (arith, w.some_table) in rw (e2, n, sym w.entry) h,
    )

-- `isolation_verify_access` of a range of at most 2 ^ 64 - 4096 bytes answers 0 exactly if the domain's
-- number is below the bound, it has page tables, and each of the addresses at every 4096 bytes of the
-- range, counted from its first address on and modulo 2 ^ 64, is mapped through the four levels of
-- the tables by an entry that allows the access.
pub verify_pages_iff :
    (d a n access : ℕ) (s : Paging)
    → n + page_size ≤ 2 ^ 64
    → (isolation_verify_access d a n access s ≡ success) ↔ (
        (d < max_domains)
        × ((s.tables d).pml4 ≢ 0)
        × ((j : ℕ)
            → j * 4096 < n
            → (pte : ℕ) × Mapped s.pages (s.tables d).pml4 ((a + j * 4096) % 2 ^ 64) pte
              × Allows access pte))
unfolding isolation_verify_access
verify_pages_iff d a n access s small =
    let t = (s.tables d).pml4 in
    let all = verify_pages-all (pages_of n) 0 t a access s.pages in
    let at = λ (j : ℕ). walk-Mapped t (u64 (a + j * page_size)) access s.pages in
    elim (Bool-cases (leb max_domains d || (t == 0))) [
      | inl y ↦ rw y (λ h. absurd (ground (arith, h)), λ h. absurd (ground (arith, y, h.0, h.1)))
      | inr q ↦ rw q (
        λ h. (
          ground (arith, q),
          λ e. absurd (ground (arith, q, e)),
          λ j l. (at j).0 (all.0 h j (omega arith) (omega arith)),
        ),
        λ h. all.1 (λ j l m. (at j).1 (h.2 j (omega arith))),
      )
    ]
