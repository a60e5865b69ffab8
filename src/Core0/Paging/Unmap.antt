-- ===== src/Core0/Paging/Unmap.antt =====
-- `isolation_unmap_memory` and what a walk finds after it, of Core-0/isolation/isolation.c.
use hik.Prelude.{
  ℕ, zero, suc, ◌+◌, ◌*◌, ◌≤◌, ◌<◌, ◌≡◌, refl, sym, ap, ◌∙◌, ◌⊎◌, inl, inr, false, not, ◌&&◌, ◌||◌,
  arith, ltb, leb, ◌==◌, Bool-cases, Nat-cases, u64, success, minus_one,
}
use hik.Core0.Mm.{page_size, pages_of}
use hik.Core0.Capability.{max_domains}
use hik.Core0.Paging.{
  Pages, Paging, pt_set_entry, follow, walk, pt_walk_get_pte, pt_index, pml4_index, pdpt_index,
  pd_index, unmap_page, unmap_pages, isolation_unmap_memory, entry_allows, verify_pages,
  isolation_verify_access,
}

-- Each entry of `g` is that of `f`, or 0.
pub Zeroed : Pages → Pages → Type 0
Zeroed f g = (a i : ℕ) → (g a i ≡ f a i) ⊎ (g a i ≡ 0)

Zeroed-refl : (f : Pages) → Zeroed f f
unfolding Zeroed
Zeroed-refl f a i = inl refl

Zeroed-trans : (f g h : Pages) → Zeroed f g → Zeroed g h → Zeroed f h
unfolding Zeroed
Zeroed-trans f g h p q a i = elim (q a i) [
  | inr z ↦ inr z
  | inl e ↦ elim (p a i) [ inl d ↦ inl (e ∙ d) | inr z ↦ inr (e ∙ z) ]
]

-- A level of the walk leads where it led, or nowhere.
follow-Zeroed :
    (f g : Pages) (t i : ℕ) → Zeroed f g → (follow t i g ≡ follow t i f) ⊎ (follow t i g ≡ 0)
unfolding follow Zeroed
follow-Zeroed f g t i z = elim (z t i) [
  | inl e ↦ inl (rw e refl)
  | inr e ↦ inr (rw e (ground arith))
]

follow-null : (i : ℕ) (f : Pages) → follow 0 i f ≡ 0
unfolding follow
follow-null i f = refl

follow-from :
    (f g : Pages) (t u i : ℕ)
    → Zeroed f g
    → (u ≡ t) ⊎ (u ≡ 0)
    → (follow u i g ≡ follow t i f) ⊎ (follow u i g ≡ 0)
follow-from f g t u i z h = elim h [
  | inl e ↦ rw e (follow-Zeroed f g t i z)
  | inr e ↦ inr (rw e (follow-null i g))
]

walk-Zeroed : (f g : Pages) (t v : ℕ) → Zeroed f g → (walk t v g ≡ walk t v f) ⊎ (walk t v g ≡ 0)
walk-Zeroed f g t v z =
    follow-from f g (follow (follow t (pml4_index v) f) (pdpt_index v) f)
      (follow (follow t (pml4_index v) g) (pdpt_index v) g) (pd_index v) z
      (follow-from f g (follow t (pml4_index v) f) (follow t (pml4_index v) g) (pdpt_index v) z
        (follow-from f g t t (pml4_index v) z (inl refl)))

pte-null : (t v : ℕ) (f : Pages) → walk t v f ≡ 0 → pt_walk_get_pte t v f ≡ 0
unfolding pt_walk_get_pte
pte-null t v f e = ground arith

pte-entry : (t v : ℕ) (f : Pages) → f (walk t v f) (pt_index v) ≡ 0 → pt_walk_get_pte t v f ≡ 0
unfolding pt_walk_get_pte
pte-entry t v f e = ground arith

pte-zero :
    (t v : ℕ) (f : Pages)
    → pt_walk_get_pte t v f ≡ 0
    → (walk t v f ≡ 0) ⊎ (f (walk t v f) (pt_index v) ≡ 0)
unfolding pt_walk_get_pte
pte-zero t v f h = elim (Bool-cases (walk t v f == 0)) [
  | inl y ↦ inl (ground arith)
  | inr n ↦ inr (ground (arith, n, h))
]

entry-Zeroed : (f g : Pages) (a i : ℕ) → Zeroed f g → f a i ≡ 0 → g a i ≡ 0
unfolding Zeroed
entry-Zeroed f g a i z e = elim (z a i) [ inl d ↦ d ∙ e | inr d ↦ d ]

-- A page that is not mapped stays so.
pte-Zeroed :
    (f g : Pages) (t v : ℕ) → Zeroed f g → pt_walk_get_pte t v f ≡ 0 → pt_walk_get_pte t v g ≡ 0
pte-Zeroed f g t v z h = elim (walk-Zeroed f g t v z) [
  | inr n ↦ pte-null t v g n
  | inl e ↦ elim (pte-zero t v f h) [
    | inl n ↦ pte-null t v g (e ∙ n)
    | inr n ↦ pte-entry t v g (ap (λ w. g w (pt_index v)) e ∙ entry-Zeroed f g _ _ z n)
  ]
]

set-zero-Zeroed : (f : Pages) (t i : ℕ) → Zeroed f (pt_set_entry t i 0 f)
unfolding Zeroed pt_set_entry
set-zero-Zeroed f t i a j = elim (Bool-cases (t == a)) [
  | inl y ↦ elim (Bool-cases (i == j)) [
    | inl x ↦ elim (Bool-cases (not (t == 0) && ltb i 512)) [
      | inl d ↦ inr (rw (d, y, x) refl)
      | inr d ↦ inl (rw d refl)
    ]
    | inr x ↦ inl (ground arith)
  ]
  | inr n ↦ inl (ground arith)
]

unmap_page-Zeroed : (t v : ℕ) (f : Pages) → Zeroed f (unmap_page t v f)
unfolding unmap_page
unmap_page-Zeroed t v f = elim (Bool-cases (walk t v f == 0)) [
  | inl y ↦ rw y (Zeroed-refl f)
  | inr n ↦ rw n (set-zero-Zeroed f (walk t v f) (pt_index v))
]

set-zero-there : (f : Pages) (t i : ℕ) → (t == 0) ≡ false → i < 512 → pt_set_entry t i 0 f t i ≡ 0
unfolding pt_set_entry
set-zero-there f t i n l = ground arith

-- The page is not mapped afterwards.
unmap_page-gone : (t v : ℕ) (f : Pages) → pt_walk_get_pte t v (unmap_page t v f) ≡ 0
unfolding unmap_page
unmap_page-gone t v f = elim (Bool-cases (walk t v f == 0)) [
  | inl y ↦ rw y (pte-null t v f (ground arith))
  | inr n ↦
      let g = pt_set_entry (walk t v f) (pt_index v) 0 f in
      let there = set-zero-there f (walk t v f) (pt_index v) n (omega arith) in
      rw n (elim (walk-Zeroed f g t v (set-zero-Zeroed f (walk t v f) (pt_index v))) [
        | inr z ↦ pte-null t v g z
        | inl e ↦ pte-entry t v g (ap (λ w. g w (pt_index v)) e ∙ there)
      ])
]

unmap_pages-Zeroed : (k i t v : ℕ) (f : Pages) → Zeroed f (unmap_pages k i t v f)
unfolding unmap_pages
unmap_pages-Zeroed zero i t v f = Zeroed-refl f
unmap_pages-Zeroed (suc k) i t v f =
    let g = unmap_page t (u64 (v + i * page_size)) f in
    Zeroed-trans f g (unmap_pages k (i + 1) t v g) (unmap_page-Zeroed t (u64 (v + i * page_size)) f)
      (unmap_pages-Zeroed k (i + 1) t v g)

unmap_pages-gone :
    (k i j t v : ℕ) (f : Pages)
    → i ≤ j
    → j < i + k
    → pt_walk_get_pte t (u64 (v + j * page_size)) (unmap_pages k i t v f) ≡ 0
unfolding unmap_pages
unmap_pages-gone zero i j t v f l m = absurd (omega arith)
unmap_pages-gone (suc k) i j t v f l m =
    let g = unmap_page t (u64 (v + i * page_size)) f in
    elim (Nat-cases i j) [
      | inl later ↦ unmap_pages-gone k (i + 1) j t v g (omega arith) (omega arith)
      | inr (inl now) ↦
          pte-Zeroed g (unmap_pages k (i + 1) t v g) t (u64 (v + j * page_size))
            (unmap_pages-Zeroed k (i + 1) t v g)
            (rw (sym now) (unmap_page-gone t (u64 (v + i * page_size)) f))
      | inr (inr never) ↦ absurd (omega arith)
    ]

entry-denied : (access : ℕ) → entry_allows access 0 ≡ false
unfolding entry_allows
entry-denied access = refl

verify_pages-first :
    (k t v access : ℕ) (f : Pages)
    → 0 < k
    → pt_walk_get_pte t (u64 (v + 0 * page_size)) f ≡ 0
    → verify_pages k 0 t v access f ≡ minus_one
unfolding verify_pages
verify_pages-first zero t v access f l e = absurd (omega arith)
verify_pages-first (suc k) t v access f l e = rw (e, entry-denied access) refl

-- The check fails at its first page.
verify-first :
    (d v n access : ℕ) (s : Paging)
    → 0 < pages_of n
    → pt_walk_get_pte (s.tables d).pml4 (u64 (v + 0 * page_size)) s.pages ≡ 0
    → isolation_verify_access d v n access s ≡ minus_one
unfolding isolation_verify_access
verify-first d v n access s l e =
    elim (Bool-cases (leb max_domains d || ((s.tables d).pml4 == 0))) [
      | inl y ↦ rw y refl
      | inr n' ↦ rw n' (verify_pages-first (pages_of n) (s.tables d).pml4 v access s.pages l e)
    ]

-- After `isolation_unmap_memory` has answered 0, whatever the page tables hold and however they
-- share their pages, `isolation_verify_access` of the domain denies every access of at least one page
-- that begins at a page of the range, both counted as the code counts pages: 4095 more than the size,
-- modulo 2 ^ 64, divided by 4096.
pub unmap-verify_denied :
    (d v size : ℕ) (s : Paging) (j n access : ℕ)
    → (isolation_unmap_memory d v size s).0 ≡ success
    → j < pages_of size
    → 0 < pages_of n
    → isolation_verify_access d
        (u64 (v + j * page_size))
        n
        access
        (isolation_unmap_memory d v size s).1
      ≡ minus_one
unfolding isolation_unmap_memory
unmap-verify_denied d v size s j n access h l m =
    let t = (s.tables d).pml4 in
    elim (Bool-cases (leb max_domains d || (t == 0))) [
      | inl y ↦ absurd (ground (arith, y, h))
      | inr q ↦
          let e : u64 (u64 (v + j * page_size) + 0 * page_size) ≡ u64 (v + j * page_size) =
            omega arith in
          rw q (
            verify-first d (u64 (v + j * page_size)) n access
              (record s { pages = unmap_pages (pages_of size) 0 t v s.pages }) m
              (rw e (unmap_pages-gone (pages_of size) 0 j t v s.pages (omega arith) (omega arith))))
    ]
