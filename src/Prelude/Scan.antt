-- ===== src/Prelude/Scan.antt =====
-- Fixed-size C arrays as functions of the index, and the loop by which the code searches them.
use Prim.Native.Nat.{ℕ, zero, suc, ◌+◌, ◌≤◌, ◌<◌}
use mathlib.Core.Path.{◌≡◌, refl, ◌∙◌, ap, fun_ext}
use mathlib.Core.Logic.{◌≢◌, inl, inr}
use mathlib.Core.Bool.{Bool, true, false}
use mathlib.Core.Option.{Option, none, some}
use native.Mathlib.Omega.{arith}
use hik.Prelude.Tests.{◌==◌, if◌then◌else◌, Bool-cases, Option-cases, Nat-cases}

-- `a[i] = v`
abbrev pub update {ℓ} : {A : Type ℓ} → (ℕ → A) → ℕ → A → ℕ → A
update f i v j = if i == j then v else f j

module _ {ℓ} {A : Type ℓ} (f : ℕ → A) (i : ℕ) (v : A) where
  pub update_here : update f i v i ≡ v
  update_here = ground arith

  pub update_else : (j : ℕ) → i ≢ j → update f i v j ≡ f j
  update_else j ne = ground arith

-- `for (i = start; i < start + rounds; i++) if (p(i)) break;`, `none` if the loop runs out.
first_from : ℕ → ℕ → (ℕ → Bool) → Option ℕ
first_from zero i p = none
first_from (suc n) i p = elim (p i) [ true ↦ some i | false ↦ first_from n (suc i) p ]

-- The first index below `n` that passes the test.
unfoldable pub first : ℕ → (ℕ → Bool) → Option ℕ
unfolding first_from
first n p = first_from n 0 p

-- How many indices below `n` pass.
unfoldable pub count : ℕ → (ℕ → Bool) → ℕ
count zero p = 0
count (suc n) p = let rest = count n p in if p n then suc rest else rest

abbrev IsFirst : ℕ → (ℕ → Bool) → ℕ → ℕ → Type 0
IsFirst n p i r = (i ≤ r) × (r < i + n) × (p r ≡ true) × ((k : ℕ) → i ≤ k → k < r → p k ≡ false)

first_from-some : (n i : ℕ) (p : ℕ → Bool) (r : ℕ) → first_from n i p ≡ some r → IsFirst n p i r
unfolding first_from
first_from-some zero i p r e = ground arith
first_from-some (suc n) i p r e = elim (Bool-cases (p i)) [
  | inl t ↦ (ground arith, ground arith, ground arith, λ k h₀ h₁. absurd (ground arith))
  | inr f ↦
      let ih = first_from-some n (suc i) p r (ground arith) in
      (
        omega arith,
        omega arith,
        ih.2,
        λ k h₀ h₁. elim (Bool-cases (i == k)) [
          | inl same ↦ let q : i ≡ k = ground arith in ground (arith, q, f)
          | inr other ↦ ih.3 k (ground arith) h₁
        ],
      )
]

first_from-none :
    (n i : ℕ) (p : ℕ → Bool) → first_from n i p ≡ none → (k : ℕ) → i ≤ k → k < i + n → p k ≡ false
unfolding first_from
first_from-none zero i p e k h₀ h₁ = absurd (omega arith)
first_from-none (suc n) i p e k h₀ h₁ = elim (Bool-cases (i == k)) [
  | inl same ↦ let q : i ≡ k = ground arith in ground (arith, q)
  | inr other ↦ first_from-none n (suc i) p (ground arith) k (ground arith) (omega arith)
]

pub first-some :
    (n : ℕ) (p : ℕ → Bool) (r : ℕ)
    → first n p ≡ some r
    → (r < n) × (p r ≡ true) × ((k : ℕ) → k < r → p k ≡ false)
unfolding first
first-some n p r e =
    let s = first_from-some n 0 p r e in (omega arith, s.2, λ k h. s.3 k (omega arith) h)

pub first-none : (n : ℕ) (p : ℕ → Bool) → first n p ≡ none → (k : ℕ) → k < n → p k ≡ false
unfolding first
first-none n p e k h = first_from-none n 0 p e k (omega arith) (omega arith)

pub first-eq_some :
    (n : ℕ) (p : ℕ → Bool) (r : ℕ)
    → r < n
    → p r ≡ true
    → ((k : ℕ) → k < r → p k ≡ false)
    → first n p ≡ some r
first-eq_some n p r h t below = elim (Option-cases (first n p)) [
  | inl e ↦ ground (arith, first-none n p e r h)
  | inr (a, e) ↦
      let s = first-some n p a e in
      elim (Nat-cases a r) [
        | inl lt ↦ ground (arith, below a lt, s.1)
        | inr (inl eq) ↦ e ∙ ap some eq
        | inr (inr gt) ↦ ground (arith, s.2 r gt)
      ]
]

-- Where some index passes, the search finds one.
pub first_found :
    (n : ℕ) (p : ℕ → Bool) (k : ℕ) → k < n → p k ≡ true → (r : ℕ) × (first n p ≡ some r)
first_found n p k h t = elim (Option-cases (first n p)) [
  | inl e ↦ absurd (ground (arith, first-none n p e k h))
  | inr r ↦ r
]

-- A search for the one index that can pass is a look at that index.
pub first_unique :
    (n : ℕ) (p : ℕ → Bool) (i : ℕ)
    → i < n
    → ((k : ℕ) → p k ≡ true → k ≡ i)
    → first n p ≡ (if p i then some i else none)
first_unique n p i h only = elim (Option-cases (first n p)) [
  | inl e ↦ ground (arith, first-none n p e i h)
  | inr (r, e) ↦ let s = first-some n p r e in let q = only r s.1 in ground (arith, s.1, q)
]

pub count-ext : (n : ℕ) (p q : ℕ → Bool) → ((k : ℕ) → k < n → p k ≡ q k) → count n p ≡ count n q
unfolding count
count-ext zero p q h = refl
count-ext (suc n) p q h =
    ground (arith, h n (omega arith), count-ext n p q (λ k l. h k (omega arith)))

-- One more index passes.
pub count_set :
    (n : ℕ) (p q : ℕ → Bool) (i : ℕ)
    → i < n
    → p i ≡ false
    → q i ≡ true
    → ((k : ℕ) → k ≢ i → p k ≡ q k)
    → count n q ≡ suc (count n p)
unfolding count
count_set zero p q i h off on same = absurd (omega arith)
count_set (suc n) p q i h off on same = elim (Bool-cases (i == n)) [
  | inl e ↦
      let r : i ≡ n = ground arith in
      ground (arith, r, count-ext n p q (λ k l. same k (omega arith)))
  | inr e ↦ ground (arith, same n (ground arith), count_set n p q i (ground arith) off on same)
]

pub count-le : (n : ℕ) (p : ℕ → Bool) → count n p ≤ n
unfolding count
count-le zero p = omega arith
count-le (suc n) p = ground (arith, count-le n p)

-- An index that passes is counted.
pub count-pos : (n : ℕ) (p : ℕ → Bool) (i : ℕ) → i < n → p i ≡ true → 0 < count n p
unfolding count
count-pos zero p i h t = absurd (omega arith)
count-pos (suc n) p i h t = elim (Bool-cases (i == n)) [
  | inl e ↦ let r : i ≡ n = ground arith in ground (arith, r)
  | inr e ↦ ground (arith, count-pos n p i (ground arith) t)
]

pub first-ext : (n : ℕ) (p q : ℕ → Bool) → ((k : ℕ) → p k ≡ q k) → first n p ≡ first n q
first-ext n p q h = ap (first n) (fun_ext h)
