-- ===== src/Prelude/Lists.antt =====
-- Lists measured and indexed by native numbers, and an array's entries as a list.
use Prim.Native.Nat.{ℕ, zero, suc, ◌+◌, ◌≤◌, ◌<◌}
use mathlib.Core.Path.{◌≡◌, refl, ap₂}
use mathlib.Core.Logic.{inr, inl, ◌≢◌}
use mathlib.Core.Bool.{Bool, true, false, ◌||◌}
use mathlib.Core.List.{List, [], ◌∷◌, ◌++◌}
use native.Mathlib.Omega.{arith}
use hik.Prelude.Tests.{◌==◌, if◌then◌else◌, Bool-cases}

abbrev pub length {ℓ} : {A : Type ℓ} → List A → ℕ
length [] = 0
length (x ∷ xs) = suc (length xs)

pub length-append {ℓ} : {A : Type ℓ} (xs ys : List A) → length (xs ++ ys) ≡ length xs + length ys
length-append [] ys = omega arith
length-append (x ∷ xs) ys = omega (arith, length-append xs ys)

-- The entries `f(i)`, ..., `f(i + n - 1)`.
abbrev pub values {ℓ} : {A : Type ℓ} → (ℕ → A) → ℕ → ℕ → List A
values f i zero = []
values f i (suc n) = f i ∷ values f (suc i) n

-- The list without the first copy of a number.
unfoldable pub erase : ℕ → List ℕ → List ℕ
erase a [] = []
erase a (x ∷ xs) = if x == a then xs else x ∷ erase a xs

unfoldable pub contains : ℕ → List ℕ → Bool
contains a [] = false
contains a (x ∷ xs) = x == a || contains a xs

pub erase_absent : (a : ℕ) (xs : List ℕ) → contains a xs ≡ false → erase a xs ≡ xs
unfolding erase contains
erase_absent a [] h = refl
erase_absent a (x ∷ xs) h = ground (arith, erase_absent a xs)

module _ {ℓ} {A : Type ℓ} where
  pub length-values : (f : ℕ → A) (i n : ℕ) → length (values f i n) ≡ n
  length-values f i zero = refl
  length-values f i (suc n) = omega (arith, length-values f (suc i) n)

  pub values-ext :
      (f g : ℕ → A) (i j n : ℕ)
      → ((k : ℕ) → k < n → f (i + k) ≡ g (j + k))
      → values f i n ≡ values g j n
  values-ext f g i j zero h = refl
  values-ext f g i j (suc n) h =
      ap₂ ◌∷◌ (ground (arith, h 0))
        (values-ext f g (suc i) (suc j) n (λ k l. ground (arith, h (suc k))))

  -- One more entry at the end.
  pub values-append :
      (f g : ℕ → A) (i n : ℕ) (a : A)
      → ((k : ℕ) → k < i + n → g k ≡ f k)
      → g (i + n) ≡ a
      → values g i (suc n) ≡ values f i n ++ (a ∷ [])
  values-append f g i zero a same last = ap₂ ◌∷◌ (ground arith) refl
  values-append f g i (suc n) a same last =
      ap₂ ◌∷◌ (same i (omega arith))
        (values-append f g (suc i) n a (λ k l. same k (omega arith)) (ground arith))

-- No entry is the number exactly when the list does not contain it.
pub contains-values :
    (f : ℕ → ℕ) (i n a : ℕ)
    → ((k : ℕ) → i ≤ k → k < i + n → f k ≢ a)
    → contains a (values f i n) ≡ false
unfolding contains
contains-values f i zero a h = refl
contains-values f i (suc n) a h = ground (
  arith,
  h i (omega arith) (omega arith),
  contains-values f (suc i) n a (λ k l m. h k (omega arith) (omega arith)),
)

pub contains-values_at :
    (f : ℕ → ℕ) (i n a j : ℕ) → i ≤ j → j < i + n → f j ≡ a → contains a (values f i n) ≡ true
unfolding contains
contains-values_at f i zero a j l m e = absurd (omega arith)
contains-values_at f i (suc n) a j l m e = elim (Bool-cases (i == j)) [
  | inl same ↦ let q : i ≡ j = ground arith in ground (arith, q)
  | inr other ↦ ground (arith, contains-values_at f (suc i) n a j (ground arith) (omega arith) e)
]

-- Closing the gap at the first copy erases it.
pub values-erase :
    (f g : ℕ → ℕ) (i n a j : ℕ)
    → i ≤ j
    → j ≤ i + n
    → f j ≡ a
    → ((k : ℕ) → i ≤ k → k < j → f k ≢ a)
    → ((k : ℕ) → k < j → g k ≡ f k)
    → ((k : ℕ) → j ≤ k → k < i + n → g k ≡ f (suc k))
    → values g i n ≡ erase a (values f i (suc n))
unfolding erase
values-erase f g i zero a j l m e before front back =
    let q : i ≡ j = omega arith in ground (arith, q)
values-erase f g i (suc n) a j l m e before front back = elim (Bool-cases (i == j)) [
  | inl same ↦
      let q : i ≡ j = ground arith in
      let hit : (f i == a) ≡ true = ground (arith, q) in
      rw hit (values-ext g f i (suc i) (suc n) (λ k p. ground (arith, back (i + k))))
  | inr other ↦
      let miss : (f i == a) ≡ false = ground (arith, before i (omega arith) (ground arith)) in
      rw miss (
        ap₂ ◌∷◌ (front i (ground arith)) (
          values-erase f g (suc i) n a j (ground arith) (omega arith) e
            (λ k p q. before k (omega arith) q) front (λ k p q. back k p (omega arith))))
]
