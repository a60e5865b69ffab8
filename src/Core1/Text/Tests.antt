-- ===== src/Core1/Text/Tests.antt =====
-- Runs of Core-1/lib/string.c, and the theorems at such inputs.
use hik.Prelude.{ℕ, ◌+◌, ◌≤◌, ◌<◌, ◌≡◌, refl, ◌⊎◌, some, [], ◌∷◌, arith, values}
use hik.Core1.Text.{begins, copy_back, memmove, search, strstr}
use hik.Core1.Text.Move.{memmove_lem}

found : strstr (97 ∷ 97 ∷ 98 ∷ []) (97 ∷ 98 ∷ []) ≡ some 1
unfolding strstr search begins
found = refl

-- Three bytes moved down by one place: the last one is everywhere.
smeared : values (memmove 3 10 11 (λ i. i)) 10 3 ≡ 13 ∷ 13 ∷ 13 ∷ []
unfolding memmove copy_back
smeared = refl

memmove_lem_example :
    (◌≡◌ {A = ℕ} 10 0 ⊎ ◌≡◌ {A = ℕ} 11 0 → memmove 3 10 11 (λ i. i) ≡ (λ i. i))
    × (0 < 10
        → 0 < 11
        → ((11 < 10) ⊎ (10 + 3 ≤ 11) → memmove 3 10 11 (λ i. i) (10 + 1) ≡ 11 + 1)
          × (10 < 11
              → 11 + 1 < 10 + 3
              → memmove 3 10 11 (λ i. i) (10 + 1) ≡ memmove 3 10 11 (λ i. i) (11 + 1)))
memmove_lem_example = memmove_lem 3 10 11 (λ i. i) 1 (ground arith)
