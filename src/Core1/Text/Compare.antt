-- ===== src/Core1/Text/Compare.antt =====
-- `strncmp` and `strstr` of Core-1/lib/string.c against independent descriptions.
use hik.Prelude.{ℕ, zero, suc, ◌≡◌, refl, List, [], ◌∷◌, arith}
use hik.Core1.Text.{strcmp, strncmp}
use hik.Core1.Ring.{take}

-- `strncmp` with the bound `n` compares the first n bytes of each string as `strcmp` does.
pub strncmp_lem : (n : ℕ) (xs ys : List ℕ) → strncmp n xs ys ≡ strcmp (take n xs) (take n ys)
unfolding strncmp strcmp
strncmp_lem zero xs ys = refl
strncmp_lem (suc n) [] [] = refl
strncmp_lem (suc n) [] (y ∷ ys) = refl
strncmp_lem (suc n) (x ∷ xs) [] = refl
strncmp_lem (suc n) (x ∷ xs) (y ∷ ys) = ground (arith, strncmp_lem n xs ys)
