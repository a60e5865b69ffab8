-- ===== src/Core0/Text/Tests.antt =====
-- Runs of the comparisons of Core-0/lib/string.c, and the theorems at such inputs.
use hik.Prelude.{ℕ, ◌≡◌, refl, List, [], ◌∷◌, arith, minus_one}
use hik.Core0.Text.{IsString, strcmp}

below : strcmp (97 ∷ 98 ∷ []) (97 ∷ 99 ∷ []) ≡ minus_one
unfolding strcmp
below = refl

abbrev left : List ℕ
left = 97 ∷ 98 ∷ []

abbrev right : List ℕ
right = 97 ∷ 99 ∷ []

is_string : IsString left
unfolding IsString
is_string = (ground arith, ground arith, (ground arith, ground arith, tt))

is_other : IsString right
unfolding IsString
is_other = (ground arith, ground arith, (ground arith, ground arith, tt))
