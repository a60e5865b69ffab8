-- ===== src/Core0/Text.antt =====
-- Comparing strings in Core-0/lib/string.c. A string is the list of its bytes before the terminating
-- zero, and `char` is signed.
mod Tests
use hik.Prelude.{
  ℕ, zero, suc, ◌+◌, ◌-◌, ◌*◌, ◌/◌, ◌%◌, ◌^◌, ◌≤◌, ◌<◌, bit_and, bit_or, ◌≡◌, refl, sym, ap, ◌∙◌,
  ◌≢◌, ◌↔◌, ◌⊎◌, inl, inr, Bool, true, false, not, ◌&&◌, ◌||◌, Option, none, some, List, [], ◌∷◌,
  ◌++◌, arith, ltb, leb, ◌==◌, if◌then◌else◌, Bool-cases, Option-cases, Nat-cases, update, first,
  count, first-some, first-none, first-eq_some, first_found, first_unique, first-ext, Run, ok, hang,
  fault, Cmd, and_then, ◌>>=◌, ◌>>◌, pure, gets, modify, call, Returns, Returns-mono, within, u32,
  u64, dec32, dec64, sub64, ℤ, pos, negsuc, success, minus_one, minus_two, minus_three, is_success,
  length, length-append, values, erase, contains, length-values, values-ext, values-append,
  values-erase,
}
use mathlib.Core.Path.{ap₂}
use mathlib.Core.Bool.{false≢true}
use hik.Core0.Service.{same_name}

-- The byte that a pointer to the string reads.
abbrev pub first_char : List ℕ → ℕ
first_char [] = 0
first_char (x ∷ xs) = x

-- `*str1 - *str2` on signed bytes, each of them moved up by 128.
abbrev pub char_difference : ℕ → ℕ → ℤ
char_difference a b =
    let x = (a + 128) % 256 in
    let y = (b + 128) % 256 in if leb y x then pos (x - y) else negsuc (y - x - 1)

unfoldable pub strcmp : List ℕ → List ℕ → ℤ
strcmp [] ys = char_difference 0 (first_char ys)
strcmp (x ∷ xs) [] = char_difference x 0
strcmp (x ∷ xs) (y ∷ ys) = elim (x == y) [ true ↦ strcmp xs ys | false ↦ char_difference x y ]

-- What `strncmp` returns where its loop ends with `n` left.
abbrev pub strncmp_end : ℕ → List ℕ → List ℕ → ℤ
strncmp_end n xs ys = if n == 0 then success else char_difference (first_char xs) (first_char ys)

-- `while (n-- && ...)`: the loop that runs out of rounds ends with the largest word in `n`.
unfoldable pub strncmp : ℕ → List ℕ → List ℕ → ℤ
strncmp zero xs ys = strncmp_end (2 ^ 64 - 1) xs ys
strncmp (suc n) [] ys = strncmp_end n [] ys
strncmp (suc n) (x ∷ xs) [] = strncmp_end n (x ∷ xs) []
strncmp (suc n) (x ∷ xs) (y ∷ ys) = elim (x == y) [
  | true ↦ strncmp n xs ys
  | false ↦ strncmp_end n (x ∷ xs) (y ∷ ys)
]

-- Every byte of the string is a byte, and none is 0.
pub IsString : List ℕ → Type 0
IsString [] = Unit {0}
IsString (x ∷ xs) = (0 < x) × (x < 256) × IsString xs

is_success-pos : (n : ℕ) → is_success (pos n) ≡ (n == 0)
is_success-pos zero = refl
is_success-pos (suc n) = ground arith

is_success_iff : (r : ℤ) → (is_success r ≡ true) ↔ (r ≡ success)
is_success_iff (pos zero) = (λ h. refl, λ h. refl)
is_success_iff (pos (suc n)) = (λ h. absurd (false≢true h), λ h. ground arith)
is_success_iff (negsuc n) = (λ h. absurd (false≢true h), λ h. cc)

is_success-char_difference :
    (a b : ℕ) → a < 256 → b < 256 → is_success (char_difference a b) ≡ (a == b)
is_success-char_difference a b l m =
    let x = (a + 128) % 256 in
    let y = (b + 128) % 256 in
    elim (Bool-cases (leb y x)) [
      | inl ge ↦ rw ge (is_success-pos (x - y) ∙ ground arith)
      | inr lt ↦ rw lt (ground arith)
    ]

strcmp-same_name :
    (xs ys : List ℕ) → IsString xs → IsString ys → is_success (strcmp xs ys) ≡ same_name xs ys
unfolding strcmp same_name IsString
strcmp-same_name [] [] v w = refl
strcmp-same_name [] (y ∷ ys) v w =
    is_success-char_difference 0 y (omega arith) w.1 ∙ ground (arith, w.0)
strcmp-same_name (x ∷ xs) [] v w =
    is_success-char_difference x 0 v.1 (omega arith) ∙ ground (arith, v.0)
strcmp-same_name (x ∷ xs) (y ∷ ys) v w = elim (Bool-cases (x == y)) [
  | inl e ↦ rw (strcmp, e) (strcmp-same_name xs ys v.2 w.2)
  | inr e ↦ rw (strcmp, e) (is_success-char_difference x y v.1 w.1 ∙ e)
]

same_name_iff : (xs ys : List ℕ) → (same_name xs ys ≡ true) ↔ (xs ≡ ys)
unfolding same_name
same_name_iff [] [] = (λ h. refl, λ h. refl)
same_name_iff [] (y ∷ ys) = (λ h. absurd (false≢true h), λ h. cc)
same_name_iff (x ∷ xs) [] = (λ h. absurd (false≢true h), λ h. cc)
same_name_iff (x ∷ xs) (y ∷ ys) = (
  λ h. let e : x ≡ y = ground arith in ap₂ ◌∷◌ e ((same_name_iff xs ys).0 (ground arith)),
  λ h. let e : x ≡ y = cc in let f : xs ≡ ys = cc in ground (arith, e, (same_name_iff xs ys).1 f),
)

-- On strings, `strcmp` returns 0 exactly for equal ones, and it does so exactly where the test by
-- which a service is found by its name succeeds.
pub strcmp_lem :
    (xs ys : List ℕ)
    → IsString xs
    → IsString ys
    → ((strcmp xs ys ≡ success) ↔ (xs ≡ ys)) × (is_success (strcmp xs ys) ≡ same_name xs ys)
strcmp_lem xs ys v w =
    let s = strcmp-same_name xs ys v w in
    let a = is_success_iff (strcmp xs ys) in
    let b = same_name_iff xs ys in ((λ h. b.0 (sym s ∙ a.1 h), λ h. a.0 (s ∙ b.1 h)), s)

-- `strncmp` is off by one at its bound: two strings with the same `n` bytes at the front compare, for
-- the bound n, by the bytes behind those; and where these bytes differ, the strings still compare as
-- equal for the bound n + 1.
pub strncmp_off_by_one :
    (p xs ys : List ℕ)
    → (strncmp (length p) (p ++ xs) (p ++ ys) ≡ char_difference (first_char xs) (first_char ys))
      × (first_char xs ≢ first_char ys → strncmp (suc (length p)) (p ++ xs) (p ++ ys) ≡ success)
unfolding strncmp
strncmp_off_by_one [] [] [] = (refl, λ ne. absurd (ne refl))
strncmp_off_by_one [] [] (y ∷ ys) = (refl, λ ne. refl)
strncmp_off_by_one [] (x ∷ xs) [] = (refl, λ ne. refl)
strncmp_off_by_one [] (x ∷ xs) (y ∷ ys) = (refl, λ ne. ground arith)
strncmp_off_by_one (x ∷ p) xs ys = ground (arith, strncmp_off_by_one p xs ys)
