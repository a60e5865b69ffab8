-- ===== src/Core1/Text.antt =====
-- Core-1/lib/string.c: strings as the lists of their bytes before the terminating zero, places in a
-- string as indices, and memory as a byte for each address. Null pointers are
-- modelled in `memmove` only, whose last branch is the loop of `memcpy`.
pub mod Compare
pub mod Move
mod Tests
use hik.Prelude.{
  ℕ, zero, suc, ◌+◌, ◌-◌, ◌*◌, ◌/◌, ◌%◌, ◌^◌, ◌≤◌, ◌<◌, bit_and, bit_or, ◌≡◌, refl, sym, ap, ◌∙◌,
  ◌≢◌, ◌↔◌, ◌⊎◌, inl, inr, Bool, true, false, not, ◌&&◌, ◌||◌, Option, none, some, List, [], ◌∷◌,
  ◌++◌, arith, ltb, leb, ◌==◌, if◌then◌else◌, Bool-cases, Option-cases, Nat-cases, update, first,
  count, first-some, first-none, first-eq_some, first_found, first_unique, first-ext, Run, ok, hang,
  fault, Cmd, and_then, ◌>>=◌, ◌>>◌, pure, gets, modify, call, Returns, Returns-mono, within, u32,
  u64, dec32, dec64, sub64, ℤ, pos, negsuc, success, minus_one, minus_two, minus_three, is_success,
  length, length-append, values, erase, contains, length-values, values-ext, values-append,
  values-erase,
}
use hik.Core1.Isolation.Bulk.{memcpy, difference}

abbrev pub first_byte : List ℕ → ℕ
first_byte [] = 0
first_byte (x ∷ xs) = x

unfoldable pub strcmp : List ℕ → List ℕ → ℤ
strcmp [] ys = difference 0 (first_byte ys)
strcmp (x ∷ xs) [] = difference x 0
strcmp (x ∷ xs) (y ∷ ys) = elim (x == y) [ true ↦ strcmp xs ys | false ↦ difference x y ]

unfoldable pub strncmp : ℕ → List ℕ → List ℕ → ℤ
strncmp zero xs ys = success
strncmp (suc n) [] ys = difference 0 (first_byte ys)
strncmp (suc n) (x ∷ xs) [] = difference x 0
strncmp (suc n) (x ∷ xs) (y ∷ ys) = elim (x == y) [
  | true ↦ strncmp n xs ys
  | false ↦ difference x y
]

-- The `n` bytes that `strncpy` writes.
unfoldable pub strncpy : ℕ → List ℕ → List ℕ
strncpy zero src = []
strncpy (suc n) [] = 0 ∷ strncpy n []
strncpy (suc n) (x ∷ src) = x ∷ strncpy n src

-- The string at `dest` after `strncat`.
unfoldable pub strncat : ℕ → List ℕ → List ℕ → List ℕ
strncat zero dest src = dest
strncat (suc n) dest [] = dest
strncat (suc n) dest (x ∷ src) = strncat n (dest ++ (x ∷ [])) src

-- `strchr` from index `i` on; `c` is the byte after the cast to `char`.
unfoldable pub strchr : (c i : ℕ) → List ℕ → Option ℕ
strchr c i [] = none
strchr c i (x ∷ xs) = elim (x == c) [ true ↦ some i | false ↦ strchr c (suc i) xs ]

-- `strrchr` from index `i` on, with the variable `last`.
unfoldable pub strrchr : (c i : ℕ) → Option ℕ → List ℕ → Option ℕ
strrchr c i last [] = last
strrchr c i last (x ∷ xs) = strrchr c (suc i) (if x == c then some i else last) xs

-- The inner loop of `strstr`.
unfoldable pub begins : (needle haystack : List ℕ) → Bool
begins [] h = true
begins (y ∷ n) [] = false
begins (y ∷ n) (x ∷ h) = x == y && begins n h

-- The outer loop of `strstr`, for a needle that is not empty.
unfoldable pub search : (i : ℕ) (needle haystack : List ℕ) → Option ℕ
search i n [] = none
search i n (x ∷ h) = elim (begins n (x ∷ h)) [ true ↦ some i | false ↦ search (suc i) n h ]

unfoldable pub strstr : (haystack needle : List ℕ) → Option ℕ
strstr h [] = some 0
strstr h (y ∷ n) = search 0 (y ∷ n) h

-- The copy from the high end down.
unfoldable pub copy_back : (n dst src : ℕ) → (ℕ → ℕ) → ℕ → ℕ
copy_back zero dst src m = m
copy_back (suc n) dst src m = copy_back n dst src (update m (dst + n) (m (src + n)))

unfoldable pub memmove : (n dst src : ℕ) → (ℕ → ℕ) → ℕ → ℕ
memmove n dst src m =
    if dst == 0 || src == 0
    then m
    else if ltb dst src && ltb src (dst + n)
    then copy_back n dst src m
    else if ltb src dst && ltb dst (src + n)
    then copy_back n dst src m
    else memcpy n dst src m
