-- ===== src/Core1/Text/Move.antt =====
-- What `memmove` of Core-1/lib/string.c leaves where.
use hik.Prelude.{
  ℕ, zero, suc, ◌+◌, ◌≤◌, ◌<◌, ◌≡◌, refl, sym, ◌∙◌, ◌⊎◌, inl, inr, ◌&&◌, ◌||◌, true, false, arith,
  ltb, ◌==◌, Bool-cases, update,
}
use hik.Core1.Isolation.Bulk.{memcpy-inside}
use hik.Core1.Text.{copy_back, memmove}

back-outside :
    (n dst src : ℕ) (m : ℕ → ℕ) (k : ℕ) → (k < dst) ⊎ (dst + n ≤ k) → copy_back n dst src m k ≡ m k
unfolding copy_back
back-outside zero dst src m k h = refl
back-outside (suc n) dst src m k h =
    ground (arith, back-outside n dst src (update m (dst + n) (m (src + n))) k)

-- A byte whose source is not written before it is read.
back-reads :
    (n dst src : ℕ) (m : ℕ → ℕ) (k : ℕ)
    → k < n
    → (src ≤ dst) ⊎ (dst + n ≤ src + k)
    → copy_back n dst src m (dst + k) ≡ m (src + k)
unfolding copy_back
back-reads zero dst src m k l h = absurd (omega arith)
back-reads (suc n) dst src m k l h =
    let f = update m (dst + n) (m (src + n)) in
    elim (Bool-cases (k == n)) [
      | inl last ↦
          let e : k ≡ n = ground arith in rw e (ground (arith, back-outside n dst src f (dst + n)))
      | inr before ↦ ground (arith, back-reads n dst src f k (ground arith) (ground arith))
    ]

-- A byte whose source is written before it is read.
back-smears :
    (n dst src : ℕ) (m : ℕ → ℕ) (k : ℕ)
    → dst < src
    → src + k < dst + n
    → copy_back n dst src m (dst + k) ≡ copy_back n dst src m (src + k)
unfolding copy_back
back-smears zero dst src m k lt l = absurd (omega arith)
back-smears (suc n) dst src m k lt l =
    let f = update m (dst + n) (m (src + n)) in
    elim (Bool-cases (src + k == dst + n)) [
      | inl top ↦
          let e : src + k ≡ dst + n = ground arith in
          back-reads n dst src f k (omega arith) (inr (omega arith))
          ∙ sym (back-outside n dst src f (src + k) (inr (omega arith)))
      | inr inner ↦ back-smears n dst src f k lt (ground arith)
    ]

move-null : (n dst src : ℕ) (m : ℕ → ℕ) → (dst ≡ 0) ⊎ (src ≡ 0) → memmove n dst src m ≡ m
unfolding memmove
move-null n dst src m h =
    let e : (dst == 0 || src == 0) ≡ true = elim h [
      | inl z ↦ ground arith
      | inr z ↦ ground arith
    ] in
    rw e refl

-- The direction that is taken where no pointer is null.
move-some :
    (n dst src : ℕ) (m : ℕ → ℕ) (k : ℕ)
    → 0 < dst
    → 0 < src
    → k < n
    → ((src < dst) ⊎ (dst + n ≤ src) → memmove n dst src m (dst + k) ≡ m (src + k))
      × (dst < src
          → src + k < dst + n
          → memmove n dst src m (dst + k) ≡ memmove n dst src m (src + k))
unfolding memmove
move-some n dst src m k to from l =
    let some : (dst == 0 || src == 0) ≡ false = ground arith in
    elim (Bool-cases (ltb dst src && ltb src (dst + n))) [
      | inl down ↦
          rw (memmove, some, down)
            (λ h. back-reads n dst src m k l (ground arith), λ a b. back-smears n dst src m k a b)
      | inr past ↦ elim (Bool-cases (ltb src dst && ltb dst (src + n))) [
        | inl up ↦
            rw (memmove, some, past, up)
              (λ h. back-reads n dst src m k l (inl (ground arith)), λ a b. absurd (ground arith))
        | inr apart ↦
            rw (memmove, some, past, apart)
              (λ h. memcpy-inside n dst src m k (ground arith) l, λ a b. absurd (ground arith))
      ]
    ]

-- With a null pointer `memmove` changes nothing. With two others it copies right where the destination
-- begins behind the start of the source, or the two ranges have no byte in common: byte `k` of the
-- destination is what byte `k` of the source was. Where the destination begins before the source and
-- runs into it, the copy goes the wrong way: each byte whose source lies in the destination gets what
-- that place holds after the call.
pub memmove_lem :
    (n dst src : ℕ) (m : ℕ → ℕ) (k : ℕ)
    → k < n
    → ((dst ≡ 0) ⊎ (src ≡ 0) → memmove n dst src m ≡ m)
      × (0 < dst
          → 0 < src
          → ((src < dst) ⊎ (dst + n ≤ src) → memmove n dst src m (dst + k) ≡ m (src + k))
            × (dst < src
                → src + k < dst + n
                → memmove n dst src m (dst + k) ≡ memmove n dst src m (src + k)))
memmove_lem n dst src m k l = (move-null n dst src m, λ to from. move-some n dst src m k to from l)
