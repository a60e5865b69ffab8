-- ===== src/Core1/Ring/Index.antt =====
-- Indices of the ring of Core-1/ipc/ipc.c: `index & mask` for a capacity that is a power of 2.
use Prim.Native.Nat.{◌∣◌, digits, min, bit_and-bitwise}
use native.Mathlib.Nat.{
  add-mul-mod_self_right, div-add-mod', pow-suc, mod-lt, mod-eq_of_lt, mul_assoc, mod-mod_of_dvd,
  mod-add-mod, mod-eq-sub-mod, dvd-mul_right_of_dvd, dvd_refl,
}
use hik.Prelude.{
  ℕ, zero, suc, ◌+◌, ◌-◌, ◌*◌, ◌/◌, ◌%◌, ◌^◌, ◌≤◌, ◌<◌, bit_and, ◌≡◌, refl, sym, ap, ◌∙◌, inl, inr,
  arith, ltb, if◌then◌else◌, Bool-cases, u64,
}

-- The remainder by 2 m from the remainder of the half by m.
mod-double : (a m : ℕ) → 0 < m → a % (m * 2) ≡ a / 2 % m * 2 + a % 2
mod-double a m l =
    let h = a / 2 in
    let q = h / m in
    let r = h % m in
    let e : q * m + r ≡ h = div-add-mod' h m in
    let s : r < m = mod-lt h l in
    let split : r * 2 + a % 2 + q * (m * 2) ≡ a = omega (arith, e, mul_assoc q m 2) in
    let low : r * 2 + a % 2 < m * 2 = omega arith in
    ap (λ x. x % (m * 2)) (sym split)
    ∙ add-mul-mod_self_right (r * 2 + a % 2) q (m * 2)
    ∙ mod-eq_of_lt low

pub two-pow-pos : (k : ℕ) → 0 < 2 ^ k
two-pow-pos zero = omega arith
two-pow-pos (suc k) = omega (arith, pow-suc 2 k, two-pow-pos k)

mask_digits : (n a k : ℕ) → a ≤ n → digits (λ b. zero) min n a (2 ^ k - 1) ≡ a % 2 ^ k
mask_digits zero zero k l = sym (mod-eq_of_lt (two-pow-pos k))
mask_digits zero (suc a) k l = absurd (omega arith)
mask_digits (suc n) zero k l = sym (mod-eq_of_lt (two-pow-pos k))
mask_digits (suc n) (suc a) zero l = omega (arith, mask_digits n (suc a / 2) 0 (omega arith))
mask_digits (suc n) (suc a) (suc k) l =
    let p = two-pow-pos k in
    let e : (2 ^ k * 2 - 1) / 2 ≡ 2 ^ k - 1 = omega (arith, p) in
    let o : (2 ^ k * 2 - 1) % 2 ≡ 1 = omega (arith, p) in
    rw (pow-suc 2 k, e, o, mask_digits n (suc a / 2) k (omega arith), mod-double (suc a) (2 ^ k) p)
      (omega arith)

-- Masking with one less than a power of 2 is the remainder by it.
pub bit_and_mask : (a k : ℕ) → bit_and a (2 ^ k - 1) ≡ a % 2 ^ k
bit_and_mask a k = bit_and-bitwise a (2 ^ k - 1) ∙ mask_digits a a k (omega arith)

-- A place that is fewer than `c` steps behind another one.
pub mod_add :
    (a i c : ℕ) → i < c → (a + i) % c ≡ (if ltb (a % c + i) c then a % c + i else a % c + i - c)
mod_add a i c l =
    let s : a % c < c = mod-lt a (omega arith) in
    let e : (a + i) % c ≡ (a % c + i) % c = sym (mod-add-mod a c i) in
    elim (Bool-cases (ltb (a % c + i) c)) [
      | inl y ↦ rw (e, y) (mod-eq_of_lt (ground arith))
      | inr n ↦ rw (e, n) (mod-eq-sub-mod (ground arith) ∙ mod-eq_of_lt (ground arith))
    ]

pow-divides : (d k n : ℕ) → n ≡ d + k → 2 ^ k ∣ 2 ^ n
pow-divides zero k n h = let e : n ≡ k = omega arith in rw e (dvd_refl (2 ^ k))
pow-divides (suc d) k n h =
    let m = d + k in
    let e : n ≡ suc m = omega arith in
    rw (e, pow-suc 2 m) (dvd-mul_right_of_dvd (2 ^ k) (pow-divides d k m refl) 2)

-- Counting modulo 2 ^ 64 does not change the place.
pub mod-u64 : (a k : ℕ) → k ≤ 64 → u64 a % 2 ^ k ≡ a % 2 ^ k
mod-u64 a k l = mod-mod_of_dvd (2 ^ k) a (pow-divides (64 - k) k 64 (omega arith))
