-- ===== src/Core1/Ring/Copies.antt =====
-- What the copies of `ipc_ring_write` and `ipc_ring_read` (Core-1/ipc/ipc.c) put where.
use hik.Prelude.{
  sym, ◌∙◌, ℕ, zero, suc, ◌+◌, ◌-◌, ◌≤◌, ◌<◌, ◌≡◌, refl, ap, inl, inr, ◌&&◌, List, [], ◌∷◌, ◌++◌,
  arith, ltb, leb, if◌then◌else◌, Bool-cases, Nat-cases, update, length, values,
}
use hik.Core1.Ring.{copy_in, take, drop}

-- Byte `i` of the source.
pub entry : List ℕ → ℕ → ℕ
entry [] i = 0
entry (x ∷ xs) zero = x
entry (x ∷ xs) (suc i) = entry xs i

pub values-entry :
    (f : ℕ → ℕ) (i : ℕ) (xs : List ℕ)
    → ((j : ℕ) → j < length xs → f (i + j) ≡ entry xs j)
    → values f i (length xs) ≡ xs
unfolding entry
values-entry f i [] h = refl
values-entry f i (x ∷ xs) h =
    let e : f i ≡ x = ground (arith, h 0 (omega arith)) in
    rw (e, values-entry f (suc i) xs (λ j l. ground (arith, h (suc j) (omega arith))))

pub copy_in-at :
    (p : ℕ) (xs : List ℕ) (f : ℕ → ℕ) (q : ℕ)
    → copy_in p xs f q ≡ (if leb p q && ltb q (p + length xs) then entry xs (q - p) else f q)
unfolding copy_in entry
copy_in-at p [] f q = ground arith
copy_in-at p (x ∷ xs) f q =
    let ih = copy_in-at (suc p) xs (update f p x) q in
    elim (Nat-cases p q) [
      | inl lt ↦ let e : q - p ≡ suc (q - suc p) = omega arith in rw e (ground (arith, ih))
      | inr (inl eq) ↦ let e : q - p ≡ 0 = omega arith in rw e (ground (arith, ih))
      | inr (inr gt) ↦ ground (arith, ih)
    ]

pub entry-take : (n : ℕ) (xs : List ℕ) (i : ℕ) → i < n → entry (take n xs) i ≡ entry xs i
unfolding entry
entry-take zero xs i l = absurd (omega arith)
entry-take (suc n) [] i l = refl
entry-take (suc n) (x ∷ xs) zero l = refl
entry-take (suc n) (x ∷ xs) (suc i) l = entry-take n xs i (omega arith)

pub entry-drop : (n : ℕ) (xs : List ℕ) (i : ℕ) → entry (drop n xs) i ≡ entry xs (n + i)
unfolding entry
entry-drop zero xs i = ground arith
entry-drop (suc n) [] i = refl
entry-drop (suc n) (x ∷ xs) i = ground (arith, entry-drop n xs i)

pub length-take : (n : ℕ) (xs : List ℕ) → n ≤ length xs → length (take n xs) ≡ n
length-take zero xs l = refl
length-take (suc n) [] l = omega arith
length-take (suc n) (x ∷ xs) l = omega (arith, length-take n xs (omega arith))

pub length-drop : (n : ℕ) (xs : List ℕ) → length (drop n xs) ≡ length xs - n
length-drop zero xs = omega arith
length-drop (suc n) [] = omega arith
length-drop (suc n) (x ∷ xs) = omega (arith, length-drop n xs)

-- The place `j` steps after `p` on a ring of `c` places.
abbrev pub wrap : ℕ → ℕ → ℕ → ℕ
wrap c p j = if ltb (p + j) c then p + j else p + j - c

-- The two copies of `ipc_ring_write`.
abbrev pub put : ℕ → ℕ → List ℕ → (ℕ → ℕ) → ℕ → ℕ
put c p src f =
    if leb (length src) (c - p)
    then copy_in p src f
    else copy_in 0 (drop (c - p) src) (copy_in p (take (c - p) src) f)

pub put-at :
    (c p : ℕ) (src : List ℕ) (f : ℕ → ℕ) (j : ℕ)
    → p < c
    → length src ≤ c
    → j < c
    → put c p src f (wrap c p j) ≡ (if ltb j (length src) then entry src j else f (wrap c p j))
put-at c p src f j l fits m =
    let n = c - p in
    let q = wrap c p j in
    elim (Bool-cases (leb (length src) n)) [
      | inl one ↦ rw one (ground (arith, copy_in-at p src f q))
      | inr two ↦
          let g = copy_in p (take n src) f in
          let a = length-take n src (ground arith) in
          let b = length-drop n src in
          elim (Bool-cases (ltb (p + j) c)) [
            | inl y ↦
                let e : p + j - p ≡ j = omega arith in
                rw (two, y)
                  (ground (
                    arith,
                    e,
                    copy_in-at 0 (drop n src) g (p + j),
                    copy_in-at p (take n src) f (p + j),
                    entry-take n src j (ground arith),
                  ))
            | inr o ↦
                let k = p + j - c in
                let e : n + k ≡ j = ground arith in
                let z : k - 0 ≡ k = omega arith in
                rw (two, o)
                  (ground (
                    arith,
                    e,
                    z,
                    copy_in-at 0 (drop n src) g k,
                    copy_in-at p (take n src) f k,
                    entry-drop n src k,
                  ))
          ]
    ]

pub values-split : (f : ℕ → ℕ) (i a b : ℕ) → values f i (a + b) ≡ values f i a ++ values f (i + a) b
values-split f i zero b = ground arith
values-split f i (suc a) b =
    let e : suc a + b ≡ suc (a + b) = omega arith in
    let d : i + suc a ≡ suc i + a = omega arith in
    rw (e, d) (ap (λ l. f i ∷ l) (values-split f (suc i) a b))

pub put-at_place :
    (c p : ℕ) (src : List ℕ) (f : ℕ → ℕ) (j q : ℕ)
    → p < c
    → length src ≤ c
    → j < c
    → q ≡ wrap c p j
    → put c p src f q ≡ (if ltb j (length src) then entry src j else f q)
put-at_place c p src f j q l fits m e =
    ap (put c p src f) e
    ∙ put-at c p src f j l fits m
    ∙ ap (λ x. if ltb j (length src) then entry src j else f x) (sym e)

pub take-values : (f : ℕ → ℕ) (i n m : ℕ) → n ≤ m → take n (values f i m) ≡ values f i n
take-values f i zero m l = refl
take-values f i (suc n) zero l = absurd (omega arith)
take-values f i (suc n) (suc m) l = ap (λ t. f i ∷ t) (take-values f (suc i) n m (omega arith))

pub drop-values : (f : ℕ → ℕ) (i n m : ℕ) → n ≤ m → drop n (values f i m) ≡ values f (i + n) (m - n)
drop-values f i zero m l = ground arith
drop-values f i (suc n) zero l = absurd (omega arith)
drop-values f i (suc n) (suc m) l =
    let e : i + suc n ≡ suc i + n = omega arith in
    let d : suc m - suc n ≡ m - n = omega arith in
    rw (e, d) (drop-values f (suc i) n m (omega arith))
