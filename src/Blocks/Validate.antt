-- ===== src/Blocks/Validate.antt =====
-- The integrity check accepts every list of blocks in order.
use hik.Prelude.{
  ℕ, zero, suc, ◌+◌, ◌^◌, ◌≤◌, ◌<◌, ◌≡◌, refl, ◌∙◌, Bool, true, false, not, ◌&&◌, some, List, [],
  ◌∷◌, arith, ltb, ◌==◌, u64, success, length,
}
use hik.Blocks.{Blocks, header_size, validate_walk}
use hik.Blocks.Chain.{Block, span, header, link, Seg, Sized}

-- `p != NULL && p's link is not x`
abbrev broken : (p back x : ℕ) → Bool
broken p back x = not (p == 0) && not (back == x)

-- One round of the loop in which no test fails.
round :
    (k base size x offset : ℕ) (f : Blocks)
    → (x == 0) ≡ false
    → (x == u64 (base + offset)) ≡ true
    → ltb (f x).size header_size ≡ false
    → ltb size (u64 (offset + (f x).size)) ≡ false
    → broken (f x).next (f (f x).next).prev x ≡ false
    → broken (f x).prev (f (f x).prev).next x ≡ false
    → validate_walk (suc k) base size x offset f
      ≡ validate_walk k base size (f x).next (u64 (offset + (f x).size)) f
unfolding validate_walk
round k base size x offset f z same short inside forth back =
    rw (validate_walk, z, same, short, inside, forth, back) refl

same_place :
    (x base offset : ℕ) → x ≡ base + offset → x < 2 ^ 64 → (x == u64 (base + offset)) ≡ true
same_place x base offset e l = let d : u64 (base + offset) ≡ x = omega arith in rw d (ground arith)

-- One round of the loop at a block whose neighbours point back to it.
step :
    (k base size x offset : ℕ) (f : Blocks) (b : Block) (p n : ℕ)
    → f x ≡ header b p n
    → header_size ≤ b.size
    → x ≡ base + offset
    → 0 < base
    → base + size < 2 ^ 64
    → offset + b.size ≤ size
    → broken n (f n).prev x ≡ false
    → broken p (f p).next x ≡ false
    → validate_walk (suc k) base size x offset f ≡ validate_walk k base size n (offset + b.size) f
step k base size x offset f b p n e sized here start top fits forth back =
    let c : u64 (offset + b.size) ≡ offset + b.size = omega arith in
    round k base size x offset f (ground arith) (same_place x base offset here (omega arith))
      (rw e (ground arith)) (rw (e, c) (ground arith)) (rw e forth) (rw e back)
    ∙ rw (e, c) refl

validate_walk-end :
    (k base size offset : ℕ) (f : Blocks)
    → validate_walk (suc k) base size 0 offset f ≡ some success
unfolding validate_walk
validate_walk-end k base size offset f = refl

pub validate_walk-ok :
    (k base size : ℕ) (f : Blocks) (p x offset : ℕ) (bs : List Block)
    → Seg f p x bs 0
    → Sized bs
    → length bs < k
    → x ≡ base + offset
    → offset + span bs ≡ size
    → base + size < 2 ^ 64
    → 0 < base
    → broken p (f p).next x ≡ false
    → validate_walk k base size (link x bs 0) offset f ≡ some success
unfolding Seg Sized
validate_walk-ok zero base size f p x offset bs s w m here total top start back =
    absurd (omega arith)
validate_walk-ok (suc k) base size f p x offset [] s w m here total top start back =
    validate_walk-end k base size offset f
validate_walk-ok (suc zero) base size f p x offset (b ∷ bs) s w m here total top start back =
    absurd (omega arith)
validate_walk-ok (suc (suc k)) base size f p x offset (b ∷ []) s w m here total top start back =
    step (suc k) base size x offset f b p 0 s.0 w.0 here start top (omega arith) refl back
    ∙ validate_walk-end k base size (offset + b.size) f
validate_walk-ok (suc (suc k)) base size f p x offset (b ∷ c ∷ cs) s w m here total top start back =
    step (suc k) base size x offset f b p (x + b.size) s.0 w.0 here start top (omega arith)
      (rw s.1.0 (ground arith)) back
    ∙ validate_walk-ok (suc k) base size f x (x + b.size) (offset + b.size) (c ∷ cs) s.1 w.1
        (omega arith) (omega arith) (omega arith) top start (rw s.0 (ground arith))
