-- ===== src/Blocks/Merge.antt =====
-- Freeing a block, and merging it with the free blocks beside it.

use hik.Prelude.{
  not, ◌||◌, ap, inr, inl, Bool-cases, refl, ℕ, ◌+◌, ◌^◌, ◌<◌, ◌≡◌, ◌∙◌, ◌≢◌, Bool, true, false,
  List, [], ◌∷◌, arith, ◌==◌, if◌then◌else◌, update, update_here, update_else, u64,
}
use hik.Blocks.{MemBlock, Blocks, set_prev, merge_next, merge_prev}
use hik.Blocks.Chain.{Block, block, span, header, link, Seg, Sized, Seg-frame}
use hik.Blocks.Place.{set_prev-Seg, set_prev-outside}

-- A block that takes in the one behind it.
abbrev pub fused : Block → Block → Block
fused q y = block (q.size + y.size) q.used

-- Two neighbours, merged if `free` says so.
abbrev pub meet : Bool → Block → Block → List Block → List Block
meet free q y ys = if free then fused q y ∷ ys else q ∷ y ∷ ys

-- A block and those behind it, after a merge with the next one if that is free.
abbrev pub absorb : Block → List Block → List Block
absorb b [] = b ∷ []
absorb b (n ∷ ns) = meet (n.used == 0) b n ns

-- The blocks before and those from the freed one on, after a merge with the last one before if that
-- is free.
abbrev pub rejoin : List Block → List Block → List Block
rejoin [] ys = ys
rejoin (q ∷ qs) [] = q ∷ qs
rejoin (q ∷ []) (y ∷ ys) = meet (q.used == 0) q y ys
rejoin (q ∷ q' ∷ qs) (y ∷ ys) = q ∷ rejoin (q' ∷ qs) (y ∷ ys)

-- The list of blocks after block `b` has been freed.
abbrev pub released : List Block → Block → List Block → List Block
released before b after = rejoin before (absorb (block b.size 0) after)

-- The block at `a` takes in the one behind it.
module _ (f : Blocks) (p a : ℕ) (q y : Block) (ys : List Block) (s : Seg f p a (q ∷ y ∷ ys) 0)
    (w : Sized (q ∷ y ∷ ys)) (start : 0 < a) (small : a + span (q ∷ y ∷ ys) < 2 ^ 64) where
  abbrev end : ℕ
  end = a + q.size + y.size

  abbrev fused_header : MemBlock
  fused_header = header (fused q y) p (link end ys 0)

  -- Memory after the two blocks have become one.
  pub fuse : Blocks
  fuse = set_prev (link end ys 0) a (update f a fused_header)

  pub fuse-else : (x : ℕ) → a ≢ x → end ≢ x → fuse x ≡ f x
  unfolding fuse
  fuse-else x m n =
      set_prev-outside (update f a fused_header) a end ys x n ∙ update_else f a fused_header x m

  pub fuse-Seg : Seg fuse p a (fused q y ∷ ys) 0
  unfolding fuse Seg Sized
  fuse-Seg =
      let e : a + (q.size + y.size) ≡ end = omega arith in
      rw e (
        set_prev-outside (update f a fused_header) a end ys a (λ r. absurd (omega (arith, w.0)))
            ∙ update_here f a fused_header,
        set_prev-Seg (update f a fused_header) (a + q.size) a end ys w.1.1 (omega arith) (
            Seg-frame f (update f a fused_header) (a + q.size) end ys 0 w.1.1
              (λ x l n. update_else f a fused_header x (λ r. absurd (omega (arith, w.0)))) s.1.1),
      )

  fuse-next : (y.used == 0) ≡ true → (x : ℕ) → merge_next a f x ≡ fuse x
  unfolding merge_next fuse Seg Sized
  fuse-next free x =
      let e : u64 (q.size + y.size) ≡ q.size + y.size = omega arith in
      let n : ((a + q.size) == 0) ≡ false = ground arith in ground (arith, e, n, s.0, s.1.0)

  fuse-prev : (q.used == 0) ≡ true → (x : ℕ) → merge_prev (a + q.size) f x ≡ fuse x
  unfolding merge_prev fuse Seg Sized
  fuse-prev free x =
      let e : u64 (q.size + y.size) ≡ q.size + y.size = omega arith in ground (arith, e, s.0, s.1.0)

  fused-Sized : Sized (fused q y ∷ ys)
  unfolding Sized
  fused-Sized = (omega (arith, w.0), w.1.1)

pub Sized-absorb : (b : Block) (zs : List Block) → Sized (b ∷ zs) → Sized (absorb b zs)
unfolding Sized
Sized-absorb b [] w = w
Sized-absorb b (n ∷ ns) w = elim (Bool-cases (n.used == 0)) [
  | inl free ↦ rw free (omega (arith, w.0), w.1.1)
  | inr taken ↦ rw taken w
]

pub span-absorb : (b : Block) (zs : List Block) → span (absorb b zs) ≡ span (b ∷ zs)
span-absorb b [] = refl
span-absorb b (n ∷ ns) = ground arith

-- Where nothing is merged: no neighbour, or one in use.
pub next_stays :
    (f : Blocks) (a n : ℕ)
    → (f a).next ≡ n
    → (n == 0 || not ((f n).used == 0)) ≡ true
    → merge_next a f ≡ f
unfolding merge_next
next_stays f a n e h = ground (arith)

pub prev_stays :
    (f : Blocks) (a n : ℕ)
    → (f a).prev ≡ n
    → (n == 0 || not ((f n).used == 0)) ≡ true
    → merge_prev a f ≡ f
unfolding merge_prev
prev_stays f a n e h = ground (arith)

pub next_of : (f : Blocks) (a : ℕ) (b : Block) (p n : ℕ) → f a ≡ header b p n → (f a).next ≡ n
next_of f a b p n e = ap (λ (h : MemBlock). h.next) e

pub prev_of : (f : Blocks) (a : ℕ) (b : Block) (p n : ℕ) → f a ≡ header b p n → (f a).prev ≡ p
prev_of f a b p n e = ap (λ (h : MemBlock). h.prev) e

taken_at :
    (f : Blocks) (a : ℕ) (b : Block) (p n : ℕ)
    → f a ≡ header b p n
    → (b.used == 0) ≡ false
    → (a == 0 || not ((f a).used == 0)) ≡ true
taken_at f a b p n e taken = ground arith

-- The first step of the two.
pub merge_next-Seg :
    (f : Blocks) (p a : ℕ) (b : Block) (zs : List Block)
    → Seg f p a (b ∷ zs) 0
    → Sized (b ∷ zs)
    → 0 < a
    → a + span (b ∷ zs) < 2 ^ 64
    → Seg (merge_next a f) p a (absorb b zs) 0 × ((x : ℕ) → x < a → merge_next a f x ≡ f x)
unfolding Seg
merge_next-Seg f p a b [] s w start small =
    let e : merge_next a f ≡ f = next_stays f a 0 (next_of f a b p 0 s.0) refl in
    rw e (s, λ x l. refl)
merge_next-Seg f p a b (n ∷ ns) s w start small = elim (Bool-cases (n.used == 0)) [
  | inl free ↦
      let g = fuse f p a b n ns s w start small in
      let m = fuse-next f p a b n ns s w start small free in
      let v = fused-Sized f p a b n ns s w start small in
      rw free (
        Seg-frame g (merge_next a f) p a (fused b n ∷ ns) 0 v (λ x l k. m x)
            (fuse-Seg f p a b n ns s w start small),
        λ x l.
            m x
            ∙ fuse-else f p a b n ns s w start small x (λ r. absurd (omega arith))
                (λ r. absurd (omega arith)),
      )
  | inr taken ↦
      let c = a + b.size in
      let e : merge_next a f ≡ f =
        next_stays f a c (next_of f a b p c s.0)
          (taken_at f c n a (link (c + n.size) ns 0) s.1.0 taken) in
      rw (e, taken) (s, λ x l. refl)
]

-- The second one, where there is a block before.
pub merge_prev-Seg :
    (f : Blocks) (p a : ℕ) (q y : Block) (ys : List Block)
    → Seg f p a (q ∷ y ∷ ys) 0
    → Sized (q ∷ y ∷ ys)
    → 0 < a
    → a + span (q ∷ y ∷ ys) < 2 ^ 64
    → Seg (merge_prev (a + q.size) f) p a (meet (q.used == 0) q y ys) 0
      × ((x : ℕ) → x < a → merge_prev (a + q.size) f x ≡ f x)
unfolding Seg
merge_prev-Seg f p a q y ys s w start small = elim (Bool-cases (q.used == 0)) [
  | inl free ↦
      let g = fuse f p a q y ys s w start small in
      let m = fuse-prev f p a q y ys s w start small free in
      let v = fused-Sized f p a q y ys s w start small in
      rw free (
        Seg-frame g (merge_prev (a + q.size) f) p a (fused q y ∷ ys) 0 v (λ x l k. m x)
            (fuse-Seg f p a q y ys s w start small),
        λ x l.
            m x
            ∙ fuse-else f p a q y ys s w start small x (λ r. absurd (omega arith))
                (λ r. absurd (omega arith)),
      )
  | inr taken ↦
      let c = a + q.size in
      let e : merge_prev c f ≡ f =
        prev_stays f c a (prev_of f c y a (link (c + y.size) ys 0) s.1.0)
          (taken_at f a q p c s.0 taken) in
      rw (e, taken) (s, λ x l. refl)
]
