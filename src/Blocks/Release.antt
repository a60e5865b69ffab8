-- ===== src/Blocks/Release.antt =====
-- Freeing a block of a list of blocks.
use mathlib.Core.Path.{subst}
use mathlib.Core.List.{append_assoc}
use hik.Prelude.{
  ℕ, ◌+◌, ◌^◌, ◌<◌, ◌≡◌, refl, sym, ap, ◌∙◌, ◌⊎◌, inl, inr, List, [], ◌∷◌, ◌++◌, arith, ◌==◌,
  Bool-cases, update, update_here, update_else,
}
use hik.Blocks.{MemBlock, Blocks, merge_next, merge_prev, free_block}
use hik.Blocks.Chain.{
  Block, block, span, link, Seg, Sized, last_block, Seg-frame, Seg-split, Seg-join, Sized-append,
  span-append,
}
use hik.Blocks.Merge.{
  fused, meet, absorb, rejoin, released, Sized-absorb, span-absorb, prev_stays, prev_of,
  merge_next-Seg, merge_prev-Seg,
}

absorb-cons :
    (b : Block) (zs : List Block) → (y : Block) × (ys : List Block) × (absorb b zs ≡ y ∷ ys)
absorb-cons b [] = (b, [], refl)
absorb-cons b (n ∷ ns) = elim (Bool-cases (n.used == 0)) [
  | inl free ↦ (fused b n, ns, rw free)
  | inr taken ↦ (b, n ∷ ns, rw taken)
]

-- Marking the block as free.
module _ (f : Blocks) (p a : ℕ) (b : Block) (zs : List Block) (s : Seg f p a (b ∷ zs) 0)
    (w : Sized (b ∷ zs)) where
  pub unmarked : Blocks
  unmarked = update f a (record (f a) { used = 0 })

  pub unmarked-Seg : Seg unmarked p a (block b.size 0 ∷ zs) 0
  unfolding unmarked Seg Sized
  unmarked-Seg =
      let h : MemBlock = record (f a) { used = 0 } in
      (
        update_here f a h ∙ ap (λ (c : MemBlock). record c { used = 0 }) s.0,
        Seg-frame f (update f a h) a (a + b.size) zs 0 w.1
            (λ x l m. update_else f a h x (λ r. absurd (omega (arith, w.0)))) s.1,
      )

  pub unmarked-Sized : Sized (block b.size 0 ∷ zs)
  unfolding Sized
  unmarked-Sized = w

  -- After the first of the two merges.
  pub advanced : Blocks
  advanced = merge_next a unmarked

  module _ (start : 0 < a) (small : a + span (b ∷ zs) < 2 ^ 64) where
    pub advanced-Seg : Seg advanced p a (absorb (block b.size 0) zs) 0
    unfolding advanced
    advanced-Seg =
        (merge_next-Seg unmarked p a (block b.size 0) zs unmarked-Seg unmarked-Sized start small).0

    pub advanced-before : (x : ℕ) → x < a → advanced x ≡ f x
    unfolding advanced unmarked
    advanced-before x l =
        (merge_next-Seg unmarked p a (block b.size 0) zs unmarked-Seg unmarked-Sized start small).1
          x l
        ∙ update_else f a (record (f a) { used = 0 }) x (λ r. absurd (omega arith))

    pub free_block-advanced : free_block a f ≡ merge_prev a advanced
    unfolding free_block advanced unmarked
    free_block-advanced = refl

-- Freeing the first block of the list.
free-first :
    (f : Blocks) (a : ℕ) (b : Block) (zs : List Block)
    → Seg f 0 a (b ∷ zs) 0
    → Sized (b ∷ zs)
    → 0 < a
    → a + span (b ∷ zs) < 2 ^ 64
    → Seg (free_block a f) 0 a (absorb (block b.size 0) zs) 0
unfolding Seg
free-first f a b zs s w start small =
    let g = advanced f 0 a b zs s w in
    let t = advanced-Seg f 0 a b zs s w start small in
    let (y, ys, e) = absorb-cons (block b.size 0) zs in
    let head : Seg g 0 a (y ∷ ys) 0 = subst (λ l. Seg g 0 a l 0) e t in
    let still : merge_prev a g ≡ g =
      prev_stays g a 0 (prev_of g a y 0 (link (a + y.size) ys 0) head.0) refl in
    rw (free_block-advanced f 0 a b zs s w start small, still) t

-- Freeing the block behind `q`.
free-behind :
    (f : Blocks) (p a : ℕ) (q b : Block) (zs : List Block)
    → Seg f p a (q ∷ b ∷ zs) 0
    → Sized (q ∷ b ∷ zs)
    → 0 < a
    → a + span (q ∷ b ∷ zs) < 2 ^ 64
    → let (y, ys, e) = absorb-cons (block b.size 0) zs in
      Seg (free_block (a + q.size) f) p a (meet (q.used == 0) q y ys) 0
      × ((x : ℕ) → x < a → free_block (a + q.size) f x ≡ f x)
unfolding Seg Sized
free-behind f p a q b zs s w start small =
    let x = a + q.size in
    let g = advanced f a x b zs s.1 w.1 in
    let near : x + span (b ∷ zs) < 2 ^ 64 = omega arith in
    let t = advanced-Seg f a x b zs s.1 w.1 (omega arith) near in
    let low = advanced-before f a x b zs s.1 w.1 (omega arith) near in
    let (y, ys, e) = absorb-cons (block b.size 0) zs in
    let whole : Seg g p a (q ∷ y ∷ ys) 0 =
      (low a (omega (arith, w.0)) ∙ s.0, subst (λ l. Seg g a x l 0) e t) in
    let sized : Sized (q ∷ y ∷ ys) =
      (w.0, subst (λ l. Sized l) e (Sized-absorb (block b.size 0) zs w.1)) in
    let long : span (y ∷ ys) ≡ span (b ∷ zs) = ap span (sym e) ∙ span-absorb (block b.size 0) zs in
    let m = merge_prev-Seg g p a q y ys whole sized start (omega (arith, long)) in
    rw (free_block-advanced f a x b zs s.1 w.1 (omega arith) near)
      (m.0, λ k l. m.1 k l ∙ low k (omega arith))

snoc : (xs : List Block) → (xs ≡ []) ⊎ ((qs : List Block) × (q : Block) × (xs ≡ qs ++ q ∷ []))
snoc [] = inl refl
snoc (x ∷ xs) = elim (snoc xs) [
  | inl e ↦ inr ([], x, ap (λ t. x ∷ t) e)
  | inr (qs, q, e) ↦ inr (x ∷ qs, q, ap (λ t. x ∷ t) e)
]

rejoin-snoc :
    (qs : List Block) (q y : Block) (ys : List Block)
    → rejoin (qs ++ q ∷ []) (y ∷ ys) ≡ qs ++ meet (q.used == 0) q y ys
rejoin-snoc [] q y ys = refl
rejoin-snoc (x ∷ []) q y ys = refl
rejoin-snoc (x ∷ x' ∷ qs) q y ys = ap (λ t. x ∷ t) (rejoin-snoc (x' ∷ qs) q y ys)

-- A block that gets in at the end of a segment, or two.
meet-join :
    (f : Blocks) (a e : ℕ) (qs : List Block) (q y : Block) (ys : List Block)
    → e ≡ a + span qs
    → Seg f 0 a qs e
    → Seg f (last_block 0 a qs) e (meet (q.used == 0) q y ys) 0
    → Seg f 0 a (qs ++ meet (q.used == 0) q y ys) 0
meet-join f a e qs q y ys at s t = elim (Bool-cases (q.used == 0)) [
  | inl free ↦ rw free (
      Seg-join f 0 a qs (fused q y) ys 0 e at s
        (subst (λ c. Seg f (last_block 0 a qs) e (meet c q y ys) 0) free t))
  | inr taken ↦ rw taken (
      Seg-join f 0 a qs q (y ∷ ys) 0 e at s
        (subst (λ c. Seg f (last_block 0 a qs) e (meet c q y ys) 0) taken t))
]

Frees : Blocks → ℕ → Block → List Block → List Block → Type 0
Frees f a b after before =
    Seg f 0 a (before ++ b ∷ after) 0
    → Sized (before ++ b ∷ after)
    → 0 < a
    → a + span (before ++ b ∷ after) < 2 ^ 64
    → Seg (free_block (a + span before) f) 0 a (released before b after) 0

Frees-nil : (f : Blocks) (a : ℕ) (b : Block) (after : List Block) → Frees f a b after []
unfolding Frees
Frees-nil f a b after s w start small =
    let e : a + 0 ≡ a = omega arith in rw e (free-first f a b after s w start small)

Frees-snoc :
    (f : Blocks) (a : ℕ) (b : Block) (after qs : List Block) (q : Block)
    → Frees f a b after (qs ++ q ∷ [])
unfolding Frees
Frees-snoc f a b after qs q s w start small =
    let l : (qs ++ q ∷ []) ++ b ∷ after ≡ qs ++ q ∷ b ∷ after =
      append_assoc qs (q ∷ []) (b ∷ after) in
    let v = Sized-append qs (q ∷ b ∷ after) (subst (λ l. Sized l) l w) in
    let near : a + span (qs ++ q ∷ b ∷ after) < 2 ^ 64 = subst (λ l. a + span l < 2 ^ 64) l small in
    let e = a + span qs in
    let p = last_block 0 a qs in
    let t = Seg-split f 0 a qs q (b ∷ after) 0 e refl (subst (λ l. Seg f 0 a l 0) l s) in
    let h =
      free-behind f p e q b after t.1 v.1 (omega arith)
        (omega (arith, span-append qs (q ∷ b ∷ after))) in
    let (y, ys, c) = absorb-cons (block b.size 0) after in
    let x : a + span (qs ++ q ∷ []) ≡ e + q.size = omega (arith, span-append qs (q ∷ [])) in
    let g = free_block (e + q.size) f in
    rw (x, c, rejoin-snoc qs q y ys)
      (meet-join g a e qs q y ys refl (Seg-frame f g 0 a qs e v.0 (λ k l m. h.1 k m) t.0) h.0)

-- Freeing the block behind the blocks `before` of a list frees it in the list, and merges it with
-- the free ones beside it.
pub free_block-Seg :
    (f : Blocks) (a : ℕ) (before : List Block) (b : Block) (after : List Block)
    → Seg f 0 a (before ++ b ∷ after) 0
    → Sized (before ++ b ∷ after)
    → 0 < a
    → a + span (before ++ b ∷ after) < 2 ^ 64
    → Seg (free_block (a + span before) f) 0 a (released before b after) 0
unfolding Frees
free_block-Seg f a before b after s w start small = elim (snoc before) [
  | inl e ↦ subst (Frees f a b after) (sym e) (Frees-nil f a b after) s w start small
  | inr (qs, q, e) ↦ subst (Frees f a b after) (sym e) (Frees-snoc f a b after qs q) s w start small
]
