-- ===== src/Blocks/Place.antt =====
-- Putting an allocation into a free block.
use mathlib.Core.Path.{subst}
use hik.Prelude.{
  ap, refl, Bool, update_here, update_else, ℕ, ◌+◌, ◌-◌, ◌^◌, ◌≤◌, ◌<◌, ◌≡◌, ◌∙◌, ◌≢◌, inl, inr,
  true, false, List, [], ◌∷◌, ◌++◌, arith, leb, if◌then◌else◌, Bool-cases, update, u64, sub64,
}
use hik.Blocks.{MemBlock, Blocks, set_prev, split_block, place, header_size}
use hik.Blocks.Chain.{Block, block, span, header, link, Seg, Sized, Seg-frame, Seg-set_prev}

-- The blocks that a free block of enough bytes becomes.
abbrev pub placed_as : Bool → ℕ → Block → List Block
placed_as big total b =
    if big then block total 1 ∷ block (b.size - total) 0 ∷ [] else block b.size 1 ∷ []

abbrev pub placed : ℕ → Block → List Block
placed total b = placed_as (leb (total + header_size + 8) b.size) total b

-- The first of the blocks that `b` becomes, and those behind it.
abbrev pub first_placed : ℕ → Block → Block
first_placed total b = block (if leb (total + header_size + 8) b.size then total else b.size) 1

abbrev pub behind_placed : ℕ → Block → List Block → List Block
behind_placed total b ys =
    if leb (total + header_size + 8) b.size then block (b.size - total) 0 ∷ ys else ys

pub placed-parts :
    (total : ℕ) (b : Block) (ys : List Block)
    → placed total b ++ ys ≡ first_placed total b ∷ behind_placed total b ys
placed-parts total b ys = elim (Bool-cases (leb (total + header_size + 8) b.size)) [
  | inl big ↦ rw big refl
  | inr few ↦ rw few refl
]

-- Giving the first block of a segment another predecessor.
pub set_prev-Seg :
    (f : Blocks) (p q a : ℕ) (bs : List Block)
    → Sized bs
    → 0 < a
    → Seg f p a bs 0
    → Seg (set_prev (link a bs 0) q f) q a bs 0
unfolding Seg
set_prev-Seg f p q a [] w l s = tt
set_prev-Seg f p q a (b ∷ bs) w l s =
    Seg-set_prev f (set_prev a q f) p q a b bs 0 w (ground arith) (λ x m n. ground arith) s

pub set_prev-outside :
    (f : Blocks) (q a : ℕ) (bs : List Block) (x : ℕ) → a ≢ x → set_prev (link a bs 0) q f x ≡ f x
set_prev-outside f q a [] x l = ground arith
set_prev-outside f q a (b ∷ bs) x l = ground arith

-- The block at `x`, in front of the blocks `ys`, is placed.
module _ (total : ℕ) (f : Blocks) (p x : ℕ) (b : Block) (ys : List Block) (s : Seg f p x (b ∷ ys) 0)
    (w : Sized (b ∷ ys)) (enough : total ≤ b.size) (header_fits : header_size ≤ total)
    (start : 0 < x) (small : x + span (b ∷ ys) + 33 ≤ 2 ^ 64) where
  -- Memory after the new block has been written behind the old one, and linked.
  cut : Blocks
  cut = set_prev (link (x + b.size) ys 0) (x + total) (
      update f (x + total)
        (record { size = b.size - total; used = 0; next = link (x + b.size) ys 0; prev = x }))

  place-big :
      (big : leb (total + header_size + 8) b.size ≡ true)
      → (y : ℕ) → place total x f y ≡ update cut x (header (block total 1) p (x + total)) y
  unfolding place split_block cut Seg
  place-big big y =
      let e : u64 (x + total) ≡ x + total = omega arith in
      let d : u64 (total + header_size + 8) ≡ total + header_size + 8 = omega arith in
      let c : sub64 b.size total ≡ b.size - total = omega arith in ground (arith, e, d, c, s.0)

  place-small :
      (big : leb (total + header_size + 8) b.size ≡ false)
      → (y : ℕ)
      → place total x f y ≡ update f x (header (block b.size 1) p (link (x + b.size) ys 0)) y
  unfolding place Seg
  place-small big y =
      let d : u64 (total + header_size + 8) ≡ total + header_size + 8 = omega arith in
      ground (arith, d, s.0)

  rest-Seg : Seg f x (x + b.size) ys 0
  unfolding Seg
  rest-Seg = s.1

  rest-Sized : Sized ys
  unfolding Sized
  rest-Sized = w.1

  room : header_size ≤ b.size
  unfolding Sized
  room = w.0

  new_header : MemBlock
  new_header = header (block (b.size - total) 0) x (link (x + b.size) ys 0)

  new_header-cut : total + 33 ≤ b.size → cut (x + total) ≡ new_header
  unfolding cut new_header
  new_header-cut m =
      set_prev-outside (update f (x + total) new_header) (x + total) (x + b.size) ys (x + total)
        (λ e. absurd (omega arith))
      ∙ update_here f (x + total) new_header

  cut-else : (y : ℕ) → x + total ≢ y → x + b.size ≢ y → cut y ≡ f y
  unfolding cut new_header
  cut-else y a c =
      set_prev-outside (update f (x + total) new_header) (x + total) (x + b.size) ys y c
      ∙ update_else f (x + total) new_header y a

  cut-rest : total + 33 ≤ b.size → Seg cut (x + total) (x + b.size) ys 0
  unfolding cut new_header
  cut-rest m =
      set_prev-Seg (update f (x + total) new_header) x (x + total) (x + b.size) ys rest-Sized
        (omega arith)
        (Seg-frame f (update f (x + total) new_header) x (x + b.size) ys 0 rest-Sized
          (λ y l n. update_else f (x + total) new_header y (λ e. absurd (omega arith))) rest-Seg)

  -- The list after the placing: the chosen block has become one or two blocks.
  pub place-Seg : Seg (place total x f) p x (placed total b ++ ys) 0
  unfolding Seg new_header
  place-Seg = elim (Bool-cases (leb (total + header_size + 8) b.size)) [
    | inl big ↦
        let m : total + 33 ≤ b.size = ground arith in
        let h = header (block total 1) p (x + total) in
        let e : x + total + (b.size - total) ≡ x + b.size = omega arith in
        rw (big, e)
          (
            place-big big x ∙ update_here cut x h,
            (
              place-big big (x + total)
                  ∙ update_else cut x h (x + total) (λ q. absurd (omega arith))
                  ∙ new_header-cut m,
              Seg-frame cut (place total x f) (x + total) (x + b.size) ys 0 rest-Sized
                  (λ y l n.
                    place-big big y ∙ update_else cut x h y (λ q. absurd (omega (arith, room))))
                  (cut-rest m),
            ),
          )
    | inr few ↦
        let h = header (block b.size 1) p (link (x + b.size) ys 0) in
        rw few (
          place-small few x ∙ update_here f x h,
          Seg-frame f (place total x f) x (x + b.size) ys 0 rest-Sized
              (λ y l n. place-small few y ∙ update_else f x h y (λ q. absurd (omega (arith, room))))
              rest-Seg,
        )
  ]

  -- Memory before the block is not changed.
  pub place-before : (y : ℕ) → y < x → place total x f y ≡ f y
  place-before y o = elim (Bool-cases (leb (total + header_size + 8) b.size)) [
    | inl big ↦
        let h = header (block total 1) p (x + total) in
        place-big big y
        ∙ update_else cut x h y (λ q. absurd (omega arith))
        ∙ cut-else y (λ q. absurd (omega arith)) (λ q. absurd (omega arith))
    | inr few ↦
        let h = header (block b.size 1) p (link (x + b.size) ys 0) in
        place-small few y ∙ update_else f x h y (λ q. absurd (omega arith))
  ]

  -- The size of the chosen block.
  pub place-size : (place total x f x).size ≡ (first_placed total b).size
  unfolding Seg
  place-size =
      let t = subst (λ l. Seg (place total x f) p x l 0) (placed-parts total b ys) place-Seg in
      ap (λ (h : MemBlock). h.size) t.0
