-- ===== src/Blocks/Spec.antt =====
-- The allocator as functions on the list of blocks, and that allocating and freeing cancel.
use hik.Blocks.Merge.{span-absorb, Sized-absorb, released, rejoin, absorb}
use hik.Prelude.{
  ◌↔◌, ◌^◌, ◌<◌, ◌==◌, ◌≢◌, ℕ, ◌+◌, ◌≤◌, ◌≡◌, refl, ap, ◌∙◌, inl, inr, true, Option, none, some,
  List, [], ◌∷◌, ◌++◌, arith, leb, if◌then◌else◌, Bool-cases, length,
}
use hik.Blocks.{total_of, header_size}
use hik.Blocks.Chain.{span-append, block, Sized-append, Block, span, Sized}
use hik.Blocks.Find.{suits, NoneSuit, Chosen}
use hik.Blocks.Place.{placed}

-- First fit: the distance of the chosen block from the start of the list, and the list with the
-- allocation in it.
unfoldable pub allocate : ℕ → List Block → Option (ℕ × List Block)
allocate total [] = none
allocate total (b ∷ bs) =
    let rest = allocate total bs in
    if suits total b
    then some (0, placed total b ++ bs)
    else elim rest [ none ↦ none | some (o, l) ↦ some (b.size + o, b ∷ l) ]

-- The size of the block that first fit chooses.
unfoldable pub fitted : ℕ → List Block → ℕ
fitted total [] = 0
fitted total (b ∷ bs) = let rest = fitted total bs in if suits total b then b.size else rest

fitted-before :
    (total : ℕ) (xs : List Block) (c : Block) (ys : List Block)
    → NoneSuit total xs
    → suits total c ≡ true
    → fitted total (xs ++ c ∷ ys) ≡ c.size
unfolding fitted NoneSuit
fitted-before total [] c ys h y = rw (fitted, y) refl
fitted-before total (x ∷ xs) c ys h y = rw (fitted, h.0) (fitted-before total xs c ys h.1 y)

pub fitted-some :
    (total : ℕ) (bs : List Block) (c : Chosen total bs) → fitted total bs ≡ c.chosen.size
fitted-some total bs c =
    ap (fitted total) c.parts ∙ fitted-before total c.before c.chosen c.after c.earlier c.suited

pub allocate-none : (total : ℕ) (bs : List Block) → NoneSuit total bs → allocate total bs ≡ none
unfolding allocate NoneSuit
allocate-none total [] h = refl
allocate-none total (b ∷ bs) h = rw (allocate, h.0, allocate-none total bs h.1)

allocate-before :
    (total : ℕ) (xs : List Block) (c : Block) (ys : List Block)
    → NoneSuit total xs
    → suits total c ≡ true
    → allocate total (xs ++ c ∷ ys) ≡ some (span xs, xs ++ (placed total c ++ ys))
unfolding allocate NoneSuit
allocate-before total [] c ys h y = rw (allocate, y)
allocate-before total (x ∷ xs) c ys h y = rw (allocate, h.0, allocate-before total xs c ys h.1 y)

pub allocate-some :
    (total : ℕ) (bs : List Block) (c : Chosen total bs)
    → allocate total bs ≡ some (span c.before, c.before ++ (placed total c.chosen ++ c.after))
allocate-some total bs c =
    ap (allocate total) c.parts ∙ allocate-before total c.before c.chosen c.after c.earlier c.suited

pub length-le-span : (bs : List Block) → Sized bs → length bs ≤ span bs
unfolding Sized
length-le-span [] w = omega arith
length-le-span (b ∷ bs) w = omega (arith, w.0, length-le-span bs w.1)

pub placed-Sized :
    (total : ℕ) (b : Block) (ys : List Block)
    → header_size ≤ total
    → header_size ≤ b.size
    → Sized ys
    → Sized (placed total b ++ ys)
unfolding Sized
placed-Sized total b ys l m w = elim (Bool-cases (leb (total + header_size + 8) b.size)) [
  | inl big ↦ rw big (l, (ground arith, w))
  | inr few ↦ rw few (m, w)
]

pub span-placed :
    (total : ℕ) (b : Block) (ys : List Block)
    → total ≤ b.size
    → span (placed total b ++ ys) ≡ span (b ∷ ys)
span-placed total b ys l = elim (Bool-cases (leb (total + header_size + 8) b.size)) [
  | inl big ↦ rw big (omega arith)
  | inr few ↦ rw few refl
]

rejoin-Sized : (qs zs : List Block) → Sized qs → Sized zs → Sized (rejoin qs zs)
unfolding Sized
rejoin-Sized [] zs v w = w
rejoin-Sized (q ∷ qs) [] v w = v
rejoin-Sized (q ∷ []) (y ∷ ys) v w = elim (Bool-cases (q.used == 0)) [
  | inl free ↦ rw free (omega (arith, v.0), w.1)
  | inr taken ↦ rw taken (v.0, w)
]
rejoin-Sized (q ∷ q' ∷ qs) (y ∷ ys) v w = (v.0, rejoin-Sized (q' ∷ qs) (y ∷ ys) v.1 w)

pub released-Sized :
    (before : List Block) (b : Block) (after : List Block)
    → Sized (before ++ b ∷ after)
    → Sized (released before b after)
unfolding Sized
released-Sized before b after w =
    let v = Sized-append before (b ∷ after) w in
    rejoin-Sized before (absorb (block b.size 0) after) v.0
      (Sized-absorb (block b.size 0) after v.1)

span-rejoin : (qs zs : List Block) → zs ≢ [] → span (rejoin qs zs) ≡ span qs + span zs
span-rejoin [] zs ne = omega arith
span-rejoin (q ∷ qs) [] ne = absurd (ne refl)
span-rejoin (q ∷ []) (y ∷ ys) ne = elim (Bool-cases (q.used == 0)) [
  | inl free ↦ rw free (omega arith)
  | inr taken ↦ rw taken (omega arith)
]
span-rejoin (q ∷ q' ∷ qs) (y ∷ ys) ne = omega (arith, span-rejoin (q' ∷ qs) (y ∷ ys) ne)

absorb-ne-nil : (b : Block) (zs : List Block) → absorb b zs ≢ []
absorb-ne-nil b [] = λ e. cc
absorb-ne-nil b (n ∷ ns) = λ e. ground arith

pub span-released :
    (before : List Block) (b : Block) (after : List Block)
    → span (released before b after) ≡ span (before ++ b ∷ after)
span-released before b after = omega (
  arith,
  span-rejoin before (absorb (block b.size 0) after) (absorb-ne-nil (block b.size 0) after),
  span-absorb (block b.size 0) after,
  span-append before (b ∷ after),
)

-- For a size that is a 64-bit word, the block that an allocation looks for has room for its header and
-- for that many bytes exactly if the size is at most 2 ^ 64 - 32.
pub total_of-room :
    (size : ℕ) → size < 2 ^ 64 → (size + header_size ≤ total_of size) ↔ (size + 32 ≤ 2 ^ 64)
total_of-room size word = (λ h. omega arith, λ h. omega arith)
