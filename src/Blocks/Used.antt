-- ===== src/Blocks/Used.antt =====
-- The bytes that a list of blocks has in use, and those that are free.
use hik.Prelude.{
  ℕ, ◌+◌, ◌≡◌, refl, sym, ap, ◌∙◌, inl, inr, true, List, [], ◌∷◌, ◌++◌, arith, leb, ◌==◌,
  if◌then◌else◌, Bool-cases,
}
use hik.Blocks.{header_size}
use hik.Blocks.Chain.{Block, block, span}
use hik.Blocks.Find.{suits, suited-free}
use hik.Blocks.Merge.{fused, meet, absorb, rejoin, released}
use hik.Blocks.Place.{first_placed, behind_placed}

-- The bytes of the used blocks, and those of the free ones.
abbrev pub used_size : Block → ℕ
used_size b = if b.used == 0 then 0 else b.size

abbrev pub free_size : Block → ℕ
free_size b = if b.used == 0 then b.size else 0

abbrev pub used_span : List Block → ℕ
used_span [] = 0
used_span (b ∷ bs) = used_size b + used_span bs

abbrev pub free_span : List Block → ℕ
free_span [] = 0
free_span (b ∷ bs) = free_size b + free_span bs

pub used-free_span : (bs : List Block) → used_span bs + free_span bs ≡ span bs
used-free_span [] = refl
used-free_span (b ∷ bs) = elim (Bool-cases (b.used == 0)) [
  | inl free ↦ rw free (omega (arith, used-free_span bs))
  | inr taken ↦ rw taken (omega (arith, used-free_span bs))
]

pub used_span-append : (xs ys : List Block) → used_span (xs ++ ys) ≡ used_span xs + used_span ys
used_span-append [] ys = omega arith
used_span-append (x ∷ xs) ys = omega (arith, used_span-append xs ys)

used_size-free : (b : Block) → b.used ≡ 0 → used_size b ≡ 0
used_size-free b e = rw e refl

-- Placing a block adds the size that it then has.
used_span-placed :
    (total : ℕ) (b : Block) (ys : List Block)
    → used_span (first_placed total b ∷ behind_placed total b ys)
      ≡ (first_placed total b).size + used_span ys
used_span-placed total b ys = elim (Bool-cases (leb (total + header_size + 8) b.size)) [
  | inl big ↦ rw big (omega arith)
  | inr few ↦ rw few (omega arith)
]

pub used_span-chosen :
    (total : ℕ) (before : List Block) (b : Block) (ys : List Block)
    → suits total b ≡ true
    → used_span (before ++ first_placed total b ∷ behind_placed total b ys)
      ≡ used_span (before ++ b ∷ ys) + (first_placed total b).size
used_span-chosen total before b ys y = omega (
  arith,
  used_span-append before (first_placed total b ∷ behind_placed total b ys),
  used_span-append before (b ∷ ys),
  used_span-placed total b ys,
  used_size-free b (suited-free total b y),
)

-- A merge of two free blocks uses nothing.
used_span-meet :
    (q y : Block) (ys : List Block)
    → y.used ≡ 0
    → used_span (meet (q.used == 0) q y ys) ≡ used_span (q ∷ y ∷ ys)
used_span-meet q y ys e = elim (Bool-cases (q.used == 0)) [
  | inl free ↦ rw free (ground arith)
  | inr taken ↦ ground arith
]

used_span-absorb :
    (b : Block) (zs : List Block)
    → b.used ≡ 0
    → (y : Block) × (ys : List Block) × (absorb b zs ≡ y ∷ ys)
      × (y.used ≡ 0)
      × (used_span (absorb b zs) ≡ used_span zs)
used_span-absorb b [] e = (b, [], refl, e, omega (arith, used_size-free b e))
used_span-absorb b (n ∷ ns) e = elim (Bool-cases (n.used == 0)) [
  | inl free ↦
      rw free
        (block (b.size + n.size) b.used, ns, refl, e, omega (arith, used_size-free (fused b n) e))
  | inr taken ↦ rw taken (b, n ∷ ns, refl, e, rw (used_size-free b e, taken) (omega arith))
]

used_span-rejoin :
    (qs : List Block) (y : Block) (ys : List Block)
    → y.used ≡ 0
    → used_span (rejoin qs (y ∷ ys)) ≡ used_span qs + used_span (y ∷ ys)
used_span-rejoin [] y ys e = omega arith
used_span-rejoin (q ∷ []) y ys e = omega (arith, used_span-meet q y ys e)
used_span-rejoin (q ∷ q' ∷ qs) y ys e = omega (arith, used_span-rejoin (q' ∷ qs) y ys e)

-- Freeing a block takes its bytes off, if it was in use.
pub used_span-released :
    (before : List Block) (b : Block) (after : List Block)
    → used_span (released before b after) + used_size b ≡ used_span (before ++ b ∷ after)
used_span-released before b after =
    let (y, ys, e, f, g) = used_span-absorb (block b.size 0) after refl in
    let r : used_span (released before b after) ≡ used_span before + used_span after =
      ap (λ l. used_span (rejoin before l)) e
      ∙ used_span-rejoin before y ys f
      ∙ ap (λ n. used_span before + n) (ap used_span (sym e) ∙ g) in
    omega (arith, r, used_span-append before (b ∷ after))
