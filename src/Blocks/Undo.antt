-- ===== src/Blocks/Undo.antt =====
-- Freeing a block at once undoes its allocation, on lists in which free blocks are merged.
use mathlib.Core.Path.{subst}
use hik.Prelude.{
  ℕ, ◌+◌, ◌-◌, ◌≤◌, ◌<◌, ◌≡◌, refl, sym, ap, ◌∙◌, ◌⊎◌, inl, inr, true, false, none, some, List, [],
  ◌∷◌, ◌++◌, arith, leb, ◌==◌, Bool-cases,
}
use hik.Blocks.{header_size}
use hik.Blocks.Chain.{Block, block, span}
use hik.Blocks.Find.{suited-free, suited-size, Chosen, NoneSuit, suits}
use hik.Blocks.Merge.{absorb, rejoin, released}
use hik.Blocks.Place.{placed-parts, behind_placed, first_placed, placed}
use hik.Blocks.Spec.{allocate-some, allocate}

-- Every mark is 0 or 1, and no two neighbours are both free.
unfoldable pub Merged : List Block → Type 0
Merged [] = Unit {0}
Merged (b ∷ []) = b.used ≤ 1
Merged (b ∷ c ∷ cs) = (b.used ≤ 1) × (0 < b.used + c.used) × Merged (c ∷ cs)

-- A free block as its size and its mark.
free-block : (n : ℕ) (b : Block) → n ≡ b.size → b.used ≡ 0 → block n 0 ≡ b
free-block n b e f = rw (e, sym f) refl

absorb-used : (b : Block) (ys : List Block) → b.used ≡ 0 → Merged (b ∷ ys) → absorb b ys ≡ b ∷ ys
unfolding Merged
absorb-used b [] f m = refl
absorb-used b (n ∷ ns) f m =
    let taken : (n.used == 0) ≡ false = ground (arith, m.1) in rw taken refl

absorb-undo :
    (total : ℕ) (b : Block) (ys : List Block)
    → suits total b ≡ true
    → Merged (b ∷ ys)
    → absorb (block (first_placed total b).size 0) (behind_placed total b ys) ≡ b ∷ ys
absorb-undo total b ys suited m =
    let l = suited-size total b suited in
    let f = suited-free total b suited in
    elim (Bool-cases (leb (total + header_size + 8) b.size)) [
      | inl big ↦
          rw big (ap (λ c. c ∷ ys) (free-block (total + (b.size - total)) b (omega arith) f))
      | inr few ↦ rw few (ap (λ c. absorb c ys) (free-block b.size b refl f) ∙ absorb-used b ys f m)
    ]

rejoin-used :
    (before : List Block) (b : Block) (after : List Block)
    → b.used ≡ 0
    → Merged (before ++ b ∷ after)
    → rejoin before (b ∷ after) ≡ before ++ b ∷ after
unfolding Merged
rejoin-used [] b after f m = refl
rejoin-used (q ∷ []) b after f m =
    let taken : (q.used == 0) ≡ false = ground (arith, m.1) in rw taken refl
rejoin-used (q ∷ q' ∷ qs) b after f m = ap (λ l. q ∷ l) (rejoin-used (q' ∷ qs) b after f m.2)

Merged-behind :
    (before : List Block) (b : Block) (after : List Block)
    → Merged (before ++ b ∷ after)
    → Merged (b ∷ after)
unfolding Merged
Merged-behind [] b after m = m
Merged-behind (q ∷ []) b after m = m.2
Merged-behind (q ∷ q' ∷ qs) b after m = Merged-behind (q' ∷ qs) b after m.2

choose : (total : ℕ) (bs : List Block) → (allocate total bs ≡ none) ⊎ Chosen total bs
unfolding allocate NoneSuit
choose total [] = inl refl
choose total (b ∷ bs) = elim (Bool-cases (suits total b)) [
  | inl y ↦
      inr (record { before = []; chosen = b; after = bs; parts = refl; suited = y; earlier = tt })
  | inr n ↦ elim (choose total bs) [
    | inl e ↦ inl (rw (allocate, n, e) refl)
    | inr c ↦ inr (record {
      before = b ∷ c.before;
      chosen = c.chosen;
      after = c.after;
      parts = ap (λ t. b ∷ t) c.parts;
      suited = c.suited;
      earlier = (n, c.earlier);
    })
  ]
]

-- The blocks before, at and behind an allocation.
pub record Undo (bs : List Block) (o : ℕ) (l : List Block) : Type 0 where
  pub before : List Block
  pub taken : Block
  pub after : List Block
  pub parts : l ≡ before ++ taken ∷ after
  pub offset : o ≡ span before
  pub undone : released before taken after ≡ bs

pub allocate-Undo :
    (total : ℕ) (bs : List Block)
    → Merged bs
    → (allocate total bs ≡ none)
      ⊎ ((o : ℕ) × (l : List Block) × (allocate total bs ≡ some (o, l)) × Undo bs o l)
allocate-Undo total bs m = elim (choose total bs) [
  | inl e ↦ inl e
  | inr c ↦
      let m' = subst (λ l. Merged l) c.parts m in
      inr (
        span c.before,
        c.before ++ (placed total c.chosen ++ c.after),
        allocate-some total bs c,
        record {
          before = c.before;
          taken = first_placed total c.chosen;
          after = behind_placed total c.chosen c.after;
          parts = ap (λ l. c.before ++ l) (placed-parts total c.chosen c.after);
          offset = refl;
          undone =
              ap (rejoin c.before) (
                absorb-undo total c.chosen c.after c.suited
                  (Merged-behind c.before c.chosen c.after m'))
              ∙ rejoin-used c.before c.chosen c.after (suited-free total c.chosen c.suited) m'
              ∙ sym c.parts;
        },
      )
]
