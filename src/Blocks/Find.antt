-- ===== src/Blocks/Find.antt =====
-- The first-fit search along a list of blocks.
use hik.Prelude.{
  ◌≤◌, ℕ, zero, suc, ◌+◌, ◌<◌, ◌≡◌, refl, ap, ◌⊎◌, inl, inr, Bool, true, false, ◌&&◌, List, [], ◌∷◌,
  ◌++◌, arith, leb, ◌==◌, Bool-cases, length,
}
use hik.Blocks.{Blocks, at, absent, find_fit}
use hik.Blocks.Chain.{Block, span, link, Seg, Sized}

abbrev pub suits : ℕ → Block → Bool
suits total b = (b.used == 0) && leb total b.size

pub suited-size : (total : ℕ) (b : Block) → suits total b ≡ true → total ≤ b.size
suited-size total b h = ground arith

pub suited-free : (total : ℕ) (b : Block) → suits total b ≡ true → b.used ≡ 0
suited-free total b h = ground arith

unfoldable pub NoneSuit : ℕ → List Block → Type 0
NoneSuit total [] = Unit {0}
NoneSuit total (b ∷ bs) = (suits total b ≡ false) × NoneSuit total bs

-- The first block of `bs` that suits, between those before it and those behind.
pub record Chosen (total : ℕ) (bs : List Block) : Type 0 where
  pub before : List Block
  pub chosen : Block
  pub after : List Block
  pub parts : bs ≡ before ++ chosen ∷ after
  pub suited : suits total chosen ≡ true
  pub earlier : NoneSuit total before

-- With more steps than blocks, the walk along the list ends, at the first block that suits if there
-- is one, and at the end of the list if there is none.
pub find_fit_lem :
    (k total : ℕ) (f : Blocks) (p a : ℕ) (bs : List Block)
    → Seg f p a bs 0
    → Sized bs
    → 0 < a
    → length bs < k
    → ((find_fit k total (link a bs 0) f ≡ absent) × NoneSuit total bs)
      ⊎ ((c : Chosen total bs) × (find_fit k total (link a bs 0) f ≡ at (a + span c.before)))
unfolding find_fit Seg Sized NoneSuit
find_fit_lem zero total f p a bs s v l m = absurd (omega arith)
find_fit_lem (suc k) total f p a [] s v l m = inl (refl, tt)
find_fit_lem (suc k) total f p a (b ∷ bs) s v l m = elim (Bool-cases (suits total b)) [
  | inl y ↦ inr (
    record { before = []; chosen = b; after = bs; parts = refl; suited = y; earlier = tt },
    ground (arith, s.0),
  )
  | inr n ↦ elim (find_fit_lem k total f a (a + b.size) bs s.1 v.1 (omega arith) (omega arith)) [
    | inl (e, w) ↦ inl (ground (arith, s.0, e), (n, w))
    | inr (c, e) ↦ inr (
      record {
        before = b ∷ c.before;
        chosen = c.chosen;
        after = c.after;
        parts = ap (λ t. b ∷ t) c.parts;
        suited = c.suited;
        earlier = (n, c.earlier);
      },
      ground (arith, s.0, e),
    )
  ]
]
