-- ===== src/Blocks/Keep.antt =====
-- An allocation leaves every block in use where it is.
use hik.Prelude.{
  true, ℕ, ◌+◌, ◌≤◌, ◌≡◌, refl, sym, ap, ◌⊎◌, inl, inr, false, none, some, List, [], ◌∷◌, ◌++◌,
  arith, ◌==◌, Bool-cases, Option-cases,
}
use mathlib.Core.List.{append_assoc}
use hik.Blocks.Chain.{Block, span}
use hik.Blocks.Find.{suits, suited-size}
use hik.Blocks.Place.{placed}
use hik.Blocks.Spec.{fitted, allocate, span-placed}

-- The list `l` has the block behind blocks of the same length, and the chosen block of `wide` bytes at
-- `o`, in which the allocation of `total` bytes fits, does not meet it.
pub record Keeps (total wide o : ℕ) (before : List Block) (b : Block) (l : List Block)
    : Type 0 where
  pub left : List Block
  pub right : List Block
  pub parts : l ≡ left ++ b ∷ right
  pub same_place : span left ≡ span before
  pub holds : total ≤ wide
  pub apart : (o + wide ≤ span before) ⊎ (span before + b.size ≤ o)

used-suits : (total : ℕ) (b : Block) → (b.used == 0) ≡ false → suits total b ≡ false
used-suits total b e = rw e refl

abbrev pub Kept : (total : ℕ) (before : List Block) (b : Block) (after : List Block) → Type 0
Kept total before b after =
    (allocate total (before ++ b ∷ after) ≡ none)
    ⊎ ((o : ℕ) × (l : List Block) × (allocate total (before ++ b ∷ after) ≡ some (o, l))
        × Keeps total (fitted total (before ++ b ∷ after)) o before b l)

fitted-here :
    (total : ℕ) (x : Block) (xs : List Block)
    → suits total x ≡ true
    → fitted total (x ∷ xs) ≡ x.size
unfolding fitted
fitted-here total x xs y = rw y refl

fitted-later :
    (total : ℕ) (x : Block) (xs : List Block)
    → suits total x ≡ false
    → fitted total (x ∷ xs) ≡ fitted total xs
unfolding fitted
fitted-later total x xs n = rw n refl

-- The block that is chosen suits, if one is.
fitted-holds :
    (total o : ℕ) (bs l : List Block) → allocate total bs ≡ some (o, l) → total ≤ fitted total bs
unfolding allocate
fitted-holds total o [] l e = absurd (ground (arith, e))
fitted-holds total o (x ∷ xs) l e = elim (Bool-cases (suits total x)) [
  | inl y ↦ rw (fitted-here total x xs y) (suited-size total x y)
  | inr n ↦ elim (Option-cases (allocate total xs)) [
    | inl h ↦ absurd (ground (arith, e, h, n))
    | inr ((p, k), h) ↦ rw (fitted-later total x xs n) (fitted-holds total p xs k h)
  ]
]

Kept-nil :
    (total : ℕ) (b : Block) (after : List Block) → (b.used == 0) ≡ false → Kept total [] b after
unfolding allocate
Kept-nil total b after e =
    let n = used-suits total b e in
    elim (Option-cases (allocate total after)) [
      | inl h ↦ inl (rw (allocate, n, h) refl)
      | inr ((o, l), h) ↦ inr (
        b.size + o,
        b ∷ l,
        rw (allocate, n, h) refl,
        record {
          left = [];
          right = l;
          parts = refl;
          same_place = refl;
          holds = fitted-holds total (b.size + o) (b ∷ after) (b ∷ l) (rw (allocate, n, h) refl);
          apart = inr (omega arith);
        },
      )
    ]

pub allocate-Keeps :
    (total : ℕ) (before : List Block) (b : Block) (after : List Block)
    → (b.used == 0) ≡ false
    → Kept total before b after
unfolding allocate
allocate-Keeps total [] b after e = Kept-nil total b after e
allocate-Keeps total (x ∷ xs) b after e = elim (Bool-cases (suits total x)) [
  | inl y ↦ inr (
    0,
    placed total x ++ (xs ++ b ∷ after),
    rw (allocate, y) refl,
    record {
      left = placed total x ++ xs;
      right = after;
      parts = sym (append_assoc (placed total x) xs (b ∷ after));
      same_place = span-placed total x xs (suited-size total x y);
      holds = rw (fitted-here total x (xs ++ b ∷ after) y) (suited-size total x y);
      apart = inl (omega (arith, fitted-here total x (xs ++ b ∷ after) y));
    },
  )
  | inr n ↦ elim (allocate-Keeps total xs b after e) [
    | inl h ↦ inl (rw (allocate, n, h) refl)
    | inr (o, l, h, k) ↦ inr (
      x.size + o,
      x ∷ l,
      rw (allocate, n, h) refl,
      record {
        left = x ∷ k.left;
        right = k.right;
        parts = ap (λ t. x ∷ t) k.parts;
        same_place = omega (arith, k.same_place);
        holds = rw (fitted-later total x (xs ++ b ∷ after) n) k.holds;
        apart = elim k.apart [
          | inl q ↦ inl (omega (arith, fitted-later total x (xs ++ b ∷ after) n))
          | inr q ↦ inr (omega arith)
        ];
      },
    )
  ]
]
