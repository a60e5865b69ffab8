-- ===== src/Blocks/Chain.antt =====
-- What a list of blocks in memory stands for: the sizes and marks of the blocks, in order, which lie
-- end to end.
use hik.Prelude.{ℕ, ◌+◌, ◌≤◌, ◌<◌, ◌≡◌, refl, sym, ap, ◌∙◌, List, [], ◌∷◌, ◌++◌, arith}
use hik.Blocks.{MemBlock, Blocks, header_size}

pub record Block : Type 0 where
  pub size : ℕ
  pub used : ℕ

abbrev pub block : ℕ → ℕ → Block
block size used = record { size = size; used = used }

abbrev pub span : List Block → ℕ
span [] = 0
span (b ∷ bs) = b.size + span bs

abbrev pub header : Block → (prev next : ℕ) → MemBlock
header b prev next = record { size = b.size; used = b.used; next = next; prev = prev }

-- Where the block in front of `bs` points: to the place behind it, or to `stop` if `bs` is empty.
abbrev pub link : ℕ → List Block → ℕ → ℕ
link a [] stop = stop
link a (b ∷ bs) stop = a

-- From `a` on lie the blocks `bs`, linked both ways; the block before them is `prev`, the last one
-- points to `stop`.
unfoldable pub Seg : Blocks → (prev a : ℕ) → List Block → (stop : ℕ) → Type 0
Seg f prev a [] stop = Unit {0}
Seg f prev a (b ∷ bs) stop =
    (f a ≡ header b prev (link (a + b.size) bs stop)) × Seg f a (a + b.size) bs stop

-- Every block has room for its header.
unfoldable pub Sized : List Block → Type 0
Sized [] = Unit {0}
Sized (b ∷ bs) = (header_size ≤ b.size) × Sized bs

-- The last of the blocks `bs` that lie from `a` on, or `prev` if there is none.
abbrev pub last_block : (prev a : ℕ) → List Block → ℕ
last_block prev a [] = prev
last_block prev a (b ∷ bs) = last_block a (a + b.size) bs

pub span-append : (xs ys : List Block) → span (xs ++ ys) ≡ span xs + span ys
span-append [] ys = omega arith
span-append (x ∷ xs) ys = omega (arith, span-append xs ys)

pub Sized-append : (xs ys : List Block) → Sized (xs ++ ys) → Sized xs × Sized ys
unfolding Sized
Sized-append [] ys v = (tt, v)
Sized-append (x ∷ xs) ys v = let w = Sized-append xs ys v.1 in ((v.0, w.0), w.1)

pub append-Sized : (xs ys : List Block) → Sized xs → Sized ys → Sized (xs ++ ys)
unfolding Sized
append-Sized [] ys v w = w
append-Sized (x ∷ xs) ys v w = (v.0, append-Sized xs ys v.1 w)

-- A segment survives every change outside of the bytes that it spans.
pub Seg-frame :
    (f g : Blocks) (p a : ℕ) (bs : List Block) (z : ℕ)
    → Sized bs
    → ((x : ℕ) → a ≤ x → x < a + span bs → g x ≡ f x)
    → Seg f p a bs z
    → Seg g p a bs z
unfolding Seg Sized
Seg-frame f g p a [] z w same s = tt
Seg-frame f g p a (b ∷ bs) z w same s = (
  same a (omega arith) (omega (arith, w.0)) ∙ s.0,
  Seg-frame f g a (a + b.size) bs z w.1 (λ x l m. same x (omega arith) (omega arith)) s.1,
)

-- A segment whose first block gets another predecessor.
pub Seg-set_prev :
    (f g : Blocks) (p q a : ℕ) (b : Block) (bs : List Block) (z : ℕ)
    → Sized (b ∷ bs)
    → g a ≡ record (f a) { prev = q }
    → ((x : ℕ) → a < x → x < a + span (b ∷ bs) → g x ≡ f x)
    → Seg f p a (b ∷ bs) z
    → Seg g q a (b ∷ bs) z
unfolding Seg Sized
Seg-set_prev f g p q a b bs z w new same s = (
  new ∙ ap (λ (h : MemBlock). record h { prev = q }) s.0,
  Seg-frame f g a (a + b.size) bs z w.1 (λ x l m. same x (omega (arith, w.0)) (omega arith)) s.1,
)

link-append :
    (b : ℕ) (xs : List Block) (y : Block) (ys : List Block) (z e : ℕ)
    → e ≡ b + span xs
    → link b (xs ++ y ∷ ys) z ≡ link b xs e
link-append b [] y ys z e q = omega arith
link-append b (x ∷ xs) y ys z e q = refl

-- Cutting a segment in front of the block at `e`, and putting it together.
pub Seg-split :
    (f : Blocks) (p a : ℕ) (xs : List Block) (y : Block) (ys : List Block) (z e : ℕ)
    → e ≡ a + span xs
    → Seg f p a (xs ++ y ∷ ys) z
    → Seg f p a xs e × Seg f (last_block p a xs) e (y ∷ ys) z
unfolding Seg
Seg-split f p a [] y ys z e q s = let r : e ≡ a = omega arith in rw r (tt, s)
Seg-split f p a (x ∷ xs) y ys z e q s =
    let r : e ≡ a + x.size + span xs = omega arith in
    let h = Seg-split f a (a + x.size) xs y ys z e r s.1 in
    ((s.0 ∙ ap (header x p) (link-append (a + x.size) xs y ys z e r), h.0), h.1)

pub Seg-join :
    (f : Blocks) (p a : ℕ) (xs : List Block) (y : Block) (ys : List Block) (z e : ℕ)
    → e ≡ a + span xs
    → Seg f p a xs e
    → Seg f (last_block p a xs) e (y ∷ ys) z
    → Seg f p a (xs ++ y ∷ ys) z
unfolding Seg
Seg-join f p a [] y ys z e q s t = let r : a ≡ e = omega arith in rw r t
Seg-join f p a (x ∷ xs) y ys z e q s t =
    let r : e ≡ a + x.size + span xs = omega arith in
    (
      s.0 ∙ ap (header x p) (sym (link-append (a + x.size) xs y ys z e r)),
      Seg-join f a (a + x.size) xs y ys z e r s.1 t,
    )
