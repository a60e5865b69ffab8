-- ===== src/Blocks/Choose.antt =====
-- The first fit in memory: search and placing together.
use hik.Blocks.Used.{used_span-chosen, used_span}
use mathlib.Core.Path.{subst}
use hik.Prelude.{
  ℕ, ◌+◌, ◌-◌, ◌^◌, ◌≤◌, ◌<◌, ◌≡◌, refl, sym, ap, ◌∙◌, ◌⊎◌, inl, inr, true, none, some, List, ◌∷◌,
  ◌++◌, arith, leb, Bool-cases,
}
use hik.Blocks.{MemBlock, Blocks, at, absent, header_size, find_fit, place}
use hik.Blocks.Chain.{
  Block, block, span, link, Seg, Sized, last_block, Seg-frame, Seg-split, Seg-join, Sized-append,
  append-Sized, span-append,
}
use hik.Blocks.Find.{suited-size, suits, find_fit_lem}
use hik.Blocks.Place.{place-size, placed-parts, placed_as, placed, place-Seg, place-before}
use hik.Blocks.Spec.{
  fitted, fitted-some, allocate, allocate-none, allocate-some, length-le-span, placed-Sized,
  span-placed,
}

-- The size that the header of a block in the list holds.
pub block-size :
    (f : Blocks) (a : ℕ) (before : List Block) (b : Block) (after : List Block)
    → Seg f 0 a (before ++ b ∷ after) 0
    → (f (a + span before)).size ≡ b.size
unfolding Seg
block-size f a before b after s =
    ap (λ (h : MemBlock). h.size) (Seg-split f 0 a before b after 0 (a + span before) refl s).1.0

placed-join :
    (g : Blocks) (a e total : ℕ) (qs : List Block) (b : Block) (ys : List Block)
    → e ≡ a + span qs
    → Seg g 0 a qs e
    → Seg g (last_block 0 a qs) e (placed total b ++ ys) 0
    → Seg g 0 a (qs ++ (placed total b ++ ys)) 0
placed-join g a e total qs b ys q s t = elim (Bool-cases (leb (total + header_size + 8) b.size)) [
  | inl big ↦ rw big (
      Seg-join g 0 a qs (block total 1) (block (b.size - total) 0 ∷ ys) 0 e q s
        (subst (λ c. Seg g (last_block 0 a qs) e (placed_as c total b ++ ys) 0) big t))
  | inr few ↦ rw few (
      Seg-join g 0 a qs (block b.size 1) ys 0 e q s
        (subst (λ c. Seg g (last_block 0 a qs) e (placed_as c total b ++ ys) 0) few t))
]

-- The list of blocks with an allocation in it, in memory.
module _ (f : Blocks) (a total : ℕ) (before : List Block) (b : Block) (after : List Block)
    (s : Seg f 0 a (before ++ b ∷ after) 0) (w : Sized (before ++ b ∷ after))
    (suited : suits total b ≡ true) (header_fits : header_size ≤ total) (start : 0 < a)
    (top : a + span (before ++ b ∷ after) + 33 ≤ 2 ^ 64) where
  chosen-Seg : Seg (place total (a + span before) f) 0 a (before ++ (placed total b ++ after)) 0
  chosen-Seg =
      let e = a + span before in
      let p = last_block 0 a before in
      let t = Seg-split f 0 a before b after 0 e refl s in
      let v = Sized-append before (b ∷ after) w in
      let l = suited-size total b suited in
      let near : e + span (b ∷ after) + 33 ≤ 2 ^ 64 =
        omega (arith, span-append before (b ∷ after)) in
      let g = place total e f in
      placed-join g a e total before b after refl
        (Seg-frame f g 0 a before e v.0
          (λ x m n. place-before total f p e b after t.1 v.1 l header_fits (omega arith) near x n)
          t.0)
        (place-Seg total f p e b after t.1 v.1 l header_fits (omega arith) near)

  chosen-Sized : Sized (before ++ (placed total b ++ after))
  unfolding Sized
  chosen-Sized =
      let v = Sized-append before (b ∷ after) w in
      append-Sized before (placed total b ++ after) v.0
        (placed-Sized total b after header_fits v.1.0 v.1.1)

  chosen-span : span (before ++ (placed total b ++ after)) ≡ span (before ++ b ∷ after)
  chosen-span = omega (
    arith,
    span-append before (placed total b ++ after),
    span-append before (b ∷ after),
    span-placed total b after (suited-size total b suited),
  )

  chosen-used :
      used_span (before ++ (placed total b ++ after))
      ≡ used_span (before ++ b ∷ after) + (place total (a + span before) f (a + span before)).size
  chosen-used =
      let t = Seg-split f 0 a before b after 0 (a + span before) refl s in
      let v = Sized-append before (b ∷ after) w in
      ap (λ l. used_span (before ++ l)) (placed-parts total b after)
      ∙ used_span-chosen total before b after suited
      ∙ ap (λ n. used_span (before ++ b ∷ after) + n)
          (sym (
            place-size total f (last_block 0 a before) (a + span before) b after t.1 v.1
              (suited-size total b suited) header_fits (omega arith)
              (omega (arith, span-append before (b ∷ after)))))

-- What the search and the placing make of a list of blocks in memory.
pub record Placement (f : Blocks) (a total : ℕ) (bs : List Block) : Type 0 where
  pub place_at : ℕ
  pub blocks_after : List Block
  pub chosen_by : allocate total bs ≡ some (place_at, blocks_after)
  pub chain : Seg (place total (a + place_at) f) 0 a blocks_after 0
  pub sized : Sized blocks_after
  pub same_span : span blocks_after ≡ span bs
  pub within_span : place_at + total ≤ span bs
  pub size_at : (f (a + place_at)).size ≡ fitted total bs
  pub used_more :
      used_span blocks_after ≡ used_span bs + (place total (a + place_at) f (a + place_at)).size

pub choose_lem :
    (f : Blocks) (a total k : ℕ) (bs : List Block)
    → Seg f 0 a bs 0
    → Sized bs
    → header_size ≤ total
    → 0 < a
    → a + span bs + 33 ≤ 2 ^ 64
    → span bs < k
    → ((find_fit k total (link a bs 0) f ≡ absent) × (allocate total bs ≡ none))
      ⊎ ((q : Placement f a total bs) × (find_fit k total (link a bs 0) f ≡ at (a + q.place_at)))
choose_lem f a total k bs s w h start top m =
    elim (find_fit_lem k total f 0 a bs s w start (omega (arith, length-le-span bs w))) [
      | inl (e, n) ↦ inl (e, allocate-none total bs n)
      | inr (c, e) ↦
          let s' = subst (λ l. Seg f 0 a l 0) c.parts s in
          let w' = subst (λ l. Sized l) c.parts w in
          let top' = subst (λ l. a + span l + 33 ≤ 2 ^ 64) c.parts top in
          let same =
            chosen-span f a total c.before c.chosen c.after s' w' c.suited h start top'
            ∙ ap span (sym c.parts) in
          inr (
            record {
              place_at = span c.before;
              blocks_after = c.before ++ (placed total c.chosen ++ c.after);
              chosen_by = allocate-some total bs c;
              chain = chosen-Seg f a total c.before c.chosen c.after s' w' c.suited h start top';
              sized = chosen-Sized f a total c.before c.chosen c.after s' w' c.suited h start top';
              same_span = same;
              within_span = omega (
                arith,
                ap span c.parts,
                span-append c.before (c.chosen ∷ c.after),
                suited-size total c.chosen c.suited,
              );
              size_at = block-size f a c.before c.chosen c.after s' ∙ sym (fitted-some total bs c);
              used_more =
                  chosen-used f a total c.before c.chosen c.after s' w' c.suited h start top'
                  ∙ ap
                      (λ l.
                        used_span l + (place total (a + span c.before) f (a + span c.before)).size)
                      (sym c.parts);
            },
            e,
          )
    ]
