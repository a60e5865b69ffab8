-- ===== src/Core1/Ring/Fifo.antt =====
-- The ring buffer of Core-1/ipc/ipc.c is a queue of bytes of bounded length.
use mathlib.Core.Path.{ap₂}
use native.Mathlib.Nat.{mod-add-mod, mod-lt}
use hik.Prelude.{
  ℕ, ◌+◌, ◌-◌, ◌%◌, ◌≤◌, ◌<◌, ◌≡◌, refl, sym, ap, ◌∙◌, inl, inr, true, false, List, [], ◌++◌, arith,
  ltb, leb, ◌==◌, if◌then◌else◌, Bool-cases, u64, sub64, ℤ, success, minus_one, minus_two, length,
  values, length-values, values-ext,
}
use hik.Core1.Ring.{RingBuffer, ring_write, ring_read, take, drop}
use hik.Core1.Ring.Index.{mod_add, mod-u64}
use hik.Core1.Ring.Copies.{
  wrap, put, put-at_place, take-values, drop-values, values-split, values-entry,
}
use hik.Core1.Ring.Shape.{IsRing, contents, capacity_pos, head-tail, write_runs, read_runs}

-- The specification: a queue of at most `c` bytes.
abbrev pub enqueue : ℕ → List ℕ → List ℕ → ℤ × List ℕ
enqueue c src q =
    if length src == 0
    then (minus_one, q)
    else if ltb c (length q + length src)
    then (minus_two, q)
    else (success, q ++ src)

abbrev pub dequeue : ℕ → List ℕ → ℤ × List ℕ × List ℕ
dequeue n q =
    if n == 0
    then (minus_one, [], q)
    else if ltb (length q) n
    then (minus_two, [], q)
    else (success, take n q, drop n q)

module _ (r : RingBuffer) (k : ℕ) (v : IsRing r k) where
  used : ℕ
  used = sub64 r.head r.tail

  written : (src : List ℕ) → RingBuffer
  written src = record r {
    bytes = put r.capacity (r.head % r.capacity) src r.bytes;
    head = u64 (r.head + length src);
  }

  -- Place `i` behind the tail, as a place behind the head.
  behind :
      (i : ℕ)
      → i < used
      → used < r.capacity
      → (r.tail + i) % r.capacity ≡ wrap r.capacity (r.head % r.capacity) (i + (r.capacity - used))
  unfolding used
  behind i l m = ground (
    arith,
    head-tail r k v,
    mod_add r.tail used r.capacity m,
    mod_add r.tail i r.capacity (omega arith),
    mod-lt r.tail (capacity_pos r k v),
  )

  ahead :
      (j : ℕ)
      → used + j < r.capacity
      → (r.tail + (used + j)) % r.capacity ≡ wrap r.capacity (r.head % r.capacity) j
  unfolding used
  ahead j m = ground (
    arith,
    head-tail r k v,
    mod_add r.tail used r.capacity (omega arith),
    mod_add r.tail (used + j) r.capacity m,
    mod-lt r.tail (capacity_pos r k v),
  )

  contents-written :
      (src : List ℕ)
      → 0 < length src
      → used + length src ≤ r.capacity
      → contents (written src) ≡ contents r ++ src
  unfolding used written
  contents-written src some_bytes room =
      let c = r.capacity in
      let p = r.head % c in
      let n = length src in
      let u = sub64 r.head r.tail in
      let f : ℕ → ℕ = λ i. r.bytes ((r.tail + i) % c) in
      let g : ℕ → ℕ = λ i. put c p src r.bytes ((r.tail + i) % c) in
      let l : p < c = mod-lt r.head (capacity_pos r k v) in
      let e : sub64 (u64 (r.head + n)) r.tail ≡ u + n =
        omega (arith, v.head_word, v.tail_word, v.capacity_word) in
      rw e (
        values-split g 0 u n
        ∙ ap₂ ◌++◌
            (values-ext g f 0 0 u (λ i m. ground (
              arith,
              put-at_place c p src r.bytes (0 + i + (c - u)) ((r.tail + (0 + i)) % c) l
                  (omega arith) (omega arith) (behind (0 + i) (omega arith) (omega arith)),
            )))
            (values-entry g (0 + u) src (λ j m.
              let z : 0 + u + j ≡ u + j = omega arith in
              let q = ap (λ x. (r.tail + x) % c) z ∙ ahead j (omega arith) in
              ground (
                arith,
                put-at_place c p src r.bytes j ((r.tail + (0 + u + j)) % c) l (omega arith)
                    (omega arith) q,
              ))))

  written-IsRing : (src : List ℕ) → used + length src ≤ r.capacity → IsRing (written src) k
  unfolding used written
  written-IsRing src room = record {
    word = v.word;
    capacity_pow = v.capacity_pow;
    mask_pow = v.mask_pow;
    capacity_word = v.capacity_word;
    head_word = omega arith;
    tail_word = v.tail_word;
    used_fits = omega (arith, v.head_word, v.tail_word, v.capacity_word);
  }

  -- `ipc_ring_write` on a well-formed ring refines appending to a queue of at most `capacity` bytes,
  -- its status included, and keeps the ring well-formed.
  pub ring_write_refines :
      (src : List ℕ)
      → let (s, t) = ring_write src r in
        ((s, contents t) ≡ enqueue r.capacity src (contents r)) × IsRing t k
  unfolding ring_write used written
  ring_write_refines src =
      let n = length-values (λ i. r.bytes ((r.tail + i) % r.capacity)) 0 (sub64 r.head r.tail) in
      elim (Bool-cases (length src == 0)) [
        | inl z ↦ rw (ring_write, z, enqueue) (refl, v)
        | inr z ↦ elim (Bool-cases (ltb (sub64 r.capacity (sub64 r.head r.tail)) (length src))) [
          | inl full ↦
              let w : ltb r.capacity (length (contents r) + length src) ≡ true =
                ground (arith, n, v.used_fits, v.capacity_word) in
              rw (ring_write, z, full, w) (refl, v)
          | inr room ↦
              let fits : sub64 r.head r.tail + length src ≤ r.capacity =
                ground (arith, v.used_fits, v.capacity_word) in
              let w : ltb r.capacity (length (contents r) + length src) ≡ false =
                ground (arith, n) in
              rw (write_runs r k v src (ground arith) fits, z, w)
                (
                  ap (λ q. (success, q)) (contents-written src (ground arith) fits),
                  written-IsRing src fits,
                )
        ]
      ]

  read-contents :
      (n : ℕ)
      → n ≤ used
      → let p = r.tail % r.capacity in
        (if leb n (r.capacity - p)
          then values r.bytes p n
          else values r.bytes p (r.capacity - p) ++ values r.bytes 0 (n - (r.capacity - p)))
        ≡ take n (contents r)
  unfolding used
  read-contents n there =
      let c = r.capacity in
      let p = r.tail % c in
      let f : ℕ → ℕ = λ i. r.bytes ((r.tail + i) % c) in
      let l : p < c = mod-lt r.tail (capacity_pos r k v) in
      let u = sub64 r.head r.tail in
      let t = take-values f 0 n u there in
      let at = λ (i : ℕ) (m : i < c). mod_add r.tail i c m in
      elim (Bool-cases (leb n (c - p))) [
        | inl one ↦
            rw (one, t)
              (values-ext r.bytes f p 0 n
                (λ i m. ground (arith, at (0 + i) (omega (arith, v.used_fits)))))
        | inr two ↦
            let d = n - (c - p) in
            let e : n ≡ c - p + d = ground arith in
            rw (two, t)
              (sym (
                ap (λ x. values f 0 x) e
                ∙ values-split f 0 (c - p) d
                ∙ ap₂ ◌++◌
                    (values-ext f r.bytes 0 p (c - p)
                      (λ i m. ground (arith, at (0 + i) (omega arith))))
                    (values-ext f r.bytes (0 + (c - p)) 0 d
                      (λ i m. ground (arith, at (0 + (c - p) + i) (omega (arith, v.used_fits)))))))
      ]

  rest-contents :
      (n : ℕ) → n ≤ used → contents (record r { tail = u64 (r.tail + n) }) ≡ drop n (contents r)
  unfolding used
  rest-contents n there =
      let c = r.capacity in
      let f : ℕ → ℕ = λ i. r.bytes ((r.tail + i) % c) in
      let tail = u64 (r.tail + n) in
      let g : ℕ → ℕ = λ i. r.bytes ((tail + i) % c) in
      let u = sub64 r.head r.tail in
      let e : sub64 r.head tail ≡ u - n =
        omega (arith, v.head_word, v.tail_word, v.used_fits, v.capacity_word) in
      let same : tail % c ≡ (r.tail + n) % c =
        rw v.capacity_pow (mod-u64 (r.tail + n) k (omega (arith, v.word))) in
      rw (e, drop-values f 0 n u there)
        (values-ext g f 0 (0 + n) (u - n) (λ i m.
          let a : r.tail + n + (0 + i) ≡ r.tail + (0 + n + i) = omega arith in
          ap r.bytes (
            sym (mod-add-mod tail c (0 + i))
            ∙ ap (λ x. (x + (0 + i)) % c) same
            ∙ mod-add-mod (r.tail + n) c (0 + i)
            ∙ ap (λ x. x % c) a)))

  read-IsRing : (n : ℕ) → n ≤ used → IsRing (record r { tail = u64 (r.tail + n) }) k
  unfolding used
  read-IsRing n there = record {
    word = v.word;
    capacity_pow = v.capacity_pow;
    mask_pow = v.mask_pow;
    capacity_word = v.capacity_word;
    head_word = v.head_word;
    tail_word = omega arith;
    used_fits = omega (arith, v.head_word, v.tail_word, v.used_fits, v.capacity_word);
  }

  -- `ipc_ring_read` on a well-formed ring refines taking bytes from the front of the queue: the
  -- status, the bytes that are read, and the bytes that stay. It keeps the ring well-formed.
  pub ring_read_refines :
      (n : ℕ)
      → let (s, bytes, t) = ring_read n r in
        ((s, bytes, contents t) ≡ dequeue n (contents r)) × IsRing t k
  unfolding ring_read used
  ring_read_refines n =
      let m = length-values (λ i. r.bytes ((r.tail + i) % r.capacity)) 0 (sub64 r.head r.tail) in
      elim (Bool-cases (n == 0)) [
        | inl z ↦ rw (ring_read, z) (refl, v)
        | inr z ↦ elim (Bool-cases (ltb (sub64 r.head r.tail) n)) [
          | inl few ↦
              let w : ltb (length (contents r)) n ≡ true = ground (arith, m) in
              rw (ring_read, z, few, w) (refl, v)
          | inr there ↦
              let w : ltb (length (contents r)) n ≡ false = ground (arith, m) in
              let fits : n ≤ sub64 r.head r.tail = ground arith in
              rw (read_runs r k v n (ground arith) fits, z, w)
                (
                  ap₂ (λ x y. (success, x, y)) (read-contents n fits) (rest-contents n fits),
                  read-IsRing n fits,
                )
        ]
      ]
