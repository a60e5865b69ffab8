-- ===== src/Core1/Ring/Shape.antt =====
-- Well-formed rings of Core-1/ipc/ipc.c, and what the two operations do on one.

use native.Mathlib.Nat.{mod-lt}
use hik.Prelude.{
  ℕ, ◌+◌, ◌-◌, ◌%◌, ◌^◌, ◌≤◌, ◌<◌, bit_and, ◌≡◌, sym, ap, ◌∙◌, false, List, ◌++◌, arith, ltb, leb,
  ◌==◌, if◌then◌else◌, u64, sub64, success, length, values,
}
use hik.Core1.Ring.{RingBuffer, ring_write, ring_read}
use hik.Core1.Ring.Index.{bit_and_mask, mod-u64, two-pow-pos}
use hik.Core1.Ring.Copies.{put}

-- The capacity is a power of 2 below 2 ^ 64, the mask is one less, and the two indices are words
-- that are at most the capacity apart.
pub record IsRing (r : RingBuffer) (k : ℕ) : Type 0 where
  pub word : k < 64
  pub capacity_pow : r.capacity ≡ 2 ^ k
  pub mask_pow : r.mask ≡ 2 ^ k - 1
  pub capacity_word : r.capacity < 2 ^ 64
  pub head_word : r.head < 2 ^ 64
  pub tail_word : r.tail < 2 ^ 64
  pub used_fits : sub64 r.head r.tail ≤ r.capacity

-- The bytes that wait in the ring, the oldest first.
abbrev pub contents : RingBuffer → List ℕ
contents r = values (λ i. r.bytes ((r.tail + i) % r.capacity)) 0 (sub64 r.head r.tail)

module _ (r : RingBuffer) (k : ℕ) (v : IsRing r k) where
  pub capacity_pos : 0 < r.capacity
  capacity_pos = rw v.capacity_pow (two-pow-pos k)

  pub head_place : bit_and r.head r.mask ≡ r.head % r.capacity
  head_place = rw (v.mask_pow, v.capacity_pow) (bit_and_mask r.head k)

  pub tail_place : bit_and r.tail r.mask ≡ r.tail % r.capacity
  tail_place = rw (v.mask_pow, v.capacity_pow) (bit_and_mask r.tail k)

  pub head_part : (a : ℕ) → sub64 r.capacity (a % r.capacity) ≡ r.capacity - a % r.capacity
  head_part a = let s = mod-lt a capacity_pos in omega (arith, v.capacity_word)

  -- The head is as many places behind the tail as there are bytes.
  pub head-tail : r.head % r.capacity ≡ (r.tail + sub64 r.head r.tail) % r.capacity
  head-tail =
      let e : u64 (r.tail + sub64 r.head r.tail) ≡ r.head =
        omega (arith, v.head_word, v.tail_word) in
      rw v.capacity_pow (
        ap (λ h. h % 2 ^ k) (sym e)
        ∙ mod-u64 (r.tail + sub64 r.head r.tail) k (omega (arith, v.word)))

  pub write_runs :
      (src : List ℕ)
      → 0 < length src
      → sub64 r.head r.tail + length src ≤ r.capacity
      → ring_write src r ≡ (
        success,
        record r {
          bytes = put r.capacity (r.head % r.capacity) src r.bytes;
          head = u64 (r.head + length src);
        },
      )
  unfolding ring_write
  write_runs src some_bytes room =
      let f = head_part r.head in
      let z : (length src == 0) ≡ false = ground arith in
      let w : ltb (sub64 r.capacity (sub64 r.head r.tail)) (length src) ≡ false =
        ground (arith, v.capacity_word) in
      rw (ring_write, head_place, f, z, w)

  pub read_runs :
      (n : ℕ)
      → 0 < n
      → n ≤ sub64 r.head r.tail
      → let p = r.tail % r.capacity in
        ring_read n r ≡ (
          success,
          if leb n (r.capacity - p)
              then values r.bytes p n
              else values r.bytes p (r.capacity - p) ++ values r.bytes 0 (n - (r.capacity - p)),
          record r { tail = u64 (r.tail + n) },
        )
  unfolding ring_read
  read_runs n some_bytes there =
      let f = head_part r.tail in
      let z : (n == 0) ≡ false = ground arith in
      let w : ltb (sub64 r.head r.tail) n ≡ false = ground arith in
      rw (ring_read, tail_place, f, z, w)
