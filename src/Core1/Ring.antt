-- ===== src/Core1/Ring.antt =====
-- The ring buffer of Core-1/include/ipc.h and Core-1/ipc/ipc.c. A null pointer for the ring, the
-- data or the buffer is not modelled: the functions take the values behind the pointers. `memcpy` of
-- Core-1/lib/string.c copies bytes one by one.
pub mod Index
mod Copies
pub mod Shape
pub mod Fifo
mod Tests
use hik.Prelude.{
  ℕ, zero, suc, ◌+◌, ◌-◌, bit_and, List, [], ◌∷◌, ◌++◌, ltb, leb, ◌==◌, if◌then◌else◌, update, u64,
  sub64, ℤ, success, minus_one, minus_two, length, values,
}

pub record RingBuffer : Type 0 where
  pub capacity : ℕ
  pub mask : ℕ
  pub head : ℕ
  pub tail : ℕ
  pub bytes : ℕ → ℕ

-- `memcpy(&ring->data[place], src, n)` for the list of the `n` source bytes.
unfoldable pub copy_in : ℕ → List ℕ → (ℕ → ℕ) → ℕ → ℕ
copy_in place [] f = f
copy_in place (x ∷ xs) f = copy_in (suc place) xs (update f place x)

-- The first `n` bytes of the data, and the data from byte `n` on.
abbrev pub take {ℓ} : {A : Type ℓ} → ℕ → List A → List A
take zero xs = []
take (suc n) [] = []
take (suc n) (x ∷ xs) = x ∷ take n xs

abbrev pub drop {ℓ} : {A : Type ℓ} → ℕ → List A → List A
drop zero xs = xs
drop (suc n) [] = []
drop (suc n) (x ∷ xs) = drop n xs

unfoldable pub ring_used : RingBuffer → ℕ
ring_used r = sub64 r.head r.tail

unfoldable pub ring_available : RingBuffer → ℕ
ring_available r = sub64 r.capacity (sub64 r.head r.tail)

-- `ipc_ring_write` of the bytes `src`; the size is their number.
unfoldable pub ring_write : List ℕ → RingBuffer → ℤ × RingBuffer
unfolding copy_in
ring_write src r =
    let size = length src in
    let place = bit_and r.head r.mask in
    let first_part = sub64 r.capacity place in
    if size == 0
    then (minus_one, r)
    else if ltb (sub64 r.capacity (sub64 r.head r.tail)) size
    then (minus_two, r)
    else (
      success,
      record r {
        bytes =
            if leb size first_part
            then copy_in place src r.bytes
            else copy_in 0 (drop first_part src) (copy_in place (take first_part src) r.bytes);
        head = u64 (r.head + size);
      },
    )

-- `ipc_ring_read` of `size` bytes: the status, the bytes that go to the buffer, and the ring.
unfoldable pub ring_read : ℕ → RingBuffer → ℤ × List ℕ × RingBuffer
ring_read size r =
    let place = bit_and r.tail r.mask in
    let first_part = sub64 r.capacity place in
    if size == 0
    then (minus_one, [], r)
    else if ltb (sub64 r.head r.tail) size
    then (minus_two, [], r)
    else (
      success,
      if leb size first_part
          then values r.bytes place size
          else values r.bytes place first_part ++ values r.bytes 0 (size - first_part),
      record r { tail = u64 (r.tail + size) },
    )
