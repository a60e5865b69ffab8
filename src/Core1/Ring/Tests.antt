-- ===== src/Core1/Ring/Tests.antt =====
-- Runs of the ring buffer of Core-1/ipc/ipc.c, and the theorems at such inputs.
use hik.Prelude.{◌≡◌, refl, [], ◌∷◌, arith, update}
use hik.Core1.Ring.{RingBuffer, ring_write, ring_read, ring_used, copy_in}
use hik.Core1.Ring.Shape.{IsRing, contents}
use hik.Core1.Ring.Fifo.{enqueue, dequeue, ring_write_refines, ring_read_refines}

-- Four places, one byte in place 2.
abbrev ring : RingBuffer
ring = record { capacity = 4; mask = 3; head = 3; tail = 2; bytes = update (λ _. 0) 2 65 }

ring-IsRing : IsRing ring 2
ring-IsRing = record {
  word = ground arith;
  capacity_pow = refl;
  mask_pow = refl;
  capacity_word = ground arith;
  head_word = ground arith;
  tail_word = ground arith;
  used_fits = ground arith;
}

-- Three bytes go to the places 3, 0 and 1.
goes_round : contents (ring_write (66 ∷ 67 ∷ 68 ∷ []) ring).1 ≡ 65 ∷ 66 ∷ 67 ∷ 68 ∷ []
unfolding ring_write copy_in
goes_round = refl

used_one : ring_used ring ≡ 1
unfolding ring_used
used_one = refl

ring_write_refines_example :
    let (s, t) = ring_write (66 ∷ 67 ∷ 68 ∷ []) ring in
    ((s, contents t) ≡ enqueue 4 (66 ∷ 67 ∷ 68 ∷ []) (65 ∷ [])) × IsRing t 2
ring_write_refines_example = ring_write_refines ring 2 ring-IsRing (66 ∷ 67 ∷ 68 ∷ [])

ring_read_refines_example :
    let (s, bytes, t) = ring_read 1 ring in
    ((s, bytes, contents t) ≡ dequeue 1 (65 ∷ [])) × IsRing t 2
ring_read_refines_example = ring_read_refines ring 2 ring-IsRing 1
