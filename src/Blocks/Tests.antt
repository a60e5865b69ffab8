-- ===== src/Blocks/Tests.antt =====
-- Runs of the block list, and the theorems at such inputs.
use hik.Prelude.{◌+◌, ◌-◌, ◌^◌, ◌≤◌, ◌≡◌, refl, ◌↔◌, arith}
use hik.Blocks.{header_size, total_of}
use hik.Blocks.Spec.{total_of-room}

total_of-room_example : (10 + header_size ≤ total_of 10) ↔ (10 + 32 ≤ 2 ^ 64)
total_of-room_example = total_of-room 10 (ground arith)

-- The largest sizes wrap around, to a block without room for its header.
total_wraps : total_of (2 ^ 64 - 40) ≡ 2 ^ 64 - 15
total_wraps = refl

total_wraps_low : total_of (2 ^ 64 - 30) ≡ 1
total_wraps_low = refl

total_wraps_size : total_of (2 ^ 64 - 1) ≡ 25
total_wraps_size = refl
