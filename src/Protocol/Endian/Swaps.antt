-- ===== src/Protocol/Endian/Swaps.antt =====
-- The swaps as plain arithmetic.
use tiny_rpc.Prelude.{ℕ, ◌+◌, ◌*◌, ◌/◌, ◌%◌, ◌^◌, ◌≤◌, ◌<◌, ◌≡◌, refl, arith, bit_and, true, false}
use tiny_rpc.Prelude.Bits.{
  bit_or_high, bit_or_ones, bit_or_join, bit_or_join', bit_and_mask, bit_and_shift,
}
use tiny_rpc.Protocol.Endian.{
  Sign, signed, unsigned, should_swap, promote, shift_right, swap16, swap32, swap64,
}
use tiny_rpc.Protocol.Endian.Memory.{little, big}

pub should_swap-little : should_swap little ≡ true
unfolding should_swap
should_swap-little = refl

pub should_swap-big : should_swap big ≡ false
unfolding should_swap
should_swap-big = refl

abbrev pub rev16 : ℕ → ℕ
rev16 v = v / 256 + v % 256 * 256

abbrev pub rev32 : ℕ → ℕ
rev32 v = rev16 (v / 2 ^ 16) + rev16 (v % 2 ^ 16) * 2 ^ 16

pub swap16-unsigned : (v : ℕ) → v < 2 ^ 16 → swap16 little unsigned v ≡ rev16 v
unfolding swap16 promote shift_right
swap16-unsigned v h = rw should_swap-little (ground (arith, bit_or_join 8 (v / 2 ^ 8) v))

pub swap16-positive : (v : ℕ) → v < 2 ^ 15 → swap16 little signed v ≡ rev16 v
unfolding swap16 promote shift_right
swap16-positive v h = rw should_swap-little (ground (arith, bit_or_join 8 (v / 2 ^ 8) v))

low_half : (v : ℕ) → bit_and v 0xffff % 2 ^ 16 ≡ v % 2 ^ 16
low_half v = omega (arith, bit_and_mask 16 v)

high_half : (v : ℕ) → v < 2 ^ 32 → bit_and v 0xffff0000 / 2 ^ 16 % 2 ^ 16 ≡ v / 2 ^ 16
high_half v h = omega (arith, bit_and_shift 16 v 0xffff0000, bit_and_mask 16 (v / 2 ^ 16))

pub swap32-rev : (v : ℕ) → v < 2 ^ 32 → swap32 little v ≡ rev32 v
unfolding swap32
swap32-rev v h =
    rw
      (
        should_swap-little,
        low_half v,
        high_half v h,
        swap16-unsigned (v % 2 ^ 16) (omega arith),
        swap16-unsigned (v / 2 ^ 16) (omega arith),
      )
      (ground (arith, bit_or_join' 16 (rev16 (v % 2 ^ 16)) (rev16 (v / 2 ^ 16))))

abbrev pub rev64 : ℕ → ℕ
rev64 v = rev32 (v / 2 ^ 32) + rev32 (v % 2 ^ 32) * 2 ^ 32

low_word : (v : ℕ) → bit_and v 0xffffffff % 2 ^ 32 ≡ v % 2 ^ 32
low_word v = omega (arith, bit_and_mask 32 v)

-- The sign that the shift brings in is cut off again.
high_word : (s : Sign) (v : ℕ) → v < 2 ^ 64 → shift_right s 64 32 v % 2 ^ 32 ≡ v / 2 ^ 32
unfolding shift_right
high_word unsigned v h = omega arith
high_word signed v h = ground arith

pub swap64-rev : (s : Sign) (v : ℕ) → v < 2 ^ 64 → swap64 little s v ≡ rev64 v
unfolding swap64
swap64-rev s v h =
    rw
      (
        should_swap-little,
        low_word v,
        high_word s v h,
        swap32-rev (v % 2 ^ 32) (omega arith),
        swap32-rev (v / 2 ^ 32) (omega arith),
      )
      (ground (arith, bit_or_join' 32 (rev32 (v % 2 ^ 32)) (rev32 (v / 2 ^ 32))))

-- A negative `short`: the shift to the right brings in ones, and they cover the low byte.
pub swap16-negative :
    (v : ℕ) → 2 ^ 15 ≤ v → v < 2 ^ 16 → swap16 little signed v ≡ 0xff00 + v / 2 ^ 8
unfolding swap16 promote shift_right
swap16-negative v lo hi = rw should_swap-little (
    ground
      (arith, bit_or_high 8 0xffffff (v / 2 ^ 8) (0xff0000 + v), bit_or_ones 24 (0xff0000 + v)))
