-- ===== src/Protocol/Endian.antt =====
-- protocol/archive.hpp, namespace endian: the byte swaps of a value before it is written.
-- An integer of w bytes is its bit pattern, a number below 256 ^ w; a float is its bit pattern too.
-- The machine's byte order is a parameter, `Host`.
pub mod Memory
pub mod Swaps
pub mod Wire
use tiny_rpc.Prelude.{
  ℕ, ◌+◌, ◌-◌, ◌*◌, ◌/◌, ◌%◌, ◌^◌, bit_and, bit_or, Bool, true, false, List, [], ◌∷◌, ltb, ◌==◌,
  if◌then◌else◌, set,
}
use Memory.{Host, store, load, get_byte}

-- Whether the first byte of the 16-bit number 1 in memory is 1.
unfoldable pub should_swap : Host → Bool
unfolding store
should_swap h = get_byte (store h 2 1) 0 == 1

pub data Sign : Type 0 where
  signed unsigned : Sign

-- An operand of 16 bits is promoted to `int` before a shift.
unfoldable pub promote : Sign → ℕ → ℕ
promote unsigned v = v
promote signed v = if ltb v (2 ^ 15) then v else v + (2 ^ 32 - 2 ^ 16)

-- `v >> k` on a word of w bits: a signed word is filled with its sign.
unfoldable pub shift_right : Sign → ℕ → ℕ → ℕ → ℕ
shift_right unsigned w k v = v / 2 ^ k
shift_right signed w k v =
    if ltb v (2 ^ (w - 1)) then v / 2 ^ k else v / 2 ^ k + (2 ^ w - 2 ^ (w - k))

-- `(v >> 8) | (v << 8)` is computed on `int`, and cut to 16 bits.
unfoldable pub swap16 : Host → Sign → ℕ → ℕ
swap16 h s v =
    let i = promote s v in
    if should_swap h then bit_or (shift_right signed 32 8 i) (i * 2 ^ 8 % 2 ^ 32) % 2 ^ 16 else v

unfoldable pub swap32 : Host → ℕ → ℕ
swap32 h v =
    let low = swap16 h unsigned (bit_and v 0xffff % 2 ^ 16) in
    let high = swap16 h unsigned (bit_and v 0xffff0000 / 2 ^ 16 % 2 ^ 16) in
    if should_swap h then bit_or (low * 2 ^ 16 % 2 ^ 32) high else v

unfoldable pub swap64 : Host → Sign → ℕ → ℕ
swap64 h s v =
    let low = swap32 h (bit_and v 0xffffffff % 2 ^ 32) in
    let high = swap32 h (shift_right s 64 32 v % 2 ^ 32) in
    if should_swap h then bit_or (low * 2 ^ 32 % 2 ^ 64) high else v

-- `SwapBytes(c[i], c[j])` on the bytes of the union.
unfoldable pub swap_bytes : ℕ → ℕ → List ℕ → List ℕ
swap_bytes i j c = set (set c i (get_byte c j)) j (get_byte c i)

unfoldable pub swap_float : Host → ℕ → ℕ
unfolding swap_bytes
swap_float h v = if should_swap h then load h (swap_bytes 1 2 (swap_bytes 0 3 (store h 4 v))) else v

unfoldable pub swap_double : Host → ℕ → ℕ
unfolding swap_bytes
swap_double h v =
    if should_swap h
    then load h (swap_bytes 3 4 (swap_bytes 2 5 (swap_bytes 1 6 (swap_bytes 0 7 (store h 8 v)))))
    else v
