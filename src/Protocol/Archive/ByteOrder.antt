-- ===== src/Protocol/Archive/ByteOrder.antt =====
-- protocol/archive.hpp: the bytes in memory of a swapped value, and the swap of what was read from
-- such bytes, on a little- and on a big-endian machine.
use tiny_rpc.Prelude.{ℕ, ◌^◌, ◌<◌, ◌≡◌, refl, arith}
use tiny_rpc.Protocol.Endian.{
  Sign, signed, unsigned, swap16, swap32, swap64, swap_float, swap_double,
}
use tiny_rpc.Protocol.Endian.Memory.{
  Host, little, big, store, load, big_bytes, little_value, big_value,
}
use tiny_rpc.Protocol.Endian.Swaps.{
  should_swap-big, swap16-unsigned, swap16-positive, swap32-rev, swap64-rev, rev16, rev32, rev64,
}
use tiny_rpc.Protocol.Endian.Wire.{
  rev1_bytes, rev16_bytes, rev32_bytes, rev64_bytes, little_rev16, little_rev32, little_rev64,
  swap_float-rev, swap_double-rev, big_value1, big_value2, big_value4, big_value8, little_value1,
  rev16_rev, rev32_rev, rev64_rev,
}
use tiny_rpc.Protocol.Archive.BuiltIn.{
  Pod, bool, char, uchar, short, ushort, int, uint, long, ulong, llong, ullong, float, double,
  sizeof, swap, IsPortable,
}

swap-big : (p : Pod) (v : ℕ) → swap big p v ≡ v
unfolding swap swap16 swap32 swap64 swap_float swap_double
swap-big bool v = refl
swap-big short v = rw should_swap-big
swap-big ushort v = rw should_swap-big
swap-big int v = rw should_swap-big
swap-big uint v = rw should_swap-big
swap-big long v = rw should_swap-big
swap-big ulong v = rw should_swap-big
swap-big llong v = rw should_swap-big
swap-big ullong v = rw should_swap-big
swap-big float v = rw should_swap-big
swap-big double v = rw should_swap-big
swap-big _ v = refl

store-swap-little :
    (p : Pod) (v : ℕ)
    → IsPortable p v
    → store little (sizeof p) (swap little p v) ≡ big_bytes (sizeof p) v
unfolding swap store
store-swap-little bool v h = rev1_bytes v h
store-swap-little char v h = rev1_bytes v h
store-swap-little uchar v h = rev1_bytes v h
store-swap-little short v h = rw (swap16-positive v h.0) (rev16_bytes v (omega arith))
store-swap-little ushort v h = rw (swap16-unsigned v h) (rev16_bytes v h)
store-swap-little int v h = rw (swap32-rev v h) (rev32_bytes v h)
store-swap-little uint v h = rw (swap32-rev v h) (rev32_bytes v h)
store-swap-little long v h = rw (swap64-rev signed v h) (rev64_bytes v h)
store-swap-little ulong v h = rw (swap64-rev unsigned v h) (rev64_bytes v h)
store-swap-little llong v h = rw (swap64-rev signed v h) (rev64_bytes v h)
store-swap-little ullong v h = rw (swap64-rev unsigned v h) (rev64_bytes v h)
store-swap-little float v h = rw (swap_float-rev v h) (rev32_bytes v h)
store-swap-little double v h = rw (swap_double-rev v h) (rev64_bytes v h)

pub store-swap :
    (h : Host) (p : Pod) (v : ℕ)
    → IsPortable p v
    → store h (sizeof p) (swap h p v) ≡ big_bytes (sizeof p) v
unfolding store
store-swap little p v f = store-swap-little p v f
store-swap big p v f = rw (swap-big p v)

module _ (s : Sign) where
  back64 : (v : ℕ) → v < 2 ^ 64 → swap64 little s (little_value (big_bytes 8 v)) ≡ v
  back64 v h = rw (little_rev64 v h, swap64-rev s (rev64 v) (omega arith)) (rev64_rev v h)

back32 : (v : ℕ) → v < 2 ^ 32 → swap32 little (little_value (big_bytes 4 v)) ≡ v
back32 v h = rw (little_rev32 v h, swap32-rev (rev32 v) (omega arith)) (rev32_rev v h)

swap-load-little :
    (p : Pod) (v : ℕ) → IsPortable p v → swap little p (load little (big_bytes (sizeof p) v)) ≡ v
unfolding swap load
swap-load-little bool v h = little_value1 v h
swap-load-little char v h = little_value1 v h
swap-load-little uchar v h = little_value1 v h
swap-load-little short v h =
    rw (little_rev16 v (omega arith), swap16-positive (rev16 v) (omega arith))
      (rev16_rev v (omega arith))
swap-load-little ushort v h =
    rw (little_rev16 v h, swap16-unsigned (rev16 v) (omega arith)) (rev16_rev v h)
swap-load-little int v h = back32 v h
swap-load-little uint v h = back32 v h
swap-load-little long v h = back64 signed v h
swap-load-little ulong v h = back64 unsigned v h
swap-load-little llong v h = back64 signed v h
swap-load-little ullong v h = back64 unsigned v h
swap-load-little float v h =
    rw (little_rev32 v h, swap_float-rev (rev32 v) (omega arith)) (rev32_rev v h)
swap-load-little double v h =
    rw (little_rev64 v h, swap_double-rev (rev64 v) (omega arith)) (rev64_rev v h)

load-big : (p : Pod) (v : ℕ) → IsPortable p v → big_value 0 (big_bytes (sizeof p) v) ≡ v
load-big bool v h = big_value1 v h
load-big char v h = big_value1 v h
load-big uchar v h = big_value1 v h
load-big short v h = big_value2 v (omega arith)
load-big ushort v h = big_value2 v h
load-big int v h = big_value4 v h
load-big uint v h = big_value4 v h
load-big float v h = big_value4 v h
load-big long v h = big_value8 v h
load-big ulong v h = big_value8 v h
load-big llong v h = big_value8 v h
load-big ullong v h = big_value8 v h
load-big double v h = big_value8 v h

pub swap-load :
    (h : Host) (p : Pod) (v : ℕ) → IsPortable p v → swap h p (load h (big_bytes (sizeof p) v)) ≡ v
unfolding load
swap-load little p v f = swap-load-little p v f
swap-load big p v f = rw (swap-big p _) (load-big p v f)
