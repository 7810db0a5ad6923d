-- ===== src/Protocol/Endian/Wire.antt =====
-- What stands in memory after a swap, on every machine.
use tiny_rpc.Prelude.{ℕ, ◌^◌, ◌<◌, ◌≡◌, arith}
use tiny_rpc.Protocol.Endian.{swap_float, swap_double}
use tiny_rpc.Protocol.Endian.Memory.{
  little, store, load, little_bytes, big_bytes, little_value, big_value,
}
use tiny_rpc.Protocol.Endian.Swaps.{should_swap-little, rev16, rev32, rev64}

pub rev16_bytes : (v : ℕ) → v < 2 ^ 16 → little_bytes 2 (rev16 v) ≡ big_bytes 2 v
unfolding little_bytes big_bytes
rev16_bytes v h = ground arith

pub rev32_bytes : (v : ℕ) → v < 2 ^ 32 → little_bytes 4 (rev32 v) ≡ big_bytes 4 v
unfolding little_bytes big_bytes
rev32_bytes v h = ground arith

pub rev64_bytes : (v : ℕ) → v < 2 ^ 64 → little_bytes 8 (rev64 v) ≡ big_bytes 8 v
unfolding little_bytes big_bytes
rev64_bytes v h = ground arith

pub little_rev16 : (v : ℕ) → v < 2 ^ 16 → little_value (big_bytes 2 v) ≡ rev16 v
unfolding little_value big_bytes
little_rev16 v h = ground arith

pub little_rev32 : (v : ℕ) → v < 2 ^ 32 → little_value (big_bytes 4 v) ≡ rev32 v
unfolding little_value big_bytes
little_rev32 v h = ground arith

pub little_rev64 : (v : ℕ) → v < 2 ^ 64 → little_value (big_bytes 8 v) ≡ rev64 v
unfolding little_value big_bytes
little_rev64 v h = ground arith

pub swap_float-rev : (v : ℕ) → v < 2 ^ 32 → swap_float little v ≡ rev32 v
unfolding swap_float little_bytes little_value store load
swap_float-rev v h = rw should_swap-little (ground arith)

pub swap_double-rev : (v : ℕ) → v < 2 ^ 64 → swap_double little v ≡ rev64 v
unfolding swap_double little_bytes little_value store load
swap_double-rev v h = rw should_swap-little (ground arith)

pub big_value1 : (v : ℕ) → v < 256 → big_value 0 (big_bytes 1 v) ≡ v
unfolding big_value big_bytes
big_value1 v h = ground arith

pub big_value2 : (v : ℕ) → v < 2 ^ 16 → big_value 0 (big_bytes 2 v) ≡ v
unfolding big_value big_bytes
big_value2 v h = ground arith

pub big_value4 : (v : ℕ) → v < 2 ^ 32 → big_value 0 (big_bytes 4 v) ≡ v
unfolding big_value big_bytes
big_value4 v h = ground arith

pub big_value8 : (v : ℕ) → v < 2 ^ 64 → big_value 0 (big_bytes 8 v) ≡ v
unfolding big_value big_bytes
big_value8 v h = ground arith

pub little_value1 : (v : ℕ) → v < 256 → little_value (big_bytes 1 v) ≡ v
unfolding little_value big_bytes
little_value1 v h = ground arith

pub rev1_bytes : (v : ℕ) → v < 256 → little_bytes 1 v ≡ big_bytes 1 v
unfolding little_bytes big_bytes
rev1_bytes v h = ground arith

pub rev16_rev : (v : ℕ) → v < 2 ^ 16 → rev16 (rev16 v) ≡ v
rev16_rev v h = omega arith

pub rev32_rev : (v : ℕ) → v < 2 ^ 32 → rev32 (rev32 v) ≡ v
rev32_rev v h = omega arith

pub rev64_rev : (v : ℕ) → v < 2 ^ 64 → rev64 (rev64 v) ≡ v
rev64_rev v h = omega arith
