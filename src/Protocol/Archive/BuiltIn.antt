-- ===== src/Protocol/Archive/BuiltIn.antt =====
-- protocol/archive.hpp: the built-in types that SERIALIZER_FOR_POD lists, and the swap of each.
use tiny_rpc.Prelude.{ℕ, ◌<◌, ◌^◌, ◌%◌}
use tiny_rpc.Protocol.Endian.{signed, unsigned, swap16, swap32, swap64, swap_float, swap_double}
use tiny_rpc.Protocol.Endian.Memory.{Host}

pub data Pod : Type 0 where
  bool char uchar short ushort int uint long ulong llong ullong float double : Pod

-- On a 64-bit Linux target.
abbrev pub sizeof : Pod → ℕ
sizeof bool = 1
sizeof char = 1
sizeof uchar = 1
sizeof short = 2
sizeof ushort = 2
sizeof int = 4
sizeof uint = 4
sizeof long = 8
sizeof ulong = 8
sizeof llong = 8
sizeof ullong = 8
sizeof float = 4
sizeof double = 8

-- `Binary::Swap`: the specialisation of `SwapByte` at the type and its size.
unfoldable pub swap : Host → Pod → ℕ → ℕ
swap h bool v = v
swap h char v = v
swap h uchar v = v
swap h short v = swap16 h signed v
swap h ushort v = swap16 h unsigned v
swap h int v = swap32 h v
swap h uint v = swap32 h v
swap h long v = swap64 h signed v
swap h ulong v = swap64 h unsigned v
swap h llong v = swap64 h signed v
swap h ullong v = swap64 h unsigned v
swap h float v = swap_float h v
swap h double v = swap_double h v

-- The bit patterns of the type.
abbrev pub IsPattern : Pod → ℕ → Type 0
IsPattern p v = v < 256 ^ sizeof p

-- The patterns whose byte order can be turned round: of a `short`, those with neither byte's top
-- bit set.
abbrev pub IsPortable : Pod → ℕ → Type 0
IsPortable short v = (v < 2 ^ 15) × (v % 2 ^ 8 < 2 ^ 7)
IsPortable bool v = v < 256 ^ 1
IsPortable char v = v < 256 ^ 1
IsPortable uchar v = v < 256 ^ 1
IsPortable ushort v = v < 256 ^ 2
IsPortable int v = v < 256 ^ 4
IsPortable uint v = v < 256 ^ 4
IsPortable long v = v < 256 ^ 8
IsPortable ulong v = v < 256 ^ 8
IsPortable llong v = v < 256 ^ 8
IsPortable ullong v = v < 256 ^ 8
IsPortable float v = v < 256 ^ 4
IsPortable double v = v < 256 ^ 8
