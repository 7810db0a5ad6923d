-- ===== src/Protocol/Archive/Shorts.antt =====
-- protocol/archive.hpp, SwapByte<T, 2> at T = short on a little-endian machine: the shift to the
-- right fills a negative number with ones.
use tiny_rpc.Prelude.{ℕ, ◌+◌, ◌/◌, ◌%◌, ◌^◌, ◌<◌, ◌≤◌, ◌≡◌, ap, ◌∙◌, arith, List, ◌++◌}
use tiny_rpc.Protocol.Endian.Memory.{little, load, big_bytes, length-big_bytes}
use tiny_rpc.Protocol.Endian.Swaps.{swap16-negative, rev16}
use tiny_rpc.Protocol.Endian.Wire.{little_rev16}
use tiny_rpc.Protocol.Stream.{Stream, good}
use tiny_rpc.Protocol.Archive.{put_pod, get_pod, read_or_throw}
use tiny_rpc.Protocol.Archive.BuiltIn.{short, swap}
use tiny_rpc.Protocol.Archive.Primitive.{read_or_throw-Reads, Reads-map}
use tiny_rpc.Protocol.Archive.Throwing.{ok}

-- Two negative shorts with the same high byte are written as the same bytes.
pub put_short_collision :
    (v w : ℕ) (s : Stream)
    → 2 ^ 15 ≤ v
    → v < 2 ^ 16
    → 2 ^ 15 ≤ w
    → w < 2 ^ 16
    → v / 2 ^ 8 ≡ w / 2 ^ 8
    → put_pod little short v s ≡ put_pod little short w s
unfolding put_pod swap
put_short_collision v w s v_low v_high w_low w_high e =
    rw (swap16-negative v v_low v_high, swap16-negative w w_low w_high, e)

-- A positive short whose low byte has its top bit set is read from its two bytes, highest first, as
-- 0xff00 and that low byte.
pub get_short_corrupt :
    (v old : ℕ) (rest : List ℕ)
    → v < 2 ^ 15
    → 2 ^ 7 ≤ v % 2 ^ 8
    → get_pod little short old (good (big_bytes 2 v ++ rest)) ≡ ok (0xff00 + v % 2 ^ 8) (good rest)
unfolding get_pod swap load
get_short_corrupt v old rest high low =
    Reads-map (read_or_throw 2) (λ bs. swap little short (load little bs)) (big_bytes 2 v)
      (big_bytes 2 v) (read_or_throw-Reads (big_bytes 2 v) 2 (length-big_bytes 2 v)) rest
    ∙ ap (λ t. ok t (good rest)) loses
  where
    loses : swap little short (load little (big_bytes 2 v)) ≡ 0xff00 + v % 2 ^ 8
    loses =
        rw (little_rev16 v (omega arith), swap16-negative (rev16 v) (omega arith) (omega arith))
          (omega arith)
